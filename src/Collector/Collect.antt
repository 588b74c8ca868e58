-- ===== src/Collector/Collect.antt =====
-- `markStep` to the end of the worklist, and a full cycle of `gcCollect`, of
-- src/object/object.hpp.
use lovax.Base.{
  ℕ, zero, suc, ◌+◌, ◌≤◌, ◌<◌, ◌≡◌, refl, sym, ap, ◌∙◌, ◌≢◌, Bool, true, false, Option, some, List,
  [], ◌∷◌, arith,
}
use lovax.Collector.Heap.{scan_object, is_empty, mark_step, drain, Heap, Color, white, gray, black}
use lovax.Base.Members.{contains}
use lovax.Collector.Marks.{is_marked, work}
use lovax.Collector.Tricolor.{
  scan_object-Tricolor, scan_object-grows, IsClosed, Tricolor, Reach, root, field,
}

module _ (roots : List ℕ) (base : Heap) (closed : IsClosed roots base) where
  -- What `markStep` gives: with the worklist drained, or with as much work done as it may.
  pub record Steps (budget : ℕ) (h : Heap) (o : Bool × Heap) : Type 0 where
    pub keeps : Tricolor roots base o.1
    pub grows : (p : ℕ) → is_marked (h.color p) ≡ true → is_marked (o.1.color p) ≡ true
    pub lighter : work o.1 ≤ work h
    pub drained : o.0 ≡ true → o.1.worklist ≡ []
    pub slower : o.0 ≡ false → work o.1 + budget ≤ work h

  none_left : (w : List ℕ) → is_empty w ≡ true → w ≡ []
  none_left [] y = refl
  none_left (o ∷ w) y = absurd (cc)

  mark_step-Steps :
      (budget : ℕ) (h : Heap) → Tricolor roots base h → Steps budget h (mark_step budget h)
  unfolding mark_step
  mark_step-Steps zero h t = record {
    keeps = t;
    grows = λ p y. y;
    lighter = omega arith;
    drained = λ y. none_left h.worklist y;
    slower = λ y. omega arith;
  }
  mark_step-Steps (suc budget) h t = go h.worklist refl (λ m u. mark_step-Steps budget m u)
    where
      go :
          (w : List ℕ)
          → h.worklist ≡ w
          → ((m : Heap) → Tricolor roots base m → Steps budget m (mark_step budget m))
          → Steps
              (suc budget)
              h
              (elim w [ [] ↦ (true, h) | o ∷ w ↦ mark_step budget (scan_object h o w) ])
      go [] e next = record {
        keeps = t;
        grows = λ p y. y;
        lighter = omega arith;
        drained = λ y. e;
        slower = λ y. absurd (cc);
      }
      go (o ∷ w) e next =
          let scan = scan_object-Tricolor roots base closed h o w t e in
          let s = next (scan_object h o w) scan.0 in
          record {
            keeps = s.keeps;
            grows = λ p y. s.grows p (scan_object-grows roots base closed h o w t e p y);
            lighter = omega (arith, s.lighter, scan.1);
            drained = s.drained;
            slower = λ y. omega (arith, s.slower y, scan.1);
          }

  -- `while (!markStep(h, budget)) {}` ends with an empty worklist.
  pub record Drains (h : Heap) (o : Option Heap) : Type 0 where
    pub result : Heap
    pub returns : o ≡ some result
    pub keeps : Tricolor roots base result
    pub grows : (p : ℕ) → is_marked (h.color p) ≡ true → is_marked (result.color p) ≡ true
    pub lighter : work result ≤ work h
    pub empty : result.worklist ≡ []

  drain_turn :
      (fuel : ℕ) (h : Heap) (o : Bool × Heap)
      → Steps 4096 h o
      → work h < suc fuel
      → ((m : Heap) → Tricolor roots base m → work m < fuel → Drains m (drain fuel 4096 m))
      → Drains h (elim o.0 [ true ↦ some o.1 | false ↦ drain fuel 4096 o.1 ])
  drain_turn fuel h (true, m) s lt next = record {
    result = m;
    returns = refl;
    keeps = s.keeps;
    grows = s.grows;
    lighter = s.lighter;
    empty = s.drained refl;
  }
  drain_turn fuel h (false, m) s lt next =
      let d = next m s.keeps (omega (arith, s.slower refl, lt)) in
      record {
        result = d.result;
        returns = d.returns;
        keeps = d.keeps;
        grows = λ p y. d.grows p (s.grows p y);
        lighter = omega (arith, d.lighter, s.lighter);
        empty = d.empty;
      }

  pub drain-Drains :
      (fuel : ℕ) (h : Heap) → Tricolor roots base h → work h < fuel → Drains h (drain fuel 4096 h)
  unfolding drain
  drain-Drains zero h t lt = absurd (omega (arith, lt))
  drain-Drains (suc fuel) h t lt =
      drain_turn fuel h (mark_step 4096 h) (mark_step-Steps 4096 h t) lt
        (λ m u l. drain-Drains fuel m u l)

  -- In a drained heap whose roots are marked, all that is reachable is marked.
  none_queued : (o : ℕ) → contains o [] ≢ true
  none_queued o = cc

  pub Reach-marked :
      (h : Heap)
      → Tricolor roots base h
      → h.worklist ≡ []
      → ((p : ℕ) → contains p roots ≡ true → is_marked (h.color p) ≡ true)
      → {o : ℕ} → Reach roots base.fields o
      → is_marked (h.color o) ≡ true
  Reach-marked h t e m (root o y) = m o y
  Reach-marked h t e m (field o p r y) =
      t.scanned o p (blackened (h.color o) refl (Reach-marked h t e m r)) y
    where
      blackened : (c : Color) → h.color o ≡ c → is_marked (h.color o) ≡ true → h.color o ≡ black
      blackened white q k = absurd (cc)
      blackened gray q k = absurd (none_queued o (ap (contains o) (sym e) ∙ t.queued o q))
      blackened black q k = q
