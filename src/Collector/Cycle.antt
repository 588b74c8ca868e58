-- ===== src/Collector/Cycle.antt =====
-- A full cycle of `gcCollect` of src/object/object.hpp, from the roots to the sweep.
use lovax.Base.{
  ℕ, ◌*◌, ◌≤◌, ◌<◌, ◌≡◌, refl, sym, ap, ◌∙◌, ◌≢◌, inl, inr, Bool, true, false, ◌&&◌, Option, some,
  List, [], ◌∷◌, ◌++◌, arith, ◌==◌, ==_iff, Bool-cases, ◌>>=◌, length,
}
use lovax.Collector.Heap.{
  recolor, mark_each, mark_all_roots, drain, sweep, mark_phase, gc_collect, Roots, Heap, Color,
  white, gray, black,
}
use lovax.Base.Members.{contains}
use lovax.Collector.Marks.{
  is_marked, count_white, Marks-then, recolor_other, mark_each-Marks, Marks,
}
use lovax.Collector.Tricolor.{Reach-in, Marks-Tricolor, IsClosed, Tricolor, Reach}
use lovax.Collector.Collect.{drain-Drains, Reach-marked}

abbrev pub root_list : Roots → List ℕ
root_list r = r.permanent ++ (r.runtime ++ (r.temporary ++ r.host))

-- A heap between two cycles: no object is marked, and none waits.
pub record IsIdle (h : Heap) : Type 0 where
  pub whites : (o : ℕ) → h.color o ≡ white
  pub idle : h.worklist ≡ []

mark_all_roots-Marks : (r : Roots) (h : Heap) → Marks (root_list r) h (mark_all_roots r h)
unfolding mark_all_roots
mark_all_roots-Marks r h =
    let a = mark_each r.permanent h in
    let b = mark_each r.runtime a in
    let c = mark_each r.temporary b in
    let d = mark_each r.host c in
    Marks-then r.permanent (r.runtime ++ (r.temporary ++ r.host)) h a d
      (mark_each-Marks r.permanent h)
      (Marks-then r.runtime (r.temporary ++ r.host) a b d (mark_each-Marks r.runtime a) (
        Marks-then r.temporary r.host b c d (mark_each-Marks r.temporary b)
          (mark_each-Marks r.host c)))

white_not_marked : (c : Color) → c ≡ white → is_marked c ≢ true
white_not_marked white e = cc
white_not_marked gray e = absurd (cc)
white_not_marked black e = absurd (cc)

idle-Tricolor : (roots : List ℕ) (h : Heap) → IsIdle h → Tricolor roots h h
idle-Tricolor roots h i = record {
  same_fields = refl;
  same_first = refl;
  sound = λ o y. absurd (white_not_marked _ (i.whites o) y);
  queued = λ o y. absurd (white_not_marked _ (i.whites o) (ap is_marked y));
  working = λ o y. absurd (nothing_in o (ap (contains o) (sym i.idle) ∙ y));
  scanned = λ o p y c. absurd (white_not_marked _ (i.whites o) (ap is_marked y));
}
  where
    nothing_in : (o : ℕ) → contains o [] ≢ true
    nothing_in o = cc

count_white_le : (os : List ℕ) (color : ℕ → Color) → count_white os color ≤ length os
count_white_le [] color = omega arith
count_white_le (o ∷ os) color = ground (arith, count_white_le os color)

-- The marking of a cycle: the marked objects are the reachable ones.
record Marked (roots : List ℕ) (h : Heap) (o : Option Heap) : Type 0 where
  pub result : Heap
  pub returns : o ≡ some result
  pub same_first : result.first ≡ h.first
  pub sound : (p : ℕ) → is_marked (result.color p) ≡ true → Reach roots h.fields p
  pub complete : (p : ℕ) → Reach roots h.fields p → is_marked (result.color p) ≡ true

mark_phase-Marked :
    (fuel : ℕ) (r : Roots) (h : Heap)
    → IsIdle h
    → IsClosed (root_list r) h
    → 2 * length h.first < fuel
    → Marked (root_list r) h (mark_phase fuel r h)
unfolding mark_phase
mark_phase-Marked fuel r h i closed lt =
    let roots = root_list r in
    let reach = λ (p : ℕ) (y : contains p roots ≡ true). Reach.root p y in
    let m = mark_all_roots r h in
    let first =
      Marks-Tricolor roots h closed roots h m (idle-Tricolor roots h i) reach
        (mark_all_roots-Marks r h) in
    let d =
      drain-Drains roots h closed fuel m first.0
        (omega (arith, first.1, ap length i.idle, count_white_le h.first h.color, lt)) in
    let n = mark_all_roots r d.result in
    let again =
      Marks-Tricolor roots h closed roots d.result n d.keeps reach
        (mark_all_roots-Marks r d.result) in
    let e = drain-Drains roots h closed fuel n again.0 (
      omega (
        arith,
        again.1,
        d.lighter,
        first.1,
        ap length i.idle,
        count_white_le h.first h.color,
        lt,
      )) in
    record {
      result = e.result;
      returns =
          ap (λ (o : Option Heap). o >>= λ x. drain fuel 4096 (mark_all_roots r x)) d.returns
          ∙ e.returns;
      same_first = e.keeps.same_first;
      sound = e.keeps.sound;
      complete = λ p x.
          Reach-marked roots h closed e.result e.keeps e.empty
            (λ q y. e.grows q ((mark_all_roots-Marks r d.result).all q y)) x;
    }

and_false : (x m : Bool) → m ≡ false → (x && m) ≡ false
and_false true m h = h
and_false false m h = refl

same_color : (color : ℕ → Color) (p o : ℕ) (c : Color) → (p == o) ≡ true → color o ≡ c → color p ≡ c
same_color color p o c y e = ap color ((==_iff p o).0 y) ∙ e

stays_marked :
    (o : ℕ) (os kept : List ℕ) (color : ℕ → Color) (p : ℕ)
    → is_marked (color o) ≡ true
    → contains p kept ≡ (contains p os && is_marked (recolor color o white p))
    → contains p (o ∷ kept) ≡ (contains p (o ∷ os) && is_marked (color p))
stays_marked o os kept color p e h = elim (Bool-cases (p == o)) [
  | inl y ↦ rw y (sym (ap (λ (x : ℕ). is_marked (color x)) ((==_iff p o).0 y) ∙ e))
  | inr n ↦
      rw n (h ∙ ap (λ (c : Color). contains p os && is_marked c) (recolor_other color o white p n))
]

sweep_turn :
    (c : Color) (o : ℕ) (os : List ℕ) (color : ℕ → Color) (p : ℕ)
    → color o ≡ c
    → contains p (sweep os color).0 ≡ (contains p os && is_marked (color p))
    → contains p (sweep os (recolor color o white)).0
      ≡ (contains p os && is_marked (recolor color o white p))
    → contains p
        (elim c as (λ _. List ℕ × (ℕ → Color)) [
          | white ↦ sweep os color
          | _ ↦ let (kept, after) = sweep os (recolor color o white) in (o ∷ kept, after)
        ]).0
      ≡ (contains p (o ∷ os) && is_marked (color p))
sweep_turn white o os color p e a b = elim (Bool-cases (p == o)) [
  | inl y ↦
      let f = ap is_marked (same_color color p o white y e) in
      a ∙ and_false (contains p os) _ f ∙ sym (and_false (contains p (o ∷ os)) _ f)
  | inr n ↦ rw n a
]
sweep_turn gray o os color p e a b = stays_marked o os _ color p (ap is_marked e) b
sweep_turn black o os color p e a b = stays_marked o os _ color p (ap is_marked e) b

sweep_keeps :
    (os : List ℕ) (color : ℕ → Color) (p : ℕ)
    → contains p (sweep os color).0 ≡ (contains p os && is_marked (color p))
unfolding sweep
sweep_keeps [] color p = refl
sweep_keeps (o ∷ os) color p =
    sweep_turn (color o) o os color p refl (sweep_keeps os color p)
      (sweep_keeps os (recolor color o white) p)

both_true : {a b : Bool} → a ≡ true → b ≡ true → (a && b) ≡ true
both_true {a} {b} x y = ground (arith, x, y)

and_second : (a b : Bool) → (a && b) ≡ true → b ≡ true
and_second true b h = h
and_second false b h = absurd (cc)

-- A cycle that ends: an object is kept if and only if it is reachable.
pub record Collects (r : Roots) (h : Heap) (o : Option Heap) : Type 0 where
  pub result : Heap
  pub returns : o ≡ some result
  pub survives : (p : ℕ) → Reach (root_list r) h.fields p → contains p result.first ≡ true
  pub frees : (p : ℕ) → contains p result.first ≡ true → Reach (root_list r) h.fields p

-- In a heap between two cycles whose roots and references are objects of its list, `gcCollect`
-- ends, with more fuel than twice the number of objects; its list of objects then holds exactly
-- the objects that references lead to from the roots.
pub gc_collect-Collects :
    (fuel : ℕ) (r : Roots) (h : Heap)
    → IsIdle h
    → IsClosed (root_list r) h
    → 2 * length h.first < fuel
    → Collects r h (gc_collect fuel r h)
unfolding gc_collect
gc_collect-Collects fuel r h i closed lt =
    let m = mark_phase-Marked fuel r h i closed lt in
    record {
      result = record m.result {
        first = (sweep m.result.first m.result.color).0;
        color = (sweep m.result.first m.result.color).1;
      };
      returns =
          ap
            (λ (o : Option Heap). o >>= λ x.
              some
                (record x { first = (sweep x.first x.color).0; color = (sweep x.first x.color).1 }))
            m.returns;
      survives = λ p x.
          sweep_keeps m.result.first m.result.color p
          ∙ both_true (ap (contains p) m.same_first ∙ Reach-in (root_list r) h closed x)
              (m.complete p x);
      frees =
          λ p y. m.sound p (and_second _ _ (sym (sweep_keeps m.result.first m.result.color p) ∙ y));
    }
