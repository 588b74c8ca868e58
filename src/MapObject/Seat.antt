-- ===== src/MapObject/Seat.antt =====
-- What the index holds: a position is seated when the walk from its hash comes to its slot over
-- filled slots alone.
use native.Mathlib.Decide.{ℕ_discrete}
use native.Mathlib.Nat.{mod-lt}
use lovax.Base.{
  ℕ, zero, suc, ◌+◌, ◌%◌, ◌<◌, ◌≡◌, refl, sym, ap, ◌∙◌, ◌≢◌, ◌⊎◌, inl, inr, Bool, false, Option,
  none, some, List, [], ◌∷◌, arith, Option-cases, length, set, replicate, length-set,
}
use lovax.MapObject.{empty_slot, slot_at, masked, probe_from, probe_slot, free_from, seat, KeySlot}
use lovax.MapObject.Probe.{walk, probe_slot-Lands, IsSized, Passed, Stops, vacant, found}

abbrev pub filled : Option ℕ → ℕ
filled none = 0
filled (some p) = 1

unfoldable pub occupied : List KeySlot → ℕ
occupied [] = 0
occupied (s ∷ index) = filled s.pos + occupied index

pub occupied-replicate : (n : ℕ) → occupied (replicate n empty_slot) ≡ 0
unfolding occupied
occupied-replicate zero = refl
occupied-replicate (suc n) = omega (arith, occupied-replicate n)

pub slot_at-replicate : (n i : ℕ) → (slot_at (replicate n empty_slot) i).pos ≡ none
slot_at-replicate zero i = refl
slot_at-replicate (suc n) zero = refl
slot_at-replicate (suc n) (suc i) = slot_at-replicate n i

-- Where not every slot is filled, one is empty.
pub vacancy :
    (index : List KeySlot)
    → occupied index < length index
    → (i : ℕ) × (i < length index) × ((slot_at index i).pos ≡ none)
unfolding occupied
vacancy [] h = absurd (omega arith)
vacancy (s ∷ index) h = elim (Option-cases s.pos) [
  | inl e ↦ (0, omega arith, e)
  | inr (p, e) ↦
      let full : filled s.pos ≡ 1 = rw e in
      let (i, lt, gap) = vacancy index (omega arith) in (suc i, omega arith, gap)
]

slot_at-set_self :
    (index : List KeySlot) (i : ℕ) (s : KeySlot) → i < length index → slot_at (set index i s) i ≡ s
slot_at-set_self [] i s h = absurd (omega arith)
slot_at-set_self (t ∷ index) zero s h = refl
slot_at-set_self (t ∷ index) (suc i) s h = slot_at-set_self index i s (omega arith)

slot_at-set_ne :
    (index : List KeySlot) (i j : ℕ) (s : KeySlot)
    → i ≢ j
    → slot_at (set index i s) j ≡ slot_at index j
slot_at-set_ne [] i j s h = refl
slot_at-set_ne (t ∷ index) zero zero s h = absurd (h refl)
slot_at-set_ne (t ∷ index) zero (suc j) s h = refl
slot_at-set_ne (t ∷ index) (suc i) zero s h = refl
slot_at-set_ne (t ∷ index) (suc i) (suc j) s h = slot_at-set_ne index i j s (λ e. h (ap suc e))

occupied-set :
    (index : List KeySlot) (i : ℕ) (s : KeySlot) (p : ℕ)
    → i < length index
    → (slot_at index i).pos ≡ none
    → s.pos ≡ some p
    → occupied (set index i s) ≡ occupied index + 1
unfolding occupied
occupied-set [] i s p h gap full = absurd (omega arith)
occupied-set (t ∷ index) zero s p h gap full = rw (gap, full) (omega arith)
occupied-set (t ∷ index) (suc i) s p h gap full =
    omega (arith, occupied-set index i s p (omega arith) gap full)

abbrev pub slot : ℕ → ℕ → KeySlot
slot h p = record { h = h; pos = some p }

abbrev pub Full : List KeySlot → ℕ → Type 0
Full index i = (p : ℕ) × ((slot_at index i).pos ≡ some p)

pub record Seated (index : List KeySlot) (h p : ℕ) : Type 0 where
  pub steps : ℕ
  pub near : steps < length index
  pub here : slot_at index (walk index h steps) ≡ slot h p
  pub over : (n : ℕ) → n < steps → Full index (walk index h n)

-- `next` is `index` with one empty slot filled by `slot h p`.
pub record Filled (index : List KeySlot) (h p : ℕ) (next : List KeySlot) : Type 0 where
  pub width : length next ≡ length index
  pub count : occupied next ≡ occupied index + 1
  pub seats : Seated next h p
  pub keeps : (h' p' : ℕ) → Seated index h' p' → Seated next h' p'
  pub only : (i : ℕ) → (slot_at next i ≡ slot_at index i) ⊎ (slot_at next i ≡ slot h p)

module _ (index : List KeySlot) (h p d : ℕ) (near : d < length index)
    (gap : (slot_at index (walk index h d)).pos ≡ none)
    (over : (n : ℕ) → n < d → Full index (walk index h n)) where
  abbrev next : List KeySlot
  next = set index (walk index h d) (slot h p)

  inside : walk index h d < length index
  inside = mod-lt (h + d) (omega arith)

  next-slot :
      (i : ℕ)
      → ((i ≡ walk index h d) × (slot_at next i ≡ slot h p))
        ⊎ ((i ≢ walk index h d) × (slot_at next i ≡ slot_at index i))
  next-slot i = elim (ℕ_discrete i (walk index h d)) [
    | yes e ↦ inl (e, rw e (slot_at-set_self index (walk index h d) (slot h p) inside))
    | no ne ↦ inr (ne, slot_at-set_ne index (walk index h d) i (slot h p) (λ e. ne (sym e)))
  ]

  Full-next : (i : ℕ) → Full index i → Full next i
  Full-next i (q, e) = elim (next-slot i) [
    | inl (same, new) ↦ (p, rw new)
    | inr (ne, old) ↦ (q, rw old e)
  ]

  width_next : length next ≡ length index
  width_next = length-set index (walk index h d) (slot h p)

  walk-next : (h' n : ℕ) → walk next h' n ≡ walk index h' n
  walk-next h' n = ap (λ (t : ℕ). (h' + n) % t) width_next

  -- What stands in a slot that is not the empty one stands there still.
  kept : (i : ℕ) (s : KeySlot) → s.pos ≢ none → slot_at index i ≡ s → slot_at next i ≡ s
  kept i s full e = elim (next-slot i) [
    | inl (same, new) ↦ absurd (full (sym (ap (λ (t : KeySlot). t.pos) e) ∙ rw same gap))
    | inr (ne, old) ↦ old ∙ e
  ]

  Seated-next : (h' p' : ℕ) → Seated index h' p' → Seated next h' p'
  Seated-next h' p' s = record {
    steps = s.steps;
    near = rw width_next s.near;
    here =
        ap (λ (t : ℕ). slot_at next t) (walk-next h' s.steps)
        ∙ kept (walk index h' s.steps) (slot h' p') (λ e. cc) s.here;
    over = λ n lt.
        let (q, e) = Full-next (walk index h' n) (s.over n lt) in
        (q, ap (λ (t : ℕ). (slot_at next t).pos) (walk-next h' n) ∙ e);
  }

  new-Seated : Seated next h p
  new-Seated = record {
    steps = d;
    near = rw width_next near;
    here =
        ap (λ (t : ℕ). slot_at next t) (walk-next h d)
        ∙ slot_at-set_self index (walk index h d) (slot h p) inside;
    over = λ n lt.
        let (q, e) = Full-next (walk index h n) (over n lt) in
        (q, ap (λ (t : ℕ). (slot_at next t).pos) (walk-next h n) ∙ e);
  }

  pub fill-Filled : Filled index h p next
  fill-Filled = record {
    width = width_next;
    count = occupied-set index (walk index h d) (slot h p) p inside gap refl;
    seats = new-Seated;
    keeps = Seated-next;
    only = λ i. elim (next-slot i) [ inl (same, new) ↦ inr new | inr (ne, old) ↦ inl old ];
  }

-- The loop that looks for a free slot is the probe of a key that no slot holds.
free_from-probe_from :
    (index : List KeySlot) (h fuel i : ℕ)
    → free_from index fuel i ≡ probe_from index h (λ _. false) fuel i
unfolding free_from probe_from
free_from-probe_from index h zero i = refl
free_from-probe_from index h (suc fuel) i =
    ground (arith, free_from-probe_from index h fuel (masked (i + 1) index))

pub Passed-Full :
    (index : List KeySlot) (h : ℕ) (eq : ℕ → Bool) (i : ℕ)
    → Passed h eq (slot_at index i)
    → Full index i
Passed-Full index h eq i q = (q.at_pos, q.filled)

never_found : (h : ℕ) (s : KeySlot) → Stops h (λ _. false) s → s.pos ≡ none
never_found h s (vacant e) = e
never_found h s (found p e t) = ground arith

-- Seating in an index that has room fills one slot.
pub seat-Filled :
    (index : List KeySlot) (h p : ℕ)
    → IsSized index
    → occupied index < length index
    → (next : List KeySlot) × (seat index (slot h p) ≡ some next) × Filled index h p next
unfolding seat probe_slot
seat-Filled index h p sized room =
    let (i, lt, gap) = vacancy index room in
    let l = probe_slot-Lands index h (λ _. false) i sized lt gap in
    (
      set index (walk index h l.steps) (slot h p),
      rw (free_from-probe_from index h, l.returns) refl,
      fill-Filled index h p l.steps l.near (never_found h _ l.stops)
          (λ n less. Passed-Full index h (λ _. false) (walk index h n) (l.passed n less)),
    )
