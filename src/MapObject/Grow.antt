-- ===== src/MapObject/Grow.antt =====
-- `indexGrow` of the map.
use native.Mathlib.Nat.{pow-suc}
use mathlib.Core.Path.{subst}
use lovax.Base.{
  ℕ, zero, suc, ◌+◌, ◌*◌, ◌^◌, ◌≤◌, ◌<◌, ◌≡◌, refl, sym, ap, ◌∙◌, ◌⊎◌, inl, inr, Option, none, some,
  List, [], ◌∷◌, arith, ◌==◌, if◌then◌else◌, Option-cases, ◌>>=◌, length, replicate,
  length-replicate,
}
use lovax.MapObject.{empty_slot, slot_at, seat, seat_old, seat_all, index_grow, KeySlot}
use lovax.MapObject.Probe.{IsSized-pos, some_ne_none, IsSized}
use lovax.MapObject.Seat.{
  filled, occupied, occupied-replicate, slot_at-replicate, slot, seat-Filled, Seated, Filled,
}

-- Moving slots from one index to another: those that `old` holds, and those that were there.
pub record Moved (old index next : List KeySlot) : Type 0 where
  pub width : length next ≡ length index
  pub count : occupied next ≡ occupied index + occupied old
  pub keeps : (h p : ℕ) → Seated index h p → Seated next h p
  pub takes : (i h p : ℕ) → slot_at old i ≡ slot h p → Seated next h p
  pub only :
      (i p : ℕ)
      → (slot_at next i).pos ≡ some p
      → (slot_at next i ≡ slot_at index i) ⊎ ((j : ℕ) × (slot_at old j ≡ slot_at next i))

pub IsSized-width : {a b : List KeySlot} → length b ≡ length a → IsSized a → IsSized b
IsSized-width e z = record { exponent = z.exponent; sized = e ∙ z.sized }

slot_eta : (s : KeySlot) (p : ℕ) → s.pos ≡ some p → slot s.h p ≡ s
slot_eta s p e = λ i. record { h = s.h; pos = sym e i }

abbrev pos_of : Option ℕ → ℕ
pos_of none = 0
pos_of (some p) = p

Seated-slot :
    (next : List KeySlot) (h p h' p' : ℕ)
    → slot h p ≡ slot h' p'
    → Seated next h p
    → Seated next h' p'
Seated-slot next h p h' p' e seated =
    subst (λ (t : KeySlot). Seated next t.h (pos_of t.pos)) e seated

module _ (s : KeySlot) (old next : List KeySlot) where
  abbrev Takes : List KeySlot → Type 0
  Takes l = (i h p : ℕ) → slot_at l i ≡ slot h p → Seated next h p

  Takes-empty : s.pos ≡ none → Takes old → Takes (s ∷ old)
  Takes-empty e t zero h p q = absurd (cc (ap (λ (t : KeySlot). t.pos) q))
  Takes-empty e t (suc i) h p q = t i h p q

  Takes-first : (p : ℕ) → s.pos ≡ some p → Seated next s.h p → Takes old → Takes (s ∷ old)
  Takes-first p e seated t zero h p' q = Seated-slot next s.h p h p' (slot_eta s p e ∙ q) seated
  Takes-first p e seated t (suc i) h p' q = t i h p' q

  skip_empty :
      {index : List KeySlot} → s.pos ≡ none → Moved old index next → Moved (s ∷ old) index next
  unfolding occupied
  skip_empty e m = record {
    width = m.width;
    count = rw e (omega (arith, m.count));
    keeps = m.keeps;
    takes = Takes-empty e m.takes;
    only = λ i p full. elim (m.only i p full) [ inl o ↦ inl o | inr (j, o) ↦ inr (suc j, o) ];
  }

  only_first :
      (index mid : List KeySlot) (p i : ℕ)
      → s.pos ≡ some p
      → Filled index s.h p mid
      → slot_at next i ≡ slot_at mid i
      → (slot_at next i ≡ slot_at index i) ⊎ ((j : ℕ) × (slot_at (s ∷ old) j ≡ slot_at next i))
  only_first index mid p i e f same = elim (f.only i) [
    | inl kept ↦ inl (same ∙ kept)
    | inr new ↦ inr (0, sym (slot_eta s p e) ∙ sym (same ∙ new))
  ]

  seat_first :
      {index mid : List KeySlot} (p : ℕ)
      → s.pos ≡ some p
      → Filled index s.h p mid
      → Moved old mid next
      → Moved (s ∷ old) index next
  unfolding occupied
  seat_first {index} {mid} p e f m = record {
    width = m.width ∙ f.width;
    count = rw e (omega (arith, m.count, f.count));
    keeps = λ h' p' seated. m.keeps h' p' (f.keeps h' p' seated);
    takes = Takes-first p e (m.keeps s.h p f.seats) m.takes;
    only = λ i p' full. elim (m.only i p' full) [
      | inl same ↦ only_first index mid p i e f same
      | inr (j, o) ↦ inr (suc j, o)
    ];
  }

run_empty :
    (s : KeySlot) (old index : List KeySlot)
    → s.pos ≡ none
    → seat_all (s ∷ old) index ≡ seat_all old index
unfolding seat_all
run_empty s old index e = ap (λ (t : Option ℕ). seat_old s t index >>= seat_all old) e

run_first :
    (s : KeySlot) (old index mid : List KeySlot) (p : ℕ)
    → s.pos ≡ some p
    → seat index (slot s.h p) ≡ some mid
    → seat_all (s ∷ old) index ≡ seat_all old mid
unfolding seat_all
run_first s old index mid p e run =
    ap (λ (t : Option ℕ). seat_old s t index >>= seat_all old) e
    ∙ ap (λ (t : KeySlot). seat index t >>= seat_all old) (sym (slot_eta s p e))
    ∙ ap (λ (t : Option (List KeySlot)). t >>= seat_all old) run

-- Moving the slots of `old` into an index with room for all of them.
seat_all-Moved :
    (old index : List KeySlot)
    → IsSized index
    → occupied index + occupied old < length index
    → (next : List KeySlot) × (seat_all old index ≡ some next) × Moved old index next
unfolding seat_all occupied
seat_all-Moved [] index sized room = (
  index,
  refl,
  record {
    width = refl;
    count = omega arith;
    keeps = λ h p s. s;
    takes = λ i h p q. absurd (cc (ap (λ (t : KeySlot). t.pos) q));
    only = λ i p full. inl refl;
  },
)
seat_all-Moved (s ∷ old) index sized room = elim (Option-cases s.pos) [
  | inl e ↦
      let none_here : filled s.pos ≡ 0 = rw e in
      let (next, run, m) = seat_all-Moved old index sized (omega arith) in
      (next, run_empty s old index e ∙ run, skip_empty s old next e m)
  | inr (p, e) ↦
      let one_here : filled s.pos ≡ 1 = rw e in
      let (mid, one_run, f) = seat-Filled index s.h p sized (omega arith) in
      let (next, run, m) =
        seat_all-Moved old mid (IsSized-width f.width sized) (omega (arith, f.width, f.count)) in
      (next, run_first s old index mid p e one_run ∙ run, seat_first s old next p e f m)
]

-- The capacity after growing.
abbrev pub grown_size : List KeySlot → ℕ
grown_size index = if length index == 0 then 8 else length index * 2

-- A fresh index of twice the size takes every position over, and nothing else.
pub record Grown (index next : List KeySlot) : Type 0 where
  pub sized : IsSized next
  pub width : length next ≡ grown_size index
  pub count : occupied next ≡ occupied index
  pub takes : (i h p : ℕ) → slot_at index i ≡ slot h p → Seated next h p
  pub only :
      (i p : ℕ) → (slot_at next i).pos ≡ some p → (j : ℕ) × (slot_at index j ≡ slot_at next i)

occupied-le : (index : List KeySlot) → occupied index ≤ length index
unfolding occupied
occupied-le [] = omega arith
occupied-le (s ∷ index) = elim (Option-cases s.pos) [
  | inl e ↦ rw e (omega (arith, occupied-le index))
  | inr (p, e) ↦ rw e (omega (arith, occupied-le index))
]

fresh-IsSized :
    (index : List KeySlot)
    → (index ≡ []) ⊎ IsSized index
    → IsSized (replicate (grown_size index) empty_slot)
fresh-IsSized index (inl e) = record { exponent = 3; sized = rw e refl }
fresh-IsSized index (inr z) =
    let two : 2 ^ suc z.exponent ≡ length index * 2 = pow-suc 2 z.exponent ∙ rw z.sized refl in
    record {
      exponent = suc z.exponent;
      sized = length-replicate (grown_size index) empty_slot ∙ ground (arith, two, IsSized-pos z);
    }

-- `indexGrow` ends, and takes every position over.
pub index_grow-Grown :
    (index : List KeySlot)
    → (index ≡ []) ⊎ IsSized index
    → (next : List KeySlot) × (index_grow index ≡ some next) × Grown index next
unfolding index_grow
index_grow-Grown index ok =
    let fresh = replicate (grown_size index) empty_slot in
    let width = length-replicate (grown_size index) empty_slot in
    let none_there = occupied-replicate (grown_size index) in
    let sized = fresh-IsSized index ok in
    let room : occupied fresh + occupied index < length fresh =
      ground (arith, occupied-le index, width, none_there) in
    let (next, run, m) = seat_all-Moved index fresh sized room in
    (
      next,
      run,
      record {
        sized = IsSized-width m.width sized;
        width = m.width ∙ width;
        count = omega (arith, m.count, none_there);
        takes = m.takes;
        only = λ i p full. elim (m.only i p full) [
          | inl same ↦ absurd (
              some_ne_none p (
                sym full
                ∙ ap (λ (t : KeySlot). t.pos) same
                ∙ slot_at-replicate (grown_size index) i))
          | inr old ↦ old
        ];
      },
    )
