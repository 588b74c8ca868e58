-- ===== src/MapObject/Probe.antt =====
-- The walk of `probeSlot` over the slots from a hash on, around the vector.
use native.Mathlib.Nat.{mod-add-mod}
use native.Mathlib.Decide.{ℕ_discrete, dec_le}
use native.Mathlib.Nat.{div-add-mod, one-le-pow}
use lovax.Base.{
  ℕ, zero, suc, ◌+◌, ◌-◌, ◌/◌, ◌%◌, ◌^◌, ◌≤◌, ◌<◌, ◌≡◌, sym, ap, ◌∙◌, inl, inr, Bool, true, false,
  Option, none, some, List, arith, Bool-cases, Option-cases, length,
}
use lovax.Base.Mask.{unique_mod, and_mask}
use lovax.MapObject.{slot_at, masked, hits, probe_from, probe_slot, KeySlot}

-- The `d`-th slot of the walk from hash `h`.
abbrev pub walk : List KeySlot → ℕ → ℕ → ℕ
walk index h d = (h + d) % length index

-- The capacity is a power of two.
pub record IsSized (index : List KeySlot) : Type 0 where
  pub exponent : ℕ
  pub sized : length index ≡ 2 ^ exponent

pub IsSized-pos : {index : List KeySlot} → IsSized index → 0 < length index
IsSized-pos z = omega (arith, z.sized, one-le-pow z.exponent 2 (omega arith))

pub masked-mod : {index : List KeySlot} (x : ℕ) → IsSized index → masked x index ≡ x % length index
masked-mod x z = rw z.sized (and_mask z.exponent x)

pub some_ne_none : (p : ℕ) → ¬ (some p ≡ none)
some_ne_none p e = cc

masked_start : {index : List KeySlot} (h : ℕ) → IsSized index → masked h index ≡ walk index h 0
masked_start {index} h z = rw (masked-mod h z) (ap (λ (t : ℕ). t % length index) (omega arith))

masked_next :
    {index : List KeySlot} (h d : ℕ)
    → IsSized index
    → masked (walk index h d + 1) index ≡ walk index h (d + 1)
masked_next {index} h d z =
    masked-mod (walk index h d + 1) z
    ∙ mod-add-mod (h + d) (length index) 1
    ∙ ap (λ (t : ℕ). t % length index) (omega arith)

-- A slot that the walk passes: it holds an entry, and not the one that is looked for.
pub record Passed (h : ℕ) (eq : ℕ → Bool) (s : KeySlot) : Type 0 where
  pub at_pos : ℕ
  pub filled : s.pos ≡ some at_pos
  pub missed : hits h eq s at_pos ≡ false

-- A slot that the walk ends on.
pub data Stops (h : ℕ) (eq : ℕ → Bool) (s : KeySlot) : Type 0 where
  vacant : s.pos ≡ none → Stops h eq s
  found : (p : ℕ) → s.pos ≡ some p → hits h eq s p ≡ true → Stops h eq s

abbrev pub PassedBefore : List KeySlot → ℕ → (ℕ → Bool) → ℕ → Type 0
PassedBefore index h eq d = (n : ℕ) → n < d → Passed h eq (slot_at index (walk index h n))

pub record Lands (index : List KeySlot) (h : ℕ) (eq : ℕ → Bool) (result : Option ℕ) : Type 0 where
  pub steps : ℕ
  pub near : steps < length index
  pub returns : result ≡ some (walk index h steps)
  pub passed : PassedBefore index h eq steps
  pub stops : Stops h eq (slot_at index (walk index h steps))

module _ (index : List KeySlot) (h : ℕ) (eq : ℕ → Bool) (sized : IsSized index) where
  extend_path :
      (d : ℕ)
      → PassedBefore index h eq d
      → Passed h eq (slot_at index (walk index h d))
      → PassedBefore index h eq (d + 1)
  extend_path d before here n lt = elim (ℕ_discrete n d) [
    | yes e ↦ rw e here
    | no ne ↦ before n (omega arith)
  ]

  turn_vacant :
      (fuel i : ℕ) → (slot_at index i).pos ≡ none → probe_from index h eq (suc fuel) i ≡ some i
  unfolding probe_from
  turn_vacant fuel i e = rw e

  turn_found :
      (fuel i p : ℕ)
      → (slot_at index i).pos ≡ some p
      → hits h eq (slot_at index i) p ≡ true
      → probe_from index h eq (suc fuel) i ≡ some i
  unfolding probe_from
  turn_found fuel i p e t = rw (e, t)

  turn_passed :
      (fuel i p : ℕ)
      → (slot_at index i).pos ≡ some p
      → hits h eq (slot_at index i) p ≡ false
      → probe_from index h eq (suc fuel) i ≡ probe_from index h eq fuel (masked (i + 1) index)
  unfolding probe_from
  turn_passed fuel i p e t = rw (e, t)

  -- The walk from step `d` on, where an empty slot stands ahead at step `goal`.
  probe_from-Lands :
      (fuel d goal : ℕ)
      → d ≤ goal
      → goal < d + fuel
      → goal < length index
      → (slot_at index (walk index h goal)).pos ≡ none
      → PassedBefore index h eq d
      → Lands index h eq (probe_from index h eq fuel (walk index h d))
  probe_from-Lands zero d goal lo hi near gap before = absurd (omega arith)
  probe_from-Lands (suc fuel) d goal lo hi near gap before =
      elim (Option-cases (slot_at index (walk index h d)).pos) [
        | inl e ↦ record {
          steps = d;
          near = omega arith;
          returns = turn_vacant fuel (walk index h d) e;
          passed = before;
          stops = vacant e;
        }
        | inr (p, e) ↦ elim (Bool-cases (hits h eq (slot_at index (walk index h d)) p)) [
          | inl t ↦ record {
            steps = d;
            near = omega arith;
            returns = turn_found fuel (walk index h d) p e t;
            passed = before;
            stops = found p e t;
          }
          | inr t ↦
              rw (turn_passed fuel (walk index h d) p e t, masked_next h d sized)
                (probe_from-Lands fuel (d + 1) goal (further p e) (omega arith) near gap
                  (extend_path d before (record { at_pos = p; filled = e; missed = t })))
        ]
      ]
    where
      further : (p : ℕ) → (slot_at index (walk index h d)).pos ≡ some p → d + 1 ≤ goal
      further p e = elim (ℕ_discrete d goal) [
        | yes same ↦ absurd (some_ne_none p (sym e ∙ rw same gap))
        | no ne ↦ omega arith
      ]

-- Every slot is on the walk, less than a round away.
reaches :
    (index : List KeySlot) (h i : ℕ)
    → i < length index
    → (d : ℕ) × (d < length index) × (walk index h d ≡ i)
reaches index h i lt = elim (dec_le (h % length index) i) [
  | yes le ↦ (
    i - h % length index,
    omega arith,
    unique_mod _ _ i (h / length index) (omega (arith, div-add-mod h (length index))) lt,
  )
  | no gt ↦ (
    i + length index - h % length index,
    omega arith,
    unique_mod _ _ i (h / length index + 1) (omega (arith, div-add-mod h (length index))) lt,
  )
]

-- With an empty slot somewhere the probe ends, on the first slot of the walk that is empty or
-- holds the key.
pub probe_slot-Lands :
    (index : List KeySlot) (h : ℕ) (eq : ℕ → Bool) (i : ℕ)
    → IsSized index
    → i < length index
    → (slot_at index i).pos ≡ none
    → Lands index h eq (probe_slot index h eq)
unfolding probe_slot
probe_slot-Lands index h eq i sized lt gap =
    let (d, near, e) = reaches index h i lt in
    rw (masked_start h sized) (
      probe_from-Lands index h eq sized (length index) 0 d (omega arith) (omega arith) near
        (rw e gap) (λ n less. absurd (omega arith)))
