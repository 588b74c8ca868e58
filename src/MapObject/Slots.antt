-- ===== src/MapObject/Slots.antt =====
-- The index: slots, the probe of `probeSlot`, and the inner loops of `indexGrow` and
-- `rebuildIndex`. The loops `while (true)` run on fuel; `none` means that it ran out.
use Prim.Native.Nat.{bit_and}
use lovax.Base.{
  ℕ, zero, suc, ◌+◌, ◌-◌, ◌*◌, Bool, ◌&&◌, Option, none, some, List, [], ◌∷◌, leb, ◌==◌,
  if◌then◌else◌, ◌>>=◌, length, set, replicate,
}
use mathlib.Core.Option

-- `pos` is none where the source has `NPOS`.
pub record KeySlot : Type 0 where
  pub h : ℕ
  pub pos : Option ℕ

abbrev pub empty_slot : KeySlot
empty_slot = record { h = 0; pos = none }

-- `index[i]`; every caller masks `i` into the vector.
abbrev pub slot_at : List KeySlot → ℕ → KeySlot
slot_at [] i = empty_slot
slot_at (s ∷ index) zero = s
slot_at (s ∷ index) (suc i) = slot_at index i

-- `x & mask`, where the mask is the capacity less one.
abbrev pub masked : ℕ → List KeySlot → ℕ
masked x index = bit_and x (length index - 1)

-- `s.h == h && eq(entries[s.pos].first)`
abbrev pub hits : ℕ → (ℕ → Bool) → KeySlot → ℕ → Bool
hits h eq s p = s.h == h && eq p

-- One turn of the probe on a slot, the further turns in `rest`.
abbrev pub probe_turn : ℕ → (ℕ → Bool) → ℕ → KeySlot → Option ℕ → Option ℕ → Option ℕ
probe_turn h eq i s none rest = some i
probe_turn h eq i s (some p) rest = if hits h eq s p then some i else rest

unfoldable pub probe_from : List KeySlot → ℕ → (ℕ → Bool) → ℕ → ℕ → Option ℕ
probe_from index h eq zero i = none
probe_from index h eq (suc fuel) i =
    let rest = probe_from index h eq fuel (masked (i + 1) index) in
    let s = slot_at index i in probe_turn h eq i s s.pos rest

-- A probe visits each slot once at most.
unfoldable pub probe_slot : List KeySlot → ℕ → (ℕ → Bool) → Option ℕ
unfolding probe_from
probe_slot index h eq = probe_from index h eq (length index) (masked h index)

-- `while (index[i].pos != NPOS) i = (i + 1) & mask`
abbrev pub free_turn : ℕ → Option ℕ → Option ℕ → Option ℕ
free_turn i none rest = some i
free_turn i (some p) rest = rest

unfoldable pub free_from : List KeySlot → ℕ → ℕ → Option ℕ
free_from index zero i = none
free_from index (suc fuel) i =
    let rest = free_from index fuel (masked (i + 1) index) in free_turn i (slot_at index i).pos rest

-- Puts a slot at the first free place from its hash.
unfoldable pub seat : List KeySlot → KeySlot → Option (List KeySlot)
unfolding free_from
seat index s = Option.map (λ i. set index i s) (free_from index (length index) (masked s.h index))

-- The body of the loop of `indexGrow`: `if (s.pos == NPOS) continue;`
abbrev pub seat_old : KeySlot → Option ℕ → List KeySlot → Option (List KeySlot)
seat_old s none index = some index
seat_old s (some p) index = seat index s

unfoldable pub seat_all : List KeySlot → List KeySlot → Option (List KeySlot)
unfolding seat
seat_all [] index = some index
seat_all (s ∷ old) index = seat_old s s.pos index >>= seat_all old

unfoldable pub index_grow : List KeySlot → Option (List KeySlot)
unfolding seat_all
index_grow index =
    let ncap = if length index == 0 then 8 else length index * 2 in
    seat_all index (replicate ncap empty_slot)

-- `(indexUsed + 1) * 10 >= index.size() * 7`
unfoldable pub index_wants_grow : ℕ → List KeySlot → Bool
index_wants_grow used index = leb (length index * 7) ((used + 1) * 10)
