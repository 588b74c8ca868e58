-- ===== src/Collector/Heap.antt =====
-- The heap of src/vm/gc.hpp and the marking of src/object/object.hpp. An object is its address;
-- a null reference is left out of the lists. `fields` is what the object's `gcMark` marks.
use lovax.Base.{
  ℕ, zero, suc, Bool, true, false, Option, none, some, List, [], ◌∷◌, ◌==◌, if◌then◌else◌, ◌>>=◌,
}

pub data Color : Type 0 where
  white gray black : Color

-- The lists that `markAllRoots` goes through; `runtime` is what the callback marks.
pub record Roots : Type 0 where
  pub permanent : List ℕ
  pub runtime : List ℕ
  pub temporary : List ℕ
  pub host : List ℕ

-- `first` is the list of all objects; `worklist` has its back first.
pub record Heap : Type 0 where
  pub first : List ℕ
  pub color : ℕ → Color
  pub fields : ℕ → List ℕ
  pub worklist : List ℕ

abbrev pub recolor : (ℕ → Color) → ℕ → Color → ℕ → Color
recolor color o c p = if p == o then c else color p

abbrev pub queue_white : Heap → ℕ → Color → Heap
queue_white h o white = record h { color = recolor h.color o gray; worklist = o ∷ h.worklist }
queue_white h o _ = h

-- `gcMarkObject`
abbrev pub mark_object : Heap → ℕ → Heap
mark_object h o = queue_white h o (h.color o)

unfoldable pub mark_each : List ℕ → Heap → Heap
mark_each [] h = h
mark_each (o ∷ os) h = mark_each os (mark_object h o)

unfoldable pub mark_all_roots : Roots → Heap → Heap
unfolding mark_each
mark_all_roots r h =
    mark_each r.host (mark_each r.temporary (mark_each r.runtime (mark_each r.permanent h)))

-- One turn of the loop of `markStep`: the last object of the worklist becomes black.
unfoldable pub scan_object : Heap → ℕ → List ℕ → Heap
unfolding mark_each
scan_object h o w =
    mark_each (h.fields o) (record h { worklist = w; color = recolor h.color o black })

abbrev pub is_empty : List ℕ → Bool
is_empty [] = true
is_empty (o ∷ w) = false

-- `markStep`, with whether the worklist has drained.
unfoldable pub mark_step : ℕ → Heap → Bool × Heap
unfolding scan_object
mark_step zero h = (is_empty h.worklist, h)
mark_step (suc budget) h = elim h.worklist [
  | [] ↦ (true, h)
  | o ∷ w ↦ mark_step budget (scan_object h o w)
]

-- `while (!markStep(h, budget)) {}`; `none` means that the fuel ran out.
unfoldable pub drain : ℕ → ℕ → Heap → Option Heap
unfolding mark_step
drain zero budget h = none
drain (suc fuel) budget h =
    let (done, m) = mark_step budget h in elim done [ true ↦ some m | false ↦ drain fuel budget m ]

-- `sweepStep` to its end: a marked object stays, and is white again; a white one is freed.
unfoldable pub sweep : List ℕ → (ℕ → Color) → List ℕ × (ℕ → Color)
sweep [] color = ([], color)
sweep (o ∷ os) color = elim (color o) [
  | white ↦ sweep os color
  | _ ↦ let (kept, after) = sweep os (recolor color o white) in (o ∷ kept, after)
]

-- The marking of `gcCollect` from the phase IDLE.
unfoldable pub mark_phase : ℕ → Roots → Heap → Option Heap
unfolding mark_all_roots drain
mark_phase fuel r h = do
  m ← drain fuel 4096 (mark_all_roots r h)
  drain fuel 4096 (mark_all_roots r m)

-- `gcCollect` from the phase IDLE.
unfoldable pub gc_collect : ℕ → Roots → Heap → Option Heap
unfolding mark_phase sweep
gc_collect fuel r h = do
  m ← mark_phase fuel r h
  let (kept, after) = sweep m.first m.color
  some (record m { first = kept; color = after })
