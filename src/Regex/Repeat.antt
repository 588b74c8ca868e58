-- ===== src/Regex/Repeat.antt =====
-- The code that the regex compiler of src/modules/regex.hpp makes of a repeated fragment:
-- `applyRepeat`. A fragment begins at `start` and ends with the code.
use lovax.Base.{
  ℕ, zero, suc, ◌+◌, ◌-◌, Bool, Option, none, some, List, [], ◌∷◌, ◌++◌, ltb, if◌then◌else◌, ◌>>=◌,
  length, set, take, drop,
}
use lovax.Regex.Program.{max_prog, Inst, split, jmp}

-- The relocation of an instruction: jump targets move, the slot of a SAVE does not.
abbrev pub shift : ℕ → Inst → Inst
shift delta (split x y) = split (x + delta) (y + delta)
shift delta (jmp x) = jmp (x + delta)
shift delta inst = inst

abbrev pub relocate : ℕ → List Inst → List Inst
relocate delta [] = []
relocate delta (i ∷ is) = shift delta i ∷ relocate delta is

-- `overflow()`, the code otherwise.
abbrev pub checked : List Inst → Option (List Inst)
checked code = if ltb max_prog (length code) then none else some code

-- `appendBody` for a body that was compiled at `start`.
unfoldable pub append_body : ℕ → List Inst → List Inst → List Inst
append_body start body code = code ++ relocate (length code - start) body

-- `for (int k = 0; k < lo; ++k)`
unfoldable pub copies : ℕ → ℕ → List Inst → List Inst → Option (List Inst)
unfolding append_body
copies zero start body code = some code
copies (suc k) start body code = checked (append_body start body code) >>= copies k start body

abbrev pub placeholder : Inst
placeholder = split 0 0

-- `for (int k = lo; k < hi; ++k)`: the code, and the SPLITs to be patched, the last one first.
unfoldable pub optional_copies :
    ℕ → ℕ → List Inst → List ℕ → List Inst → Option (List ℕ × List Inst)
unfolding append_body
optional_copies zero start body splits code = some (splits, code)
optional_copies (suc k) start body splits code =
    checked (append_body start body (code ++ placeholder ∷ []))
    >>= optional_copies k start body (length code ∷ splits)

-- The SPLIT into a body and past it; a lazy one tries the way past it first.
abbrev pub branch : Bool → ℕ → ℕ → Inst
branch lazy body end = if lazy then split end body else split body end

unfoldable pub patch_splits : Bool → ℕ → List ℕ → List Inst → List Inst
patch_splits lazy end [] code = code
patch_splits lazy end (s ∷ splits) code =
    patch_splits lazy end splits (set code s (branch lazy (s + 1) end))

-- `(body)*`
unfoldable pub star : Bool → ℕ → List Inst → List Inst → Option (List Inst)
unfolding append_body
star lazy start body code = do
  let split_at = length code
  looped ← checked (append_body start body (code ++ placeholder ∷ []))
  let closed = looped ++ jmp split_at ∷ []
  some (set closed split_at (branch lazy (split_at + 1) (length closed)))

-- The part of `applyRepeat` after the copies that are required; no `hi` is no bound.
unfoldable pub repeat_more : Bool → ℕ → ℕ → Option ℕ → List Inst → List Inst → Option (List Inst)
unfolding star optional_copies patch_splits
repeat_more lazy start lo none body code = star lazy start body code
repeat_more lazy start lo (some hi) body code = do
  (splits, grown) ← optional_copies (hi - lo) start body [] code
  some (patch_splits lazy (length grown) splits grown)

unfoldable pub apply_repeat : ℕ → ℕ → Option ℕ → Bool → List Inst → Option (List Inst)
unfolding copies repeat_more
apply_repeat start lo hi lazy code = do
  let body = drop start code
  grown ← copies lo start body (take start code)
  repeat_more lazy start lo hi body grown
