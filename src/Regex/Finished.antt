-- ===== src/Regex/Finished.antt =====
-- The end of `compile` of src/modules/regex.hpp.
use lovax.Base.{
  ℕ, zero, suc, ◌+◌, ◌<◌, ◌≡◌, sym, ◌∙◌, ◌⊎◌, inl, inr, some, List, [], ◌∷◌, ◌++◌, arith,
  some_injective, length, get_elem?, length-append, get_elem?-lt,
}
use lovax.Regex.Alternation.{}
use lovax.Regex.Atoms.{}
use lovax.Regex.Classes.{}
use lovax.Regex.Compiler.{emit, program, Compiler}
use lovax.Regex.Ends.{Fits, IsProgram}
use lovax.Regex.Fragment.{Stands, Keeps-append, append_cases, Keeps}
use lovax.Regex.Parsed.{Parsed}
use lovax.Regex.Patches.{}
use lovax.Regex.Pieces.{}
use lovax.Regex.Program.{Inst, char, any, class, split, jmp, save, bol, eol, match}
use lovax.Regex.Shorter.{}
use mathlib.Core.Path.{subst}

abbrev pub start_state : List ℕ → Compiler
start_state pat = record { rest = pat; code = save 0 ∷ []; classes = []; group_count = 1 }

module _ (pat : List ℕ) (r : Compiler) (p : Parsed 1 (start_state pat) r) where
  abbrev pub whole : Compiler
  whole = emit (emit r (save 1)) match

  -- An instruction of the parsed code fits, as it stands before two more instructions.
  Fits-inside :
      (pc : ℕ) (i : Inst)
      → pc < length r.code
      → length whole.code ≡ length r.code + 2
      → Keeps r.code whole.code
      → Stands 1 (length r.classes) r.code pc i
      → Fits (program whole) pc i
  Fits-inside pc (char c) lt len k s = omega (arith, lt, len)
  Fits-inside pc any lt len k s = omega (arith, lt, len)
  Fits-inside pc (class c) lt len k s = (omega (arith, lt, len), s)
  Fits-inside pc (split x y) lt len k (lx, hx, ly, hy) =
      (omega (arith, hx, len), omega (arith, hy, len))
  Fits-inside pc (jmp x) lt len k (low, high, inl on) = (omega (arith, high, len), inl on)
  Fits-inside pc (jmp x) lt len k (low, high, inr back) =
      (omega (arith, high, len), inr (k.splits x back))
  Fits-inside pc (save x) lt len k (low, slot) = (omega (arith, lt, len), slot)
  Fits-inside pc bol lt len k s = omega (arith, lt, len)
  Fits-inside pc eol lt len k s = omega (arith, lt, len)
  Fits-inside pc match lt len k s = tt

  whole_length : length whole.code ≡ length r.code + 2
  whole_length = omega (
    arith,
    length-append (r.code ++ save 1 ∷ []) (match ∷ []),
    length-append r.code (save 1 ∷ []),
  )

  whole-Keeps : Keeps r.code whole.code
  whole-Keeps =
      let once = Keeps-append r.code (save 1 ∷ []) in
      let twice = Keeps-append (r.code ++ save 1 ∷ []) (match ∷ []) in
      record {
        longer = omega (arith, once.longer, twice.longer);
        splits = λ x y. twice.splits x (once.splits x y);
      }

  parsed-Fits : (pc : ℕ) (i : Inst) → get_elem? r.code pc ≡ some i → Fits (program whole) pc i
  parsed-Fits zero i e =
      subst (λ (j : Inst). Fits (program whole) 0 j)
        (some_injective (sym (p.below 0 (omega arith)) ∙ e))
        (omega (arith, whole_length), omega arith)
  parsed-Fits (suc pc) i e =
      Fits-inside (suc pc) i (get_elem?-lt r.code (suc pc) i e) whole_length whole-Keeps
        (elim (p.fragment.stands (suc pc) i (omega arith) e) [ inl o ↦ absurd (cc) | inr s ↦ s ])

  last-Fits :
      (pc : ℕ) (i : Inst)
      → (pc < length (r.code ++ save 1 ∷ []) × (get_elem? (r.code ++ save 1 ∷ []) pc ≡ some i))
        ⊎ (j : ℕ) × (pc ≡ length (r.code ++ save 1 ∷ []) + j) × (get_elem? (match ∷ []) j ≡ some i)
      → Fits (program whole) pc i
  last-Fits pc i (inr (zero, h, q)) =
      subst (λ (j : Inst). Fits (program whole) pc j) (some_injective q) tt
  last-Fits pc i (inr (suc j, h, q)) = absurd (cc)
  last-Fits pc i (inl (h, q)) = elim (append_cases r.code (save 1 ∷ []) pc i q) [
    | inr (zero, at, s) ↦
        subst (λ (j : Inst). Fits (program whole) pc j) (some_injective s)
          (omega (arith, at, whole_length), omega arith)
    | inr (suc j, at, s) ↦ absurd (cc)
    | inl (at, s) ↦ parsed-Fits pc i s
  ]

  pub whole-IsProgram : IsProgram (program whole)
  whole-IsProgram = record {
    starts = omega (arith, whole_length);
    fits = λ pc i e. last-Fits pc i (append_cases (r.code ++ save 1 ∷ []) (match ∷ []) pc i e);
  }
