-- ===== src/Regex/Whole.antt =====
-- The shape of the programs that the compiler of src/modules/regex.hpp makes.
use lovax.Regex.Finished.{start_state, whole}
use lovax.Base.{
  ℕ, ◌+◌, ◌≤◌, ◌<◌, ◌≡◌, sym, ap, ◌∙◌, inl, inr, some, List, [], ◌∷◌, ◌++◌, arith, length,
  get_elem?, length-append,
}
use lovax.Regex.Program.{Prog, Inst, char, any, class, split, jmp, save, bol, eol, match}
use lovax.Regex.Fragment.{Stands, get_elem?-append_left, get_elem?-append_right}
use lovax.Regex.Compiler.{program, Compiler}
use lovax.Regex.Parsed.{Parsed}
use lovax.Regex.Compiles.{}

-- An instruction between the first one and the SAVE at `n`.
abbrev pub Inner : ℕ → Inst → Type 0
Inner n (split x y) = (1 ≤ x) × (x ≤ n) × (1 ≤ y) × (y ≤ n)
Inner n (jmp x) = (1 ≤ x) × (x ≤ n)
Inner n (save x) = 1 < x
Inner n match = ⊥
Inner n _ = Unit

-- The first instruction saves the beginning of a match, and the SAVE before the MATCH its end.
pub record IsWhole (prog : Prog) (n : ℕ) : Type 0 where
  pub starts : 1 ≤ n
  pub first : get_elem? prog.code 0 ≡ some (save 0)
  pub inner : (pc : ℕ) (i : Inst) → 1 ≤ pc → pc < n → get_elem? prog.code pc ≡ some i → Inner n i
  pub slot : get_elem? prog.code n ≡ some (save 1)
  pub last : get_elem? prog.code (n + 1) ≡ some match

Stands-Inner :
    (classes : ℕ) (code : List Inst) (pc : ℕ) (i : Inst)
    → Stands 1 classes code pc i
    → Inner (length code) i
Stands-Inner classes code pc (split x y) s = s
Stands-Inner classes code pc (jmp x) (low, high, s) = (low, high)
Stands-Inner classes code pc (save x) (low, high) = low
Stands-Inner classes code pc match s = s
Stands-Inner classes code pc (char c) s = tt
Stands-Inner classes code pc any s = tt
Stands-Inner classes code pc (class c) s = tt
Stands-Inner classes code pc bol s = tt
Stands-Inner classes code pc eol s = tt

pub whole-IsWhole :
    (pat : List ℕ) (r : Compiler) (p : Parsed 1 (start_state pat) r)
    → IsWhole (program (whole pat r p)) (length r.code)
whole-IsWhole pat r p =
    let once = r.code ++ save 1 ∷ [] in
    let len = length-append r.code (save 1 ∷ []) in
    let before : (pc : ℕ)
        → pc < length r.code
        → get_elem? (once ++ match ∷ []) pc ≡ get_elem? r.code pc =
      λ pc lt.
        get_elem?-append_left once (match ∷ []) pc (omega (arith, lt, len))
        ∙ get_elem?-append_left r.code (save 1 ∷ []) pc lt in
    let zero_end : length r.code ≡ length r.code + 0 = omega arith in
    let once_end : length r.code + 1 ≡ length once + 0 = omega (arith, len) in
    record {
      starts = p.fragment.inside;
      first = before 0 (omega (arith, p.fragment.inside)) ∙ p.below 0 (omega arith);
      inner = λ pc i low lt e.
          Stands-Inner (length r.classes) r.code pc i
            (elim (p.fragment.stands pc i low (sym (before pc lt) ∙ e)) [
              | inl o ↦ absurd (cc)
              | inr s ↦ s
            ]);
      slot =
          get_elem?-append_left once (match ∷ []) (length r.code) (omega (arith, len))
          ∙ ap (get_elem? once) zero_end
          ∙ get_elem?-append_right r.code (save 1 ∷ []) 0;
      last =
          ap (get_elem? (once ++ match ∷ [])) once_end ∙ get_elem?-append_right once (match ∷ []) 0;
    }
