-- ===== src/Base/Text.antt =====
-- Texts as lists of byte codes.
use Prim.Native.Nat.{ℕ}
use Prim.Native.Char.{code}
use Prim.Native.String.{String}
use mathlib.Core.List.{List, [], ◌∷◌}
use mathlib.Core.Bool.{Bool, true, false, ◌&&◌}
use mathlib.Core.Path.{◌≡◌, refl, sym, ap, ◌∙◌}
use mathlib.Core.Logic.{inl, inr}
use lovax.Base.Tests.{◌==◌, ==_iff, Bool-cases}

-- The codes of a text of ASCII characters.
abbrev pub codes : String → List ℕ
codes String.[] = []
codes (String.◌∷◌ c s) = code c ∷ codes s

abbrev pub bytes_equal : List ℕ → List ℕ → Bool
bytes_equal [] [] = true
bytes_equal (a ∷ s) (b ∷ t) = a == b && bytes_equal s t
bytes_equal _ _ = false

pub bytes_equal_sound : (s t : List ℕ) → bytes_equal s t ≡ true → s ≡ t
bytes_equal_sound [] [] y = refl
bytes_equal_sound [] (b ∷ t) y = absurd (cc)
bytes_equal_sound (a ∷ s) [] y = absurd (cc)
bytes_equal_sound (a ∷ s) (b ∷ t) y = elim (Bool-cases (a == b)) [
  | inl same ↦
      let rest : bytes_equal s t ≡ true = sym (ap (λ (x : Bool). x && bytes_equal s t) same) ∙ y in
      let e : a ≡ b = (==_iff a b).0 same in
      ap (λ (x : ℕ). x ∷ s) e ∙ ap (λ (u : List ℕ). b ∷ u) (bytes_equal_sound s t rest)
  | inr n ↦ absurd (impossible (sym (ap (λ (x : Bool). x && bytes_equal s t) n) ∙ y))
]
  where
    impossible : false ≡ true → ⊥
    impossible e = absurd (cc)
