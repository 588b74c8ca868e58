-- ===== src/Lexer/Signs.antt =====
-- The operators and delimiters of the switch of src/lexer/lexer.hpp.
use lovax.Base.{
  ℕ, ◌<◌, ◌≡◌, refl, ◌≢◌, Bool, true, ◌&&◌, Option, none, some, List, [], ◌∷◌, arith, ltb, length,
}
use lovax.Lexer.Tokens.{}
use lovax.Lexer.Tables.{without_prefix, Sign, token, bad}
use lovax.Lexer.Cursor.{}
use lovax.Lexer.Numbers.{}
use lovax.Lexer.Scan.{find_sign}
use lovax.Lexer.Depth.{is_plain}

unfoldable pub sign_plain : Sign → Bool
sign_plain (token t) = is_plain t
sign_plain (bad e) = true

unfoldable pub all_fit : List (List ℕ × Sign) → Bool
unfolding sign_plain
all_fit [] = true
all_fit ((p, sign) ∷ table) = ltb 0 (length p) && sign_plain sign && all_fit table

-- A sign that is found has a text, and the input is not at its end.
unfoldable pub Fits : List ℕ → Option (List ℕ × Sign) → Type 0
Fits s none = Unit
Fits s (some (p, sign)) = (0 < length p) × (sign_plain sign ≡ true) × (0 < length s)

prefix_there : (p s r : List ℕ) → 0 < length p → without_prefix p s ≡ some r → 0 < length s
prefix_there [] s r h e = absurd (omega (arith, h))
prefix_there (a ∷ p) [] r h e = absurd (none_ne_some_list e)
  where
    none_ne_some_list : none ≢ some r
    none_ne_some_list = cc
prefix_there (a ∷ p) (b ∷ s) r h e = omega arith

pub find_sign-Fits :
    (table : List (List ℕ × Sign)) (s : List ℕ) → all_fit table ≡ true → Fits s (find_sign table s)
unfolding all_fit Fits
find_sign-Fits [] s h = tt
find_sign-Fits ((p, sign) ∷ table) s h =
    go (without_prefix p s) refl (find_sign-Fits table s (ground (arith, h)))
  where
    go :
        (o : Option (List ℕ))
        → without_prefix p s ≡ o
        → Fits s (find_sign table s)
        → Fits s (elim o [ some rest ↦ some (p, sign) | none ↦ find_sign table s ])
    go none e later = later
    go (some r) e later =
        let long : 0 < length p = ground (arith, h) in
        (long, ground (arith, h), prefix_there p s r long e)
