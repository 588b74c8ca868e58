-- ===== src/Lexer/Unindent.antt =====
-- The loop that closes blocks, `while (spaces < indentStack.back())` of src/lexer/lexer.hpp.
use mathlib.Core.Option
use lovax.Base.{
  ℕ, ◌+◌, ◌*◌, ◌≡◌, refl, ap, ◌≢◌, inl, inr, true, false, Option, some, List, [], ◌∷◌, arith, ltb,
  Bool-cases, length,
}
use lovax.Lexer.Tokens.{Place, Token, dedent}
use lovax.Lexer.Cursor.{char_at, tail}
use lovax.Lexer.Layout.{layout_token, bottom, unindent}
use lovax.Lexer.Depth.{walk_depth}
use lovax.Lexer.Balance.{queue_weight, idle}

-- What the loop on the stack leaves and queues.
pub record Unindents (spaces : ℕ) (s : List ℕ) (o : Option (List ℕ × List Token)) : Type 0 where
  pub back : ℕ
  pub below : List ℕ
  pub queued : List Token
  pub returns : o ≡ some (back ∷ below, queued)
  pub grounded : bottom (back ∷ below) ≡ 0 ∷ []
  pub closes : walk_depth (length (tail s)) queued ≡ some (length below)
  pub moves : ltb spaces (char_at s) ≡ true → idle queued ≡ 0
  pub weighs : queue_weight queued + 2 * length (back ∷ below) ≡ 2 * length s

below_zero : (n x : ℕ) → ltb n x ≡ true → x ≢ 0
below_zero n x h = ground arith

stays :
    (spaces x : ℕ) (s : List ℕ)
    → bottom (x ∷ s) ≡ 0 ∷ []
    → ltb spaces x ≡ false
    → Unindents spaces (x ∷ s) (some (x ∷ s, []))
stays spaces x s g n = record {
  back = x;
  below = s;
  queued = [];
  returns = refl;
  grounded = g;
  closes = refl;
  moves = λ y. ground (arith, y, n);
  weighs = omega arith;
}

add_dedent :
    (spaces x y : ℕ) (s : List ℕ) (at : Place) (o : Option (List ℕ × List Token))
    → Unindents spaces (y ∷ s) o
    → Unindents spaces (x ∷ y ∷ s) (Option.map (λ (s, ts). (s, layout_token dedent at ∷ ts)) o)
add_dedent spaces x y s at o u = record {
  back = u.back;
  below = u.below;
  queued = layout_token dedent at ∷ u.queued;
  returns =
      ap (Option.map (λ (p : List ℕ × List Token). (p.0, layout_token dedent at ∷ p.1))) u.returns;
  grounded = u.grounded;
  closes = u.closes;
  moves = λ y. refl;
  weighs = omega (arith, u.weighs);
}

pub unindent-Unindents :
    (spaces : ℕ) (s : List ℕ) (at : Place)
    → bottom s ≡ 0 ∷ []
    → Unindents spaces s (unindent spaces s at)
unfolding unindent bottom
unindent-Unindents spaces [] at g = absurd (cc)
unindent-Unindents spaces (x ∷ []) at g = elim (Bool-cases (ltb spaces x)) [
  | inl y ↦ absurd (below_zero spaces x y (ap char_at g))
  | inr n ↦ rw n (stays spaces x [] g n)
]
unindent-Unindents spaces (x ∷ y ∷ s) at g = elim (Bool-cases (ltb spaces x)) [
  | inl h ↦ rw h (add_dedent spaces x y s at _ (unindent-Unindents spaces (y ∷ s) at g))
  | inr n ↦ rw n (stays spaces x (y ∷ s) g n)
]
