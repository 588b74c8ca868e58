-- ===== src/Lexer/Total.antt =====
-- The turns of `nextToken` of src/lexer/lexer.hpp, and its calls up to the end of the file.
use lovax.Base.{
  ℕ, zero, suc, ◌+◌, ◌*◌, ◌<◌, ◌≡◌, refl, sym, ap, ◌∙◌, inl, inr, Bool, true, false, not, ◌&&◌,
  Option, none, some, List, [], ◌∷◌, arith, Bool-cases, ◌>>=◌, some_injective, length,
}
use lovax.Lexer.Tokens.{Token, TokenType, end_of_file}
use lovax.Lexer.Layout.{new_lexer, bottom, Lexer, Outcome, emit, again, undefined}
use lovax.Lexer.Scan.{turn, next_token, is_end, tokens_from, tokenize}
use lovax.Lexer.Depth.{next_depth, walk_depth, none_ne_some}
use lovax.Lexer.Balance.{weight, Goes, IsLevel, Emits}
use lovax.Lexer.Switch.{turn-Goes}

-- A call of `nextToken` that ends in a token.
pub record Next (d : ℕ) (l : Lexer) (o : Option (Token × Lexer)) : Type 0 where
  pub token : Token
  pub rest : Lexer
  pub returns : o ≡ some (token, rest)
  pub emits : Emits d l token rest

outcome-Next :
    (d fuel : ℕ) (l : Lexer) (o : Outcome)
    → Goes d l o
    → ((m : Lexer) → IsLevel d m → weight m < weight l → Next d m (next_token fuel m))
    → Next d l (elim o [ emit t m ↦ some (t, m) | again m ↦ next_token fuel m | undefined ↦ none ])
outcome-Next d fuel l (emit t m) g on = record { token = t; rest = m; returns = refl; emits = g }
outcome-Next d fuel l (again m) (level, lt) on =
    let n = on m level lt in
    let e = n.emits in
    record {
      token = n.token;
      rest = n.rest;
      returns = n.returns;
      emits = record {
        after = e.after;
        step = e.step;
        level = e.level;
        lighter = λ h. omega (arith, lt, e.lighter h);
      };
    }
outcome-Next d fuel l undefined g on = elim g [ ]

-- With more fuel than the lexer's weight `nextToken` ends in a token that keeps the invariant.
pub next_token-Next :
    (fuel d : ℕ) (l : Lexer) → weight l < fuel → IsLevel d l → Next d l (next_token fuel l)
unfolding next_token
next_token-Next zero d l h inv = absurd (omega (arith, h))
next_token-Next (suc fuel) d l h inv =
    outcome-Next d fuel l (turn l) (turn-Goes d l inv)
      (λ m v lt. next_token-Next fuel d m (omega (arith, h, lt)) v)

-- The end of the file comes last, and only there.
abbrev pub ends_once : List Token → Bool
ends_once [] = false
ends_once (t ∷ []) = is_end t.type
ends_once (t ∷ u ∷ ts) = not (is_end t.type) && ends_once (u ∷ ts)

-- A list of tokens in which every DEDENT closes an INDENT, every INDENT is closed before the end
-- of the file, and the end of the file is the last token.
pub record Tokenizes (d : ℕ) (o : Option (List Token)) : Type 0 where
  pub tokens : List Token
  pub returns : o ≡ some tokens
  pub balanced : walk_depth d tokens ≡ some 0
  pub ended : ends_once tokens ≡ true

end_depth : (t : TokenType) (d x : ℕ) → is_end t ≡ true → next_depth t d ≡ some x → x ≡ 0
end_depth end_of_file zero x h e = sym (some_injective e)
end_depth end_of_file (suc d) x h e = absurd (none_ne_some e)
end_depth _ d x h e = absurd (cc)

ends_once-cons :
    (t : Token) (ts : List Token)
    → is_end t.type ≡ false
    → ends_once ts ≡ true
    → ends_once (t ∷ ts) ≡ true
ends_once-cons t [] n h = absurd (cc)
ends_once-cons t (u ∷ ts) n h = rw n h

tokens_from-Tokenizes :
    (fuel d : ℕ) (l : Lexer) → weight l < fuel → IsLevel d l → Tokenizes d (tokens_from fuel l)
unfolding tokens_from
tokens_from-Tokenizes zero d l h inv = absurd (omega (arith, h))
tokens_from-Tokenizes (suc fuel) d l h inv =
    let n = next_token-Next (suc fuel) d l h inv in
    let t = n.token in
    let e = n.emits in
    rw n.returns (elim (Bool-cases (is_end t.type)) [
      | inl y ↦ rw y (record {
        tokens = t ∷ [];
        returns = refl;
        balanced =
            ap (λ (o : Option ℕ). o >>= λ x. walk_depth x []) e.step
            ∙ ap some (end_depth t.type d e.after y e.step);
        ended = y;
      })
      | inr m ↦
          let rest =
            tokens_from-Tokenizes fuel e.after n.rest (omega (arith, h, e.lighter m)) e.level in
          rw (m, rest.returns)
            (record {
              tokens = t ∷ rest.tokens;
              returns = refl;
              balanced =
                  ap (λ (o : Option ℕ). o >>= λ x. walk_depth x rest.tokens) e.step ∙ rest.balanced;
              ended = ends_once-cons t rest.tokens m rest.ended;
            })
    ])

-- The lexer ends on every input, without reading the back of an empty indentation stack, in
-- tokens of which the end of the file is the last and only the last; every DEDENT closes an
-- INDENT, and every INDENT is closed before the end of the file.
pub tokenize-Tokenizes : (input : List ℕ) → Tokenizes 0 (tokenize input)
unfolding tokenize bottom
tokenize-Tokenizes input =
    tokens_from-Tokenizes (3 * length input + 4) 0 (new_lexer input) (omega arith)
      (record { grounded = refl; level = refl })
