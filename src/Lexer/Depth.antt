-- ===== src/Lexer/Depth.antt =====
-- The block depth that the INDENT and DEDENT tokens of src/lexer/lexer.hpp open and close.
use lovax.Base.{
  ℕ, zero, suc, ◌≡◌, refl, sym, ap, ◌∙◌, ◌≢◌, inl, inr, Bool, true, false, ◌&&◌, Option, none, some,
  List, [], ◌∷◌, ◌++◌, arith, Bool-cases, Option-cases, ◌>>=◌,
}
use lovax.Lexer.Tokens.{Token, TokenType, end_of_file, indent, dedent}
use lovax.Base.Text.{bytes_equal}
use lovax.Lexer.Tables.{keywords, lookup, lookup_ident}

-- The depth after a token: none for a DEDENT that closes no block, and for an end of the file
-- inside a block.
abbrev pub next_depth : TokenType → ℕ → Option ℕ
next_depth indent d = some (suc d)
next_depth dedent zero = none
next_depth dedent (suc d) = some d
next_depth end_of_file zero = some 0
next_depth end_of_file (suc d) = none
next_depth _ d = some d

abbrev pub walk_depth : ℕ → List Token → Option ℕ
walk_depth d [] = some d
walk_depth d (t ∷ ts) = next_depth t.type d >>= λ e. walk_depth e ts

-- A token that neither opens nor closes a block, nor ends the file.
abbrev pub is_plain : TokenType → Bool
is_plain indent = false
is_plain dedent = false
is_plain end_of_file = false
is_plain _ = true

pub next_depth-plain : (t : TokenType) (d : ℕ) → is_plain t ≡ true → next_depth t d ≡ some d
next_depth-plain indent d h = absurd (cc)
next_depth-plain dedent d h = absurd (cc)
next_depth-plain end_of_file d h = absurd (cc)
next_depth-plain _ d h = refl

all_plain : List (List ℕ × TokenType) → Bool
all_plain [] = true
all_plain ((k, t) ∷ table) = is_plain t && all_plain table

lookup_plain :
    (table : List (List ℕ × TokenType)) (s : List ℕ)
    → all_plain table ≡ true
    → is_plain (lookup table s) ≡ true
unfolding all_plain
lookup_plain [] s h = refl
lookup_plain ((k, t) ∷ table) s h =
    let rest = lookup_plain table s in
    elim (Bool-cases (is_plain t)) [
      | inl p ↦ elim (Bool-cases (bytes_equal k s)) [
        | inl y ↦ rw y p
        | inr n ↦ rw n (rest (ground (arith, p, h)))
      ]
      | inr q ↦ absurd (ground (arith, q, h))
    ]

pub lookup_ident_plain : (s : List ℕ) → is_plain (lookup_ident s) ≡ true
unfolding lookup_ident all_plain
lookup_ident_plain s = lookup_plain keywords s refl

pub none_ne_some : {n : ℕ} → none ≢ some n
none_ne_some = cc

pub walk_depth-append :
    (d e : ℕ) (ts us : List Token)
    → walk_depth d ts ≡ some e
    → walk_depth d (ts ++ us) ≡ walk_depth e us
walk_depth-append d e [] us h = ap (λ (o : Option ℕ). o >>= λ x. walk_depth x us) h
walk_depth-append d e (t ∷ ts) us h = elim (Option-cases (next_depth t.type d)) [
  | inl n ↦ absurd (none_ne_some (sym (ap (λ (o : Option ℕ). o >>= λ x. walk_depth x ts) n) ∙ h))
  | inr (x, y) ↦
      ap (λ (o : Option ℕ). o >>= λ z. walk_depth z (ts ++ us)) y
      ∙ walk_depth-append x e ts us (sym (ap (λ (o : Option ℕ). o >>= λ z. walk_depth z ts) y) ∙ h)
]
