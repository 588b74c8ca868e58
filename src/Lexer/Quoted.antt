-- ===== src/Lexer/Quoted.antt =====
-- Which inputs `readString` of src/lexer/lexer.hpp takes as strings.
use lovax.Base.{
  ℕ, ◌+◌, ◌-◌, ◌<◌, ◌≡◌, refl, sym, ap, ◌∙◌, ◌≢◌, ◌⊎◌, inl, inr, Bool, true, false, not, ◌&&◌, List,
  [], ◌∷◌, ◌++◌, arith, ltb, ◌==◌, if◌then◌else◌, lt→ltb, Bool-cases,
}
use lovax.Lexer.Tokens.{Place, Token, illegal, string, text}
use lovax.Lexer.Cursor.{char_at, tail, pass, Cursor}
use lovax.Lexer.Numbers.{}
use lovax.Lexer.Strings.{
  outermost, next_mode, stops_line, string_from, finish_string, read_string, Mode,
}
use lovax.Lexer.Text.{
  mode, behind_backslash, Content-Takes, Content, ended, escape, opened, closed, enter, leave,
  plain,
}
use mathlib.Core.Path.{subst}

-- What the loop took behind a character, where that may stand behind a backslash.
abbrev After : Mode → List ℕ → Type 0
After m s = elim m.escaped [
  | false ↦ Content m.brace_depth m.inner_quote s
  | true ↦ (c : ℕ) × (t : List ℕ) × (s ≡ c ∷ t) × (c ≢ 0) × Content m.brace_depth m.inner_quote t
]

quote_stops :
    (d : ℕ) (inner esc : Bool) (c : ℕ) (r : List ℕ)
    → (c == b'"') ≡ true
    → stops_line (record { brace_depth = d; inner_quote = inner; escaped = esc }) c r ≡ true
    → (d ≡ 0) × (inner ≡ false) × (esc ≡ false)
quote_stops d inner esc c r q n = ground (arith, q, n)

not_zero : (m : Mode) (c : ℕ) (r : List ℕ) → stops_line m c r ≡ false → c ≢ 0
not_zero m c r n = ground (arith, n)

not_newline :
    (d : ℕ) (inner : Bool) (c : ℕ) (r : List ℕ) → stops_line (mode d inner) c r ≡ false → c ≢ b'\n'
not_newline d inner c r n = ground (arith, n)

deep : (d c : ℕ) (r : List ℕ) → c ≡ b'"' → stops_line (mode d false) c r ≡ false → 0 < d
deep d c r q n = ground (arith, q, n)

same_char : (c q : ℕ) → (c == q) ≡ true → c ≡ q
same_char c q h = ground (arith, h)

other_char : (c q : ℕ) → (c == q) ≡ false → c ≢ q
other_char c q h = ground (arith, h)

-- A character of the loop before what it took.
inner_step :
    (d c : ℕ) (r s : List ℕ)
    → stops_line (mode d true) c r ≡ false
    → c ≢ b'\\'
    → Content d (not (c == b'"')) s
    → Content d true (c ∷ s)
inner_step d c r s n back x = elim (Bool-cases (c == b'"')) [
  | inl y ↦
      subst (λ (k : ℕ). Content d true (k ∷ s)) (sym (same_char c b'"' y))
        (leave (subst (λ (b : Bool). Content d (not b) s) y x))
  | inr q ↦
      plain
        (
          not_zero (mode d true) c r n,
          not_newline d true c r n,
          back,
          other_char c b'"' q,
          inl refl,
        )
        (subst (λ (b : Bool). Content d (not b) s) q x)
]

outer_step :
    (d c : ℕ) (r s : List ℕ)
    → stops_line (mode d false) c r ≡ false
    → c ≢ b'\\'
    → c ≢ b'{'
    → c ≢ b'}'
    → Content d (c == b'"' && ltb 0 d) s
    → Content d false (c ∷ s)
outer_step d c r s n back o k x = elim (Bool-cases (c == b'"')) [
  | inl y ↦
      let q = same_char c b'"' y in
      let h = deep d c r q n in
      subst (λ (k : ℕ). Content d false (k ∷ s)) (sym q)
        (enter h (subst (λ (b : Bool). Content d b s) (both y (lt→ltb 0 d h)) x))
  | inr q ↦
      plain
        (
          not_zero (mode d false) c r n,
          not_newline d false c r n,
          back,
          other_char c b'"' q,
          inr (o, k),
        )
        (subst (λ (b : Bool). Content d (b && ltb 0 d) s) q x)
]
  where
    both : {a b : Bool} → a ≡ true → b ≡ true → (a && b) ≡ true
    both h g = cc

After-step :
    (d : ℕ) (inner esc : Bool) (c : ℕ) (r s : List ℕ)
    → stops_line (record { brace_depth = d; inner_quote = inner; escaped = esc }) c r ≡ false
    → After (next_mode (record { brace_depth = d; inner_quote = inner; escaped = esc }) c) s
    → After (record { brace_depth = d; inner_quote = inner; escaped = esc }) (c ∷ s)
unfolding next_mode
After-step d inner true c r s n = λ x. (c, s, refl, not_zero (behind_backslash d inner) c r n, x)
After-step d inner false c r s n = elim (Bool-cases (c == b'\\')) [
  | inl y ↦ rw y (λ (k, t, e, nz, x).
      subst (λ (u : List ℕ). Content d inner (c ∷ u)) (sym e)
        (subst (λ (j : ℕ). Content d inner (j ∷ k ∷ t)) (sym (same_char c b'\\' y)) (escape nz x)))
  | inr b ↦ rw b (in_or_out inner n (other_char c b'\\' b))
]
  where
    in_or_out :
        (i : Bool)
        → stops_line (mode d i) c r ≡ false
        → c ≢ b'\\'
        → After
            (if i
              then record (mode d i) { inner_quote = not (c == b'"') }
              else if c == b'{'
              then record (mode d i) { brace_depth = d + 1 }
              else if c == b'}'
              then record (mode d i) { brace_depth = d - 1 }
              else record (mode d i) { inner_quote = c == b'"' && ltb 0 d })
            s
        → Content d i (c ∷ s)
    in_or_out true n back = λ x. inner_step d c r s n back x
    in_or_out false n back = elim (Bool-cases (c == b'{')) [
      | inl y ↦
          rw y
            (λ x. subst (λ (k : ℕ). Content d false (k ∷ s)) (sym (same_char c b'{' y)) (opened x))
      | inr o ↦ rw o (elim (Bool-cases (c == b'}')) [
        | inl y ↦
            rw y (λ x.
              subst (λ (k : ℕ). Content d false (k ∷ s)) (sym (same_char c b'}' y)) (closed x))
        | inr k ↦
            rw k (λ x. outer_step d c r s n back (other_char c b'{' o) (other_char c b'}' k) x)
      ])
    ]

-- A string literal: the bytes of the token are a string's, and stand in the input before a quote.
pub record Quotes (s : List ℕ) (t : Token) (rest : List ℕ) : Type 0 where
  pub bytes : List ℕ
  pub literal : t.literal ≡ text bytes
  pub content : Content 0 false bytes
  pub quoted : bytes ++ b'"' ∷ rest ≡ s

-- What is taken before a quote.
string_from-After :
    (m : Mode) (s : List ℕ) (at : Place)
    → (char_at (string_from stops_line m s at).1.rest == b'"') ≡ true
    → After m (string_from stops_line m s at).0
unfolding string_from
string_from-After m [] at = λ q. absurd (cc)
string_from-After m (c ∷ r) at = elim (Bool-cases (stops_line m c r)) [
  | inl y ↦ rw y (λ q.
      let (d, inner, esc) = quote_stops m.brace_depth m.inner_quote m.escaped c r q y in
      rw (esc, d, inner) ended)
  | inr n ↦ rw n (λ q.
      After-step m.brace_depth m.inner_quote m.escaped c r _ n
        (string_from-After (next_mode m c) r (pass c at) q))
]

string_from-splits :
    (m : Mode) (s : List ℕ) (at : Place)
    → (string_from stops_line m s at).0 ++ (string_from stops_line m s at).1.rest ≡ s
unfolding string_from
string_from-splits m [] at = refl
string_from-splits m (c ∷ r) at = elim (Bool-cases (stops_line m c r)) [
  | inl y ↦ rw y refl
  | inr n ↦ rw n (ap (λ (s : List ℕ). c ∷ s) (string_from-splits (next_mode m c) r (pass c at)))
]

quote_first : (s : List ℕ) → (char_at s == b'"') ≡ true → b'"' ∷ tail s ≡ s
quote_first [] y = absurd (cc)
quote_first (c ∷ r) y = ap (λ (x : ℕ). x ∷ r) (sym (same_char c b'"' y))

-- A string token and what it is, or the error where no string begins.
abbrev pub Reads : List ℕ → Token × Bool × Cursor → Type 0
Reads s (t, line_start, c) =
    ((t.type ≡ string) × Quotes s t c.rest)
    ⊎ ((t.type ≡ illegal)
        × ((bytes rest : List ℕ) → Content 0 false bytes → bytes ++ b'"' ∷ rest ≢ s))

finish_string-Reads :
    (s : List ℕ) (at : Place)
    → Reads s (
        finish_string at
          (string_from stops_line outermost s (pass b'"' at)).0
          (string_from stops_line outermost s (pass b'"' at)).1)
unfolding finish_string
finish_string-Reads s at = elim (Bool-cases (char_at left == b'"')) [
  | inl y ↦ rw y (
      inl (
        refl,
        record {
          bytes = taken;
          literal = refl;
          content = string_from-After outermost s (pass b'"' at) y;
          quoted =
              ap (λ (x : List ℕ). taken ++ x) (quote_first left y)
              ∙ string_from-splits outermost s (pass b'"' at);
        },
      ))
  | inr n ↦ rw n (
      inr (
        refl,
        λ bytes rest x e.
            let taken_here = (Content-Takes rest x (pass b'"' at)).1 in
            let same : left ≡ b'"' ∷ rest =
              ap (λ (u : List ℕ). (string_from stops_line outermost u (pass b'"' at)).1.rest)
                (sym e)
              ∙ taken_here in
            other_char (char_at left) b'"' n (ap char_at same),
      ))
]
  where
    taken : List ℕ
    taken = (string_from stops_line outermost s (pass b'"' at)).0

    left : List ℕ
    left = (string_from stops_line outermost s (pass b'"' at)).1.rest

-- Behind a quote, readString gives a string token just if bytes of a string and a quote follow:
-- the token has these bytes, and the input goes on behind the closing quote. Else it gives an
-- ILLEGAL token.
pub read_string-Reads :
    (s : List ℕ) (at : Place) → Reads s (read_string (record { rest = b'"' ∷ s; place = at }))
unfolding read_string
read_string-Reads s at = finish_string-Reads s at
