-- ===== src/Lexer/Text.antt =====
-- `readString` of src/lexer/lexer.hpp.
use lovax.Base.{
  ℕ, ◌+◌, ◌-◌, ◌<◌, ◌≡◌, refl, ap, ◌≢◌, ◌⊎◌, inl, inr, Bool, true, false, List, [], ◌∷◌, ◌++◌,
  arith, ◌==◌, lt→ltb,
}
use lovax.Lexer.Tokens.{Place, string, text}
use lovax.Lexer.Cursor.{pass, Cursor}
use lovax.Lexer.Numbers.{make_token}
use lovax.Lexer.Strings.{next_mode, stops_line, string_from, finish_string, read_string, Mode}

-- A character of a string that has no meaning there; braces have none in an inner string.
abbrev pub IsPlain : Bool → ℕ → Type 0
IsPlain inner c =
    (c ≢ 0) × (c ≢ b'\n') × (c ≢ b'\\') × (c ≢ b'"') × ((inner ≡ true) ⊎ ((c ≢ b'{') × (c ≢ b'}')))

-- The bytes of a string up to its end, in so many braces and in an inner string or not. An inner
-- string can only begin in braces, and the string ends in neither.
pub data Content : ℕ → Bool → List ℕ → Type 0 where
  ended : Content 0 false []
  escape :
      {d c : ℕ} {inner : Bool} {s : List ℕ}
      → c ≢ 0
      → Content d inner s
      → Content d inner (b'\\' ∷ c ∷ s)
  opened : {d : ℕ} {s : List ℕ} → Content (d + 1) false s → Content d false (b'{' ∷ s)
  closed : {d : ℕ} {s : List ℕ} → Content (d - 1) false s → Content d false (b'}' ∷ s)
  enter : {d : ℕ} {s : List ℕ} → 0 < d → Content d true s → Content d false (b'"' ∷ s)
  leave : {d : ℕ} {s : List ℕ} → Content d false s → Content d true (b'"' ∷ s)
  plain :
      {d c : ℕ} {inner : Bool} {s : List ℕ}
      → IsPlain inner c
      → Content d inner s
      → Content d inner (c ∷ s)

abbrev pub mode : ℕ → Bool → Mode
mode d inner = record { brace_depth = d; inner_quote = inner; escaped = false }

abbrev pub behind_backslash : ℕ → Bool → Mode
behind_backslash d inner = record { brace_depth = d; inner_quote = inner; escaped = true }

differs : (a b : ℕ) → a ≢ b → (a == b) ≡ false
differs a b n = ground (arith, n)

-- The turns of the loop.
plain-stops :
    (d : ℕ) (inner : Bool) (c : ℕ) (r : List ℕ)
    → IsPlain inner c
    → stops_line (mode d inner) c r ≡ false
plain-stops d inner c r (zero_n, line_n, back_n, quote_n, brace) =
    ground (arith, zero_n, line_n, quote_n)

plain-next :
    (d : ℕ) (inner : Bool) (c : ℕ) → IsPlain inner c → next_mode (mode d inner) c ≡ mode d inner
unfolding next_mode
plain-next d true c (zero_n, line_n, back_n, quote_n, brace) =
    rw (differs c b'\\' back_n, differs c b'"' quote_n) refl
plain-next d false c (zero_n, line_n, back_n, quote_n, inl e) = absurd (cc)
plain-next d false c (zero_n, line_n, back_n, quote_n, inr (o, k)) =
    rw (differs c b'\\' back_n, differs c b'{' o, differs c b'}' k, differs c b'"' quote_n) refl

backslash-stops : (d : ℕ) (inner : Bool) (r : List ℕ) → stops_line (mode d inner) b'\\' r ≡ false
backslash-stops d true r = refl
backslash-stops d false r = refl

backslash-next : (d : ℕ) (inner : Bool) → next_mode (mode d inner) b'\\' ≡ behind_backslash d inner
unfolding next_mode
backslash-next d inner = refl

escaped-stops :
    (d : ℕ) (inner : Bool) (c : ℕ) (r : List ℕ)
    → c ≢ 0
    → stops_line (behind_backslash d inner) c r ≡ false
escaped-stops d inner c r n = ground (arith, n)

enter-stops : (d : ℕ) (r : List ℕ) → 0 < d → stops_line (mode d false) b'"' r ≡ false
enter-stops d r h = ground (arith, h)

enter-next : (d : ℕ) → 0 < d → next_mode (mode d false) b'"' ≡ mode d true
unfolding next_mode
enter-next d h = rw (lt→ltb 0 d h) refl

-- The loop takes `s` and stops before `rest`.
abbrev Takes : List ℕ → List ℕ → List ℕ × Cursor → Type 0
Takes s rest (bytes, next) = (bytes ≡ s) × (next.rest ≡ rest)

module _ (rest : List ℕ) where
  one_more :
      (m m' : Mode) (c : ℕ) (s : List ℕ) (at : Place)
      → stops_line m c (s ++ rest) ≡ false
      → next_mode m c ≡ m'
      → Takes s rest (string_from stops_line m' (s ++ rest) (pass c at))
      → Takes (c ∷ s) rest (string_from stops_line m (c ∷ s ++ rest) at)
  unfolding string_from
  one_more m m' c s at n e (taken, left) = rw (n, e) (ap (λ (x : List ℕ). c ∷ x) taken, left)

module _ (rest : List ℕ) where
  pub Content-Takes :
      {d : ℕ} {inner : Bool} {s : List ℕ}
      → Content d inner s
      → (at : Place)
      → Takes s (b'"' ∷ rest) (string_from stops_line (mode d inner) (s ++ b'"' ∷ rest) at)
  unfolding next_mode string_from
  Content-Takes ended at = (refl, refl)
  Content-Takes (escape {d} {c} {inner} {s} n x) at =
      one_more (b'"' ∷ rest) (mode d inner) (behind_backslash d inner) b'\\' (c ∷ s) at
        (backslash-stops d inner []) (backslash-next d inner)
        (one_more (b'"' ∷ rest) (behind_backslash d inner) (mode d inner) c s (pass b'\\' at)
          (escaped-stops d inner c [] n) refl (Content-Takes x (pass c (pass b'\\' at))))
  Content-Takes (opened {d} {s} x) at =
      one_more (b'"' ∷ rest) (mode d false) (mode (d + 1) false) b'{' s at refl refl
        (Content-Takes x (pass b'{' at))
  Content-Takes (closed {d} {s} x) at =
      one_more (b'"' ∷ rest) (mode d false) (mode (d - 1) false) b'}' s at refl refl
        (Content-Takes x (pass b'}' at))
  Content-Takes (enter {d} {s} h x) at =
      one_more (b'"' ∷ rest) (mode d false) (mode d true) b'"' s at (enter-stops d [] h)
        (enter-next d h) (Content-Takes x (pass b'"' at))
  Content-Takes (leave {d} {s} x) at =
      one_more (b'"' ∷ rest) (mode d true) (mode d false) b'"' s at refl refl
        (Content-Takes x (pass b'"' at))
  Content-Takes (plain {d} {c} {inner} {s} p x) at =
      one_more (b'"' ∷ rest) (mode d inner) (mode d inner) c s at (plain-stops d inner c [] p)
        (plain-next d inner c p) (Content-Takes x (pass c at))

  -- If the bytes of a string and a quote follow a quote, readString gives the string token with
  -- just these bytes and leaves the input behind the closing quote.
  pub Content-read_string :
      (s : List ℕ) (at : Place)
      → Content 0 false s
      → ((read_string (record { rest = b'"' ∷ s ++ b'"' ∷ rest; place = at })).0
          ≡ make_token string (text s) at)
        × ((read_string (record { rest = b'"' ∷ s ++ b'"' ∷ rest; place = at })).2.rest ≡ rest)
  unfolding read_string finish_string
  Content-read_string s at x =
      let (taken, left) = Content-Takes x (pass b'"' at) in rw (left, taken) (refl, refl)
