-- ===== src/Lexer/Strings.antt =====
-- `readString` and `readMultilineString` of src/lexer/lexer.hpp. Their loops read one character
-- a turn here: the character after a backslash has a turn of its own, with `escaped` set.
use lovax.Base.{
  ℕ, ◌+◌, ◌-◌, Bool, true, false, not, ◌&&◌, ◌||◌, List, [], ◌∷◌, ltb, ◌==◌, if◌then◌else◌,
}
use lovax.Lexer.Tokens.{
  Place, Token, illegal, string, unterminated_string, unterminated_multiline, text, message,
}
use lovax.Lexer.Cursor.{char_at, tail, pass, read_char, read_chars, Cursor}
use lovax.Lexer.Numbers.{make_token}

pub record Mode : Type 0 where
  pub brace_depth : ℕ
  pub inner_quote : Bool
  pub escaped : Bool

abbrev pub outermost : Mode
outermost = record { brace_depth = 0; inner_quote = false; escaped = false }

unfoldable pub next_mode : Mode → ℕ → Mode
next_mode m c =
    if m.escaped
    then record m { escaped = false }
    else if c == b'\\'
    then record m { escaped = true }
    else if m.inner_quote
    then record m { inner_quote = not (c == b'"') }
    else if c == b'{'
    then record m { brace_depth = m.brace_depth + 1 }
    else if c == b'}'
    then record m { brace_depth = m.brace_depth - 1 }
    else record m { inner_quote = c == b'"' && ltb 0 m.brace_depth }

-- A quote that is neither escaped nor in an interpolation.
abbrev pub closes : Mode → ℕ → Bool
closes m c = not m.escaped && not m.inner_quote && c == b'"' && m.brace_depth == 0

-- Where the loops stop: on `c`, with `r` after it.
abbrev pub stops_line : Mode → ℕ → List ℕ → Bool
stops_line m c r = c == 0 || (c == b'\n' && not m.escaped) || closes m c

abbrev pub stops_block : Mode → ℕ → List ℕ → Bool
stops_block m c r = c == 0 || (closes m c && char_at r == b'"' && char_at (tail r) == b'"')

-- The bytes of the string, and the position at which its loop stops.
unfoldable pub string_from : (Mode → ℕ → List ℕ → Bool) → Mode → List ℕ → Place → List ℕ × Cursor
string_from stops m [] at = ([], record { rest = []; place = at })
string_from stops m (c ∷ r) at =
    let (bytes, next) = string_from stops (next_mode m c) r (pass c at) in
    if stops m c r then ([], record { rest = c ∷ r; place = at }) else (c ∷ bytes, next)

-- After the loop of `readString`: the token, whether a line begins, and the position.
unfoldable pub finish_string : Place → List ℕ → Cursor → Token × Bool × Cursor
finish_string at bytes c =
    let ch = char_at c.rest in
    if ch == b'"' then (make_token string (text bytes) at, false, read_char c) else (
      make_token illegal (message unterminated_string) at,
      ch == b'\n',
      if ch == 0 then c else read_char c,
    )

unfoldable pub read_string : Cursor → Token × Bool × Cursor
unfolding string_from next_mode finish_string
read_string c =
    let d = read_char c in
    let (bytes, next) = string_from stops_line outermost d.rest d.place in
    finish_string c.place bytes next

unfoldable pub read_multiline_string : Cursor → Token × Cursor
unfolding string_from next_mode
read_multiline_string c =
    let d = read_chars 3 c in
    let (bytes, next) = string_from stops_block outermost d.rest d.place in
    if char_at next.rest == 0
    then (make_token illegal (message unterminated_multiline) c.place, next)
    else (make_token string (text bytes) c.place, read_chars 3 next)
