-- ===== src/Lexer/Numbers.antt =====
-- `readNumber` of src/lexer/lexer.hpp.
use lovax.Base.{
  ℕ, Bool, true, false, not, ◌&&◌, ◌||◌, List, [], ◌∷◌, ◌++◌, ◌==◌, if◌then◌else◌, length,
}
use lovax.Lexer.Tokens.{
  Place, Token, TokenType, illegal, int, float, imaginary, digits_missing, invalid_number, Literal,
  text, message,
}
use lovax.Lexer.Cursor.{
  char_at, tail, pass, read_char, read_chars, is_letter, is_digit, is_hex_digit, Cursor,
}

-- The digits of a run of digits and underscores.
unfoldable pub digits_from : (ℕ → Bool) → List ℕ → Place → List ℕ × Cursor
digits_from p [] at = ([], record { rest = []; place = at })
digits_from p (c ∷ r) at =
    let (digits, next) = digits_from p r (pass c at) in
    if c == b'_'
    then (digits, next)
    else if p c
    then (c ∷ digits, next)
    else ([], record { rest = c ∷ r; place = at })

pub record Mantissa : Type 0 where
  pub digits : List ℕ
  pub is_float : Bool
  pub bad_format : Bool
  pub cursor : Cursor

-- Whether the loop goes on at `c`: a dot is part of the number only if a digit follows.
abbrev pub in_number : ℕ → List ℕ → Bool
in_number c r = is_digit c || c == b'_' || (c == b'.' && is_digit (char_at r))

unfoldable pub mantissa_from : List ℕ → Place → Bool → Bool → List ℕ → Mantissa
mantissa_from [] at has_dot bad digits = record {
  digits = digits;
  is_float = has_dot;
  bad_format = bad;
  cursor = record { rest = []; place = at };
}
mantissa_from (c ∷ r) at has_dot bad digits =
    let dot = c == b'.' in
    let next =
      mantissa_from r (pass c at) (has_dot || dot) (bad || (has_dot && dot))
        (if c == b'_' then digits else digits ++ c ∷ []) in
    if in_number c r then next else record {
      digits = digits;
      is_float = has_dot;
      bad_format = bad;
      cursor = record { rest = c ∷ r; place = at };
    }

abbrev pub is_sign : ℕ → Bool
is_sign c = c == b'+' || c == b'-'

-- Whether an exponent follows: `e` and a digit, or `e`, a sign and a digit.
abbrev pub begins_exponent : List ℕ → Bool
begins_exponent s =
    (char_at s == b'e' || char_at s == b'E')
    && (is_digit (char_at (tail s))
        || (is_sign (char_at (tail s)) && is_digit (char_at (tail (tail s)))))

abbrev pub digits_after : List ℕ → Cursor → List ℕ × Cursor
digits_after prefix c =
    let (digits, next) = digits_from is_digit c.rest c.place in (prefix ++ digits, next)

-- The text of the exponent, and the position after it.
unfoldable pub read_exponent : Cursor → List ℕ × Cursor
read_exponent c =
    let e = char_at c.rest ∷ [] in
    let sign = char_at (tail c.rest) in
    if is_sign sign
    then digits_after (e ++ sign ∷ []) (read_chars 2 c)
    else digits_after e (read_char c)

abbrev pub make_token : TokenType → Literal → Place → Token
make_token t l p = record { type = t; literal = l; place = p }

-- The last tests of `readNumber`, on the text that has been read.
unfoldable pub finish_number : Place → Bool → Bool → List ℕ → Cursor → Token × Cursor
finish_number at has_dot bad digits c =
    let after = char_at (tail c.rest) in
    if bad
    then (make_token illegal (message (invalid_number digits)) at, c)
    else if char_at c.rest == b'j' && not (is_letter after) && not (is_digit after)
    then (make_token imaginary (text digits) at, read_char c)
    else (make_token (if has_dot then float else int) (text digits) at, c)

unfoldable pub read_decimal : Cursor → Token × Cursor
unfolding mantissa_from read_exponent finish_number
read_decimal c =
    let m = mantissa_from c.rest c.place false false [] in
    let (exponent, next) = read_exponent m.cursor in
    if begins_exponent m.cursor.rest
    then finish_number c.place true m.bad_format (m.digits ++ exponent) next
    else finish_number c.place m.is_float m.bad_format m.digits m.cursor

abbrev pub is_binary_digit : ℕ → Bool
is_binary_digit c = c == b'0' || c == b'1'

-- Literals that begin with `0x` or `0b`; `radix` is that letter.
unfoldable pub read_radix : ℕ → (ℕ → Bool) → Cursor → Token × Cursor
unfolding digits_from
read_radix radix p c =
    let d = read_chars 2 c in
    let (digits, next) = digits_from p d.rest d.place in
    let after = char_at next.rest in
    let lit = b'0' ∷ radix ∷ digits in
    if length digits == 0
    then (make_token illegal (message (digits_missing lit)) c.place, next)
    else if is_digit after || is_letter after
    then (make_token illegal (message (invalid_number (lit ++ after ∷ []))) c.place, next)
    else (make_token int (text lit) c.place, next)

unfoldable pub read_number : Cursor → Token × Cursor
unfolding read_decimal read_radix
read_number c =
    let radix = char_at (tail c.rest) in
    if char_at c.rest == b'0' && (radix == b'x' || radix == b'X')
    then read_radix radix is_hex_digit c
    else if char_at c.rest == b'0' && (radix == b'b' || radix == b'B')
    then read_radix radix is_binary_digit c
    else read_decimal c
