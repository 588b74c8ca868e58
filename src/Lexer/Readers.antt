-- ===== src/Lexer/Readers.antt =====
-- The readers of literals of src/lexer/lexer.hpp, their tokens and positions.
use lovax.Base.{
  ℕ, ◌≤◌, ◌<◌, ◌≡◌, refl, inl, inr, Bool, true, false, not, ◌&&◌, ◌||◌, List, [], ◌∷◌, arith, ◌==◌,
  if◌then◌else◌, Bool-cases, length,
}
use lovax.Lexer.Tokens.{Place, Token, int, float}
use lovax.Lexer.Cursor.{
  char_at, tail, read_char, read_chars, is_letter, is_digit, is_hex_digit, Cursor,
}
use lovax.Lexer.Numbers.{
  digits_from, mantissa_from, is_sign, begins_exponent, digits_after, read_exponent, finish_number,
  read_decimal, is_binary_digit, read_radix, read_number,
}
use lovax.Lexer.Strings.{
  outermost, stops_line, stops_block, string_from, finish_string, read_string,
  read_multiline_string,
}
use lovax.Lexer.Shrink.{length-read_chars, length-digits_from, mantissa_first, length-string_from}
use lovax.Lexer.Depth.{is_plain}

-- A token, and the position after it.
pub record Reads (s : List ℕ) (t : Token) (c : Cursor) : Type 0 where
  pub plain : is_plain t.type ≡ true
  pub forward : length c.rest < length s

digits_after_forward :
    (prefix : List ℕ) (c : Cursor) → length (digits_after prefix c).1.rest ≤ length c.rest
digits_after_forward prefix c = length-digits_from is_digit c.rest c.place

read_exponent_forward : (c : Cursor) → length (read_exponent c).1.rest ≤ length c.rest
unfolding read_exponent
read_exponent_forward c = elim (Bool-cases (is_sign (char_at (tail c.rest)))) [
  | inl y ↦ rw y (omega (arith, digits_after_forward _ (read_chars 2 c), length-read_chars 2 c))
  | inr n ↦ rw n (omega (arith, digits_after_forward _ (read_char c), length-read_chars 1 c))
]

number_type : (has_dot : Bool) → is_plain (if has_dot then float else int) ≡ true
number_type true = refl
number_type false = refl

finish_number-Reads :
    (at : Place) (has_dot bad : Bool) (ds : List ℕ) (c : Cursor) (s : List ℕ)
    → length c.rest < length s
    → Reads s (finish_number at has_dot bad ds c).0 (finish_number at has_dot bad ds c).1
unfolding finish_number
finish_number-Reads at f true ds c s h = record { plain = refl; forward = h }
finish_number-Reads at f false ds c s h =
    elim (Bool-cases (
      char_at c.rest == b'j'
      && not (is_letter (char_at (tail c.rest)))
      && not (is_digit (char_at (tail c.rest))))) [
        | inl y ↦ rw y (record { plain = refl; forward = omega (arith, length-read_chars 1 c) })
        | inr n ↦ rw n (record { plain = number_type f; forward = h })
      ]

read_decimal-Reads :
    (c : Cursor)
    → is_digit (char_at c.rest) ≡ true
    → Reads c.rest (read_decimal c).0 (read_decimal c).1
unfolding read_decimal
read_decimal-Reads c y =
    let m = mantissa_from c.rest c.place false false [] in
    let first = mantissa_first c.rest c.place y in
    elim (Bool-cases (begins_exponent m.cursor.rest)) [
      | inl y ↦ rw y (
          finish_number-Reads c.place true m.bad_format _ (read_exponent m.cursor).1 c.rest
            (omega (arith, first, read_exponent_forward m.cursor)))
      | inr n ↦
          rw n (finish_number-Reads c.place m.is_float m.bad_format m.digits m.cursor c.rest first)
    ]

read_radix-Reads :
    (radix : ℕ) (p : ℕ → Bool) (c : Cursor)
    → 0 < length c.rest
    → Reads c.rest (read_radix radix p c).0 (read_radix radix p c).1
unfolding read_radix
read_radix-Reads radix p c h =
    let d = read_chars 2 c in
    let run = digits_from p d.rest d.place in
    let on : length run.1.rest < length c.rest =
      omega (arith, length-digits_from p d.rest d.place, length-read_chars 2 c) in
    elim (Bool-cases (length run.0 == 0)) [
      | inl y ↦ rw y (record { plain = refl; forward = on })
      | inr n ↦
          rw n
            (elim (Bool-cases (is_digit (char_at run.1.rest) || is_letter (char_at run.1.rest))) [
              | inl y ↦ rw y (record { plain = refl; forward = on })
              | inr n ↦ rw n (record { plain = refl; forward = on })
            ])
    ]

digit_there : (s : List ℕ) → is_digit (char_at s) ≡ true → 0 < length s
digit_there [] y = absurd (cc)
digit_there (c ∷ r) y = omega arith

pub read_number-Reads :
    (c : Cursor)
    → is_digit (char_at c.rest) ≡ true
    → Reads c.rest (read_number c).0 (read_number c).1
unfolding read_number
read_number-Reads c y =
    let radix = char_at (tail c.rest) in
    let there = digit_there c.rest y in
    elim (Bool-cases (char_at c.rest == b'0' && (radix == b'x' || radix == b'X'))) [
      | inl hex ↦ rw hex (read_radix-Reads radix is_hex_digit c there)
      | inr n ↦
          rw n (elim (Bool-cases (char_at c.rest == b'0' && (radix == b'b' || radix == b'B'))) [
            | inl bin ↦ rw bin (read_radix-Reads radix is_binary_digit c there)
            | inr n ↦ rw n (read_decimal-Reads c y)
          ])
    ]

finish_string-Reads :
    (at : Place) (bytes : List ℕ) (c : Cursor) (s : List ℕ)
    → length c.rest < length s
    → Reads s (finish_string at bytes c).0 (finish_string at bytes c).2
unfolding finish_string
finish_string-Reads at bytes c s h =
    let one = length-read_chars 1 c in
    elim (Bool-cases (char_at c.rest == b'"')) [
      | inl y ↦ rw y (record { plain = refl; forward = omega (arith, one) })
      | inr n ↦ rw n (elim (Bool-cases (char_at c.rest == 0)) [
        | inl y ↦ rw y (record { plain = refl; forward = h })
        | inr n ↦ rw n (record { plain = refl; forward = omega (arith, one) })
      ])
    ]

pub read_string-Reads :
    (c : Cursor) → 0 < length c.rest → Reads c.rest (read_string c).0 (read_string c).2
unfolding read_string
read_string-Reads c h =
    let d = read_char c in
    let run = string_from stops_line outermost d.rest d.place in
    finish_string-Reads c.place run.0 run.1 c.rest
      (omega (arith, length-string_from stops_line outermost d.rest d.place, length-read_chars 1 c))

pub read_multiline_string-Reads :
    (c : Cursor)
    → 0 < length c.rest
    → Reads c.rest (read_multiline_string c).0 (read_multiline_string c).1
unfolding read_multiline_string
read_multiline_string-Reads c h =
    let d = read_chars 3 c in
    let run = string_from stops_block outermost d.rest d.place in
    let on : length run.1.rest < length c.rest =
      omega
        (arith, length-string_from stops_block outermost d.rest d.place, length-read_chars 3 c) in
    elim (Bool-cases (char_at run.1.rest == 0)) [
      | inl y ↦ rw y (record { plain = refl; forward = on })
      | inr n ↦
          rw n (record { plain = refl; forward = omega (arith, on, length-read_chars 3 run.1) })
    ]
