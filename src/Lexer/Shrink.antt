-- ===== src/Lexer/Shrink.antt =====
-- How far the loops of Lexer.Cursor and the readers of Lexer.Numbers and Lexer.Strings, all of
-- src/lexer/lexer.hpp, read.
use lovax.Base.{
  ℕ, zero, suc, ◌-◌, ◌≤◌, ◌<◌, ◌≡◌, refl, ◌≢◌, inl, inr, Bool, true, false, List, [], ◌∷◌, arith,
  ◌==◌, Bool-cases, length,
}
use lovax.Lexer.Tokens.{Place}
use lovax.Lexer.Cursor.{
  char_at, tail, pass, read_char, read_chars, is_digit, skip_while, take_while, begins_hashes,
  block_from, count_spaces, Cursor,
}
use lovax.Lexer.Numbers.{digits_from, in_number, mantissa_from}
use lovax.Lexer.Strings.{next_mode, string_from, Mode}

pub length-tail : (s : List ℕ) → length (tail s) ≡ length s - 1
length-tail [] = refl
length-tail (c ∷ r) = omega arith

pub length-read_chars : (n : ℕ) (c : Cursor) → length (read_chars n c).rest ≡ length c.rest - n
length-read_chars zero c = omega arith
length-read_chars (suc n) c = omega (arith, length-read_chars n (read_char c), length-tail c.rest)

-- A character that is not 0 is there to be read.
pub char_at_nonzero : (s : List ℕ) → char_at s ≢ 0 → 0 < length s
char_at_nonzero [] h = absurd (h refl)
char_at_nonzero (c ∷ r) h = omega arith

pub length-skip_while :
    (p : ℕ → Bool) (s : List ℕ) (at : Place) → length (skip_while p s at).rest ≤ length s
unfolding skip_while
length-skip_while p [] at = omega arith
length-skip_while p (c ∷ r) at = elim (Bool-cases (p c)) [
  | inl y ↦ rw y (omega (arith, length-skip_while p r (pass c at)))
  | inr n ↦ rw n (omega arith)
]

pub length-take_while :
    (p : ℕ → Bool) (s : List ℕ) (at : Place) → length (take_while p s at).1.rest ≤ length s
unfolding take_while
length-take_while p [] at = omega arith
length-take_while p (c ∷ r) at = elim (Bool-cases (p c)) [
  | inl y ↦ rw y (omega (arith, length-take_while p r (pass c at)))
  | inr n ↦ rw n (omega arith)
]

pub take_while_first :
    (p : ℕ → Bool) (s : List ℕ) (at : Place)
    → p (char_at s) ≡ true
    → 0 < length s
    → length (take_while p s at).1.rest < length s
unfolding take_while
take_while_first p [] at y h = h
take_while_first p (c ∷ r) at y h = rw y (omega (arith, length-take_while p r (pass c at)))

pub length-block_from : (s : List ℕ) (at : Place) → length (block_from s at).rest ≤ length s
unfolding block_from
length-block_from [] at = omega arith
length-block_from (c ∷ r) at = elim (Bool-cases (c == 0)) [
  | inl y ↦ rw y (omega arith)
  | inr n ↦ rw n (elim (Bool-cases (begins_hashes (c ∷ r))) [
    | inl y ↦ rw y (omega (arith, length-tail r, length-tail (tail r)))
    | inr n ↦ rw n (omega (arith, length-block_from r (pass c at)))
  ])
]

pub length-count_spaces :
    (s : List ℕ) (at : Place)
    → (length (count_spaces s at).1.rest ≤ length s)
      × (0 < (count_spaces s at).0 → length (count_spaces s at).1.rest < length s)
unfolding count_spaces
length-count_spaces [] at = (omega arith, λ h. h)
length-count_spaces (c ∷ r) at =
    let (le, lt) = length-count_spaces r (pass c at) in
    elim (Bool-cases (c == b' ')) [
      | inl y ↦ rw y (omega arith, λ h. omega arith)
      | inr n ↦ rw n (elim (Bool-cases (c == b'\t')) [
        | inl y ↦ rw y (omega arith, λ h. omega arith)
        | inr n ↦ rw n (omega arith, λ h. omega arith)
      ])
    ]

pub length-digits_from :
    (p : ℕ → Bool) (s : List ℕ) (at : Place) → length (digits_from p s at).1.rest ≤ length s
unfolding digits_from
length-digits_from p [] at = omega arith
length-digits_from p (c ∷ r) at = elim (Bool-cases (c == b'_')) [
  | inl y ↦ rw y (omega (arith, length-digits_from p r (pass c at)))
  | inr n ↦ rw n (elim (Bool-cases (p c)) [
    | inl y ↦ rw y (omega (arith, length-digits_from p r (pass c at)))
    | inr n ↦ rw n (omega arith)
  ])
]

pub length-mantissa_from :
    (s : List ℕ) (at : Place) (has_dot bad : Bool) (digits : List ℕ)
    → length (mantissa_from s at has_dot bad digits).cursor.rest ≤ length s
unfolding mantissa_from
length-mantissa_from [] at f b ds = omega arith
length-mantissa_from (c ∷ r) at f b ds = elim (Bool-cases (in_number c r)) [
  | inl y ↦ rw y (omega (arith, length-mantissa_from r (pass c at) _ _ _))
  | inr n ↦ rw n (omega arith)
]

pub mantissa_first :
    (s : List ℕ) (at : Place)
    → is_digit (char_at s) ≡ true
    → length (mantissa_from s at false false []).cursor.rest < length s
unfolding mantissa_from
mantissa_first [] at y = absurd (cc)
mantissa_first (c ∷ r) at y = rw y (omega (arith, length-mantissa_from r (pass c at) _ _ _))

pub length-string_from :
    (stops : Mode → ℕ → List ℕ → Bool) (m : Mode) (s : List ℕ) (at : Place)
    → length (string_from stops m s at).1.rest ≤ length s
unfolding string_from
length-string_from stops m [] at = omega arith
length-string_from stops m (c ∷ r) at = elim (Bool-cases (stops m c r)) [
  | inl y ↦ rw y (omega arith)
  | inr n ↦ rw n (omega (arith, length-string_from stops (next_mode m c) r (pass c at)))
]
