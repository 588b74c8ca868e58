-- ===== src/Regex/Shorter.antt =====
-- What the readers of src/modules/regex.hpp leave of a pattern.
use lovax.Base.{
  ℕ, zero, suc, ◌+◌, ◌-◌, ◌*◌, ◌≤◌, ◌≡◌, inl, inr, Bool, true, false, not, ◌&&◌, Option, none, some,
  List, [], ◌∷◌, arith, ltb, ◌==◌, if◌then◌else◌, Bool-cases, length,
}
use lovax.Regex.Program.{}
use lovax.Regex.Classes.{
  begins, tail, is_digit, read_digits, begins_digit, read_int_bound, read_upper, read_bounds,
  digits, word_chars, spaces, escaped_char, read_item, range_end, Further, ends_range, read_range,
  add_item, class_from, read_class, shorthand, single, ClassResult, class_done, class_failed,
}
use lovax.Regex.Repeated.{OnSome, OnSome-bind}

pub length-tail : (s : List ℕ) → length (tail s) ≤ length s
length-tail [] = omega arith
length-tail (c ∷ rest) = omega arith

pub length-tail_lt : (c : ℕ) (s : List ℕ) → begins c s ≡ true → length (tail s) + 1 ≤ length s
length-tail_lt c [] y = absurd (cc)
length-tail_lt c (b ∷ rest) y = omega arith

read_digits_shorter :
    (v : ℕ) (s : List ℕ)
    → OnSome (λ ((w, rest) : ℕ × List ℕ). length rest ≤ length s) (read_digits v s)
unfolding read_digits
read_digits_shorter v [] = omega arith
read_digits_shorter v (c ∷ s) = elim (Bool-cases (is_digit c)) [
  | inl y ↦ rw y (elim (Bool-cases (ltb 100000 (v * 10 + (c - b'0')))) [
    | inl m ↦ rw m tt
    | inr n ↦ rw n (longer _ (read_digits_shorter (v * 10 + (c - b'0')) s))
  ])
  | inr n ↦ rw n (omega arith)
]
  where
    longer :
        (o : Option (ℕ × List ℕ))
        → OnSome (λ ((w, rest) : ℕ × List ℕ). length rest ≤ length s) o
        → OnSome (λ ((w, rest) : ℕ × List ℕ). length rest ≤ length (c ∷ s)) o
    longer none h = tt
    longer (some (w, rest)) h = omega (arith, h)

read_int_bound_shorter :
    (s : List ℕ) → OnSome (λ ((w, rest) : ℕ × List ℕ). length rest ≤ length s) (read_int_bound s)
unfolding read_int_bound
read_int_bound_shorter s = elim (Bool-cases (begins_digit s)) [
  | inl y ↦ rw y (read_digits_shorter 0 s)
  | inr n ↦ rw n tt
]

read_upper_shorter :
    (lo : ℕ) (s : List ℕ)
    → OnSome (λ ((hi, rest) : Option ℕ × List ℕ). length rest ≤ length s) (read_upper lo s)
unfolding read_upper
read_upper_shorter lo s = elim (Bool-cases (begins b',' s)) [
  | inr n ↦ rw n (omega arith)
  | inl y ↦ rw y (elim (Bool-cases (begins b'}' (tail s))) [
    | inl m ↦ rw m (length-tail s)
    | inr n ↦ rw n (
        OnSome-bind (λ ((w, rest) : ℕ × List ℕ). length rest ≤ length (tail s))
          (λ ((hi, rest) : Option ℕ × List ℕ). length rest ≤ length s) _ _
          (read_int_bound_shorter (tail s)) (λ (w, rest) h. omega (arith, h, length-tail s)))
  ])
]

pub read_bounds_shorter :
    (s : List ℕ)
    → OnSome (λ ((lo, hi, rest) : ℕ × Option ℕ × List ℕ). length rest ≤ length s) (read_bounds s)
unfolding read_bounds
read_bounds_shorter s =
    OnSome-bind (λ ((lo, rest) : ℕ × List ℕ). length rest ≤ length s)
      (λ ((lo, hi, rest) : ℕ × Option ℕ × List ℕ). length rest ≤ length s) _ _
      (read_int_bound_shorter s)
      (λ (lo, after) h.
        OnSome-bind (λ ((hi, rest) : Option ℕ × List ℕ). length rest ≤ length after)
          (λ ((lo, hi, rest) : ℕ × Option ℕ × List ℕ). length rest ≤ length s) _ _
          (read_upper_shorter lo after) (λ (hi, rest) k. closed lo after hi rest h k))
  where
    closed :
        (lo : ℕ) (after : List ℕ) (hi : Option ℕ) (rest : List ℕ)
        → length after ≤ length s
        → length rest ≤ length after
        → OnSome
            (λ ((lo, hi, rest) : ℕ × Option ℕ × List ℕ). length rest ≤ length s)
            (if begins b'}' rest then some (lo, hi, tail rest) else none)
    closed lo after hi rest h k = elim (Bool-cases (begins b'}' rest)) [
      | inl y ↦ rw y (omega (arith, length-tail rest, h, k))
      | inr n ↦ rw n tt
    ]

-- A class that was read leaves at most `n` characters.
abbrev pub Leaves : ℕ → ClassResult → Type 0
Leaves n (class_done cc rest) = length rest ≤ n
Leaves n (class_failed e) = Unit

module _ (next : Further) (n : ℕ)
    (leaves : (ranges : List (ℕ × ℕ)) (rest : List ℕ)
      → length rest ≤ n
      → Leaves n (next ranges rest)) where
  ends_range-Leaves :
      (ranges : List (ℕ × ℕ)) (lo hi : ℕ) (rest : List ℕ)
      → length rest ≤ n
      → Leaves n (ends_range next ranges lo (hi, rest))
  ends_range-Leaves ranges lo hi rest h = elim (Bool-cases (ltb hi lo)) [
    | inl y ↦ rw y tt
    | inr n ↦ rw n (leaves _ rest h)
  ]

  range_end_shorter : (c : ℕ) (rest : List ℕ) → length ((range_end c rest).1) ≤ length rest
  unfolding range_end
  range_end_shorter c [] = omega arith
  range_end_shorter c (e ∷ rest) = elim (Bool-cases (c == b'\\')) [
    | inl y ↦ rw y (omega arith)
    | inr n ↦ rw n (omega arith)
  ]

  read_range-Leaves :
      (ranges : List (ℕ × ℕ)) (lo : ℕ) (rest : List ℕ)
      → length rest ≤ n
      → Leaves n (read_range next ranges lo rest)
  unfolding read_range
  read_range-Leaves ranges lo [] h = leaves _ [] h
  read_range-Leaves ranges lo (dash ∷ []) h = leaves _ (dash ∷ []) h
  read_range-Leaves ranges lo (dash ∷ c ∷ rest) h =
      elim (Bool-cases (dash == b'-' && not (c == b']'))) [
        | inl y ↦ rw y (
            ends_range-Leaves ranges lo ((range_end c rest).0) ((range_end c rest).1)
              (omega (arith, h, range_end_shorter c rest)))
        | inr n ↦ rw n (leaves _ (dash ∷ c ∷ rest) h)
      ]

  read_item-Leaves :
      (ranges : List (ℕ × ℕ)) (c : ℕ) (rest : List ℕ)
      → length rest ≤ n
      → Leaves n (add_item next ranges (read_item c rest))
  unfolding read_item
  read_item-Leaves ranges c [] h = read_range-Leaves ranges c [] h
  read_item-Leaves ranges c (e ∷ rest) h = elim (Bool-cases (c == b'\\')) [
    | inr n ↦ rw n (read_range-Leaves ranges c (e ∷ rest) h)
    | inl y ↦ rw y (escaped (e == b'd') (e == b'w') (e == b's'))
  ]
    where
      escaped :
          (d w s : Bool)
          → Leaves n (
              add_item next ranges (
                if d
                then shorthand digits rest
                else if w
                then shorthand word_chars rest
                else if s
                then shorthand spaces rest
                else single (escaped_char e) rest))
      escaped true w s = leaves _ rest (omega (arith, h))
      escaped false true s = leaves _ rest (omega (arith, h))
      escaped false false true = leaves _ rest (omega (arith, h))
      escaped false false false = read_range-Leaves ranges (escaped_char e) rest (omega (arith, h))

class_from-Leaves :
    (fuel n : ℕ) (negate first : Bool) (ranges : List (ℕ × ℕ)) (s : List ℕ)
    → length s ≤ n
    → Leaves n (class_from fuel negate first ranges s)
unfolding class_from
class_from-Leaves zero n negate first ranges s h = tt
class_from-Leaves (suc fuel) n negate first ranges [] h = tt
class_from-Leaves (suc fuel) n negate first ranges (c ∷ rest) h =
    turn (λ rs s' k. class_from-Leaves fuel n negate false rs s' k) (c == b']' && not first)
  where
    turn :
        ((rs : List (ℕ × ℕ)) (s' : List ℕ)
          → length s' ≤ n
          → Leaves n (class_from fuel negate false rs s'))
        → (ends : Bool)
        → Leaves n (elim ends [
          | true ↦ class_done (record { negate = negate; ranges = ranges }) rest
          | false ↦ add_item (class_from fuel negate false) ranges (read_item c rest)
        ])
    turn leaves true = omega (arith, h)
    turn leaves false =
        read_item-Leaves (class_from fuel negate false) n leaves ranges c rest (omega (arith, h))

pub read_class-Leaves : (s : List ℕ) → Leaves (length s) (read_class s)
unfolding read_class
read_class-Leaves s = elim (Bool-cases (begins b'^' s)) [
  | inl y ↦ rw y (class_from-Leaves (length s) (length s) true true [] (tail s) (length-tail s))
  | inr n ↦ rw n (class_from-Leaves (length s) (length s) false true [] s (omega arith))
]
