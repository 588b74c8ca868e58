-- ===== src/Regex/Classes.antt =====
-- The parts of the pattern compiler of src/modules/regex.hpp that emit no code: the bounds of a
-- repetition, and the classes `[...]`.
use lovax.Base.{
  ℕ, zero, suc, ◌+◌, ◌-◌, ◌*◌, Bool, true, false, not, ◌&&◌, ◌||◌, Option, none, some, List, [],
  ◌∷◌, ◌++◌, ltb, leb, ◌==◌, if◌then◌else◌, ◌>>=◌, length,
}
use lovax.Regex.Program.{CharClass}

-- The messages of `fail`.
pub data Error : Type 0 where
  pattern_too_large unexpected_paren repetition_out_of_range pattern_ended : Error
  too_many_groups missing_paren invalid_class_range missing_bracket dangling_backslash : Error
  misplaced : ℕ → Error

-- `i < pat.size() && pat[i] == c`
abbrev pub begins : ℕ → List ℕ → Bool
begins c [] = false
begins c (b ∷ rest) = b == c

abbrev pub tail : List ℕ → List ℕ
tail [] = []
tail (c ∷ rest) = rest

abbrev pub is_digit : ℕ → Bool
is_digit c = leb b'0' c && leb c b'9'

-- The loop of `readIntBound`, which gives up above 100000.
unfoldable pub read_digits : ℕ → List ℕ → Option (ℕ × List ℕ)
read_digits v [] = some (v, [])
read_digits v (c ∷ rest) =
    let w = v * 10 + (c - b'0') in
    let next = read_digits w rest in
    if is_digit c then if ltb 100000 w then none else next else some (v, c ∷ rest)

abbrev pub begins_digit : List ℕ → Bool
begins_digit [] = false
begins_digit (c ∷ rest) = is_digit c

-- `readIntBound`
unfoldable pub read_int_bound : List ℕ → Option (ℕ × List ℕ)
unfolding read_digits
read_int_bound s = if begins_digit s then read_digits 0 s else none

-- The upper bound, after the lower one.
unfoldable pub read_upper : ℕ → List ℕ → Option (Option ℕ × List ℕ)
unfolding read_int_bound
read_upper lo s =
    if begins b',' s
    then if begins b'}' (tail s)
      then some (none, tail s)
      else (do (hi, rest) ← read_int_bound (tail s); some (some hi, rest))
    else some (some lo, s)

-- `{m}`, `{m,}` and `{m,n}` after the brace.
unfoldable pub read_bounds : List ℕ → Option (ℕ × Option ℕ × List ℕ)
unfolding read_upper
read_bounds s = do
  (lo, after) ← read_int_bound s
  (hi, rest) ← read_upper lo after
  if begins b'}' rest then some (lo, hi, tail rest) else none

abbrev pub out_of_range : ℕ → Option ℕ → Bool
out_of_range lo none = ltb 1000 lo
out_of_range lo (some hi) = ltb 1000 lo || ltb 1000 hi || ltb hi lo

abbrev pub digits : List (ℕ × ℕ)
digits = (b'0', b'9') ∷ []

abbrev pub word_chars : List (ℕ × ℕ)
word_chars = (b'a', b'z') ∷ (b'A', b'Z') ∷ (b'0', b'9') ∷ (b'_', b'_') ∷ []

abbrev pub spaces : List (ℕ × ℕ)
spaces = (b' ', b' ') ∷ (b'\t', b'\t') ∷ (b'\n', b'\n') ∷ (b'\r', b'\r') ∷ []

abbrev pub escaped_char : ℕ → ℕ
escaped_char e =
    if e == b'n' then b'\n' else if e == b't' then b'\t' else if e == b'r' then b'\r' else e

-- What a class begins with: the ranges of a shorthand, or a character and what follows it.
pub data Item : Type 0 where
  shorthand : List (ℕ × ℕ) → List ℕ → Item
  single : ℕ → List ℕ → Item

abbrev pub escaped_item : ℕ → List ℕ → Item
escaped_item e rest =
    if e == b'd'
    then shorthand digits rest
    else if e == b'w'
    then shorthand word_chars rest
    else if e == b's'
    then shorthand spaces rest
    else single (escaped_char e) rest

unfoldable pub read_item : ℕ → List ℕ → Item
read_item c [] = single c []
read_item c (e ∷ rest) = if c == b'\\' then escaped_item e rest else single c (e ∷ rest)

-- The end of a range, after its dash: an escape stands for its character.
unfoldable pub range_end : ℕ → List ℕ → ℕ × List ℕ
range_end c [] = (c, [])
range_end c (e ∷ rest) = if c == b'\\' then (e, rest) else (c, e ∷ rest)

pub data ClassResult : Type 0 where
  class_done : CharClass → List ℕ → ClassResult
  class_failed : Error → ClassResult

-- The class so far, and the pattern after it, go to the next turn of the loop.
abbrev pub Further : Type 0
Further = List (ℕ × ℕ) → List ℕ → ClassResult

abbrev pub ends_range : Further → List (ℕ × ℕ) → ℕ → ℕ × List ℕ → ClassResult
ends_range next ranges lo (hi, rest) =
    if ltb hi lo then class_failed invalid_class_range else next (ranges ++ (lo, hi) ∷ []) rest

-- A single character, or a range if a dash and a character other than `]` follow.
unfoldable pub read_range : Further → List (ℕ × ℕ) → ℕ → List ℕ → ClassResult
unfolding range_end
read_range next ranges lo (dash ∷ c ∷ rest) =
    if dash == b'-' && not (c == b']')
    then ends_range next ranges lo (range_end c rest)
    else next (ranges ++ (lo, lo) ∷ []) (dash ∷ c ∷ rest)
read_range next ranges lo rest = next (ranges ++ (lo, lo) ∷ []) rest

abbrev pub add_item : Further → List (ℕ × ℕ) → Item → ClassResult
add_item next ranges (shorthand rs rest) = next (ranges ++ rs) rest
add_item next ranges (single lo rest) = read_range next ranges lo rest

-- The loop over a class; `first` allows a `]` in the first place. Each turn reads a character,
-- and the fuel is the pattern's length.
unfoldable pub class_from : ℕ → Bool → Bool → Further
unfolding read_item read_range
class_from zero negate first ranges s = class_failed missing_bracket
class_from (suc fuel) negate first ranges [] = class_failed missing_bracket
class_from (suc fuel) negate first ranges (c ∷ rest) = elim (c == b']' && not first) [
  | true ↦ class_done (record { negate = negate; ranges = ranges }) rest
  | false ↦ add_item (class_from fuel negate false) ranges (read_item c rest)
]

-- A class after its bracket.
unfoldable pub read_class : List ℕ → ClassResult
unfolding class_from
read_class s =
    if begins b'^' s
    then class_from (length s) true true [] (tail s)
    else class_from (length s) false true [] s
