-- ===== src/Regex/Program.antt =====
-- Programs of the regex engine of src/modules/regex.hpp: `Inst`, `CharClass` and `Prog`.
use lovax.Base.{ℕ, Bool, false, not, ◌&&◌, ◌||◌, List, [], ◌∷◌, ltb, leb, ◌==◌, if◌then◌else◌}
use Prim.Native.Nat.{bit_and}

-- `Op` with the fields of `Inst` that the operation reads.
pub data Inst : Type 0 where
  char : ℕ → Inst
  any : Inst
  class : ℕ → Inst
  split : ℕ → ℕ → Inst
  jmp : ℕ → Inst
  save : ℕ → Inst
  bol eol match : Inst

pub record CharClass : Type 0 where
  pub negate : Bool
  pub ranges : List (ℕ × ℕ)

abbrev pub in_ranges : List (ℕ × ℕ) → ℕ → Bool
in_ranges [] c = false
in_ranges ((lo, hi) ∷ rs) c = (leb lo c && leb c hi) || in_ranges rs c

-- `CharClass::matches`
abbrev pub class_matches : CharClass → ℕ → Bool
class_matches cc c = if cc.negate then not (in_ranges cc.ranges c) else in_ranges cc.ranges c

-- `Prog`; a program whose compilation failed is an error of the compiler here.
pub record Prog : Type 0 where
  pub code : List Inst
  pub classes : List CharClass
  pub group_count : ℕ

abbrev pub max_prog : ℕ
max_prog = 10000

abbrev pub max_groups : ℕ
max_groups = 10

abbrev pub max_steps : ℕ
max_steps = 1000000

abbrev pub max_depth : ℕ
max_depth = 8000

-- `utf8CharLen` of src/object/object.hpp.
unfoldable pub utf8_char_len : ℕ → ℕ
utf8_char_len lead =
    if ltb lead 0x80
    then 1
    else if bit_and lead 0xE0 == 0xC0
    then 2
    else if bit_and lead 0xF0 == 0xE0
    then 3
    else if bit_and lead 0xF8 == 0xF0
    then 4
    else 1
