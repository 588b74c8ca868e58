-- ===== src/Regex/Compiler.antt =====
-- The pattern compiler of src/modules/regex.hpp, `Compiler`. The index into the pattern is the
-- pattern from there on; a `false` of the source is an error here, which is the first one.
use lovax.Base.{
  ℕ, zero, suc, ◌+◌, ◌-◌, ◌*◌, Bool, true, false, ◌&&◌, ◌||◌, Option, none, some, List, [], ◌∷◌,
  ◌++◌, leb, ◌==◌, if◌then◌else◌, length, set, take, drop,
}
use lovax.Base.Text.{}
use lovax.Regex.Program.{
  max_groups, CharClass, Prog, Inst, char, any, class, split, jmp, save, bol, eol, match,
}
use lovax.Regex.Repeat.{checked, append_body, placeholder, apply_repeat}
use lovax.Regex.Classes.{
  begins, tail, read_bounds, out_of_range, digits, word_chars, spaces, escaped_char, read_class,
  Error, pattern_too_large, unexpected_paren, repetition_out_of_range, pattern_ended,
  too_many_groups, missing_paren, dangling_backslash, misplaced, ClassResult, class_done,
  class_failed,
}

pub record Compiler : Type 0 where
  pub rest : List ℕ
  pub code : List Inst
  pub classes : List CharClass
  pub group_count : ℕ

-- `no_fuel` means that the fuel of the recursion ran out.
pub data Outcome : Type 0 where
  done : Compiler → Outcome
  failed : Error → Outcome
  no_fuel : Outcome

infixl 5 ◌>>>◌
abbrev pub ◌>>>◌ : Outcome → (Compiler → Outcome) → Outcome
done s >>> f = f s
failed e >>> f = failed e
no_fuel >>> f = no_fuel

abbrev pub emit : Compiler → Inst → Compiler
emit s inst = record s { code = s.code ++ inst ∷ [] }

abbrev pub emit_class : Compiler → CharClass → Compiler
emit_class s cc = record s {
  classes = s.classes ++ cc ∷ [];
  code = s.code ++ class (length s.classes) ∷ [];
}

-- The code of a compiler, or the error of `overflow()`.
abbrev pub with_code : Compiler → Option (List Inst) → Outcome
with_code s none = failed pattern_too_large
with_code s (some code) = done (record s { code = code })

-- `\d`, `\n` and the other escapes outside a class.
abbrev pub escape : Compiler → ℕ → Compiler
escape s e =
    if e == b'd'
    then emit_class s (record { negate = false; ranges = digits })
    else if e == b'D'
    then emit_class s (record { negate = true; ranges = digits })
    else if e == b'w'
    then emit_class s (record { negate = false; ranges = word_chars })
    else if e == b'W'
    then emit_class s (record { negate = true; ranges = word_chars })
    else if e == b's'
    then emit_class s (record { negate = false; ranges = spaces })
    else if e == b'S'
    then emit_class s (record { negate = true; ranges = spaces })
    else emit s (char (escaped_char e))

-- A quantifier that is lazy with a `?` after it.
unfoldable pub quantified : ℕ → ℕ → Option ℕ → List ℕ → Compiler → Outcome
quantified start lo hi rest s =
    let lazy = begins b'?' rest in
    with_code (record s { rest = if lazy then tail rest else rest })
      (apply_repeat start lo hi lazy s.code)

-- `{m,n}`; what does not read as one is left for the next atom.
unfoldable pub braces : ℕ → Compiler → Option (ℕ × Option ℕ × List ℕ) → Outcome
unfolding quantified
braces start s none = done s
braces start s (some (lo, hi, rest)) =
    if out_of_range lo hi then failed repetition_out_of_range else quantified start lo hi rest s

-- The quantifier after the atom that begins at `start`.
unfoldable pub quantify : ℕ → Compiler → Outcome
unfolding quantified braces
quantify start s =
    if begins b'*' s.rest
    then quantified start 0 none (tail s.rest) s
    else if begins b'+' s.rest
    then quantified start 1 none (tail s.rest) s
    else if begins b'?' s.rest
    then quantified start 0 (some 1) (tail s.rest) s
    else if begins b'{' s.rest
    then braces start s (read_bounds (tail s.rest))
    else done s

-- A group after its parenthesis; `alternatives` is `parseAlt`.
abbrev pub close_group : Option ℕ → Compiler → Outcome
close_group slot s =
    if begins b')' s.rest
    then done (elim slot [
      | none ↦ record s { rest = tail s.rest }
      | some g ↦ emit (record s { rest = tail s.rest }) (save (g * 2 + 1))
    ])
    else failed missing_paren

unfoldable pub group : (Compiler → Outcome) → Compiler → Outcome
group alternatives s =
    if begins b'?' s.rest && begins b':' (tail s.rest)
    then alternatives (record s { rest = tail (tail s.rest) }) >>> close_group none
    else if leb max_groups s.group_count
    then failed too_many_groups
    else alternatives
        (emit (record s { group_count = s.group_count + 1 }) (save (s.group_count * 2)))
      >>> close_group (some s.group_count)

abbrev pub with_class : Compiler → ClassResult → Outcome
with_class s (class_failed e) = failed e
with_class s (class_done cc rest) = done (emit_class (record s { rest = rest }) cc)

abbrev pub escape_atom : Compiler → List ℕ → Outcome
escape_atom s [] = failed dangling_backslash
escape_atom s (e ∷ rest) = done (escape (record s { rest = rest }) e)

-- An atom that begins with `c`, with the pattern after it in `s`.
unfoldable pub atom_from : (Compiler → Outcome) → Compiler → ℕ → Outcome
unfolding group
atom_from alternatives s c =
    if c == b'('
    then group alternatives s
    else if c == b'^'
    then done (emit s bol)
    else if c == b'$'
    then done (emit s eol)
    else if c == b'.'
    then done (emit s any)
    else if c == b'['
    then with_class s (read_class s.rest)
    else if c == b'\\'
    then escape_atom s s.rest
    else if c == b'*' || c == b'+' || c == b'?' || c == b')'
    then failed (misplaced c)
    else done (emit s (char c))

-- `parseAtom`
abbrev pub atom : (Compiler → Outcome) → Compiler → List ℕ → Outcome
atom alternatives s [] = failed pattern_ended
atom alternatives s (c ∷ rest) = atom_from alternatives (record s { rest = rest }) c

-- `parsePiece`
unfoldable pub piece : (Compiler → Outcome) → Compiler → Outcome
unfolding atom_from quantify
piece alternatives s = atom alternatives s s.rest >>> quantify (length s.code)

-- The left branch that begins at `start`, behind a SPLIT and before a JMP; the loop that moves it
-- is the one of `appendBody`.
unfoldable pub open_branch : ℕ → Compiler → Outcome
unfolding append_body
open_branch start s =
    with_code s
      (checked (append_body start (drop start s.code) (take start s.code ++ placeholder ∷ [])))
    >>> λ t. done (emit t (jmp 0))

-- After the right branch: the SPLIT and the JMP get their targets.
unfoldable pub close_branch : ℕ → ℕ → Compiler → Compiler
close_branch start right s = record s {
  code = set (set s.code start (split (start + 1) right)) (right - 1) (jmp (length s.code));
}

-- `parseAlt`, its loop from the second branch on for an alternation that begins at a position,
-- and `parseSeq`.
pub data Task : Type 0 where
  alternatives : Task
  further : ℕ → Task
  sequence : Task

abbrev pub ends_sequence : List ℕ → Bool
ends_sequence [] = true
ends_sequence (c ∷ rest) = c == b'|' || c == b')'

unfoldable pub parse : ℕ → Task → Compiler → Outcome
unfolding piece open_branch close_branch
parse zero task s = no_fuel
parse (suc fuel) alternatives s = parse fuel sequence s >>> parse fuel (further (length s.code))
parse (suc fuel) (further start) s = elim (begins b'|' s.rest) [
  | false ↦ done s
  | true ↦ open_branch start (record s { rest = tail s.rest }) >>> λ o.
      parse fuel sequence o >>> λ r.
      parse fuel (further start) (close_branch start (length o.code) r)
]
parse (suc fuel) sequence s = elim (ends_sequence s.rest) [
  | true ↦ done s
  | false ↦ piece (parse fuel alternatives) s >>> parse fuel sequence
]

-- The end of `compile`.
abbrev pub finish : Compiler → Outcome
finish s = elim s.rest [
  | [] ↦ done (emit (emit s (save 1)) match)
  | c ∷ rest ↦ failed unexpected_paren
]

-- `compile` of a new compiler.
unfoldable pub compile : List ℕ → Outcome
unfolding parse
compile pat =
    parse (3 * length pat + 4) alternatives
      (record { rest = pat; code = save 0 ∷ []; classes = []; group_count = 1 })
    >>> finish

abbrev pub program : Compiler → Prog
program s = record { code = s.code; classes = s.classes; group_count = s.group_count }
