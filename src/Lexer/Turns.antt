-- ===== src/Lexer/Turns.antt =====
-- The indentation of src/lexer/lexer.hpp, `nextToken`, as a turn.
use lovax.Base.{
  ℕ, suc, ◌+◌, ◌*◌, ◌≤◌, ◌<◌, ◌≡◌, refl, ap, ◌∙◌, inl, inr, Bool, true, false, not, ◌||◌, Option,
  some, List, [], ◌∷◌, arith, ltb, ◌==◌, ltb→lt, Bool-cases, some_injective, length,
}
use lovax.Lexer.Tokens.{Place, Token}
use lovax.Lexer.Cursor.{
  char_at, pass, read_char, read_chars, skip_while, begins_hashes, skip_block_comment, count_spaces,
  Cursor,
}
use lovax.Lexer.Layout.{
  bottom, end_of_input, flush, dedented, align, ends_line, skip_line, indentation, Lexer, again,
  Phase, stop, fall,
}
use lovax.Lexer.Shrink.{
  length-read_chars, length-skip_while, length-block_from, length-count_spaces,
}
use lovax.Lexer.Depth.{walk_depth}
use lovax.Lexer.Unindent.{unindent-Unindents, Unindents}
use lovax.Lexer.Balance.{
  queue_weight, weight, Goes, Goes-le, lexer_at, again_forward, pop-Emits, end_of_input-Goes,
  IsLevel,
}

-- A return of the indentation code is a turn; what falls through keeps the invariant.
abbrev pub PhaseGoes : ℕ → Lexer → Phase → Type 0
PhaseGoes d l (stop o) = Goes d l o
PhaseGoes d l (fall m) = IsLevel d m × (m.queue ≡ []) × (weight m ≤ weight l)

-- What is queued is emitted at once.
flush-Goes :
    (d : ℕ) (l m : Lexer) (q : List Token)
    → IsLevel d (record m { queue = q })
    → 3 * length m.cursor.rest + 2 * length m.indent_stack + queue_weight q + 1 ≤ weight l
    → PhaseGoes d l (flush (record m { queue = q }) q)
flush-Goes d l m [] inv h = (inv, refl, omega (arith, h))
flush-Goes d l m (t ∷ q) inv h = pop-Emits d l m t q inv (omega (arith, h))

module _ (d : ℕ) (c : Cursor) (s : List ℕ) (b : Bool) (n : ℕ) where
  abbrev pub here : Lexer
  here = lexer_at c s b n

  -- A line that is indented less.
  dedented-Goes :
      (spaces : ℕ) (to : Cursor)
      → IsLevel d here
      → length to.rest ≤ length c.rest
      → ltb spaces (char_at s) ≡ true
      → (o : Option (List ℕ × List Token)) → Unindents spaces s o
      → PhaseGoes d here (dedented spaces (lexer_at to s false n) o)
  dedented-Goes spaces to inv h y o u =
      let m : Lexer = record {
        cursor = to;
        indent_stack = u.back ∷ u.below;
        queue = u.queued;
        at_line_start = false;
        bracket_depth = n;
      } in
      let level : IsLevel d m = record {
        grounded = u.grounded;
        level = ap (λ (k : ℕ). walk_depth k u.queued) (some_injective inv.level) ∙ u.closes;
      } in
      rw u.returns (elim (Bool-cases (spaces == u.back)) [
        | inl e ↦ rw e (flush-Goes d here m u.queued level (omega (arith, h, u.weighs)))
        | inr e ↦ rw e (record {
          after = d;
          step = refl;
          level = level;
          lighter = λ e. omega (arith, h, u.weighs, u.moves y);
        })
      ])

align-Goes :
    (d : ℕ) (c : Cursor) (s : List ℕ) (b : Bool) (n spaces : ℕ) (to : Cursor)
    → IsLevel d (here d c s b n)
    → length to.rest ≤ length c.rest
    → (0 < spaces → length to.rest < length c.rest)
    → PhaseGoes d (here d c s b n) (align spaces (lexer_at to s false n) s)
unfolding bottom
align-Goes d c [] b n spaces to inv h lt = absurd (cc (inv.grounded))
align-Goes d c (back ∷ below) b n spaces to inv h lt = elim (Bool-cases (ltb back spaces)) [
  | inl y ↦ rw y (record {
    after = suc d;
    step = refl;
    level = record {
      grounded = inv.grounded;
      level = ap (λ (k : ℕ). some (suc k)) (some_injective inv.level);
    };
    lighter = λ e. omega (arith, h, lt (omega (arith, ltb→lt back spaces y)));
  })
  | inr m ↦ rw m (elim (Bool-cases (ltb spaces back)) [
    | inl y ↦ rw y (
        dedented-Goes d c (back ∷ below) b n spaces to inv h y _
          (unindent-Unindents spaces (back ∷ below) to.place inv.grounded))
    | inr m ↦ rw m (record { grounded = inv.grounded; level = inv.level }, refl, omega (arith, h))
  ])
]

pub read_one : (c : Cursor) → 0 < length c.rest → length (read_char c).rest < length c.rest
read_one c h = omega (arith, length-read_chars 1 c)

ends_line_there : (s : List ℕ) → ends_line (char_at s) ≡ true → 0 < length s
ends_line_there [] y = absurd (cc)
ends_line_there (c ∷ r) y = omega arith

hashes_there : (s : List ℕ) → begins_hashes s ≡ true → 0 < length s
hashes_there [] y = absurd (cc)
hashes_there (c ∷ r) y = omega arith

pub block_comment_forward :
    (c : Cursor) → begins_hashes c.rest ≡ true → length (skip_block_comment c).rest < length c.rest
block_comment_forward c y = omega (
  arith,
  length-block_from (read_chars 3 c).rest (read_chars 3 c).place,
  length-read_chars 3 c,
  hashes_there c.rest y,
)

-- A comment line is read past its first character.
line_forward :
    (s : List ℕ) (at : Place)
    → (ends_line (char_at s) || char_at s == b'#') ≡ true
    → ends_line (char_at (skip_while (λ c. not (ends_line c || c == 0)) s at).rest) ≡ false
    → length (skip_while (λ c. not (ends_line c || c == 0)) s at).rest < length s
unfolding skip_while
line_forward [] at y e = absurd (cc)
line_forward (c ∷ r) at y e =
    ground (arith, y, e, length-skip_while (λ c. not (ends_line c || c == 0)) r (pass c at))

skip_line-Goes :
    (d : ℕ) (l : Lexer)
    → IsLevel d l
    → (ends_line (char_at l.cursor.rest) || char_at l.cursor.rest == b'#') ≡ true
    → Goes d l (again (skip_line l))
unfolding skip_line
skip_line-Goes d l inv y =
    let c = skip_while (λ c. not (ends_line c || c == 0)) l.cursor.rest l.cursor.place in
    let le = length-skip_while (λ c. not (ends_line c || c == 0)) l.cursor.rest l.cursor.place in
    elim (Bool-cases (begins_hashes l.cursor.rest)) [
      | inl h ↦ rw h (
          again_forward d l (skip_block_comment l.cursor) true inv
            (block_comment_forward l.cursor h))
      | inr m ↦ rw m (elim (Bool-cases (ends_line (char_at c.rest))) [
        | inl e ↦ rw e (
            again_forward d l (read_char c) true inv
              (omega (arith, le, read_one c (ends_line_there c.rest e))))
        | inr e ↦ rw e (again_forward d l c l.at_line_start inv (line_forward _ _ y e))
      ])
    ]

-- The indentation of a line.
pub indentation-Goes :
    (d : ℕ) (c : Cursor) (s : List ℕ) (b : Bool) (n : ℕ)
    → IsLevel d (here d c s b n)
    → PhaseGoes d (here d c s b n) (indentation (here d c s b n))
unfolding indentation
indentation-Goes d c s b n inv =
    let (le, lt) = length-count_spaces c.rest c.place in
    let spaces = (count_spaces c.rest c.place).0 in
    let to = (count_spaces c.rest c.place).1 in
    let level : IsLevel d (lexer_at to s false n) = record {
      grounded = inv.grounded;
      level = inv.level;
    } in
    elim (Bool-cases (ends_line (char_at to.rest) || char_at to.rest == b'#')) [
      | inl y ↦ rw y (
          Goes-le d (here d c s b n) (lexer_at to s false n)
            (again (skip_line (lexer_at to s false n))) (omega (arith, le))
            (skip_line-Goes d (lexer_at to s false n) level y))
      | inr m ↦ rw m (elim (Bool-cases (char_at to.rest == 0)) [
        | inl y ↦ rw y (
            Goes-le d (here d c s b n) (lexer_at to s false n)
              (again (end_of_input (lexer_at to s false n))) (omega (arith, le))
              (end_of_input-Goes d to s false n level))
        | inr m ↦ rw m (align-Goes d c s b n spaces to inv le lt)
      ])
    ]
