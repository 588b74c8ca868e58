-- ===== src/Lexer/Switch.antt =====
-- The second half of `nextToken` of src/lexer/lexer.hpp, the switch on a character, as a turn.
use lovax.Base.{
  ℕ, ◌≤◌, ◌<◌, ◌≡◌, refl, sym, ap, inl, inr, Bool, true, false, not, ◌&&◌, ◌||◌, Option, none, some,
  List, [], ◌∷◌, arith, ltb, ◌==◌, Bool-cases, length,
}
use lovax.Lexer.Tokens.{Token}
use lovax.Lexer.Tables.{signs, Sign, token, bad}
use lovax.Lexer.Cursor.{
  char_at, tail, read_char, read_chars, is_letter, is_digit, skip_while, take_while, is_blank,
  skip_whitespace, skip_block_comment, Cursor,
}
use lovax.Lexer.Numbers.{}
use lovax.Lexer.Strings.{}
use lovax.Lexer.Layout.{Lexer, again, Phase, stop, fall}
use lovax.Lexer.Scan.{
  find_sign, depth_after, quote, newline_case, in_identifier, word, other_case, take_sign, switch,
  scan, after_layout, turn_from, turn,
}
use lovax.Lexer.Shrink.{length-read_chars, char_at_nonzero, length-skip_while, take_while_first}
use lovax.Lexer.Depth.{lookup_ident_plain}
use lovax.Lexer.Readers.{read_number-Reads, read_string-Reads, read_multiline_string-Reads}
use lovax.Lexer.Signs.{sign_plain, all_fit, Fits, find_sign-Fits}
use lovax.Lexer.Balance.{
  weight, Goes, Goes-le, lexer_at, Emits-plain, again_forward, pop-Emits, end_of_input-Goes,
  IsLevel,
}
use lovax.Lexer.Turns.{PhaseGoes, here, read_one, block_comment_forward, indentation-Goes}
use mathlib.Core.Path.{subst}

nonzero_there : (s : List ℕ) (a : ℕ) → 0 < a → (char_at s == a) ≡ true → 0 < length s
nonzero_there [] a h y = ground (arith, h, y)
nonzero_there (c ∷ r) a h y = omega arith

letter_there : (s : List ℕ) → is_letter (char_at s) ≡ true → 0 < length s
unfolding is_letter
letter_there [] y = absurd (cc)
letter_there (c ∷ r) y = omega arith

module _ (d : ℕ) (c : Cursor) (s : List ℕ) (b : Bool) (n : ℕ) where
  quote-Goes :
      IsLevel d (here d c s b n)
      → 0 < length c.rest
      → Goes d (here d c s b n) (quote (here d c s b n))
  unfolding quote
  quote-Goes inv h =
      let line = read_string-Reads c h in
      let block = read_multiline_string-Reads c h in
      elim (Bool-cases (char_at (tail c.rest) == b'"' && char_at (tail (tail c.rest)) == b'"')) [
        | inl y ↦ rw y (Emits-plain d (here d c s b n) _ _ b n inv block.plain block.forward)
        | inr m ↦ rw m (Emits-plain d (here d c s b n) _ _ _ n inv line.plain line.forward)
      ]

  newline_case-Goes :
      IsLevel d (here d c s b n)
      → 0 < length c.rest
      → Goes d (here d c s b n) (newline_case (here d c s b n))
  unfolding newline_case
  newline_case-Goes inv h = elim (Bool-cases (ltb 0 n)) [
    | inl y ↦ rw y (again_forward d (here d c s b n) (read_char c) b inv (read_one c h))
    | inr m ↦ rw m (Emits-plain d (here d c s b n) _ (read_char c) true n inv refl (read_one c h))
  ]

  word-Goes :
      IsLevel d (here d c s b n)
      → 0 < length c.rest
      → Goes d (here d c s b n) (word (here d c s b n))
  unfolding word
  word-Goes inv h = elim (Bool-cases (is_letter (char_at c.rest))) [
    | inl y ↦ rw y (
        Emits-plain d (here d c s b n) _ _ b n inv
          (lookup_ident_plain (take_while in_identifier c.rest c.place).0)
          (take_while_first in_identifier c.rest c.place (ground (arith, y)) h))
    | inr m ↦ rw m (elim (Bool-cases (is_digit (char_at c.rest))) [
      | inl y ↦ rw y (
          Emits-plain d (here d c s b n) _ _ b n inv (read_number-Reads c y).plain
            (read_number-Reads c y).forward)
      | inr m ↦ rw m (Emits-plain d (here d c s b n) _ (read_char c) b n inv refl (read_one c h))
    ])
  ]

  other_case-Goes :
      IsLevel d (here d c s b n) → Goes d (here d c s b n) (other_case (here d c s b n))
  unfolding other_case
  other_case-Goes inv = elim (Bool-cases (char_at c.rest == b'"')) [
    | inl y ↦ rw y (quote-Goes inv (nonzero_there c.rest b'"' (omega arith) y))
    | inr m ↦ rw m (elim (Bool-cases (char_at c.rest == b'\n')) [
      | inl y ↦ rw y (newline_case-Goes inv (nonzero_there c.rest b'\n' (omega arith) y))
      | inr m ↦ rw m (elim (Bool-cases (char_at c.rest == 0)) [
        | inl y ↦ rw y (end_of_input-Goes d c s b n inv)
        | inr m ↦ rw m (word-Goes inv (char_at_nonzero c.rest (λ e. ground (arith, e, m))))
      ])
    ])
  ]

  take_sign-Goes :
      (o : Option (List ℕ × Sign))
      → IsLevel d (here d c s b n)
      → Fits c.rest o
      → Goes d (here d c s b n) (take_sign (here d c s b n) o)
  unfolding take_sign Fits sign_plain
  take_sign-Goes none inv f = other_case-Goes inv
  take_sign-Goes (some (p, token t)) inv (h, plain, there) =
      Emits-plain d (here d c s b n) _ (read_chars (length p) c) b (depth_after t n) inv plain
        (omega (arith, h, there, length-read_chars (length p) c))
  take_sign-Goes (some (p, bad e)) inv (h, plain, there) =
      Emits-plain d (here d c s b n) _ (read_chars (length p) c) b n inv refl
        (omega (arith, h, there, length-read_chars (length p) c))

  switch-Goes : IsLevel d (here d c s b n) → Goes d (here d c s b n) (switch (here d c s b n))
  unfolding all_fit
  switch-Goes inv = take_sign-Goes (find_sign signs c.rest) inv (find_sign-Fits signs c.rest refl)

scan-Goes :
    (d : ℕ) (c : Cursor) (s : List ℕ) (b : Bool) (n : ℕ)
    → IsLevel d (here d c s b n)
    → Goes d (here d c s b n) (scan (here d c s b n))
unfolding scan
scan-Goes d c s b n inv =
    let w = skip_whitespace c in
    let e = skip_while (λ c. not (c == b'\n' || c == 0)) w.rest w.place in
    let w_le = length-skip_while is_blank c.rest c.place in
    let e_le = length-skip_while (λ c. not (c == b'\n' || c == 0)) w.rest w.place in
    let level : IsLevel d (lexer_at w s false n) = record {
      grounded = inv.grounded;
      level = inv.level;
    } in
    elim (Bool-cases (char_at w.rest == b'#')) [
      | inl y ↦
          rw y
            (elim (Bool-cases
              (char_at (tail w.rest) == b'#' && char_at (tail (tail w.rest)) == b'#')) [
                | inl h ↦ rw h (
                    Goes-le d (here d c s b n) (lexer_at w s false n)
                      (again (lexer_at (skip_block_comment w) s false n)) (omega (arith, w_le))
                      (again_forward d (lexer_at w s false n) (skip_block_comment w) false level
                        (block_comment_forward w (ground (arith, y, h)))))
                | inr m ↦ rw m (
                    Goes-le d (here d c s b n) (lexer_at e s false n) _ (omega (arith, w_le, e_le))
                      (switch-Goes d e s false n
                        (record { grounded = inv.grounded; level = inv.level })))
              ])
      | inr m ↦ rw m (
          Goes-le d (here d c s b n) (lexer_at w s false n) _ (omega (arith, w_le))
            (switch-Goes d w s false n level))
    ]

after_layout-Goes : (d : ℕ) (l : Lexer) (p : Phase) → PhaseGoes d l p → Goes d l (after_layout p)
after_layout-Goes d l (stop o) g = g
after_layout-Goes d l (fall m) (level, none_queued, le) =
    subst (λ (x : Lexer). IsLevel d x → weight x ≤ weight l → Goes d l (scan x))
      (ap (λ (q : List Token). record m { queue = q }) (sym none_queued))
      (λ v h.
        Goes-le d l (record m { queue = [] }) _ h
          (scan-Goes d m.cursor m.indent_stack m.at_line_start m.bracket_depth v))
      level le

-- One turn.
turn_from-Goes :
    (d : ℕ) (c : Cursor) (s : List ℕ) (q : List Token) (b : Bool) (n : ℕ)
    → IsLevel d
        (record { cursor = c; indent_stack = s; queue = q; at_line_start = b; bracket_depth = n })
    → Goes d
        (record { cursor = c; indent_stack = s; queue = q; at_line_start = b; bracket_depth = n })
        (turn_from
          (record { cursor = c; indent_stack = s; queue = q; at_line_start = b; bracket_depth = n })
          q)
turn_from-Goes d c s (t ∷ q) b n inv =
    pop-Emits d _
      (record { cursor = c; indent_stack = s; queue = []; at_line_start = b; bracket_depth = n }) t
      q inv (omega arith)
turn_from-Goes d c s [] b n inv = elim (Bool-cases (b && n == 0)) [
  | inl y ↦ rw y (after_layout-Goes d _ _ (indentation-Goes d c s b n inv))
  | inr m ↦ rw m (scan-Goes d c s b n inv)
]

pub turn-Goes : (d : ℕ) (l : Lexer) → IsLevel d l → Goes d l (turn l)
unfolding turn
turn-Goes d l inv =
    turn_from-Goes d l.cursor l.indent_stack l.queue l.at_line_start l.bracket_depth inv
