-- ===== src/Lexer/Scan.antt =====
-- The second half of `nextToken` of src/lexer/lexer.hpp, `nextToken` itself, and the calls of it
-- up to the end of the file, as the parser makes them.
use lovax.Base.{
  ℕ, zero, suc, ◌+◌, ◌-◌, ◌*◌, Bool, true, false, not, ◌&&◌, ◌||◌, Option, none, some, List, [],
  ◌∷◌, ltb, ◌==◌, if◌then◌else◌, ◌>>=◌, length,
}
use lovax.Base.Text.{codes}
use lovax.Lexer.Tokens.{
  Token, TokenType, illegal, end_of_file, lparen, rparen, lbracket, rbracket, lbrace, rbrace,
  newline, unexpected_character, Literal, text, message,
}
use lovax.Lexer.Tables.{signs, lookup_ident, without_prefix, Sign, token, bad}
use lovax.Lexer.Cursor.{
  char_at, tail, read_char, read_chars, is_letter, is_digit, skip_while, take_while,
  skip_whitespace, begins_hashes, skip_block_comment, Cursor,
}
use lovax.Lexer.Numbers.{make_token, read_number}
use lovax.Lexer.Strings.{read_string, read_multiline_string}
use lovax.Lexer.Layout.{
  new_lexer, end_of_input, indentation, Lexer, Outcome, emit, again, undefined, Phase, stop, fall,
}

abbrev pub find_sign : List (List ℕ × Sign) → List ℕ → Option (List ℕ × Sign)
find_sign [] s = none
find_sign ((p, sign) ∷ table) s = elim (without_prefix p s) [
  | some rest ↦ some (p, sign)
  | none ↦ find_sign table s
]

abbrev pub depth_after : TokenType → ℕ → ℕ
depth_after lparen n = n + 1
depth_after lbracket n = n + 1
depth_after lbrace n = n + 1
depth_after rparen n = n - 1
depth_after rbracket n = n - 1
depth_after rbrace n = n - 1
depth_after _ n = n

abbrev pub move : Lexer → Cursor → Lexer
move l c = record l { cursor = c }

abbrev pub emit_at : Lexer → TokenType → Literal → Cursor → Outcome
emit_at l t lit c = emit (make_token t lit l.cursor.place) (move l c)

unfoldable pub quote : Lexer → Outcome
quote l =
    let (line, begins, c) = read_string l.cursor in
    let (block, d) = read_multiline_string l.cursor in
    let s = l.cursor.rest in
    if char_at (tail s) == b'"' && char_at (tail (tail s)) == b'"'
    then emit block (move l d)
    else emit line (record l { cursor = c; at_line_start = l.at_line_start || begins })

unfoldable pub newline_case : Lexer → Outcome
newline_case l =
    if ltb 0 l.bracket_depth
    then again (move l (read_char l.cursor))
    else emit (make_token newline (text (codes "\\n")) l.cursor.place)
        (record l { cursor = read_char l.cursor; at_line_start = true })

abbrev pub in_identifier : ℕ → Bool
in_identifier c = is_letter c || is_digit c || c == b'_'

-- The `default` of the switch.
unfoldable pub word : Lexer → Outcome
word l =
    let ch = char_at l.cursor.rest in
    let (ident, c) = take_while in_identifier l.cursor.rest l.cursor.place in
    let (number, d) = read_number l.cursor in
    if is_letter ch
    then emit_at l (lookup_ident ident) (text ident) c
    else if is_digit ch
    then emit number (move l d)
    else emit_at l illegal (message (unexpected_character ch)) (read_char l.cursor)

unfoldable pub other_case : Lexer → Outcome
unfolding quote newline_case word
other_case l =
    let ch = char_at l.cursor.rest in
    if ch == b'"'
    then quote l
    else if ch == b'\n'
    then newline_case l
    else if ch == 0
    then again (end_of_input l)
    else word l

unfoldable pub take_sign : Lexer → Option (List ℕ × Sign) → Outcome
unfolding other_case
take_sign l none = other_case l
take_sign l (some (p, token t)) = emit (make_token t (text p) l.cursor.place) (record l {
  cursor = read_chars (length p) l.cursor;
  bracket_depth = depth_after t l.bracket_depth;
})
take_sign l (some (p, bad e)) = emit_at l illegal (message e) (read_chars (length p) l.cursor)

abbrev pub switch : Lexer → Outcome
switch l = take_sign l (find_sign signs l.cursor.rest)

-- From `skipWhitespace` on.
unfoldable pub scan : Lexer → Outcome
unfolding take_sign
scan l =
    let m = record l { cursor = skip_whitespace l.cursor; at_line_start = false } in
    let c = skip_while (λ c. not (c == b'\n' || c == 0)) m.cursor.rest m.cursor.place in
    if char_at m.cursor.rest == b'#'
    then if begins_hashes m.cursor.rest
      then again (move m (skip_block_comment m.cursor))
      else switch (move m c)
    else switch m

abbrev pub after_layout : Phase → Outcome
after_layout (stop o) = o
after_layout (fall l) = scan l

abbrev pub turn_from : Lexer → List Token → Outcome
turn_from l (t ∷ q) = emit t (record l { queue = q })
turn_from l [] =
    if l.at_line_start && l.bracket_depth == 0 then after_layout (indentation l) else scan l

unfoldable pub turn : Lexer → Outcome
unfolding indentation scan
turn l = turn_from l l.queue

-- `nextToken`; `none` means that the fuel ran out or that the outcome was undefined.
unfoldable pub next_token : ℕ → Lexer → Option (Token × Lexer)
unfolding turn
next_token zero l = none
next_token (suc fuel) l = elim (turn l) [
  | emit t m ↦ some (t, m)
  | again m ↦ next_token fuel m
  | undefined ↦ none
]

abbrev pub is_end : TokenType → Bool
is_end end_of_file = true
is_end _ = false

-- The tokens up to the end of the file.
unfoldable pub tokens_from : ℕ → Lexer → Option (List Token)
unfolding next_token
tokens_from zero l = none
tokens_from (suc fuel) l = do
  (t, m) ← next_token (suc fuel) l
  rest ← elim (is_end t.type) [ true ↦ some [] | false ↦ tokens_from fuel m ]
  some (t ∷ rest)

-- More turns than any input of this length needs.
unfoldable pub tokenize : List ℕ → Option (List Token)
unfolding tokens_from
tokenize input = tokens_from (3 * length input + 4) (new_lexer input)
