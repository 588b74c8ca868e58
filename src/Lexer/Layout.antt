-- ===== src/Lexer/Layout.antt =====
-- The state of the `Lexer` of src/lexer/lexer.hpp, and the first half of `nextToken`: the queue,
-- and the indentation at the start of a line. A `return nextToken()` is the outcome `again`.
use lovax.Base.{
  ℕ, Bool, true, false, not, ◌||◌, Option, none, some, List, [], ◌∷◌, ◌++◌, ltb, ◌==◌,
  if◌then◌else◌,
}
use lovax.Lexer.Tokens.{
  Place, Token, TokenType, illegal, end_of_file, indent, dedent, invalid_indentation, text, message,
}
use lovax.Lexer.Cursor.{
  char_at, read_char, skip_while, begins_hashes, skip_block_comment, count_spaces, Cursor,
}
use lovax.Lexer.Numbers.{make_token}
use mathlib.Core.Option

-- `indentStack` has its back first here.
pub record Lexer : Type 0 where
  pub cursor : Cursor
  pub indent_stack : List ℕ
  pub queue : List Token
  pub at_line_start : Bool
  pub bracket_depth : ℕ

abbrev pub new_lexer : List ℕ → Lexer
new_lexer input = record {
  cursor = record { rest = input; place = record { line = 1; column = 1 } };
  indent_stack = 0 ∷ [];
  queue = [];
  at_line_start = true;
  bracket_depth = 0;
}

-- A turn of `nextToken`; `undefined` is `indentStack.back()` of an empty stack.
pub data Outcome : Type 0 where
  emit : Token → Lexer → Outcome
  again : Lexer → Outcome
  undefined : Outcome

-- The code of the indentation returns, or falls through to the rest of `nextToken`.
pub data Phase : Type 0 where
  stop : Outcome → Phase
  fall : Lexer → Phase

abbrev pub layout_token : TokenType → Place → Token
layout_token t at = make_token t (text []) at

-- `while (indentStack.size() > 1)`: the tokens it queues, and the stack it leaves.
unfoldable pub close_all : List ℕ → Place → List Token
close_all [] at = []
close_all (x ∷ []) at = []
close_all (x ∷ y ∷ below) at = layout_token dedent at ∷ close_all (y ∷ below) at

unfoldable pub bottom : List ℕ → List ℕ
bottom [] = []
bottom (x ∷ []) = x ∷ []
bottom (x ∷ y ∷ below) = bottom (y ∷ below)

unfoldable pub end_of_input : Lexer → Lexer
unfolding close_all bottom
end_of_input l =
    let at = l.cursor.place in
    record l {
      indent_stack = bottom l.indent_stack;
      queue = l.queue ++ (close_all l.indent_stack at ++ layout_token end_of_file at ∷ []);
    }

-- `while (spaces < indentStack.back())`: the stack it leaves, and the tokens it queues.
unfoldable pub unindent : ℕ → List ℕ → Place → Option (List ℕ × List Token)
unindent spaces [] at = none
unindent spaces (back ∷ below) at =
    let rest = unindent spaces below at in
    if ltb spaces back
    then Option.map (λ (s, ts). (s, layout_token dedent at ∷ ts)) rest
    else some (back ∷ below, [])

-- `if (!tokenQueue.empty())` at the end of the indentation.
abbrev pub flush : Lexer → List Token → Phase
flush l [] = fall l
flush l (t ∷ q) = stop (emit t (record l { queue = q }))

abbrev pub flushed : Lexer → Phase
flushed l = flush l l.queue

abbrev pub dedented : ℕ → Lexer → Option (List ℕ × List Token) → Phase
dedented spaces l none = stop undefined
dedented spaces l (some ([], ts)) = stop undefined
dedented spaces l (some (back ∷ below, ts)) =
    let m = record l { indent_stack = back ∷ below; queue = l.queue ++ ts } in
    if spaces == back
    then flushed m
    else stop (emit (make_token illegal (message invalid_indentation) l.cursor.place) m)

abbrev pub align : ℕ → Lexer → List ℕ → Phase
align spaces l [] = stop undefined
align spaces l (back ∷ below) =
    if ltb back spaces
    then flushed (record l {
      indent_stack = spaces ∷ back ∷ below;
      queue = l.queue ++ layout_token indent l.cursor.place ∷ [];
    })
    else if ltb spaces back
    then dedented spaces l (unindent spaces (back ∷ below) l.cursor.place)
    else flushed l

abbrev pub ends_line : ℕ → Bool
ends_line c = c == b'\n' || c == b'\r'

-- A blank line or a comment line.
unfoldable pub skip_line : Lexer → Lexer
skip_line l =
    let c = skip_while (λ c. not (ends_line c || c == 0)) l.cursor.rest l.cursor.place in
    if begins_hashes l.cursor.rest
    then record l { cursor = skip_block_comment l.cursor; at_line_start = true }
    else if ends_line (char_at c.rest)
    then record l { cursor = read_char c; at_line_start = true }
    else record l { cursor = c }

unfoldable pub indentation : Lexer → Phase
unfolding unindent skip_line end_of_input
indentation l =
    let (spaces, c) = count_spaces l.cursor.rest l.cursor.place in
    let m = record l { cursor = c; at_line_start = false } in
    let ch = char_at c.rest in
    if ends_line ch || ch == b'#'
    then stop (again (skip_line m))
    else if ch == 0
    then stop (again (end_of_input m))
    else align spaces m m.indent_stack
