-- ===== src/Lexer/Tables.antt =====
-- The tables of src/lexer/lexer.hpp: the keywords, and the operators and delimiters of the switch
-- of `nextToken`.
use lovax.Base.{ℕ, Option, none, some, List, [], ◌∷◌, ◌==◌, if◌then◌else◌}
use lovax.Base.Text.{codes, bytes_equal}
use lovax.Lexer.Tokens.{
  TokenType, identifier, assign, plus, minus, asterisk, power, slash, slash_slash, percent,
  ampersand, pipe, caret, tilde, shift_left, shift_right, plus_assign, minus_assign,
  asterisk_assign, slash_assign, slash_slash_assign, percent_assign, amp_assign, pipe_assign,
  caret_assign, shl_assign, shr_assign, qq_assign, equal, not_equal, less_than, greater_than,
  less_equal, greater_equal, colon, comma, lparen, rparen, lbracket, rbracket, lbrace, rbrace, dot,
  dotdot, ellipsis, qq, qdot, arrow, set_kw, say_kw, if_kw, else_kw, match_kw, use_kw, as_kw,
  try_kw, catch_kw, throw_kw, const_kw, pass_kw, repeat_kw, until_kw, is_kw, struct_kw, enum_kw,
  this_kw, new_kw, finally_kw, yield_kw, while_kw, for_kw, in_kw, break_kw, continue_kw, fn_kw,
  return_kw, true_kw, false_kw, null_kw, and_kw, or_kw, not_kw, Error, unexpected_character,
  no_double_operator,
}

abbrev pub keywords : List (List ℕ × TokenType)
keywords =
    (codes "set", set_kw)
    ∷ (codes "say", say_kw)
    ∷ (codes "if", if_kw)
    ∷ (codes "else", else_kw)
    ∷ (codes "match", match_kw)
    ∷ (codes "use", use_kw)
    ∷ (codes "as", as_kw)
    ∷ (codes "try", try_kw)
    ∷ (codes "catch", catch_kw)
    ∷ (codes "throw", throw_kw)
    ∷ (codes "const", const_kw)
    ∷ (codes "pass", pass_kw)
    ∷ (codes "repeat", repeat_kw)
    ∷ (codes "until", until_kw)
    ∷ (codes "is", is_kw)
    ∷ (codes "struct", struct_kw)
    ∷ (codes "enum", enum_kw)
    ∷ (codes "this", this_kw)
    ∷ (codes "new", new_kw)
    ∷ (codes "finally", finally_kw)
    ∷ (codes "yield", yield_kw)
    ∷ (codes "while", while_kw)
    ∷ (codes "for", for_kw)
    ∷ (codes "in", in_kw)
    ∷ (codes "break", break_kw)
    ∷ (codes "continue", continue_kw)
    ∷ (codes "fn", fn_kw)
    ∷ (codes "return", return_kw)
    ∷ (codes "and", and_kw)
    ∷ (codes "or", or_kw)
    ∷ (codes "not", not_kw)
    ∷ (codes "true", true_kw)
    ∷ (codes "false", false_kw)
    ∷ (codes "null", null_kw)
    ∷ []

-- What the switch makes of an operator: a token of its text, or an error.
pub data Sign : Type 0 where
  token : TokenType → Sign
  bad : Error → Sign

-- The cases of the switch in the source's order; a case that tests the next bytes has an entry
-- for each outcome, and the first entry that the input begins with is taken.
abbrev pub signs : List (List ℕ × Sign)
signs =
    (codes "==", token equal)
    ∷ (codes "=", token assign)
    ∷ (codes "!=", token not_equal)
    ∷ (codes "!", bad (unexpected_character b'!'))
    ∷ (codes "+=", token plus_assign)
    ∷ (codes "+", token plus)
    ∷ (codes "->", token arrow)
    ∷ (codes "-=", token minus_assign)
    ∷ (codes "-", token minus)
    ∷ (codes "**", token power)
    ∷ (codes "*=", token asterisk_assign)
    ∷ (codes "*", token asterisk)
    ∷ (codes "//=", token slash_slash_assign)
    ∷ (codes "//", token slash_slash)
    ∷ (codes "/=", token slash_assign)
    ∷ (codes "/", token slash)
    ∷ (codes "%=", token percent_assign)
    ∷ (codes "%", token percent)
    ∷ (codes "&=", token amp_assign)
    ∷ (codes "&&", bad (no_double_operator b'&'))
    ∷ (codes "&", token ampersand)
    ∷ (codes "|=", token pipe_assign)
    ∷ (codes "||", bad (no_double_operator b'|'))
    ∷ (codes "|", token pipe)
    ∷ (codes "^=", token caret_assign)
    ∷ (codes "^", token caret)
    ∷ (codes "~", token tilde)
    ∷ (codes "<<=", token shl_assign)
    ∷ (codes "<<", token shift_left)
    ∷ (codes "<=", token less_equal)
    ∷ (codes "<", token less_than)
    ∷ (codes ">>=", token shr_assign)
    ∷ (codes ">>", token shift_right)
    ∷ (codes ">=", token greater_equal)
    ∷ (codes ">", token greater_than)
    ∷ (codes ":", token colon)
    ∷ (codes "...", token ellipsis)
    ∷ (codes "..", token dotdot)
    ∷ (codes ".", token dot)
    ∷ (codes "??=", token qq_assign)
    ∷ (codes "??", token qq)
    ∷ (codes "?.", token qdot)
    ∷ (codes "?", bad (unexpected_character b'?'))
    ∷ (codes ",", token comma)
    ∷ (codes "(", token lparen)
    ∷ (codes ")", token rparen)
    ∷ (codes "[", token lbracket)
    ∷ (codes "]", token rbracket)
    ∷ (codes "{", token lbrace)
    ∷ (codes "}", token rbrace)
    ∷ []

abbrev pub lookup : List (List ℕ × TokenType) → List ℕ → TokenType
lookup [] s = identifier
lookup ((k, t) ∷ table) s = if bytes_equal k s then t else lookup table s

-- `lookupIdent`
unfoldable pub lookup_ident : List ℕ → TokenType
lookup_ident s = lookup keywords s

-- The input without a prefix that it begins with.
abbrev pub without_prefix : List ℕ → List ℕ → Option (List ℕ)
without_prefix [] s = some s
without_prefix (a ∷ p) [] = none
without_prefix (a ∷ p) (b ∷ s) = if a == b then without_prefix p s else none
