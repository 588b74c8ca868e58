-- ===== src/Lexer/Tokens.antt =====
-- The tokens of src/lexer/token.hpp.
use lovax.Base.{ℕ, List}
use lovax.Base.Text.{}

-- `TokenType`; a keyword has the ending `_kw`.
pub data TokenType : Type 0 where
  illegal end_of_file identifier int float imaginary string assign plus minus : TokenType
  asterisk power slash slash_slash percent ampersand pipe caret tilde shift_left : TokenType
  shift_right plus_assign minus_assign asterisk_assign slash_assign : TokenType
  slash_slash_assign percent_assign amp_assign pipe_assign caret_assign : TokenType
  shl_assign shr_assign qq_assign equal not_equal less_than greater_than : TokenType
  less_equal greater_equal colon comma lparen rparen lbracket rbracket lbrace : TokenType
  rbrace dot dotdot ellipsis qq qdot arrow newline indent dedent set_kw say_kw : TokenType
  if_kw else_kw match_kw use_kw as_kw try_kw catch_kw throw_kw const_kw pass_kw : TokenType
  repeat_kw until_kw is_kw struct_kw enum_kw this_kw new_kw finally_kw yield_kw : TokenType
  while_kw for_kw in_kw break_kw continue_kw fn_kw return_kw true_kw false_kw : TokenType
  null_kw and_kw or_kw not_kw : TokenType

-- The errors that an `ILLEGAL` token carries as its text.
pub data Error : Type 0 where
  invalid_indentation : Error
  unexpected_character : ℕ → Error
  no_double_operator : ℕ → Error
  digits_missing : List ℕ → Error
  invalid_number : List ℕ → Error
  unterminated_string : Error
  unterminated_multiline : Error

-- The text of a token: bytes of the input, or an error.
pub data Literal : Type 0 where
  text : List ℕ → Literal
  message : Error → Literal

-- Line and column, counted from 1.
pub record Place : Type 0 where
  pub line : ℕ
  pub column : ℕ

pub record Token : Type 0 where
  pub type : TokenType
  pub literal : Literal
  pub place : Place
