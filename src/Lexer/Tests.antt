-- ===== src/Lexer/Tests.antt =====
-- Runs of the lexer, and its theorems at an input.
use lovax.Lexer.Cursor.{is_letter, skip_while, take_while, count_spaces}
use lovax.Lexer.Total.{tokenize-Tokenizes, Tokenizes}
use lovax.Lexer.Text.{Content-read_string, Content, ended, opened, closed, enter, leave, plain}
use lovax.Lexer.Quoted.{Reads, read_string-Reads}
use lovax.Base.{ℕ, ◌≡◌, refl, inl, false, Option, none, some, List, [], ◌∷◌, ◌++◌, map, arith}
use lovax.Base.Text.{codes}
use lovax.Lexer.Tokens.{
  Place, Token, TokenType, end_of_file, identifier, int, float, string, assign, colon, qq, newline,
  indent, dedent, say_kw, if_kw, text,
}
use lovax.Lexer.Tables.{lookup_ident}
use lovax.Lexer.Numbers.{make_token, read_number}
use lovax.Lexer.Strings.{read_string}
use lovax.Lexer.Scan.{tokenize}

abbrev types : Option (List Token) → List TokenType
types none = []
types (some ts) = map (λ t. t.type) ts

abbrev block : List ℕ
block = codes "if a:\n    b = 0x1F ## c\n\n  # d\nsay \"{m[\"k\"]}\" ?? 1.5e3"

block-types :
    types (tokenize block)
    ≡ if_kw ∷ identifier ∷ colon ∷ newline ∷ indent ∷ identifier ∷ assign ∷ int ∷ newline ∷ dedent
      ∷ say_kw ∷ string ∷ qq ∷ float ∷ end_of_file ∷ []
unfolding tokenize count_spaces skip_while is_letter lookup_ident take_while read_number read_string
block-types = refl

abbrev unaligned : List ℕ
unaligned = codes "  a\n b"

tokenize-Tokenizes_example : Tokenizes 0 (tokenize unaligned)
tokenize-Tokenizes_example = tokenize-Tokenizes unaligned

abbrev origin : Place
origin = record { line = 1; column = 1 }

-- A string with an inner string, in which a brace has no meaning, and the input behind it.
abbrev nested : List ℕ
nested = codes "{\"}\"}"

abbrev nested-Content : Content 0 false nested
nested-Content = opened (
    enter (omega arith)
      (plain (omega arith, omega arith, omega arith, omega arith, inl refl) (leave (closed ended))))

Content-read_string_example :
    ((read_string (record { rest = b'"' ∷ nested ++ b'"' ∷ codes "+z"; place = origin })).0
      ≡ make_token string (text nested) origin)
    × ((read_string (record { rest = b'"' ∷ nested ++ b'"' ∷ codes "+z"; place = origin })).2.rest
        ≡ codes "+z")
Content-read_string_example = Content-read_string (codes "+z") nested origin nested-Content

read_string-Reads_example :
    Reads (codes "a\\\"") (read_string (record { rest = b'"' ∷ codes "a\\\""; place = origin }))
read_string-Reads_example = read_string-Reads (codes "a\\\"") origin
