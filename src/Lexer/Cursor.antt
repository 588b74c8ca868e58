-- ===== src/Lexer/Cursor.antt =====
-- The reading position of src/lexer/lexer.hpp: `readChar`, `peekChar`, and the loops that skip or
-- collect characters. The position is the input from there on; at its end `ch` is 0.
use lovax.Base.{ℕ, zero, suc, ◌+◌, Bool, ◌&&◌, ◌||◌, List, [], ◌∷◌, leb, ◌==◌, if◌then◌else◌}
use lovax.Lexer.Tokens.{Place}

pub record Cursor : Type 0 where
  pub rest : List ℕ
  pub place : Place

-- `ch`, and for the tail of the input `peekChar`.
abbrev pub char_at : List ℕ → ℕ
char_at [] = 0
char_at (c ∷ r) = c

abbrev pub tail : List ℕ → List ℕ
tail [] = []
tail (c ∷ r) = r

-- `line` and `column` after a character has been passed.
unfoldable pub pass : ℕ → Place → Place
pass c p =
    if c == b'\n'
    then record { line = p.line + 1; column = 1 }
    else record { line = p.line; column = p.column + 1 }

abbrev pub read_char : Cursor → Cursor
read_char c = record { rest = tail c.rest; place = pass (char_at c.rest) c.place }

abbrev pub read_chars : ℕ → Cursor → Cursor
read_chars zero c = c
read_chars (suc n) c = read_chars n (read_char c)

abbrev pub between : ℕ → ℕ → ℕ → Bool
between lo hi c = leb lo c && leb c hi

-- Letters of ASCII, the underscore, and every byte of a longer character.
unfoldable pub is_letter : ℕ → Bool
is_letter c = between b'a' b'z' c || between b'A' b'Z' c || c == b'_' || leb 0x80 c

abbrev pub is_digit : ℕ → Bool
is_digit c = between b'0' b'9' c

abbrev pub is_hex_digit : ℕ → Bool
is_hex_digit c = between b'0' b'9' c || between b'a' b'f' c || between b'A' b'F' c

-- `while (p(ch)) readChar()`, where `p` does not hold of 0.
unfoldable pub skip_while : (ℕ → Bool) → List ℕ → Place → Cursor
skip_while p [] at = record { rest = []; place = at }
skip_while p (c ∷ r) at =
    let next = skip_while p r (pass c at) in
    if p c then next else record { rest = c ∷ r; place = at }

-- The same loop with the characters that it passes.
unfoldable pub take_while : (ℕ → Bool) → List ℕ → Place → List ℕ × Cursor
take_while p [] at = ([], record { rest = []; place = at })
take_while p (c ∷ r) at =
    let (taken, next) = take_while p r (pass c at) in
    if p c then (c ∷ taken, next) else ([], record { rest = c ∷ r; place = at })

abbrev pub is_blank : ℕ → Bool
is_blank c = c == b' ' || c == b'\t' || c == b'\r'

-- `skipWhitespace`
abbrev pub skip_whitespace : Cursor → Cursor
skip_whitespace c = skip_while is_blank c.rest c.place

abbrev pub begins_hashes : List ℕ → Bool
begins_hashes s = char_at s == b'#' && char_at (tail s) == b'#' && char_at (tail (tail s)) == b'#'

-- The loop of `skipBlockComment`.
unfoldable pub block_from : List ℕ → Place → Cursor
block_from [] at = record { rest = []; place = at }
block_from (c ∷ r) at =
    let next = block_from r (pass c at) in
    if c == 0
    then record { rest = c ∷ r; place = at }
    else if begins_hashes (c ∷ r)
    then read_chars 3 (record { rest = c ∷ r; place = at })
    else next

abbrev pub skip_block_comment : Cursor → Cursor
skip_block_comment c = let d = read_chars 3 c in block_from d.rest d.place

-- The loop that measures an indentation: a tab counts as four spaces.
unfoldable pub count_spaces : List ℕ → Place → ℕ × Cursor
count_spaces [] at = (0, record { rest = []; place = at })
count_spaces (c ∷ r) at =
    let (spaces, next) = count_spaces r (pass c at) in
    if c == b' '
    then (1 + spaces, next)
    else if c == b'\t'
    then (4 + spaces, next)
    else (0, record { rest = c ∷ r; place = at })
