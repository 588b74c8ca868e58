-- ===== src/Datetime/Format.antt =====
-- `format` and `parse` of src/modules/datetime.hpp; their errors are none, as is an overflow, which the digits of a year
-- do not reach.
use lovax.Base.{
  ℕ, zero, suc, ◌+◌, ◌-◌, ◌*◌, ◌/◌, ◌%◌, Bool, ◌&&◌, ◌||◌, Option, none, some, List, [], ◌∷◌, ◌++◌,
  ltb, leb, ◌==◌, if◌then◌else◌, ◌>>=◌,
}
use lovax.Base.Int.{ℤ, pos, negsuc}
use lovax.Datetime.{days_from_civil, from_timestamp, timestamp_of, DateTime}

-- The digits of a number, none for 0.
abbrev pub decimal : ℕ → ℕ → List ℕ
decimal zero n = []
decimal (suc fuel) n =
    let higher = decimal fuel (n / 10) in if n == 0 then [] else higher ++ (b'0' + n % 10) ∷ []

-- `%0wlld` of a number: at least `w` digits, and as many as it needs.
abbrev pub padded : ℕ → ℕ → List ℕ
padded zero n = decimal n n
padded (suc w) n = padded w (n / 10) ++ (b'0' + n % 10) ∷ []

-- `%04lld`; the sign counts as a digit.
abbrev pub padded_year : ℤ → List ℕ
padded_year (pos n) = padded 4 n
padded_year (negsuc n) = b'-' ∷ padded 3 (suc n)

unfoldable pub directive : DateTime → ℕ → Option (List ℕ)
directive dt c =
    if c == b'Y'
    then some (padded_year dt.year)
    else if c == b'm'
    then some (padded 2 dt.month)
    else if c == b'd'
    then some (padded 2 dt.day)
    else if c == b'H'
    then some (padded 2 dt.hour)
    else if c == b'M'
    then some (padded 2 dt.minute)
    else if c == b'S'
    then some (padded 2 dt.second)
    else if c == b'w'
    then some (padded 1 dt.weekday)
    else if c == b'%'
    then some (b'%' ∷ [])
    else none

-- The loop of `format`.
unfoldable pub format_from : DateTime → List ℕ → Option (List ℕ)
unfolding directive
format_from dt [] = some []
format_from dt (c ∷ []) = some (c ∷ [])
format_from dt (c ∷ d ∷ fmt) =
    let after = format_from dt fmt in
    let plain = format_from dt (d ∷ fmt) in
    if c == b'%'
    then directive dt d >>= (λ s. after >>= λ t. some (s ++ t))
    else plain >>= λ t. some (c ∷ t)

-- `format` of a timestamp
abbrev pub format : ℤ → List ℕ → Option (List ℕ)
format ts fmt = format_from (from_timestamp ts) fmt

-- The variables of `parse`.
pub record Parts : Type 0 where
  pub y : ℕ
  pub mo : ℕ
  pub d : ℕ
  pub h : ℕ
  pub mi : ℕ
  pub se : ℕ

abbrev pub digit_char : ℕ → Bool
digit_char c = leb b'0' c && leb c b'9'

-- The loop of `readInt`.
abbrev pub read_width : ℕ → ℕ → List ℕ → ℕ × List ℕ
read_width zero v s = (v, s)
read_width (suc w) v [] = (v, [])
read_width (suc w) v (c ∷ s) =
    let more = read_width w (v * 10 + (c - b'0')) s in if digit_char c then more else (v, c ∷ s)

-- `readInt`
abbrev pub read_int : ℕ → List ℕ → Option (ℕ × List ℕ)
read_int w [] = none
read_int w (c ∷ s) = if digit_char c then some (read_width w 0 (c ∷ s)) else none

abbrev pub literal : ℕ → List ℕ → Option (List ℕ)
literal c [] = none
literal c (b ∷ s) = if b == c then some s else none

abbrev pub with_part : (ℕ → Parts) → Option (ℕ × List ℕ) → Option (Parts × List ℕ)
with_part f none = none
with_part f (some (v, s)) = some (f v, s)

abbrev pub without_part : Parts → Option (List ℕ) → Option (Parts × List ℕ)
without_part p none = none
without_part p (some s) = some (p, s)

unfoldable pub read_directive : ℕ → List ℕ → Parts → Option (Parts × List ℕ)
read_directive c s p =
    if c == b'Y'
    then with_part (λ v. record p { y = v }) (read_int 4 s)
    else if c == b'm'
    then with_part (λ v. record p { mo = v }) (read_int 2 s)
    else if c == b'd'
    then with_part (λ v. record p { d = v }) (read_int 2 s)
    else if c == b'H'
    then with_part (λ v. record p { h = v }) (read_int 2 s)
    else if c == b'M'
    then with_part (λ v. record p { mi = v }) (read_int 2 s)
    else if c == b'S'
    then with_part (λ v. record p { se = v }) (read_int 2 s)
    else if c == b'%'
    then without_part p (literal b'%' s)
    else none

-- The loop of `parse`; what is left of the text is not looked at.
unfoldable pub parse_from : List ℕ → List ℕ → Parts → Option Parts
unfolding read_directive
parse_from [] s p = some p
parse_from (c ∷ []) s p = literal c s >>= λ r. some p
parse_from (c ∷ e ∷ fmt) s p =
    if c == b'%'
    then read_directive e s p >>= (λ (q, r). parse_from fmt r q)
    else literal c s >>= (λ r. parse_from (e ∷ fmt) r p)

abbrev pub out_of_range : Parts → Bool
out_of_range p =
    ltb p.mo 1 || ltb 12 p.mo || ltb p.d 1 || ltb 31 p.d || ltb 23 p.h || ltb 59 p.mi || ltb 59 p.se

-- The end of `parse`.
unfoldable pub moment : Parts → Option DateTime
unfolding days_from_civil timestamp_of
moment p =
    if out_of_range p
    then none
    else days_from_civil (pos p.y) p.mo p.d >>= (λ days. timestamp_of days p.h p.mi p.se) >>= λ ts.
        some (from_timestamp ts)

-- `parse`
unfoldable pub parse : List ℕ → List ℕ → Option DateTime
unfolding parse_from moment
parse text fmt =
    parse_from fmt text (record { y = 1970; mo = 1; d = 1; h = 0; mi = 0; se = 0 }) >>= moment
