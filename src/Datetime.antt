-- ===== src/Datetime.antt =====
-- The calendar of src/modules/datetime.hpp: the civil dates and the timestamps. A `long long` is
-- an integer, with none or an overflow where a signed operation of `dtDaysFromCivil`, `make`, `add`
-- or `diff` leaves its range; months, days and the parts of an era are numbers.
pub mod Years
pub mod Months
pub mod Eras
pub mod Days
pub mod Civil
pub mod Clock
pub mod Range
pub mod Make
pub mod Offsets
pub mod Format
pub mod Formats
pub mod Reads
mod Tests
use lovax.Base.{
  ℕ, ◌+◌, ◌-◌, ◌*◌, ◌/◌, ◌%◌, ◌^◌, Bool, not, ◌&&◌, ◌||◌, Option, none, some, ltb, leb, ◌==◌,
  if◌then◌else◌, ◌>>=◌,
}
use lovax.Base.Int.{pos_part, neg_part, ◌+ℤ◌, ◌-ℤ◌, ◌*ℤ◌, ℤ, pos, negsuc}
use lovax.Int64.{is_negative, abs, quotient, remainder}

-- The numerator of a truncated division by `n` that rounds down.
abbrev pub lowered : ℕ → ℤ → ℤ
lowered n (pos a) = pos a
lowered n (negsuc a) = negsuc a -ℤ pos (n - 1)

-- `(y >= 0 ? y : y - 399) / 400` and the like.
unfoldable pub era_of : ℕ → ℤ → ℤ
era_of n y = quotient (lowered n y) (pos n)

-- `y - era * n`, which is not negative.
unfoldable pub part_of_era : ℕ → ℤ → ℕ
unfolding era_of
part_of_era n y = pos_part (y -ℤ era_of n y *ℤ pos n)

-- `m + (m > 2 ? -3 : 9)`
abbrev pub shifted_month : ℕ → ℕ
shifted_month m = if ltb 2 m then m - 3 else m + 9

abbrev pub days_before : ℕ → ℕ
days_before mp = (153 * mp + 2) / 5

abbrev pub day_of_era : ℕ → ℕ → ℕ
day_of_era yoe doy = yoe * 365 + yoe / 4 - yoe / 100 + doy

-- `y -= m <= 2`
abbrev pub january : ℕ → ℤ
january m = if leb m 2 then pos 1 else pos 0

-- The value of `dtDaysFromCivil` where no operation of it overflows.
unfoldable pub civil_days : ℤ → ℕ → ℕ → ℤ
unfolding era_of part_of_era
civil_days year m d =
    let y = year -ℤ january m in
    let doy = days_before (shifted_month m) + d - 1 in
    era_of 400 y *ℤ pos 146097 +ℤ pos (day_of_era (part_of_era 400 y) doy) -ℤ pos 719468

-- A `long long` holds the integer.
abbrev pub fits : ℤ → Bool
fits z = ltb (pos_part z) (2 ^ 63) && leb (neg_part z) (2 ^ 63)

-- The results of `dtDaysFromCivil`, in its order, that a large year may take out of the range.
unfoldable pub civil_fits : ℤ → ℕ → ℕ → Bool
unfolding era_of part_of_era civil_days
civil_fits year m d =
    let y = year -ℤ january m in
    let doy = days_before (shifted_month m) + d - 1 in
    let era = era_of 400 y in
    fits y
    && fits (lowered 400 y)
    && fits (era *ℤ pos 400)
    && fits (era *ℤ pos 146097)
    && fits (era *ℤ pos 146097 +ℤ pos (day_of_era (part_of_era 400 y) doy))
    && fits (civil_days year m d)

-- `dtDaysFromCivil`; none where a signed operation overflows, which C++ leaves undefined.
unfoldable pub days_from_civil : ℤ → ℕ → ℕ → Option ℤ
unfolding civil_days civil_fits
days_from_civil year m d = if civil_fits year m d then some (civil_days year m d) else none

abbrev pub year_of_era : ℕ → ℕ
year_of_era doe = (doe - doe / 1460 + doe / 36524 - doe / 146096) / 365

abbrev pub day_of_year : ℕ → ℕ
day_of_year doe = doe - (365 * year_of_era doe + year_of_era doe / 4 - year_of_era doe / 100)

abbrev pub month_part : ℕ → ℕ
month_part doy = (5 * doy + 2) / 153

abbrev pub month_of : ℕ → ℕ
month_of mp = if ltb mp 10 then mp + 3 else mp - 9

abbrev pub day_of : ℕ → ℕ
day_of doy = doy - days_before (month_part doy) + 1

-- `dtCivilFromDays`
unfoldable pub civil_from_days : ℤ → ℤ × ℕ × ℕ
unfolding era_of part_of_era
civil_from_days days =
    let z = days +ℤ pos 719468 in
    let doe = part_of_era 146097 z in
    let doy = day_of_year doe in
    let m = month_of (month_part doy) in
    (pos (year_of_era doe) +ℤ era_of 146097 z *ℤ pos 400 +ℤ january m, m, day_of doy)

-- `y % n == 0`
abbrev pub divides : ℕ → ℤ → Bool
divides n y = abs (remainder y (pos n)) == 0

abbrev pub is_leap : ℤ → Bool
is_leap y = (divides 4 y && not (divides 100 y)) || divides 400 y

-- `mdays`
abbrev pub month_days : ℕ → ℕ
month_days m = if m == 2 then 28 else if m == 4 || m == 6 || m == 9 || m == 11 then 30 else 31

-- `dim` of `make`
abbrev pub days_in_month : ℤ → ℕ → ℕ
days_in_month y m = month_days m + (if m == 2 && is_leap y then 1 else 0)

-- The fields of the map that `dtFromTimestamp` makes.
pub record DateTime : Type 0 where
  pub year : ℤ
  pub month : ℕ
  pub day : ℕ
  pub hour : ℕ
  pub minute : ℕ
  pub second : ℕ
  pub weekday : ℕ
  pub timestamp : ℤ

-- `ts / 86400` and `ts % 86400`, which are truncated, and their correction.
unfoldable pub day_number : ℤ → ℤ
day_number ts =
    if is_negative (remainder ts (pos 86400))
    then quotient ts (pos 86400) -ℤ pos 1
    else quotient ts (pos 86400)

unfoldable pub second_of_day : ℤ → ℕ
second_of_day ts =
    if is_negative (remainder ts (pos 86400))
    then pos_part (remainder ts (pos 86400) +ℤ pos 86400)
    else pos_part (remainder ts (pos 86400))

-- `(days % 7 + 7 + 3) % 7`
unfoldable pub weekday_of : ℤ → ℕ
weekday_of days = pos_part (remainder days (pos 7) +ℤ pos 7 +ℤ pos 3) % 7

abbrev pub fields : ℤ × ℕ × ℕ → ℕ → ℕ → ℤ → DateTime
fields (y, m, d) rem wd ts = record {
  year = y;
  month = m;
  day = d;
  hour = rem / 3600;
  minute = (rem % 3600) / 60;
  second = rem % 60;
  weekday = wd;
  timestamp = ts;
}

-- `dtFromTimestamp`
abbrev pub from_timestamp : ℤ → DateTime
from_timestamp ts =
    fields (civil_from_days (day_number ts)) (second_of_day ts) (weekday_of (day_number ts)) ts

-- `days * 86400 + hour * 3600 + minute * 60 + second`; none where it overflows.
unfoldable pub timestamp_of : ℤ → ℕ → ℕ → ℕ → Option ℤ
timestamp_of days hour minute second =
    let whole = days *ℤ pos 86400 in
    let hours = whole +ℤ pos (hour * 3600) in
    let minutes = hours +ℤ pos (minute * 60) in
    let seconds = minutes +ℤ pos second in
    if fits whole && fits hours && fits minutes && fits seconds then some seconds else none

-- What `make` does: its error, an overflow, or a datetime.
pub data Made : Type 0 where
  refused : Made
  overflow : Made
  made : DateTime → Made

abbrev pub made_from : Option ℤ → Made
made_from none = overflow
made_from (some ts) = made (from_timestamp ts)

-- `make` of integers, the last three of which are 0 if they are left out.
unfoldable pub make : ℤ → ℤ → ℤ → ℤ → ℤ → ℤ → Made
unfolding days_from_civil timestamp_of
make year (pos month) (pos day) (pos hour) (pos minute) (pos second) =
    if ltb month 1
      || ltb 12 month
      || ltb day 1
      || ltb (days_in_month year month) day
      || ltb 23 hour
      || ltb 59 minute
      || ltb 59 second
    then refused
    else made_from (days_from_civil year month day >>= λ days. timestamp_of days hour minute second)
make year _ _ _ _ _ = refused

-- `weekday` of a timestamp
unfoldable pub weekday : ℤ → ℕ
unfolding weekday_of
weekday ts =
    let days = quotient ts (pos 86400) in
    weekday_of (if is_negative (remainder ts (pos 86400)) then days -ℤ pos 1 else days)

-- `add` of a timestamp; none where it overflows.
unfoldable pub add : ℤ → ℤ → ℤ → ℤ → ℤ → Option DateTime
add ts days hours minutes seconds =
    let d = days *ℤ pos 86400 in
    let h = hours *ℤ pos 3600 in
    let m = minutes *ℤ pos 60 in
    let total = d +ℤ h +ℤ m +ℤ seconds in
    if fits d
      && fits h
      && fits (d +ℤ h)
      && fits m
      && fits (d +ℤ h +ℤ m)
      && fits total
      && fits (ts +ℤ total)
    then some (from_timestamp (ts +ℤ total))
    else none

-- `diff` of two timestamps; none where it overflows.
unfoldable pub diff : ℤ → ℤ → Option ℤ
diff a b = if fits (a -ℤ b) then some (a -ℤ b) else none
