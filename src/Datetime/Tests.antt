-- ===== src/Datetime/Tests.antt =====
-- Runs of the calendar, and its theorems at an input.
use lovax.Base.{ℕ, ◌*◌, ◌^◌, ◌≤◌, ◌≡◌, refl, Option, none, some, List, arith, ◌>>=◌}
use lovax.Base.Int.{◌+ℤ◌, ◌-ℤ◌, ◌*ℤ◌, ℤ, pos, negsuc}
use lovax.Base.Text.{codes}
use lovax.Datetime.{
  weekday, civil_days, civil_fits, days_from_civil, civil_from_days, day_number, second_of_day,
  weekday_of, from_timestamp, timestamp_of, make, add, diff, DateTime, refused, overflow,
}
use lovax.Datetime.Days.{DaysBack, days_round_trip}
use lovax.Datetime.Civil.{IsDate}
use lovax.Datetime.Clock.{from_timestamp-IsMoment, IsMoment}
use lovax.Datetime.Range.{civil_round_trip}
use lovax.Int64.{abs}
use lovax.Datetime.Format.{directive, format_from, format, parse_from, moment, parse, Parts}
use lovax.Datetime.Formats.{updated_by, parse_from-format, IsReadable}
use lovax.Datetime.Reads.{iso, parse-format}
use lovax.Datetime.Offsets.{AddsDays, add-AddsDays}

epoch : civil_from_days (pos 0) ≡ (pos 1970, 1, 1)
unfolding civil_from_days ◌+ℤ◌ ◌-ℤ◌ ◌*ℤ◌
epoch = refl

first_day : civil_days (pos 0) 1 1 ≡ negsuc 719527
unfolding civil_days ◌+ℤ◌ ◌-ℤ◌ ◌*ℤ◌
first_day = refl

-- One second before the epoch was a Wednesday.
before_epoch : from_timestamp (negsuc 0) ≡ record {
  year = pos 1969;
  month = 12;
  day = 31;
  hour = 23;
  minute = 59;
  second = 59;
  weekday = 2;
  timestamp = negsuc 0;
}
unfolding civil_from_days day_number second_of_day weekday_of ◌+ℤ◌ ◌-ℤ◌ ◌*ℤ◌
before_epoch = refl

-- A year with which the arithmetic of `make` overflows, and one with which it does not.
large_years :
    (make (pos (10 ^ 12)) (pos 1) (pos 1) (pos 0) (pos 0) (pos 0) ≡ overflow)
    × (make (pos 1900) (pos 2) (pos 29) (pos 0) (pos 0) (pos 0) ≡ refused)
unfolding make days_from_civil civil_days civil_fits timestamp_of ◌+ℤ◌ ◌-ℤ◌ ◌*ℤ◌
large_years = (refl, refl)

abbrev leap_day_date : IsDate (pos 2024) 2 29
leap_day_date = record {
  month_low = omega arith;
  month_high = omega arith;
  day_low = omega arith;
  day_high = omega arith;
}

civil_round_trip_example :
    (days : ℤ) × (days_from_civil (pos 2024) 2 29 ≡ some days)
    × (abs days ≤ 4 * 10 ^ 18)
    × (civil_from_days days ≡ (pos 2024, 2, 29))
civil_round_trip_example = civil_round_trip (pos 2024) 2 29 leap_day_date (omega arith)

days_round_trip_example : DaysBack (negsuc 800000) (civil_from_days (negsuc 800000))
days_round_trip_example = days_round_trip (negsuc 800000)

from_timestamp-IsMoment_example : IsMoment (from_timestamp (negsuc 86400))
from_timestamp-IsMoment_example = from_timestamp-IsMoment (negsuc 86400)

abbrev evening : DateTime
evening = record {
  year = pos 987;
  month = 6;
  day = 5;
  hour = 21;
  minute = 0;
  second = 7;
  weekday = 1;
  timestamp = pos 0;
}

abbrev evening-IsReadable : IsReadable evening 987
evening-IsReadable = record {
  year = refl;
  four = omega arith;
  month = omega arith;
  day = omega arith;
  hour = omega arith;
  minute = omega arith;
  second = omega arith;
}

abbrev clock_format : List ℕ
clock_format = codes "%% %d:%Y"

abbrev defaults : Parts
defaults = record { y = 1970; mo = 1; d = 1; h = 0; mi = 0; se = 0 }

evening-format : format_from evening clock_format ≡ some (codes "% 05:0987")
unfolding format_from directive
evening-format = refl

parse_from-format_example :
    parse_from clock_format (codes "% 05:0987") defaults
    ≡ some (updated_by evening 987 evening-IsReadable clock_format defaults)
parse_from-format_example =
    parse_from-format evening 987 evening-IsReadable clock_format (codes "% 05:0987") defaults refl
      evening-format

-- `parse` takes a 31st day in every month; `make` does not.
abbrev third_of_march : Option DateTime
third_of_march = parse (codes "2023-02-31") (codes "%Y-%m-%d")

thirty_first :
    ((third_of_march >>= λ dt. some dt.month) ≡ some 3)
    × ((third_of_march >>= λ dt. some dt.day) ≡ some 3)
    × (make (pos 2023) (pos 2) (pos 31) (pos 0) (pos 0) (pos 0) ≡ refused)
unfolding parse make days_from_civil civil_days civil_fits civil_from_days timestamp_of moment
    day_number ◌+ℤ◌ ◌-ℤ◌ ◌*ℤ◌
thirty_first = (refl, refl, refl)

-- A weekday is printed, but not read.
weekday_only :
    (format (pos 0) (codes "%w") ≡ some (codes "3")) × (parse (codes "3") (codes "%w") ≡ none)
unfolding format_from directive parse parse_from weekday_of day_number ◌+ℤ◌ ◌-ℤ◌ ◌*ℤ◌
weekday_only = (refl, refl)

year_of_epoch : (from_timestamp (pos 0)).year ≡ pos 1970
unfolding civil_from_days day_number ◌+ℤ◌ ◌-ℤ◌ ◌*ℤ◌
year_of_epoch = refl

parse-format_example :
    (format (pos 0) iso >>= λ text. parse text iso) ≡ some (from_timestamp (pos 0))
parse-format_example = parse-format (pos 0) 1970 year_of_epoch (omega arith)

add-AddsDays_example :
    AddsDays (pos 59) (negsuc 59) (add (pos 59) (negsuc 59) (pos 0) (pos 0) (pos 0))
add-AddsDays_example = add-AddsDays (pos 59) (negsuc 59)

-- A minute and seven seconds later, and how much later that is.
later :
    ((add (pos 59) (pos 0) (pos 0) (pos 1) (pos 7) >>= λ dt. diff dt.timestamp (pos 59))
      ≡ some (pos 67))
    × (weekday (negsuc 0) ≡ 2)
unfolding add diff weekday weekday_of ◌+ℤ◌ ◌-ℤ◌ ◌*ℤ◌
later = (refl, refl)
