-- ===== src/Datetime/Reads.antt =====
-- Timestamps that `parse` of src/modules/datetime.hpp reads again.
use lovax.Base.{ℕ, ◌<◌, ◌≡◌, refl, sym, ap, ◌∙◌, false, Option, some, List, arith, ◌>>=◌}
use lovax.Base.Int.{ℤ, pos}
use lovax.Base.Text.{codes}
use lovax.Datetime.{civil_days, from_timestamp, DateTime}
use lovax.Datetime.Clock.{from_timestamp-IsMoment, IsMoment}
use lovax.Datetime.Range.{days_le, days_from_civil-some, seconds_of, timestamp_of-some}
use lovax.Datetime.Format.{directive, format_from, format, out_of_range, moment, parse, Parts}
use lovax.Datetime.Formats.{parse_from-format, IsReadable}

abbrev pub iso : List ℕ
iso = codes "%Y-%m-%d %H:%M:%S"

moment-IsReadable :
    (dt : DateTime) (n : ℕ) → IsMoment dt → dt.year ≡ pos n → n < 10000 → IsReadable dt n
moment-IsReadable dt n m y h = record {
  year = y;
  four = h;
  month = omega (arith, m.month_high);
  day = omega (arith, m.day_high);
  hour = omega (arith, m.hour);
  minute = omega (arith, m.minute);
  second = omega (arith, m.second);
}

-- The parts of a date and time.
abbrev parts_of : DateTime → ℕ → Parts
parts_of dt n = record {
  y = n;
  mo = dt.month;
  d = dt.day;
  h = dt.hour;
  mi = dt.minute;
  se = dt.second;
}

moment-from_timestamp :
    (dt : DateTime) (n : ℕ)
    → IsMoment dt
    → dt.year ≡ pos n
    → n < 10000
    → moment (parts_of dt n) ≡ some (from_timestamp dt.timestamp)
unfolding moment
moment-from_timestamp dt n m y h =
    let inside : out_of_range (parts_of dt n) ≡ false =
      ground
        (arith, m.month_low, m.month_high, m.day_low, m.day_high, m.hour, m.minute, m.second) in
    let days = civil_days (pos n) dt.month dt.day in
    let le =
      days_le (pos n) dt.month dt.day 10000 (omega (arith, h)) (omega arith) m.month_low
        m.month_high m.day_high in
    let computed =
      days_from_civil-some (pos n) dt.month dt.day 10000 (omega (arith, h)) (omega arith)
        m.month_low m.month_high m.day_high in
    let stamped =
      timestamp_of-some days dt.hour dt.minute dt.second (omega (arith, le)) m.hour m.minute
        m.second in
    let same : seconds_of days dt.hour dt.minute dt.second ≡ dt.timestamp =
      ap (λ (x : ℤ). seconds_of (civil_days x dt.month dt.day) dt.hour dt.minute dt.second) (sym y)
      ∙ m.denotes in
    rw (inside, computed, stamped, same) refl

module _ (ts : ℤ) (n : ℕ) (y : (from_timestamp ts).year ≡ pos n) (h : n < 10000) where
  dt_readable : IsReadable (from_timestamp ts) n
  dt_readable = moment-IsReadable (from_timestamp ts) n (from_timestamp-IsMoment ts) y h

  -- If a timestamp's year is 0 to 9999, format prints it with %Y-%m-%d %H:%M:%S, and parse
  -- reads the text with the same format as the same datetime.
  pub parse-format : (format ts iso >>= λ text. parse text iso) ≡ some (from_timestamp ts)
  unfolding format_from directive parse
  parse-format =
      ap (λ (o : Option Parts). o >>= moment)
        (parse_from-format (from_timestamp ts) n dt_readable iso _
          (record { y = 1970; mo = 1; d = 1; h = 0; mi = 0; se = 0 }) refl refl)
      ∙ moment-from_timestamp (from_timestamp ts) n (from_timestamp-IsMoment ts) y h
