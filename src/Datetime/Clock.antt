-- ===== src/Datetime/Clock.antt =====
-- Timestamps in src/modules/datetime.hpp: `dtFromTimestamp` and `make`.
use lovax.Base.{ℕ, ◌+◌, ◌-◌, ◌*◌, ◌/◌, ◌%◌, ◌≤◌, ◌≡◌, sym, ap, ◌∙◌, arith}
use lovax.Base.Int.{sub_ℕ, ◌+ℤ◌, ◌-ℤ◌, ◌*ℤ◌, +ℤ_parts, *ℤ_parts, eq_of_parts, ℤ, pos, negsuc}
use lovax.Datetime.{
  civil_days, civil_from_days, day_number, second_of_day, weekday_of, from_timestamp, DateTime,
}
use lovax.Datetime.Eras.{IsEra}
use lovax.Datetime.Days.{days_round_trip}
use lovax.Datetime.Civil.{}
use mathlib.Core.Path.{subst}

clock_pos : (a : ℕ) → (day_number (pos a) ≡ pos (a / 86400)) × (second_of_day (pos a) ≡ a % 86400)
unfolding day_number second_of_day
clock_pos a = ground arith

clock_neg :
    (a : ℕ)
    → (day_number (negsuc a) ≡ negsuc (a / 86400)) × (second_of_day (negsuc a) ≡ 86399 - a % 86400)
unfolding day_number second_of_day ◌-ℤ◌ ◌+ℤ◌
clock_neg a = ground arith

-- A timestamp is so many days and a second of a day.
pub clock-IsEra : (ts : ℤ) → IsEra 86400 ts (day_number ts) (second_of_day ts)
clock-IsEra (pos a) = let (d, s) = clock_pos a in rw (d, s) (omega arith, omega arith)
clock-IsEra (negsuc a) = let (d, s) = clock_neg a in rw (d, s) (omega arith, omega arith)

pub clock_same :
    (ts e : ℤ) (r : ℕ) → IsEra 86400 ts e r → (day_number ts ≡ e) × (second_of_day ts ≡ r)
clock_same ts e r (lt, h) =
    let (low, k) = clock-IsEra ts in
    (eq_of_parts (day_number ts) e (omega (arith, lt, h, low, k)), omega (arith, lt, h, low, k))

weekday_pos : (a : ℕ) → weekday_of (pos a) ≡ (a + 3) % 7
unfolding weekday_of ◌+ℤ◌
weekday_pos a = ground arith

weekday_neg : (a : ℕ) → weekday_of (negsuc a) ≡ (9 - a % 7) % 7
unfolding weekday_of ◌+ℤ◌
weekday_neg a = ground arith

-- The days since a Monday are so many weeks and a weekday.
weekday-IsEra : (days : ℤ) → (weeks : ℤ) × IsEra 7 (days +ℤ pos 3) weeks (weekday_of days)
weekday-IsEra (pos a) =
    let s = +ℤ_parts (pos a) (pos 3) in
    rw (weekday_pos a) (pos ((a + 3) / 7), (omega arith, omega (arith, s)))
weekday-IsEra (negsuc a) =
    let s = +ℤ_parts (negsuc a) (pos 3) in
    rw (weekday_neg a) (sub_ℕ ((9 - a % 7) / 7) (a / 7 + 1), (omega arith, ground (arith, s)))

-- The fields of a timestamp: a time of a day whose number the date has.
pub record IsMoment (dt : DateTime) : Type 0 where
  pub month_low : 1 ≤ dt.month
  pub month_high : dt.month ≤ 12
  pub day_low : 1 ≤ dt.day
  pub day_high : dt.day ≤ 31
  pub hour : dt.hour ≤ 23
  pub minute : dt.minute ≤ 59
  pub second : dt.second ≤ 59
  pub denotes :
      civil_days dt.year dt.month dt.day *ℤ pos 86400
        +ℤ pos (dt.hour * 3600)
        +ℤ pos (dt.minute * 60)
        +ℤ pos dt.second
      ≡ dt.timestamp
  pub week : ℤ
  pub weekday : IsEra 7 (civil_days dt.year dt.month dt.day +ℤ pos 3) week dt.weekday

summed :
    (days ts : ℤ) (rem : ℕ)
    → IsEra 86400 ts days rem
    → days *ℤ pos 86400 +ℤ pos (rem / 3600 * 3600) +ℤ pos (rem % 3600 / 60 * 60) +ℤ pos (rem % 60)
      ≡ ts
summed days ts rem (low, h) =
    let m = *ℤ_parts days (pos 86400) in
    let a = days *ℤ pos 86400 +ℤ pos (rem / 3600 * 3600) in
    let b = a +ℤ pos (rem % 3600 / 60 * 60) in
    let s1 = +ℤ_parts (days *ℤ pos 86400) (pos (rem / 3600 * 3600)) in
    let s2 = +ℤ_parts a (pos (rem % 3600 / 60 * 60)) in
    let s3 = +ℤ_parts b (pos (rem % 60)) in eq_of_parts _ _ (omega (arith, m, s1, s2, s3, h))

-- The fields of every timestamp are in range, the day number and the time of day that they
-- denote are the timestamp, and the weekday is the day number plus 3 modulo 7, which counts
-- from a Monday.
pub from_timestamp-IsMoment : (ts : ℤ) → IsMoment (from_timestamp ts)
from_timestamp-IsMoment ts =
    let (low, h) = clock-IsEra ts in
    let days = day_number ts in
    let (back, m1, m2, d1, d2, same) = days_round_trip days in
    let (weeks, w) = weekday-IsEra days in
    let (y, m, d) = civil_from_days days in
    record {
      month_low = m1;
      month_high = m2;
      day_low = d1;
      day_high = d2;
      hour = omega (arith, low);
      minute = omega arith;
      second = omega arith;
      denotes =
          ap
            (λ (k : ℤ).
              k *ℤ pos 86400
              +ℤ pos (second_of_day ts / 3600 * 3600)
              +ℤ pos (second_of_day ts % 3600 / 60 * 60)
              +ℤ pos (second_of_day ts % 60))
            back
          ∙ summed days ts (second_of_day ts) (low, h);
      week = weeks;
      weekday = subst (λ (k : ℤ). IsEra 7 (k +ℤ pos 3) weeks (weekday_of days)) (sym back) w;
    }
