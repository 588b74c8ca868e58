-- ===== src/Datetime/Range.antt =====
-- Where the arithmetic of src/modules/datetime.hpp stays in a `long long`.
use lovax.Base.{
  ℕ, ◌+◌, ◌-◌, ◌*◌, ◌^◌, ◌≤◌, ◌≡◌, refl, sym, ap, ◌∙◌, Bool, true, false, ◌&&◌, none, some, arith,
  ◌==◌, if◌then◌else◌, some_injective,
}
use lovax.Base.Int.{◌+ℤ◌, ◌-ℤ◌, ◌*ℤ◌, +ℤ_parts, -ℤ_parts, *ℤ_parts, one_part, ℤ, pos, negsuc}
use lovax.Int64.{abs}
use lovax.Datetime.{
  lowered, era_of, part_of_era, shifted_month, days_before, day_of_era, january, civil_days, fits,
  civil_fits, days_from_civil, civil_from_days, is_leap, month_days, timestamp_of,
}
use lovax.Datetime.Eras.{years-IsEra}
use lovax.Datetime.Civil.{civil_back, IsDate}

pub abs_add : (a b : ℤ) → abs (a +ℤ b) ≤ abs a + abs b
abs_add a b = let s = +ℤ_parts a b in let o = one_part (a +ℤ b) in ground (arith, s, o)

abs_sub : (a b : ℤ) → abs (a -ℤ b) ≤ abs a + abs b
abs_sub a b = let s = -ℤ_parts a b in let o = one_part (a -ℤ b) in ground (arith, s, o)

pub abs_times : (a : ℤ) (n : ℕ) → abs (a *ℤ pos n) ≤ abs a * n
abs_times a n = let s = *ℤ_parts a (pos n) in let o = one_part (a *ℤ pos n) in ground (arith, s, o)

pub small-fits : (z : ℤ) → abs z ≤ 2 ^ 62 → fits z ≡ true
small-fits z h = ground (arith, h)

all_six :
    (a b c d e f : Bool)
    → a ≡ true
    → b ≡ true
    → c ≡ true
    → d ≡ true
    → e ≡ true
    → f ≡ true
    → (a && b && c && d && e && f) ≡ true
all_six a b c d e f ha hb hc hd he hf = cc

lowered_le : (y : ℤ) → abs (lowered 400 y) ≤ abs y + 399
lowered_le (pos a) = omega arith
lowered_le (negsuc a) = abs_sub (negsuc a) (pos 399)

january_le : (m : ℕ) → abs (january m) ≤ 1
january_le m = ground arith

-- A year that is not too large, with a month and a day of the calendar.
module _ (year : ℤ) (m d bound : ℕ) (small : abs year ≤ bound) (big : bound ≤ 10 ^ 16) (m1 : 1 ≤ m)
    (m2 : m ≤ 12) (d2 : d ≤ 31) where
  abbrev y : ℤ
  y = year -ℤ january m

  abbrev doe : ℕ
  doe = day_of_era (part_of_era 400 y) (days_before (shifted_month m) + d - 1)

  y_le : abs y ≤ bound + 1
  y_le = omega (arith, abs_sub year (january m), january_le m, small)

  era_le : abs (era_of 400 y) * 400 ≤ bound + 401
  era_le =
      let (lt, e) = years-IsEra y in
      let o = one_part (era_of 400 y) in let p = one_part y in ground (arith, lt, e, o, p, y_le)

  doe_le : doe ≤ 146500
  doe_le =
      let lt = (years-IsEra y).0 in
      let s : days_before (shifted_month m) ≤ 338 = ground (arith, m1, m2) in
      omega (arith, lt, s, d2)

  pub days_le : abs (civil_days year m d) * 400 ≤ bound * 146097 + 500000000
  unfolding civil_days
  days_le =
      let e = era_of 400 y in
      let a = abs_times e 146097 in
      let b = abs_add (e *ℤ pos 146097) (pos doe) in
      let c = abs_sub (e *ℤ pos 146097 +ℤ pos doe) (pos 719468) in
      omega (arith, a, b, c, era_le, doe_le)

  pub civil-fits : civil_fits year m d ≡ true
  unfolding civil_fits
  civil-fits =
      let e = era_of 400 y in
      let a = abs_times e 146097 in
      let b = abs_add (e *ℤ pos 146097) (pos doe) in
      all_six _ _ _ _ _ _ (small-fits y (omega (arith, y_le, big)))
        (small-fits (lowered 400 y) (omega (arith, y_le, lowered_le y, big)))
        (small-fits (e *ℤ pos 400) (omega (arith, abs_times e 400, era_le, big)))
        (small-fits (e *ℤ pos 146097) (omega (arith, a, era_le, big)))
        (small-fits (e *ℤ pos 146097 +ℤ pos doe) (omega (arith, a, b, era_le, doe_le, big)))
        (small-fits (civil_days year m d) (omega (arith, days_le, big)))

  pub days_from_civil-some : days_from_civil year m d ≡ some (civil_days year m d)
  unfolding days_from_civil
  days_from_civil-some =
      ap (λ (b : Bool). if b then some (civil_days year m d) else none) civil-fits

-- What is computed is the value without regard to the range.
pub days_from_civil-value :
    (year : ℤ) (m d : ℕ) (days : ℤ)
    → days_from_civil year m d ≡ some days
    → days ≡ civil_days year m d
unfolding days_from_civil
days_from_civil-value year m d days e = guarded (civil_fits year m d) e
  where
    guarded :
        (b : Bool)
        → (if b then some (civil_days year m d) else none) ≡ some days
        → days ≡ civil_days year m d
    guarded true e = sym (some_injective e)
    guarded false e = absurd (cc)

abbrev pub seconds_of : ℤ → ℕ → ℕ → ℕ → ℤ
seconds_of days hour minute second =
    days *ℤ pos 86400 +ℤ pos (hour * 3600) +ℤ pos (minute * 60) +ℤ pos second

pub timestamp_of-value :
    (days : ℤ) (hour minute second : ℕ) (ts : ℤ)
    → timestamp_of days hour minute second ≡ some ts
    → (ts ≡ seconds_of days hour minute second) × (fits ts ≡ true)
unfolding timestamp_of
timestamp_of-value days hour minute second ts e =
    guarded (fits whole) (fits (whole +ℤ pos (hour * 3600)))
      (fits (whole +ℤ pos (hour * 3600) +ℤ pos (minute * 60)))
      (fits (seconds_of days hour minute second)) refl e
  where
    whole : ℤ
    whole = days *ℤ pos 86400

    guarded :
        (a b c d : Bool)
        → fits (seconds_of days hour minute second) ≡ d
        → (if a && b && c && d then some (seconds_of days hour minute second) else none) ≡ some ts
        → (ts ≡ seconds_of days hour minute second) × (fits ts ≡ true)
    guarded true true true true f e = (sym (some_injective e), ap fits (sym (some_injective e)) ∙ f)
    guarded true true true false f e = absurd (cc)
    guarded true true false d f e = absurd (cc)
    guarded true false c d f e = absurd (cc)
    guarded false b c d f e = absurd (cc)

-- A day number whose timestamps are not too large.
module _ (days : ℤ) (hour minute second : ℕ) (small : abs days ≤ 4 * 10 ^ 13) (h : hour ≤ 23)
    (mi : minute ≤ 59) (s : second ≤ 59) where
  pub timestamp_of-some :
      timestamp_of days hour minute second ≡ some (seconds_of days hour minute second)
  unfolding timestamp_of
  timestamp_of-some =
      let whole = days *ℤ pos 86400 in
      let hours = whole +ℤ pos (hour * 3600) in
      let minutes = hours +ℤ pos (minute * 60) in
      let w = abs_times days 86400 in
      let x = abs_add whole (pos (hour * 3600)) in
      let v = abs_add hours (pos (minute * 60)) in
      let z = abs_add minutes (pos second) in
      ap (λ (b : Bool). if b then some (seconds_of days hour minute second) else none)
        (all_four _ _ _ _ (small-fits whole (omega (arith, w, small)))
          (small-fits hours (omega (arith, w, x, h, small)))
          (small-fits minutes (omega (arith, w, x, v, h, mi, small)))
          (small-fits (seconds_of days hour minute second)
            (omega (arith, w, x, v, z, h, mi, s, small))))
    where
      all_four :
          (a b c e : Bool) → a ≡ true → b ≡ true → c ≡ true → e ≡ true → (a && b && c && e) ≡ true
      all_four a b c e ha hb hc he = cc

pub IsDate-day : (y : ℤ) (m d : ℕ) → IsDate y m d → d ≤ 31
IsDate-day y m d date = let h = date.day_high in bounded (is_leap y) h
  where
    bounded : (leap : Bool) → d ≤ month_days m + (if m == 2 && leap then 1 else 0) → d ≤ 31
    bounded leap h = ground (arith, h)

-- For a date of the proleptic Gregorian calendar whose year is at most 10,000,000,000,000,000 in
-- size, dtDaysFromCivil does not overflow, the day number that it gives is at most 4 * 10 ^ 18 in
-- size, and dtCivilFromDays gives the date back from it.
pub civil_round_trip :
    (y : ℤ) (m d : ℕ)
    → IsDate y m d
    → abs y ≤ 10 ^ 16
    → (days : ℤ) × (days_from_civil y m d ≡ some days)
      × (abs days ≤ 4 * 10 ^ 18)
      × (civil_from_days days ≡ (y, m, d))
civil_round_trip y m d date small =
    let d2 = IsDate-day y m d date in
    let m1 = date.month_low in
    let m2 = date.month_high in
    (
      civil_days y m d,
      days_from_civil-some y m d (10 ^ 16) small (omega arith) m1 m2 d2,
      omega (arith, days_le y m d (10 ^ 16) small (omega arith) m1 m2 d2),
      civil_back y m d date,
    )
