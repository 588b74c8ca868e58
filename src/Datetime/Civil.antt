-- ===== src/Datetime/Civil.antt =====
-- `dtDaysFromCivil` of src/modules/datetime.hpp, and back.
use lovax.Base.{
  ℕ, ◌+◌, ◌-◌, ◌/◌, ◌%◌, ◌≤◌, ◌≡◌, sym, ap, ◌∙◌, ◌⊎◌, inl, inr, Bool, true, not, ◌&&◌, ◌||◌, arith,
  ◌==◌, if◌then◌else◌,
}
use lovax.Base.Int.{
  ◌+ℤ◌, ◌-ℤ◌, ◌*ℤ◌, +ℤ_parts, -ℤ_parts, *ℤ_parts, eq_of_parts, one_part, ℤ, pos, negsuc,
}
use lovax.Int64.{abs}
use lovax.Datetime.{
  era_of, part_of_era, shifted_month, days_before, day_of_era, january, civil_days, year_of_era,
  day_of_year, month_part, month_of, day_of, civil_from_days, divides, is_leap, month_days,
  days_in_month,
}
use lovax.Datetime.Years.{yoe, doe, day_of_era-doe, year_of_era-yoe, day_of_year-doy, IsYearDay}
use lovax.Datetime.Eras.{IsEra, years-IsEra, days_same}
use lovax.Datetime.Days.{days_of}
use mathlib.Core.Path.{subst}

-- A date of the calendar, as `make` tests it.
pub record IsDate (y : ℤ) (m d : ℕ) : Type 0 where
  pub month_low : 1 ≤ m
  pub month_high : m ≤ 12
  pub day_low : 1 ≤ d
  pub day_high : d ≤ days_in_month y m

-- The months keep their days.
months_back :
    (leap : Bool) (m d : ℕ)
    → 1 ≤ m
    → m ≤ 12
    → 1 ≤ d
    → d ≤ month_days m + (if m == 2 && leap then 1 else 0)
    → (month_of (month_part (days_before (shifted_month m) + d - 1)) ≡ m)
      × (day_of (days_before (shifted_month m) + d - 1) ≡ d)
months_back leap m d low high one dim = ground (arith, low, high, one, dim)

leap_day :
    (leap : Bool) (m d : ℕ)
    → 1 ≤ m
    → m ≤ 12
    → 1 ≤ d
    → d ≤ month_days m + (if m == 2 && leap then 1 else 0)
    → (days_before (shifted_month m) + d - 1 ≤ 364)
      ⊎ ((days_before (shifted_month m) + d - 1 ≡ 365) × (m ≡ 2) × (leap ≡ true))
leap_day leap m d low high one dim = ground (arith, low, high, one, dim)

divides-abs : (n : ℕ) (y : ℤ) → divides n y ≡ (abs y % n == 0)
divides-abs n (pos a) = ground arith
divides-abs n (negsuc a) = ground arith

leap_of : ℕ → Bool
leap_of n = (n % 4 == 0 && not (n % 100 == 0)) || (n % 400 == 0)

is_leap-abs : (y : ℤ) → is_leap y ≡ leap_of (abs y)
unfolding leap_of
is_leap-abs y =
    ap (λ (b : Bool). (b && not (divides 100 y)) || divides 400 y) (divides-abs 4 y)
    ∙ ap (λ (b : Bool). (abs y % 4 == 0 && not b) || divides 400 y) (divides-abs 100 y)
    ∙ ap (λ (b : Bool). (abs y % 4 == 0 && not (abs y % 100 == 0)) || b) (divides-abs 400 y)

-- The year before a leap year, as a part of an era.
leap_after :
    (year e : ℤ) (r : ℕ)
    → IsEra 400 (year -ℤ pos 1) e r
    → is_leap year ≡ true
    → (r % 4 ≡ 3) × (r / 4 % 25 ≡ 24 → r / 100 ≡ 3)
unfolding leap_of
leap_after year e r (lt, h) y =
    let p = -ℤ_parts year (pos 1) in
    let o = one_part year in
    let l : leap_of (abs year) ≡ true = sym (is_leap-abs year) ∙ y in
    (ground (arith, lt, h, p, o, l), λ last. ground (arith, lt, h, p, o, l, last))

-- The era of a date and the day in it.
module _ (y : ℤ) (m d : ℕ) (date : IsDate y m d) (e : ℤ) (r : ℕ)
    (era : IsEra 400 (y -ℤ january m) e r) where
  abbrev doy : ℕ
  doy = days_before (shifted_month m) + d - 1

  year_day : IsYearDay (r / 100) (r / 4 % 25) (r % 4) doy
  year_day =
      let low = era.0 in
      let last =
        leap_day (is_leap y) m d date.month_low date.month_high date.day_low date.day_high in
      record {
        century = omega (arith, low);
        cycle = omega arith;
        year = omega arith;
        day = elim last [ inl h ↦ omega (arith, h) | inr h ↦ omega (arith, h.0) ];
        leap = λ x. elim last [
          | inl h ↦ absurd (omega (arith, h, x))
          | inr (full, february, leap) ↦
              leap_after y e r (subst (λ (k : ℕ). IsEra 400 (y -ℤ january k) e r) february era) leap
        ];
      }

  same_year : yoe (r / 100) (r / 4 % 25) (r % 4) doy year_day ≡ r
  same_year = omega (arith, era.0)

  whole_day : day_of_era r doy ≡ doe (r / 100) (r / 4 % 25) (r % 4) doy year_day
  whole_day =
      ap (λ (k : ℕ). day_of_era k doy) (sym same_year)
      ∙ day_of_era-doe (r / 100) (r / 4 % 25) (r % 4) doy year_day

  year_back : year_of_era (day_of_era r doy) ≡ r
  year_back =
      ap year_of_era whole_day
      ∙ year_of_era-yoe (r / 100) (r / 4 % 25) (r % 4) doy year_day
      ∙ same_year

  day_back : day_of_year (day_of_era r doy) ≡ doy
  day_back = ap day_of_year whole_day ∙ day_of_year-doy (r / 100) (r / 4 % 25) (r % 4) doy year_day

  -- The day number as so many eras of days.
  day_era :
      IsEra 146097
        (e *ℤ pos 146097 +ℤ pos (day_of_era r doy) -ℤ pos 719468 +ℤ pos 719468)
        e
        (day_of_era r doy)
  day_era =
      let n = day_of_era r doy in
      let whole = e *ℤ pos 146097 +ℤ pos n in
      let m1 = *ℤ_parts e (pos 146097) in
      let s1 = +ℤ_parts (e *ℤ pos 146097) (pos n) in
      let d1 = -ℤ_parts whole (pos 719468) in
      let a1 = +ℤ_parts (whole -ℤ pos 719468) (pos 719468) in
      (
        omega (arith, whole_day, year_day.century, year_day.cycle, year_day.year, year_day.day),
        omega (arith, m1, s1, d1, a1),
      )

  year_again : pos r +ℤ e *ℤ pos 400 +ℤ january m ≡ y
  year_again =
      let m1 = *ℤ_parts e (pos 400) in
      let s1 = +ℤ_parts (pos r) (e *ℤ pos 400) in
      let s2 = +ℤ_parts (pos r +ℤ e *ℤ pos 400) (january m) in
      let d1 = -ℤ_parts y (january m) in eq_of_parts _ _ (omega (arith, m1, s1, s2, d1, era.1))

  civil_of_era :
      (days : ℤ)
      → days ≡ e *ℤ pos 146097 +ℤ pos (day_of_era r doy) -ℤ pos 719468
      → civil_from_days days ≡ (y, m, d)
  unfolding civil_from_days
  civil_of_era days same =
      let (same_era, same_part) = days_same (days +ℤ pos 719468) e (day_of_era r doy) (
        subst (λ (z : ℤ). IsEra 146097 (z +ℤ pos 719468) e (day_of_era r doy)) (sym same)
          day_era) in
      let (months, day) =
        months_back (is_leap y) m d date.month_low date.month_high date.day_low date.day_high in
      ap (λ (n : ℕ). dated n (era_of 146097 (days +ℤ pos 719468))) same_part
      ∙ ap (λ (x : ℤ). dated (day_of_era r doy) x) same_era
      ∙ ap (λ (k : ℕ). of_year k (day_of_year (day_of_era r doy))) year_back
      ∙ ap (λ (k : ℕ). of_year r k) day_back
      ∙ ap (λ (k : ℕ). (pos r +ℤ e *ℤ pos 400 +ℤ january k, k, day_of doy)) months
      ∙ ap (λ (k : ℕ). (pos r +ℤ e *ℤ pos 400 +ℤ january m, m, k)) day
      ∙ ap (λ (x : ℤ). (x, m, d)) year_again
    where
      of_year : ℕ → ℕ → ℤ × ℕ × ℕ
      of_year k day = (
        pos k +ℤ e *ℤ pos 400 +ℤ january (month_of (month_part day)),
        month_of (month_part day),
        day_of day,
      )

      dated : ℕ → ℤ → ℤ × ℕ × ℕ
      dated n x =
          let m = month_of (month_part (day_of_year n)) in
          (pos (year_of_era n) +ℤ x *ℤ pos 400 +ℤ january m, m, day_of (day_of_year n))

-- The date of a day number without regard to its size.
pub civil_back : (y : ℤ) (m d : ℕ) → IsDate y m d → civil_from_days (civil_days y m d) ≡ (y, m, d)
civil_back y m d date =
    let e = era_of 400 (y -ℤ january m) in
    let r = part_of_era 400 (y -ℤ january m) in
    let era = years-IsEra (y -ℤ january m) in
    civil_of_era y m d date e r era (civil_days y m d) (days_of y m d e r era)
