-- ===== src/Datetime/Days.antt =====
-- `dtCivilFromDays` of src/modules/datetime.hpp, and back.
use lovax.Base.{
  ℕ, ◌+◌, ◌-◌, ◌*◌, ◌/◌, ◌≤◌, ◌<◌, ◌≡◌, refl, sym, ap, ◌∙◌, none, some, arith, if◌then◌else◌,
}
use lovax.Base.Int.{
  pos_part, neg_part, ◌+ℤ◌, ◌-ℤ◌, ◌*ℤ◌, +ℤ_parts, -ℤ_parts, *ℤ_parts, eq_of_parts, ℤ, pos,
}
use lovax.Int64.{}
use lovax.Datetime.{
  era_of, part_of_era, shifted_month, days_before, day_of_era, january, civil_days, civil_fits,
  days_from_civil, year_of_era, day_of_year, month_part, month_of, day_of, civil_from_days,
}
use lovax.Datetime.Years.{yoe, day_of_era-doe, year_of_era-yoe, day_of_year-doy, IsYearDay}
use lovax.Datetime.Months.{month_trip}
use lovax.Datetime.Eras.{IsEra, days-IsEra, years_same}

-- A day of an era is a day of one of its years.
abbrev IsSplit : ℕ → Type 0
IsSplit n =
    (c : ℕ) × (q : ℕ) × (t : ℕ) × (doy : ℕ) × IsYearDay c q t doy
    × (36524 * c + 1461 * q + 365 * t + doy ≡ n)

IsSplit-IsSplit : (n : ℕ) → n < 146097 → IsSplit n
IsSplit-IsSplit n h =
    let c = n / 36524 - n / 146096 in
    let e = n - 36524 * c in
    let q = e / 1461 in
    let f = e - 1461 * q in
    let t = f / 365 - f / 1460 in
    let doy = f - 365 * t in
    let hc : c ≤ 3 = omega (arith, h) in
    let he : 36524 * c + e ≡ n = omega (arith, h) in
    let le : e ≤ 36524 = omega (arith, h) in
    let last : 36524 ≤ e → c ≡ 3 = λ x. omega (arith, h, x) in
    let hf : 1461 * q + f ≡ e = omega arith in
    let lf : f ≤ 1460 = omega arith in
    let ht : 365 * t + doy ≡ f = omega (arith, lf) in
    let ld : doy ≤ 365 = omega (arith, lf) in
    let lt : t ≤ 3 = omega (arith, lf) in
    (
      c,
      q,
      t,
      doy,
      record {
        century = hc;
        cycle = omega (arith, le);
        year = lt;
        day = ld;
        leap = λ x. (omega (arith, lf, x, ht), λ y. last (omega (arith, lf, x, ht, hf, y, lt)));
      },
      omega (arith, he, hf, ht),
    )

-- The year that has a part `r` in the era `e`.
years_back : (y e j : ℤ) (r : ℕ) → y ≡ pos r +ℤ e *ℤ pos 400 +ℤ j → r < 400 → IsEra 400 (y -ℤ j) e r
years_back y e j r h lt =
    let part = e *ℤ pos 400 in
    let m = *ℤ_parts e (pos 400) in
    let s = +ℤ_parts (pos r) part in
    let u = +ℤ_parts (pos r +ℤ part) j in
    let d = -ℤ_parts y j in (lt, omega (arith, m, s, u, d, ap pos_part h, ap neg_part h))

-- The day number of a date, from the era and the part of its year.
pub days_of :
    (y : ℤ) (m d : ℕ) (e : ℤ) (r : ℕ)
    → IsEra 400 (y -ℤ january m) e r
    → civil_days y m d
      ≡ e *ℤ pos 146097 +ℤ pos (day_of_era r (days_before (shifted_month m) + d - 1)) -ℤ pos 719468
unfolding civil_days
days_of y m d e r w =
    let (same_era, same_part) = years_same (y -ℤ january m) e r w in
    let doy = days_before (shifted_month m) + d - 1 in
    ap
      (λ (k : ℕ). era_of 400 (y -ℤ january m) *ℤ pos 146097 +ℤ pos (day_of_era k doy) -ℤ pos 719468)
      same_part
    ∙ ap (λ (x : ℤ). x *ℤ pos 146097 +ℤ pos (day_of_era r doy) -ℤ pos 719468) same_era

abbrev pub DaysBack : ℤ → ℤ × ℕ × ℕ → Type 0
DaysBack days (y, m, d) =
    (civil_days y m d ≡ days)
    × (1 ≤ m)
    × (m ≤ 12)
    × (1 ≤ d)
    × (d ≤ 31)
    × (days_from_civil y m d ≡ (if civil_fits y m d then some days else none))

back :
    (days e : ℤ) (n : ℕ)
    → IsEra 146097 (days +ℤ pos 719468) e n
    → e *ℤ pos 146097 +ℤ pos n -ℤ pos 719468 ≡ days
back days e n (lt, h) =
    let m = *ℤ_parts e (pos 146097) in
    let s = +ℤ_parts (e *ℤ pos 146097) (pos n) in
    let d = -ℤ_parts (e *ℤ pos 146097 +ℤ pos n) (pos 719468) in
    let z = +ℤ_parts days (pos 719468) in eq_of_parts _ _ (omega (arith, h, m, s, d, z))

-- For every day number, dtDaysFromCivil gives it back from the date that dtCivilFromDays
-- gives, unless an operation of it overflows; the month is 1 to 12 and the day is 1 to 31.
pub days_round_trip : (days : ℤ) → DaysBack days (civil_from_days days)
unfolding civil_from_days days_from_civil
days_round_trip days =
    let z = days +ℤ pos 719468 in
    let e = era_of 146097 z in
    let n = part_of_era 146097 z in
    let era = days-IsEra z in
    let (c, q, t, doy, w, sum) = IsSplit-IsSplit n era.0 in
    let year : year_of_era n ≡ yoe c q t doy w =
      ap year_of_era (sym sum) ∙ year_of_era-yoe c q t doy w in
    let day : day_of_year n ≡ doy = ap day_of_year (sym sum) ∙ day_of_year-doy c q t doy w in
    let (low, high, months) = month_trip (day_of_year n) (omega (arith, day, w.day)) in
    let m = month_of (month_part (day_of_year n)) in
    let y = pos (year_of_era n) +ℤ e *ℤ pos 400 +ℤ january m in
    let d = day_of (day_of_year n) in
    let same : civil_days y m d ≡ days =
      days_of y m (day_of (day_of_year n)) e (year_of_era n) (
        years_back y e (january m) (year_of_era n) refl
          (omega (arith, year, w.century, w.cycle, w.year)))
      ∙ ap (λ (k : ℕ). e *ℤ pos 146097 +ℤ pos k -ℤ pos 719468)
          (ap (λ (k : ℕ). day_of_era (year_of_era n) k) (months ∙ day)
            ∙ ap (λ (k : ℕ). day_of_era k doy) year
            ∙ day_of_era-doe c q t doy w
            ∙ sum)
      ∙ back days e n era in
    (
      same,
      low,
      high,
      omega arith,
      omega (arith, day, w.day),
      ap (λ (x : ℤ). if civil_fits y m d then some x else none) same,
    )
