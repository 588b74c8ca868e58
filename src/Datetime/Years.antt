-- ===== src/Datetime/Years.antt =====
-- The years of an era in src/modules/datetime.hpp.
use lovax.Base.{ℕ, ◌+◌, ◌-◌, ◌*◌, ◌/◌, ◌≤◌, ◌<◌, ◌≡◌, ap, ◌∙◌, ◌⊎◌, inl, inr, arith}
use lovax.Datetime.{day_of_era, year_of_era, day_of_year}
use native.Mathlib.Decide.{ℕ_discrete}

-- The year `100 * c + 4 * q + t` of an era, and a day of it: it has a last day if it ends with a
-- leap day.
pub record IsYearDay (c q t doy : ℕ) : Type 0 where
  pub century : c ≤ 3
  pub cycle : q ≤ 24
  pub year : t ≤ 3
  pub day : doy ≤ 365
  pub leap : doy ≡ 365 → (t ≡ 3) × (q ≡ 24 → c ≡ 3)

module _ (c q t doy : ℕ) (w : IsYearDay c q t doy) where
  abbrev pub yoe : ℕ
  yoe = 100 * c + 4 * q + t

  abbrev pub doe : ℕ
  doe = 36524 * c + 1461 * q + 365 * t + doy

  pub day_of_era-doe : day_of_era yoe doy ≡ doe
  day_of_era-doe = omega (arith, w.century, w.cycle, w.year)

  -- The last day of a year is a leap day, and the last one of a century the era's.
  last_day : (doy ≤ 364) ⊎ ((doy ≡ 365) × (t ≡ 3) × ((q ≤ 23) ⊎ (c ≡ 3)))
  last_day = elim (ℕ_discrete doy 365) [
    | no n ↦ inl (omega (arith, n, w.day))
    | yes e ↦
        let (three, later) = w.leap e in
        inr (
          e,
          three,
          elim (ℕ_discrete q 24) [
            | no n ↦ inl (omega (arith, n, w.cycle))
            | yes last ↦ inr (later last)
          ],
        )
  ]

  centuries : doe / 36524 - doe / 146096 ≡ c
  centuries = elim last_day [
    | inl h ↦ omega (arith, h, w.century, w.cycle, w.year)
    | inr (e, three, inl h) ↦ omega (arith, e, three, h, w.century)
    | inr (e, three, inr h) ↦ omega (arith, e, three, h, w.cycle)
  ]

  -- The leap days, and one more on the days that have gained a year of 365 days on them.
  leap_days : (k : ℕ) × (doe / 1460 ≡ 25 * c + q + k) × (k ≤ doy) × (doy < 365 + k)
  leap_days = elim last_day [
    | inl h ↦ (
      doe / 1460 - (25 * c + q),
      omega (arith, w.century, w.cycle, w.year),
      omega (arith, h, w.century, w.cycle, w.year),
      omega (arith, h),
    )
    | inr (e, three, h) ↦
        (1, omega (arith, e, three, w.century, w.cycle), omega (arith, e), omega (arith, e))
  ]

  pub year_of_era-yoe : year_of_era doe ≡ yoe
  year_of_era-yoe =
      let (k, e, low, high) = leap_days in omega (arith, centuries, e, low, high, w.century)

  pub day_of_year-doy : day_of_year doe ≡ doy
  day_of_year-doy =
      ap (λ (y : ℕ). doe - (365 * y + y / 4 - y / 100)) year_of_era-yoe
      ∙ omega (arith, day_of_era-doe, w.century, w.cycle, w.year)
