-- ===== src/Datetime/Make.antt =====
-- `make` of src/modules/datetime.hpp.
use lovax.Base.{ℕ, ◌*◌, ◌^◌, ◌≤◌, ◌<◌, ◌≡◌, Bool, true, ◌||◌, Option, ltb, ◌>>=◌}
use lovax.Base.Int.{◌+ℤ◌, ◌*ℤ◌, ℤ, pos}
use lovax.Int64.{abs}
use lovax.Datetime.{civil_days, fits, days_from_civil, timestamp_of, Made, refused, overflow, made}
use lovax.Datetime.Civil.{IsDate}
use lovax.Datetime.Clock.{IsMoment}

-- The arguments of `make` are a date and a time.
pub record IsTime (year : ℤ) (month day hour minute second : ℕ) : Type 0 where
  pub date : IsDate year month day
  pub hours : hour ≤ 23
  pub minutes : minute ≤ 59
  pub seconds : second ≤ 59

-- What `make` answers to numbers that are not negative.
abbrev pub Makes : ℤ → ℕ → ℕ → ℕ → ℕ → ℕ → Made → Type 0
Makes year month day hour minute second refused = ¬ (IsTime year month day hour minute second)
Makes year month day hour minute second overflow =
    IsTime year month day hour minute second × (10 ^ 11 < abs year)
Makes year month day hour minute second (made dt) =
    IsTime year month day hour minute second
    × (dt.year ≡ year)
    × (dt.month ≡ month)
    × (dt.day ≡ day)
    × (dt.hour ≡ hour)
    × (dt.minute ≡ minute)
    × (dt.second ≡ second)
    × IsMoment dt
    × (fits dt.timestamp ≡ true)

module _ (year : ℤ) (month day hour minute second : ℕ) where
  abbrev stamp : ℤ
  stamp =
      civil_days year month day *ℤ pos 86400 +ℤ pos (hour * 3600) +ℤ pos (minute * 60) +ℤ pos second

  abbrev computed : Option ℤ
  computed = days_from_civil year month day >>= λ days. timestamp_of days hour minute second

  abbrev rejected : ℕ → Bool
  rejected dim =
      ltb month 1
      || ltb 12 month
      || ltb day 1
      || ltb dim day
      || ltb 23 hour
      || ltb 59 minute
      || ltb 59 second
