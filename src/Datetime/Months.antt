-- ===== src/Datetime/Months.antt =====
-- The months of a year in src/modules/datetime.hpp.
use lovax.Base.{ℕ, ◌+◌, ◌-◌, ◌≤◌, ◌≡◌, arith}
use lovax.Datetime.{shifted_month, days_before, month_part, month_of, day_of}

pub month_trip :
    (doy : ℕ)
    → doy ≤ 365
    → (1 ≤ month_of (month_part doy))
      × (month_of (month_part doy) ≤ 12)
      × (days_before (shifted_month (month_of (month_part doy))) + day_of doy - 1 ≡ doy)
month_trip doy h = ground (arith, h)
