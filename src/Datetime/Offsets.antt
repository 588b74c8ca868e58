-- ===== src/Datetime/Offsets.antt =====
-- `add` of src/modules/datetime.hpp.
use lovax.Base.{
  ℕ, ◌/◌, ◌%◌, ◌^◌, ◌≤◌, ◌<◌, ◌≡◌, sym, ap, ◌∙◌, ◌≢◌, ◌⊎◌, inl, inr, Bool, true, false, ◌&&◌,
  Option, none, some, arith, leb, leb→le, Bool-cases,
}
use lovax.Base.Int.{pos_part, neg_part, ◌+ℤ◌, ◌*ℤ◌, +ℤ_parts, *ℤ_parts, eq_of_parts, ℤ, pos}
use lovax.Int64.{abs}
use lovax.Datetime.{civil_days, fits, day_number, second_of_day, from_timestamp, add, DateTime}
use lovax.Datetime.Eras.{IsEra}
use lovax.Datetime.Days.{days_round_trip}
use lovax.Datetime.Clock.{clock-IsEra, clock_same, from_timestamp-IsMoment, IsMoment}
use lovax.Datetime.Range.{abs_add, abs_times, small-fits}

-- What `add` of whole days gives for a timestamp.
abbrev pub AddsDays : ℤ → ℤ → Option DateTime → Type 0
AddsDays ts days none = (2 ^ 61 < abs ts) ⊎ (2 ^ 44 < abs days)
AddsDays ts days (some dt) =
    IsMoment dt
    × (dt.timestamp ≡ ts +ℤ days *ℤ pos 86400)
    × (dt.hour ≡ (from_timestamp ts).hour)
    × (dt.minute ≡ (from_timestamp ts).minute)
    × (dt.second ≡ (from_timestamp ts).second)
    × (civil_days dt.year dt.month dt.day
        ≡ civil_days (from_timestamp ts).year (from_timestamp ts).month (from_timestamp ts).day
          +ℤ days)

module _ (ts days : ℤ) where
  abbrev total : ℤ
  total = days *ℤ pos 86400 +ℤ pos 0 *ℤ pos 3600 +ℤ pos 0 *ℤ pos 60 +ℤ pos 0

  total-days : total ≡ days *ℤ pos 86400
  total-days =
      let whole = days *ℤ pos 86400 in
      let z1 = *ℤ_parts (pos 0) (pos 3600) in
      let z2 = *ℤ_parts (pos 0) (pos 60) in
      let s1 = +ℤ_parts whole (pos 0 *ℤ pos 3600) in
      let s2 = +ℤ_parts (whole +ℤ pos 0 *ℤ pos 3600) (pos 0 *ℤ pos 60) in
      let s3 = +ℤ_parts (whole +ℤ pos 0 *ℤ pos 3600 +ℤ pos 0 *ℤ pos 60) (pos 0) in
      eq_of_parts _ _ (omega (arith, z1, z2, s1, s2, s3))

  moved-IsEra : IsEra 86400 (ts +ℤ total) (day_number ts +ℤ days) (second_of_day ts)
  moved-IsEra =
      let (low, h) = clock-IsEra ts in
      let t = ap pos_part total-days in
      let t2 = ap neg_part total-days in
      let m = *ℤ_parts days (pos 86400) in
      let m2 = *ℤ_parts (day_number ts) (pos 86400) in
      let m3 = *ℤ_parts (day_number ts +ℤ days) (pos 86400) in
      let s = +ℤ_parts ts total in
      let d = +ℤ_parts (day_number ts) days in (low, omega (arith, h, t, t2, m, m2, m3, s, d))

  added-AddsDays : AddsDays ts days (some (from_timestamp (ts +ℤ total)))
  added-AddsDays =
      let (same_day, same_second) = clock_same (ts +ℤ total) _ _ moved-IsEra in
      let moved = (days_round_trip (day_number (ts +ℤ total))).0 in
      let here = (days_round_trip (day_number ts)).0 in
      (
        from_timestamp-IsMoment (ts +ℤ total),
        ap (λ (x : ℤ). ts +ℤ x) total-days,
        ap (λ (k : ℕ). k / 3600) same_second,
        ap (λ (k : ℕ). k % 3600 / 60) same_second,
        ap (λ (k : ℕ). k % 60) same_second,
        moved ∙ same_day ∙ ap (λ (x : ℤ). x +ℤ days) (sym here),
      )

  abbrev whole : ℤ
  whole = days *ℤ pos 86400

  abbrev hours : ℤ
  hours = pos 0 *ℤ pos 3600

  abbrev minutes : ℤ
  minutes = pos 0 *ℤ pos 60

  abbrev inside : Bool
  inside =
      fits whole
      && fits hours
      && fits (whole +ℤ hours)
      && fits minutes
      && fits (whole +ℤ hours +ℤ minutes)
      && fits total
      && fits (ts +ℤ total)

  all_seven :
      (a b c d e f g : Bool)
      → a ≡ true
      → b ≡ true
      → c ≡ true
      → d ≡ true
      → e ≡ true
      → f ≡ true
      → g ≡ true
      → (a && b && c && d && e && f && g) ≡ true
  all_seven a b c d e f g ha hb hc hd he hf hg = cc

  small-inside : abs ts ≤ 2 ^ 61 → abs days ≤ 2 ^ 44 → inside ≡ true
  small-inside t d =
      let w = abs_times days 86400 in
      let h = abs_times (pos 0) 3600 in
      let m = abs_times (pos 0) 60 in
      let wh = abs_add whole hours in
      let whm = abs_add (whole +ℤ hours) minutes in
      let all = abs_add (whole +ℤ hours +ℤ minutes) (pos 0) in
      let end = abs_add ts total in
      all_seven _ _ _ _ _ _ _ (small-fits whole (omega (arith, w, d)))
        (small-fits hours (omega (arith, h)))
        (small-fits (whole +ℤ hours) (omega (arith, w, h, wh, d)))
        (small-fits minutes (omega (arith, m)))
        (small-fits (whole +ℤ hours +ℤ minutes) (omega (arith, w, h, m, wh, whm, d)))
        (small-fits total (omega (arith, w, h, m, wh, whm, all, d)))
        (small-fits (ts +ℤ total) (omega (arith, w, h, m, wh, whm, all, end, d, t)))

  -- Where the other offsets are 0, add gives a datetime in range whose timestamp is days * 86400
  -- later, with the same hour, minute and second, and with a date whose day number is that many
  -- days after that of the date given. It can overflow only if the timestamp is beyond 2 ^ 61 or
  -- the number of days beyond 2 ^ 44 in size.
  pub add-AddsDays : AddsDays ts days (add ts days (pos 0) (pos 0) (pos 0))
  unfolding add
  add-AddsDays = elim (Bool-cases inside) [
    | inl y ↦ rw y added-AddsDays
    | inr n ↦ rw n (elim (Bool-cases (leb (abs ts) (2 ^ 61))) [
      | inr t ↦ inl (ground (arith, t))
      | inl t ↦ elim (Bool-cases (leb (abs days) (2 ^ 44))) [
        | inr d ↦ inr (ground (arith, d))
        | inl d ↦ absurd (distinct (sym n ∙ small-inside (leb→le _ _ t) (leb→le _ _ d)))
      ]
    ])
  ]
    where
      distinct : false ≢ true
      distinct = cc
