-- ===== src/Datetime/Eras.antt =====
-- Eras in src/modules/datetime.hpp.
use lovax.Base.{ℕ, ◌+◌, ◌*◌, ◌/◌, ◌<◌, ◌≡◌, arith}
use lovax.Base.Int.{
  pos_part, neg_part, ◌-ℤ◌, ◌*ℤ◌, -ℤ_parts, *ℤ_parts, eq_of_parts, one_part, ℤ, pos, negsuc,
}
use lovax.Int64.{}
use lovax.Datetime.{era_of, part_of_era}

-- An integer is so many eras of `n` and a part.
abbrev pub IsEra : ℕ → ℤ → ℤ → ℕ → Type 0
IsEra n y e r = (r < n) × (pos_part e * n + r + neg_part y ≡ neg_part e * n + pos_part y)

before_years : (a : ℕ) → era_of 400 (negsuc a) ≡ negsuc (a / 400)
unfolding era_of ◌-ℤ◌
before_years a = ground arith

before_days : (a : ℕ) → era_of 146097 (negsuc a) ≡ negsuc (a / 146097)
unfolding era_of ◌-ℤ◌
before_days a = ground arith

after_years : (a : ℕ) → era_of 400 (pos a) ≡ pos (a / 400)
unfolding era_of
after_years a = ground arith

after_days : (a : ℕ) → era_of 146097 (pos a) ≡ pos (a / 146097)
unfolding era_of
after_days a = ground arith

pub years-IsEra : (y : ℤ) → IsEra 400 y (era_of 400 y) (part_of_era 400 y)
unfolding part_of_era
years-IsEra (pos a) = rw (after_years a) (
    let part = pos (a / 400) *ℤ pos 400 in
    let d = -ℤ_parts (pos a) part in
    let m = *ℤ_parts (pos (a / 400)) (pos 400) in
    let o = one_part part in let p = one_part (pos a -ℤ part) in ground (arith, d, m, o, p))
years-IsEra (negsuc a) = rw (before_years a) (
    let part = negsuc (a / 400) *ℤ pos 400 in
    let d = -ℤ_parts (negsuc a) part in
    let m = *ℤ_parts (negsuc (a / 400)) (pos 400) in
    let o = one_part part in let p = one_part (negsuc a -ℤ part) in ground (arith, d, m, o, p))

pub days-IsEra : (z : ℤ) → IsEra 146097 z (era_of 146097 z) (part_of_era 146097 z)
unfolding part_of_era
days-IsEra (pos a) = rw (after_days a) (
    let part = pos (a / 146097) *ℤ pos 146097 in
    let d = -ℤ_parts (pos a) part in
    let m = *ℤ_parts (pos (a / 146097)) (pos 146097) in
    let o = one_part part in let p = one_part (pos a -ℤ part) in ground (arith, d, m, o, p))
days-IsEra (negsuc a) = rw (before_days a) (
    let part = negsuc (a / 146097) *ℤ pos 146097 in
    let d = -ℤ_parts (negsuc a) part in
    let m = *ℤ_parts (negsuc (a / 146097)) (pos 146097) in
    let o = one_part part in let p = one_part (negsuc a -ℤ part) in ground (arith, d, m, o, p))

-- The eras and the part are determined.
pub years_same : (y e : ℤ) (r : ℕ) → IsEra 400 y e r → (era_of 400 y ≡ e) × (part_of_era 400 y ≡ r)
years_same y e r (lt, h) =
    let (low, k) = years-IsEra y in
    (eq_of_parts (era_of 400 y) e (omega (arith, lt, h, low, k)), omega (arith, lt, h, low, k))

pub days_same :
    (z e : ℤ) (r : ℕ) → IsEra 146097 z e r → (era_of 146097 z ≡ e) × (part_of_era 146097 z ≡ r)
days_same z e r (lt, h) =
    let (low, k) = days-IsEra z in
    (eq_of_parts (era_of 146097 z) e (omega (arith, lt, h, low, k)), omega (arith, lt, h, low, k))
