-- ===== src/Int64.antt =====
-- The language's integers: src/object/object.hpp, `wrapAdd` to `wrapShl`, and the integer branch
-- of src/vm/runtime.hpp, `evalInfixExpression`. A `long long` is an integer with the range as a
-- hypothesis, an `unsigned long long` a number below 2 ^ 64; the casts between them are written out.
pub mod Wrap
pub mod Floor
pub mod Identity
pub mod Shift
mod Tests
use lovax.Base.{ℕ, ◌+◌, ◌-◌, ◌*◌, ◌/◌, ◌%◌, ◌^◌, ◌≤◌, ◌<◌, Bool, true, false, not, ◌&&◌}
use lovax.Base.{ltb, ◌==◌, if◌then◌else◌}
use lovax.Base.Int.{ℤ, pos, negsuc, pos_part, neg_part, sub_ℕ, ◌+ℤ◌, ◌-ℤ◌, ltb_ℤ}

-- `INT64_MIN` to `INT64_MAX`.
abbrev pub InRange : ℤ → Type 0
InRange z = (pos_part z < 2 ^ 63) × (neg_part z ≤ 2 ^ 63)

-- `(unsigned long long)z`
abbrev pub to_u64 : ℤ → ℕ
to_u64 z = (pos_part z + (2 ^ 64 - neg_part z % 2 ^ 64)) % 2 ^ 64

-- `(long long)n`
abbrev pub of_u64 : ℕ → ℤ
of_u64 n = if ltb n (2 ^ 63) then pos n else negsuc (2 ^ 64 - n - 1)

unfoldable pub wrap_add : ℤ → ℤ → ℤ
wrap_add a b = of_u64 ((to_u64 a + to_u64 b) % 2 ^ 64)

unfoldable pub wrap_sub : ℤ → ℤ → ℤ
wrap_sub a b = of_u64 ((to_u64 a + 2 ^ 64 - to_u64 b) % 2 ^ 64)

unfoldable pub wrap_mul : ℤ → ℤ → ℤ
wrap_mul a b = of_u64 (to_u64 a * to_u64 b % 2 ^ 64)

unfoldable pub wrap_neg : ℤ → ℤ
wrap_neg a = of_u64 ((2 ^ 64 - to_u64 a) % 2 ^ 64)

-- `a << s` on the unsigned value; the callers keep `s` below 64.
unfoldable pub wrap_shl : ℤ → ℕ → ℤ
wrap_shl a s = of_u64 (to_u64 a * 2 ^ s % 2 ^ 64)

-- `l >> r` of a signed value, which rounds down.
unfoldable pub shift_right : ℤ → ℕ → ℤ
shift_right (pos n) s = pos (n / 2 ^ s)
shift_right (negsuc n) s = negsuc (n / 2 ^ s)

abbrev pub is_negative : ℤ → Bool
is_negative (pos _) = false
is_negative (negsuc _) = true

abbrev pub differ : Bool → Bool → Bool
differ true b = not b
differ false b = b

abbrev pub abs : ℤ → ℕ
abs z = pos_part z + neg_part z

abbrev pub signed : Bool → ℕ → ℤ
signed true n = sub_ℕ 0 n
signed false n = pos n

-- C++ `l / r` and `l % r` round towards zero.
abbrev pub quotient : ℤ → ℤ → ℤ
quotient l r = signed (differ (is_negative l) (is_negative r)) (abs l / abs r)

abbrev pub remainder : ℤ → ℤ → ℤ
remainder l r = signed (is_negative l) (abs l % abs r)

-- `r == -1`, a case that the hardware division of `INT64_MIN` cannot take.
abbrev pub is_minus_one : ℤ → Bool
is_minus_one r = pos_part r + 1 == neg_part r

-- `//` on a divisor that is not 0.
unfoldable pub floor_div : ℤ → ℤ → ℤ
floor_div l r =
    if is_minus_one r
    then wrap_neg l
    else if not (abs (remainder l r) == 0) && differ (is_negative l) (is_negative r)
    then quotient l r -ℤ pos 1
    else quotient l r

-- `%` on a divisor that is not 0.
unfoldable pub floor_mod : ℤ → ℤ → ℤ
floor_mod l r =
    let m = remainder l r in
    if is_minus_one r
    then pos 0
    else if not (abs m == 0) && differ (is_negative m) (is_negative r)
    then m +ℤ r
    else m
