-- ===== src/Int64/Wrap.antt =====
-- The wrapped arithmetic of src/object/object.hpp, `wrapAdd` to `wrapNeg`, against the integers.
use lovax.Base.{ℕ, ◌+◌, ◌-◌, ◌*◌, ◌%◌, ◌^◌, ◌≤◌, ◌<◌, ◌≡◌, arith}
use lovax.Base.Int.{ℤ, pos, ◌+ℤ◌, ◌-ℤ◌, ◌*ℤ◌, +ℤ_parts, -ℤ_parts, *ℤ_parts}
use lovax.Int64.{InRange, to_u64, of_u64, wrap_add, wrap_sub, wrap_mul, wrap_neg}
use lovax.Base.Int.{negsuc, *ℤ_comm}
use lovax.Base.{suc, ap}
use native.Mathlib.Nat.{mul_comm}

-- `w` is in range and equal to `z` modulo 2 ^ 64.
pub record Represents (w z : ℤ) : Type 0 where
  pub in_range : InRange w
  pub congruent : to_u64 w ≡ to_u64 z

of_u64-InRange : (n : ℕ) → n < 2 ^ 64 → InRange (of_u64 n)
of_u64-InRange n h = ground arith

pub to_u64-of_u64 : (n : ℕ) → n < 2 ^ 64 → to_u64 (of_u64 n) ≡ n
to_u64-of_u64 n h = ground arith

-- Two values of the range that agree modulo 2 ^ 64 are one.
pub to_u64-injective : (a b : ℤ) → InRange a → InRange b → to_u64 a ≡ to_u64 b → a ≡ b
to_u64-injective a b ha hb e = ground arith

-- Casting a number below 2 ^ 64 represents whatever it is congruent to.
of_u64-Represents : (n : ℕ) (z : ℤ) → n ≡ to_u64 z → Represents (of_u64 n) z
of_u64-Represents n z e = record {
  in_range = of_u64-InRange n (omega arith);
  congruent = rw (to_u64-of_u64 n (omega arith)) e;
}

pub add_congruent : (a b : ℤ) → (to_u64 a + to_u64 b) % 2 ^ 64 ≡ to_u64 (a +ℤ b)
add_congruent a b = omega (arith, +ℤ_parts a b)

sub_congruent : (a b : ℤ) → (to_u64 a + 2 ^ 64 - to_u64 b) % 2 ^ 64 ≡ to_u64 (a -ℤ b)
sub_congruent a b = omega (arith, -ℤ_parts a b)

to_u64-pos : (x : ℕ) → x < 2 ^ 63 → to_u64 (pos x) ≡ x
to_u64-pos x h = omega arith

to_u64-negsuc : (x : ℕ) → suc x ≤ 2 ^ 63 → to_u64 (negsuc x) + suc x ≡ 2 ^ 64
to_u64-negsuc x h = omega arith

-- The product of the two casts, where `u` and `v` stand for casts of negative values.
mixed_product : (x y v : ℕ) → v + suc y ≡ 2 ^ 64 → x * v % 2 ^ 64 ≡ to_u64 (pos x *ℤ negsuc y)
mixed_product x y v e = omega (arith, *ℤ_parts (pos x) (negsuc y), ap (λ (t : ℕ). x * t) e)

negative_product :
    (x y u v : ℕ)
    → u + suc x ≡ 2 ^ 64
    → v + suc y ≡ 2 ^ 64
    → u * v % 2 ^ 64 ≡ to_u64 (negsuc x *ℤ negsuc y)
negative_product x y u v e f =
    omega
      (arith, *ℤ_parts (negsuc x) (negsuc y), ap (λ (t : ℕ). u * t) f, ap (λ (t : ℕ). t * suc y) e)

mul_congruent : (a b : ℤ) → InRange a → InRange b → to_u64 a * to_u64 b % 2 ^ 64 ≡ to_u64 (a *ℤ b)
mul_congruent (pos x) (pos y) ha hb =
    rw (to_u64-pos x (omega arith), to_u64-pos y (omega arith))
      (omega (arith, *ℤ_parts (pos x) (pos y)))
mul_congruent (pos x) (negsuc y) ha hb =
    rw (to_u64-pos x (omega arith))
      (mixed_product x y (to_u64 (negsuc y)) (to_u64-negsuc y (omega arith)))
mul_congruent (negsuc x) (pos y) ha hb =
    rw (to_u64-pos y (omega arith), mul_comm, *ℤ_comm)
      (mixed_product y x (to_u64 (negsuc x)) (to_u64-negsuc x (omega arith)))
mul_congruent (negsuc x) (negsuc y) ha hb =
    negative_product x y (to_u64 (negsuc x)) (to_u64 (negsuc y)) (to_u64-negsuc x (omega arith))
      (to_u64-negsuc y (omega arith))

-- Wrapped sums, differences, products and negations are the integer results modulo 2 ^ 64.
pub wrap-Represents :
    (a b : ℤ)
    → InRange a
    → InRange b
    → Represents (wrap_add a b) (a +ℤ b)
      × Represents (wrap_sub a b) (a -ℤ b)
      × Represents (wrap_mul a b) (a *ℤ b)
      × Represents (wrap_neg a) (pos 0 -ℤ a)
unfolding wrap_add wrap_sub wrap_mul wrap_neg
wrap-Represents a b ha hb = (
  of_u64-Represents _ _ (add_congruent a b),
  of_u64-Represents _ _ (sub_congruent a b),
  of_u64-Represents _ _ (mul_congruent a b ha hb),
  of_u64-Represents _ _ (omega (arith, -ℤ_parts (pos 0) a)),
)

-- A true result that is in range is what the wrapped operation gives.
pub Represents-exact : {w z : ℤ} → Represents w z → InRange z → w ≡ z
Represents-exact {w} {z} r h = to_u64-injective w z r.in_range h r.congruent

pub wrap_add-InRange : (a b : ℤ) → InRange (wrap_add a b)
unfolding wrap_add
wrap_add-InRange a b = of_u64-InRange _ (omega arith)
