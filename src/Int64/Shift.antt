-- ===== src/Int64/Shift.antt =====
-- The shifts `<<` and `>>` of src/vm/runtime.hpp, `evalInfixExpression`.
use lovax.Base.{
  ℕ, zero, suc, ◌+◌, ◌*◌, ◌/◌, ◌%◌, ◌^◌, ◌≤◌, ◌<◌, ◌≡◌, refl, sym, ap, ◌≢◌, ◌⊎◌, inr, arith,
}
use lovax.Base.Int.{pos_part, ℤ, pos, negsuc}
use lovax.Int64.{to_u64, of_u64, wrap_mul, wrap_shl, shift_right, floor_div, floor_mod}
use lovax.Int64.Floor.{
  shape_pos_pos, shape_neg_pos, shape_neg_pos_exact, floor_div-IsFloorDiv, IsFloorDiv,
}
use native.Mathlib.Nat.{div-add-mod, mod-lt, div-eq_of_lt-le, pow-le-pow_right}
use native.Mathlib.Decide.{ℕ_discrete}
use mathlib.Core.Path.{subst}

-- The quotient of the next number is the next quotient if the division leaves nothing.
next_from : (a b q : ℕ) → 0 < b → b * q ≡ suc a → q ≡ suc (a / b)
next_from a b zero h e = absurd (omega (arith, e))
next_from a b (suc k) h e =
    ap suc (sym (div-eq_of_lt-le b (grind (arith, e)) (grind (arith, e, h))))

next_div : (a b : ℕ) → 0 < b → suc a % b ≡ 0 → suc a / b ≡ suc (a / b)
next_div a b h e = next_from a b (suc a / b) h (omega (arith, div-add-mod (suc a) b, e))

same_from : (a b q m : ℕ) → m < b → m ≢ 0 → b * q + m ≡ suc a → q ≡ a / b
same_from a b q m h n e = sym (div-eq_of_lt-le b (grind (arith, e, n)) (grind (arith, e, h)))

same_div : (a b : ℕ) → 0 < b → suc a % b ≢ 0 → suc a / b ≡ a / b
same_div a b h n =
    same_from a b (suc a / b) (suc a % b) (mod-lt (suc a) h) n (div-add-mod (suc a) b)

-- `>>` by any amount is `//` by that power of two.
shift_right_floor : (l : ℤ) (s : ℕ) → 0 < 2 ^ s → shift_right l s ≡ floor_div l (pos (2 ^ s))
unfolding shift_right
shift_right_floor (pos n) s h = sym ((shape_pos_pos n (2 ^ s)).0)
shift_right_floor (negsuc n) s h = elim (ℕ_discrete (suc n % 2 ^ s) 0) [
  | yes e ↦
      rw ((shape_neg_pos_exact n (2 ^ s) (omega (arith, h)) e).0, next_div n (2 ^ s) h e)
        (ground arith)
  | no e ↦ rw ((shape_neg_pos n (2 ^ s) (omega (arith, h)) e).0, same_div n (2 ^ s) h e) refl
]

shift_left_product : (l : ℤ) (s : ℕ) → 2 ^ s < 2 ^ 64 → wrap_shl l s ≡ wrap_mul l (pos (2 ^ s))
unfolding wrap_shl wrap_mul
shift_left_product l s h = ap (λ (p : ℕ). of_u64 (to_u64 l * p % 2 ^ 64)) (omega (arith, h))

pos_negsuc : (a b : ℕ) → pos a ≢ negsuc b
pos_negsuc a b = cc

positive : (p : ℕ) → 1 ≤ p → pos p ≢ pos 0
positive p h e = omega (arith, h, ap pos_part e)

-- The power of two as a value of the language.
power_bits : (p : ℕ) → p ≤ 2 ^ 63 → to_u64 (of_u64 (1 * p % 2 ^ 64)) ≡ p
power_bits p h = ground (arith, h)

shift_left_power : (l : ℤ) (s : ℕ) → 2 ^ s ≤ 2 ^ 63 → wrap_shl l s ≡ wrap_mul l (wrap_shl (pos 1) s)
unfolding wrap_shl wrap_mul
shift_left_power l s h = ap (λ (p : ℕ). of_u64 (to_u64 l * p % 2 ^ 64)) (sym (power_bits (2 ^ s) h))

-- A shift to the left by 0 to 63 is the wrapped product with 1 shifted as far. A shift to the
-- right by 0 to 63 is floor division by that power of two, and by 0 to 62, where the power is an
-- integer of the language, it is //.
pub shifts_scale :
    (l : ℤ) (s : ℕ)
    → s ≤ 63
    → (wrap_shl l s ≡ wrap_mul l (wrap_shl (pos 1) s))
      × ((m : ℤ) × IsFloorDiv l (pos (2 ^ s)) (shift_right l s) m)
      × ((s ≡ 63) ⊎ (shift_right l s ≡ floor_div l (pos (2 ^ s))))
shifts_scale l s h =
    let low : 1 ≤ 2 ^ s = pow-le-pow_right (omega arith) {i = 0} {j = s} (omega arith) in
    let high : 2 ^ s ≤ 2 ^ 63 = pow-le-pow_right (omega arith) h in
    let same = shift_right_floor l s low in
    (
      shift_left_power l s high,
      (
        floor_mod l (pos (2 ^ s)),
        subst (λ (q : ℤ). IsFloorDiv l (pos (2 ^ s)) q (floor_mod l (pos (2 ^ s)))) (sym same)
            (floor_div-IsFloorDiv l (pos (2 ^ s)) (positive (2 ^ s) low) (pos_negsuc (2 ^ s) 0)),
      ),
      inr same,
    )
