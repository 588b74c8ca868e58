-- ===== src/Int64/Identity.antt =====
-- `//` and `%` of src/vm/runtime.hpp, `evalInfixExpression`, together with the wrapped operations.
use lovax.Base.{ℕ, zero, suc, ◌+◌, ◌*◌, ◌/◌, ◌%◌, ◌^◌, ◌≤◌, ◌≡◌, refl, ap, ◌∙◌, ◌≢◌, arith}
use lovax.Base.Int.{
  pos_part, neg_part, sub_ℕ, ◌+ℤ◌, ◌*ℤ◌, +ℤ_parts, -ℤ_parts, *ℤ_parts, ℤ_discrete, one_part, ℤ, pos,
  negsuc,
}
use lovax.Int64.{InRange, to_u64, wrap_add, wrap_mul, wrap_neg, floor_div, floor_mod}
use lovax.Int64.Wrap.{
  to_u64-of_u64, to_u64-injective, add_congruent, wrap-Represents, wrap_add-InRange, Represents,
}
use lovax.Int64.Floor.{
  shape_pos_pos, shape_neg_neg, shape_pos_neg, shape_pos_neg_exact, shape_neg_pos,
  shape_neg_pos_exact, floor_div-IsFloorDiv, by_minus_one,
}
use native.Mathlib.Nat.{div-le_self, div-add-mod}
use native.Mathlib.Decide.{ℕ_discrete}

half_le : (q a b m : ℕ) → suc b * q + m ≡ a → b ≢ 0 → q + q + m ≤ a
half_le q a b m e n = grind arith

half_div : (a b : ℕ) → b ≢ 0 → a / suc b + a / suc b + a % suc b ≤ a
half_div a b n = half_le (a / suc b) a b (a % suc b) (div-add-mod a (suc b)) n

neg_parts : (q : ℕ) → (pos_part (sub_ℕ 0 q) ≡ 0) × (neg_part (sub_ℕ 0 q) ≡ q)
neg_parts q = (ground arith, ground arith)

-- With a remainder the divisor is at least 2, so the next quotient still fits.
next_quotient : (a b : ℕ) → b ≢ 0 → suc a % b ≢ 0 → suc (suc a / b) ≤ suc a
next_quotient a zero n m = absurd (n refl)
next_quotient a (suc zero) n m = absurd (m (omega arith))
next_quotient a (suc (suc b)) n m = omega (arith, half_div (suc a) (suc b) (omega arith))

floor_div-InRange : (l r : ℤ) → InRange l → r ≢ pos 0 → r ≢ negsuc 0 → InRange (floor_div l r)
floor_div-InRange (pos a) (pos b) h z o =
    rw ((shape_pos_pos a b).0) (omega (arith, div-le_self a b))
floor_div-InRange (negsuc a) (negsuc b) h z o =
    let n : b ≢ 0 = λ e. o (ap negsuc e) in
    rw ((shape_neg_neg a b n).0) (omega (arith, half_div (suc a) b n))
floor_div-InRange (pos a) (negsuc b) h z o =
    let n : b ≢ 0 = λ e. o (ap negsuc e) in
    elim (ℕ_discrete (a % suc b) 0) [
      | yes e ↦
          rw ((shape_pos_neg_exact a b n e).0)
            (omega (arith, neg_parts (a / suc b), half_div a b n))
      | no e ↦ rw ((shape_pos_neg a b n e).0) (omega (arith, half_div a b n))
    ]
floor_div-InRange (negsuc a) (pos b) h z o =
    let n : b ≢ 0 = λ e. z (ap pos e) in
    elim (ℕ_discrete (suc a % b) 0) [
      | yes e ↦
          rw ((shape_neg_pos_exact a b n e).0)
            (omega (arith, neg_parts (suc a / b), div-le_self (suc a) b))
      | no e ↦ rw ((shape_neg_pos a b n e).0) (omega (arith, next_quotient a b n e))
    ]

floor_mod-InRange : (l r : ℤ) → InRange r → r ≢ pos 0 → r ≢ negsuc 0 → InRange (floor_mod l r)
floor_mod-InRange l r h z o =
    omega (arith, (floor_div-IsFloorDiv l r z o).bounded, one_part (floor_mod l r))

-- A wrapped sum depends on the class of its summand alone.
add_wrapped : (w z m : ℤ) → Represents w z → to_u64 (wrap_add w m) ≡ to_u64 (z +ℤ m)
unfolding wrap_add
add_wrapped w z m r =
    rw (to_u64-of_u64 ((to_u64 w + to_u64 m) % 2 ^ 64) (omega arith), r.congruent)
      (add_congruent z m)

minus_one_identity :
    (l : ℤ)
    → InRange l
    → InRange (wrap_neg l)
      × InRange (pos 0)
      × (wrap_add (wrap_mul (wrap_neg l) (negsuc 0)) (pos 0) ≡ l)
minus_one_identity l h =
    let w = (wrap-Represents l l h h).3 in
    let m = (wrap-Represents (wrap_neg l) (negsuc 0) w.in_range (omega arith)).2 in
    (
      w.in_range,
      omega arith,
      to_u64-injective _ l (wrap_add-InRange _ _) h (
          add_wrapped (wrap_mul (wrap_neg l) (negsuc 0)) (wrap_neg l *ℤ negsuc 0) (pos 0) m
          ∙ omega (
            arith,
            *ℤ_parts (wrap_neg l) (negsuc 0),
            +ℤ_parts (wrap_neg l *ℤ negsuc 0) (pos 0),
            -ℤ_parts (pos 0) l,
            w.congruent,
          )),
    )

-- For every dividend and every divisor but 0, `a // b` and `a % b` are values of the range, and
-- `(a // b) * b + a % b` is `a` in the language's wrapped arithmetic; so also for the
-- smallest integer divided by -1, whose true quotient is out of range.
pub floor_identity :
    (l r : ℤ)
    → InRange l
    → InRange r
    → r ≢ pos 0
    → InRange (floor_div l r)
      × InRange (floor_mod l r)
      × (wrap_add (wrap_mul (floor_div l r) r) (floor_mod l r) ≡ l)
floor_identity l r hl hr z = elim (ℤ_discrete r (negsuc 0)) [
  | yes o ↦ rw (o, (by_minus_one l).0, (by_minus_one l).1) (minus_one_identity l hl)
  | no o ↦ (
    floor_div-InRange l r hl z o,
    floor_mod-InRange l r hr z o,
    to_u64-injective _ l (wrap_add-InRange _ _) hl (
        add_wrapped (wrap_mul (floor_div l r) r) (floor_div l r *ℤ r) (floor_mod l r)
          (wrap-Represents (floor_div l r) r (floor_div-InRange l r hl z o) hr).2
        ∙ ap (λ (t : ℤ). to_u64 t) ((floor_div-IsFloorDiv l r z o).divides)),
  )
]
