-- ===== src/Int64/Floor.antt =====
-- Floor division and floor remainder: the branches `//` and `%` on integers.
use lovax.Base.{
  ℕ, zero, suc, ◌+◌, ◌-◌, ◌*◌, ◌/◌, ◌%◌, ◌<◌, ◌≡◌, refl, ap, ◌≢◌, ◌⊎◌, inl, inr, arith,
}
use lovax.Base.Int.{
  pos_part, neg_part, sub_ℕ, ◌+ℤ◌, ◌-ℤ◌, ◌*ℤ◌, ◌≤ℤ◌, ◌<ℤ◌, +ℤ_parts, *ℤ_parts, eq_of_parts, ℤ, pos,
  negsuc,
}
use lovax.Int64.{wrap_neg, floor_div, floor_mod}
use native.Mathlib.Nat.{div-add-mod}
use native.Mathlib.Decide.{ℕ_discrete}

-- What the two operations give, by the signs and by whether the division is exact.
pub shape_pos_pos :
    (a b : ℕ)
    → (floor_div (pos a) (pos b) ≡ pos (a / b)) × (floor_mod (pos a) (pos b) ≡ pos (a % b))
unfolding floor_div floor_mod
shape_pos_pos a b = ground arith

pub shape_neg_neg :
    (a b : ℕ)
    → b ≢ 0
    → (floor_div (negsuc a) (negsuc b) ≡ pos (suc a / suc b))
      × (floor_mod (negsuc a) (negsuc b) ≡ sub_ℕ 0 (suc a % suc b))
unfolding floor_div floor_mod
shape_neg_neg a b n = ground arith

pub shape_pos_neg :
    (a b : ℕ)
    → b ≢ 0
    → a % suc b ≢ 0
    → (floor_div (pos a) (negsuc b) ≡ negsuc (a / suc b))
      × (floor_mod (pos a) (negsuc b) ≡ negsuc (b - a % suc b))
unfolding floor_div floor_mod ◌+ℤ◌ ◌-ℤ◌
shape_pos_neg a b n m = ground arith

pub shape_pos_neg_exact :
    (a b : ℕ)
    → b ≢ 0
    → a % suc b ≡ 0
    → (floor_div (pos a) (negsuc b) ≡ sub_ℕ 0 (a / suc b)) × (floor_mod (pos a) (negsuc b) ≡ pos 0)
unfolding floor_div floor_mod
shape_pos_neg_exact a b n m = ground arith

pub shape_neg_pos :
    (a b : ℕ)
    → b ≢ 0
    → suc a % b ≢ 0
    → (floor_div (negsuc a) (pos b) ≡ negsuc (suc a / b))
      × (floor_mod (negsuc a) (pos b) ≡ pos (b - suc a % b))
unfolding floor_div floor_mod ◌+ℤ◌ ◌-ℤ◌
shape_neg_pos a b n m = ground arith

pub shape_neg_pos_exact :
    (a b : ℕ)
    → b ≢ 0
    → suc a % b ≡ 0
    → (floor_div (negsuc a) (pos b) ≡ sub_ℕ 0 (suc a / b)) × (floor_mod (negsuc a) (pos b) ≡ pos 0)
unfolding floor_div floor_mod
shape_neg_pos_exact a b n m = ground arith

-- The contract of floor division: `m` is what `q` leaves, it has the divisor's sign, and it is
-- smaller than the divisor.
pub record IsFloorDiv (l r q m : ℤ) : Type 0 where
  pub divides : q *ℤ r +ℤ m ≡ l
  pub bounded : ((pos 0 ≤ℤ m) × (m <ℤ r)) ⊎ ((r <ℤ m) × (m ≤ℤ pos 0))

ℤ_identity :
    (l r q m : ℤ)
    → pos_part (q *ℤ r) + pos_part m + neg_part l ≡ neg_part (q *ℤ r) + neg_part m + pos_part l
    → q *ℤ r +ℤ m ≡ l
ℤ_identity l r q m h = eq_of_parts _ _ (omega (arith, +ℤ_parts (q *ℤ r) m))

-- The same quotient and remainder as numbers, in each of the shapes above.
module _ (a b q m : ℕ) where
  floor_pos_pos : b * q + m ≡ a → m < b → IsFloorDiv (pos a) (pos b) (pos q) (pos m)
  floor_pos_pos e h = record {
    divides = ℤ_identity _ _ _ _ (omega (arith, *ℤ_parts (pos q) (pos b)));
    bounded = inl (omega arith, omega arith);
  }

  floor_neg_neg :
      suc b * q + m ≡ suc a → m < suc b → IsFloorDiv (negsuc a) (negsuc b) (pos q) (sub_ℕ 0 m)
  floor_neg_neg e h = record {
    divides = ℤ_identity _ _ _ _ (ground (arith, *ℤ_parts (pos q) (negsuc b)));
    bounded = inr (ground arith, ground arith);
  }

  floor_pos_neg :
      suc b * q + m ≡ a
      → m < suc b
      → m ≢ 0
      → IsFloorDiv (pos a) (negsuc b) (negsuc q) (negsuc (b - m))
  floor_pos_neg e h n = record {
    divides = ℤ_identity _ _ _ _ (omega (arith, *ℤ_parts (negsuc q) (negsuc b)));
    bounded = inr (omega arith, omega arith);
  }

  floor_neg_pos :
      b * q + m ≡ suc a → m < b → m ≢ 0 → IsFloorDiv (negsuc a) (pos b) (negsuc q) (pos (b - m))
  floor_neg_pos e h n = record {
    divides = ℤ_identity _ _ _ _ (omega (arith, *ℤ_parts (negsuc q) (pos b)));
    bounded = inl (omega arith, omega arith);
  }

neg_suc : (q : ℕ) → sub_ℕ 0 (suc q) ≡ negsuc q
neg_suc q = ground arith

neg_product :
    (q : ℕ) (r : ℤ)
    → pos_part (sub_ℕ 0 q *ℤ r) + q * pos_part r ≡ neg_part (sub_ℕ 0 q *ℤ r) + q * neg_part r
neg_product zero r = omega (arith, *ℤ_parts (pos 0) r)
neg_product (suc q) r = rw (neg_suc q) (omega (arith, *ℤ_parts (negsuc q) r))

floor_pos_neg_exact :
    (a b q : ℕ) → suc b * q ≡ a → IsFloorDiv (pos a) (negsuc b) (sub_ℕ 0 q) (pos 0)
floor_pos_neg_exact a b q e = record {
  divides = ℤ_identity _ _ _ _ (omega (arith, neg_product q (negsuc b)));
  bounded = inr (omega arith, omega arith);
}

floor_neg_pos_exact :
    (a b q : ℕ) → b ≢ 0 → b * q ≡ suc a → IsFloorDiv (negsuc a) (pos b) (sub_ℕ 0 q) (pos 0)
floor_neg_pos_exact a b q n e = record {
  divides = ℤ_identity _ _ _ _ (omega (arith, neg_product q (pos b)));
  bounded = inl (omega arith, omega arith);
}

pos_pos :
    (a b : ℕ)
    → b ≢ 0
    → IsFloorDiv (pos a) (pos b) (floor_div (pos a) (pos b)) (floor_mod (pos a) (pos b))
pos_pos a b n =
    let (d, m) = shape_pos_pos a b in
    rw (d, m) (floor_pos_pos a b (a / b) (a % b) (div-add-mod a b) (omega arith))

neg_neg :
    (a b : ℕ)
    → b ≢ 0
    → IsFloorDiv
        (negsuc a)
        (negsuc b)
        (floor_div (negsuc a) (negsuc b))
        (floor_mod (negsuc a) (negsuc b))
neg_neg a b n =
    let (d, m) = shape_neg_neg a b n in
    rw (d, m)
      (floor_neg_neg a b (suc a / suc b) (suc a % suc b) (div-add-mod (suc a) (suc b))
        (omega arith))

pos_neg :
    (a b : ℕ)
    → b ≢ 0
    → IsFloorDiv (pos a) (negsuc b) (floor_div (pos a) (negsuc b)) (floor_mod (pos a) (negsuc b))
pos_neg a b n = elim (ℕ_discrete (a % suc b) 0) [
  | yes exact ↦
      let (d, m) = shape_pos_neg_exact a b n exact in
      rw (d, m) (floor_pos_neg_exact a b (a / suc b) (omega (arith, exact, div-add-mod a (suc b))))
  | no left ↦
      let (d, m) = shape_pos_neg a b n left in
      rw (d, m)
        (floor_pos_neg a b (a / suc b) (a % suc b) (div-add-mod a (suc b)) (omega arith) left)
]

neg_pos :
    (a b : ℕ)
    → b ≢ 0
    → IsFloorDiv (negsuc a) (pos b) (floor_div (negsuc a) (pos b)) (floor_mod (negsuc a) (pos b))
neg_pos a b n = elim (ℕ_discrete (suc a % b) 0) [
  | yes exact ↦
      let (d, m) = shape_neg_pos_exact a b n exact in
      rw (d, m)
        (floor_neg_pos_exact a b (suc a / b) n (omega (arith, exact, div-add-mod (suc a) b)))
  | no left ↦
      let (d, m) = shape_neg_pos a b n left in
      rw (d, m)
        (floor_neg_pos a b (suc a / b) (suc a % b) (div-add-mod (suc a) b) (omega arith) left)
]

-- On a divisor other than 0 and -1, `//` and `%` are floor division and its remainder: the
-- quotient times the divisor plus the remainder is the dividend, exactly, and the remainder lies
-- between 0 and the divisor and has its sign.
pub floor_div-IsFloorDiv :
    (l r : ℤ) → r ≢ pos 0 → r ≢ negsuc 0 → IsFloorDiv l r (floor_div l r) (floor_mod l r)
floor_div-IsFloorDiv (pos a) (pos b) z o = pos_pos a b (λ e. z (ap pos e))
floor_div-IsFloorDiv (pos a) (negsuc b) z o = pos_neg a b (λ e. o (ap negsuc e))
floor_div-IsFloorDiv (negsuc a) (pos b) z o = neg_pos a b (λ e. z (ap pos e))
floor_div-IsFloorDiv (negsuc a) (negsuc b) z o = neg_neg a b (λ e. o (ap negsuc e))

-- By -1, `//` is the wrapped negation and `%` is 0.
pub by_minus_one :
    (l : ℤ) → (floor_div l (negsuc 0) ≡ wrap_neg l) × (floor_mod l (negsuc 0) ≡ pos 0)
unfolding floor_div floor_mod
by_minus_one l = (refl, refl)
