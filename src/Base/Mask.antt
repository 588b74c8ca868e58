-- ===== src/Base/Mask.antt =====
-- Masks `x & (2 ^ k - 1)` and remainders.
use Prim.Native.Nat.{min, bit_and, digits, bit_and-bitwise}
use native.Mathlib.Nat.{
  mul_comm, mod-lt, mod-eq_of_lt, add-mul-mod_self_left, div-add-mod, pow-suc, one-le-pow,
}
use lovax.Base.{
  ℕ, zero, suc, ◌+◌, ◌-◌, ◌*◌, ◌/◌, ◌%◌, ◌^◌, ◌≤◌, ◌<◌, ◌≡◌, refl, sym, ap, ◌∙◌, arith,
}

-- The recursion that the native `&` stands for, at some fuel.
abbrev conj : ℕ → ℕ → ℕ → ℕ
conj n a b = digits (λ _. 0) min n a b

-- Any fuel that reaches the value gives the same digits.
conj_enough : (n m a b : ℕ) → a ≤ n → a ≤ m → conj n a b ≡ conj m a b
conj_enough zero zero a b p q = refl
conj_enough zero (suc m) zero b p q = refl
conj_enough zero (suc m) (suc a) b p q = absurd (omega arith)
conj_enough (suc n) zero zero b p q = refl
conj_enough (suc n) zero (suc a) b p q = absurd (omega arith)
conj_enough (suc n) (suc m) zero b p q = refl
conj_enough (suc n) (suc m) (suc a) b p q =
    omega (arith, conj_enough n m (suc a / 2) (b / 2) (omega arith) (omega arith))

-- One binary digit of `&`.
pub digit : (a b : ℕ) → bit_and a b ≡ bit_and (a / 2) (b / 2) * 2 + min (a % 2) (b % 2)
digit zero b = omega (arith, bit_and-bitwise 0 b, bit_and-bitwise 0 (b / 2))
digit (suc a) b = omega (
  arith,
  bit_and-bitwise (suc a) b,
  bit_and-bitwise (suc a / 2) (b / 2),
  conj_enough a (suc a / 2) (suc a / 2) (b / 2) (omega arith) (omega arith),
)

pub and-zero : (n a : ℕ) → a ≤ n → bit_and a 0 ≡ 0
and-zero n zero h = refl
and-zero zero (suc a) h = absurd (omega arith)
and-zero (suc n) (suc a) h = omega (arith, digit (suc a) 0, and-zero n (suc a / 2) (omega arith))

pub unique_mod : (a p r q : ℕ) → a ≡ r + p * q → r < p → a % p ≡ r
unique_mod a p r q e h = ap (λ (t : ℕ). t % p) e ∙ add-mul-mod_self_left r p q ∙ mod-eq_of_lt h

-- `p` and `half` stand for two neighbouring powers.
mask_digit :
    (a p half : ℕ)
    → p ≡ 2 * half
    → 1 ≤ half
    → bit_and (a / 2) (half - 1) ≡ a / 2 % half
    → bit_and a (p - 1) ≡ a % p
mask_digit a p half e h ih =
    let halves : (p - 1) / 2 ≡ half - 1 = omega arith in
    let step : bit_and a (p - 1) ≡ a / 2 % half * 2 + a % 2 =
      rw (digit a (p - 1), halves, ih) (omega arith) in
    step ∙ sym (unique_mod a p (a / 2 % half * 2 + a % 2) (a / 2 / half) whole below)
  where
    below : a / 2 % half * 2 + a % 2 < p
    below = omega (arith, mod-lt (a / 2) h)

    whole : a ≡ (a / 2 % half * 2 + a % 2) + p * (a / 2 / half)
    whole = omega (arith, e, ap (λ (t : ℕ). t * (a / 2 / half)) e, div-add-mod (a / 2) half)

pub and_mask : (k a : ℕ) → bit_and a (2 ^ k - 1) ≡ a % 2 ^ k
and_mask zero a = omega (arith, and-zero a a (omega arith))
and_mask (suc k) a =
    mask_digit a (2 ^ suc k) (2 ^ k) (pow-suc 2 k ∙ mul_comm _ _) (one-le-pow k 2 (omega arith))
      (and_mask k (a / 2))
