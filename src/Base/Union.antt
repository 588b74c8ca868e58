-- ===== src/Base/Union.antt =====
-- `x | y` of numbers whose binary digits do not meet, and masks of high digits.
use Prim.Native.Nat.{max, bit_and, bit_or, digits, bit_or-bitwise}
use native.Mathlib.Nat.{pow-suc, mul_comm, div-div-eq-div-mul}
use lovax.Base.Mask.{digit}
use lovax.Base.{ℕ, zero, suc, ◌+◌, ◌*◌, ◌/◌, ◌%◌, ◌^◌, ◌≤◌, ◌<◌, ◌≡◌, refl, sym, ap, ◌∙◌, arith}

-- The recursion that the native `|` stands for, at some fuel.
abbrev disj : ℕ → ℕ → ℕ → ℕ
disj n a b = digits (λ b. b) max n a b

-- Any fuel that reaches the value gives the same digits.
disj_enough : (n m a b : ℕ) → a ≤ n → a ≤ m → disj n a b ≡ disj m a b
disj_enough zero zero a b p q = refl
disj_enough zero (suc m) zero b p q = refl
disj_enough zero (suc m) (suc a) b p q = absurd (omega arith)
disj_enough (suc n) zero zero b p q = refl
disj_enough (suc n) zero (suc a) b p q = absurd (omega arith)
disj_enough (suc n) (suc m) zero b p q = refl
disj_enough (suc n) (suc m) (suc a) b p q =
    omega (arith, disj_enough n m (suc a / 2) (b / 2) (omega arith) (omega arith))

-- One binary digit of `|`.
or_digit : (a b : ℕ) → bit_or a b ≡ bit_or (a / 2) (b / 2) * 2 + max (a % 2) (b % 2)
or_digit zero b = omega (arith, bit_or-bitwise 0 b, bit_or-bitwise 0 (b / 2))
or_digit (suc a) b = omega (
  arith,
  bit_or-bitwise (suc a) b,
  bit_or-bitwise (suc a / 2) (b / 2),
  disj_enough a (suc a / 2) (suc a / 2) (b / 2) (omega arith) (omega arith),
)

or_zero : (n a : ℕ) → a ≤ n → bit_or a 0 ≡ a
or_zero n zero h = refl
or_zero zero (suc a) h = absurd (omega arith)
or_zero (suc n) (suc a) h = omega (arith, or_digit (suc a) 0, or_zero n (suc a / 2) (omega arith))

-- `p` stands for a power.
or_low_digit : (x l : ℕ) → bit_or x (l / 2) ≡ x + l / 2 → bit_or (2 * x) l ≡ 2 * x + l
or_low_digit x l ih =
    let half : 2 * x / 2 ≡ x = omega arith in
    let e : bit_or (2 * x / 2) (l / 2) ≡ x + l / 2 = ap (λ (t : ℕ). bit_or t (l / 2)) half ∙ ih in
    omega (arith, or_digit (2 * x) l, e)

doubled : (k h : ℕ) → h * 2 ^ suc k ≡ 2 * (h * 2 ^ k)
doubled k h = omega (arith, ap (λ (t : ℕ). h * t) (pow-suc 2 k))

pub or_low : (k h l : ℕ) → l < 2 ^ k → bit_or (h * 2 ^ k) l ≡ h * 2 ^ k + l
or_low zero h l lt =
    let e : l ≡ 0 = omega (arith, lt) in
    ap (bit_or (h * 2 ^ 0)) e ∙ or_zero (h * 2 ^ 0) (h * 2 ^ 0) (omega arith) ∙ omega (arith, e)
or_low (suc k) h l lt =
    let d = doubled k h in
    let half : l / 2 < 2 ^ k = omega (arith, lt, pow-suc 2 k) in
    ap (λ (t : ℕ). bit_or t l) d
    ∙ or_low_digit (h * 2 ^ k) l (or_low k h (l / 2) half)
    ∙ omega (arith, d)

-- A mask of high digits.
pub and_high : (k a b : ℕ) → bit_and a (b * 2 ^ k) ≡ bit_and (a / 2 ^ k) b * 2 ^ k
and_high zero a b =
    let e : b * 2 ^ 0 ≡ b = omega arith in
    let f : a ≡ a / 2 ^ 0 = omega arith in
    ap (bit_and a) e ∙ ap (λ (t : ℕ). bit_and t b) f ∙ omega arith
and_high (suc k) a b =
    let d = doubled k b in
    let x = b * 2 ^ k in
    let half : 2 * x / 2 ≡ x = omega arith in
    let e : bit_and (a / 2) (2 * x / 2) ≡ bit_and (a / 2 / 2 ^ k) b * 2 ^ k =
      ap (bit_and (a / 2)) half ∙ and_high k (a / 2) b in
    let q : a / 2 / 2 ^ k ≡ a / 2 ^ suc k =
      div-div-eq-div-mul a 2 (2 ^ k) ∙ ap (λ (t : ℕ). a / t) (sym (pow-suc 2 k ∙ mul_comm _ _)) in
    ap (bit_and a) d
    ∙ omega (arith, digit a (2 * x), e)
    ∙ sym (doubled k (bit_and (a / 2 / 2 ^ k) b))
    ∙ ap (λ (t : ℕ). bit_and t b * 2 ^ suc k) q
