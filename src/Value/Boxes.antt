-- ===== src/Value/Boxes.antt =====
-- What a `Value` of src/object/object.hpp gives back.
use lovax.Base.{
  ℕ, suc, ◌+◌, ◌-◌, ◌*◌, ◌/◌, ◌%◌, ◌^◌, ◌<◌, ◌≡◌, refl, ap, ◌∙◌, ◌⊎◌, inl, inr, Bool, true, false,
  not, ◌&&◌, ◌||◌, arith, ◌==◌, if◌then◌else◌, Bool-cases,
}
use lovax.Base.Int.{ℤ, pos, negsuc}
use lovax.Base.Mask.{and_mask}
use lovax.Base.Union.{or_low}
use lovax.Int64.{to_u64, of_u64, shift_right}
use lovax.Value.{
  tags, payload, mk, t_int, t_obj, t_boxint, is_nan, fits_inline, ptr, integer, real, object,
  kind_of, tag, as_int, has_ptr, int, float, obj,
}
use lovax.Value.Bits.{tagged_bits, boxed, tbits-boxed, ptr-boxed, tag-boxed}
use Prim.Native.Nat.{bit_and, bit_or}

-- A payload under a tag.
mk-boxed_int : (l : ℕ) (lt : l < 2 ^ 47) → bit_or (mk t_int) l ≡ boxed 4 l (omega arith) lt
mk-boxed_int l lt = or_low 47 131060 l lt

mk-boxed_box : (l : ℕ) (lt : l < 2 ^ 47) → bit_or (mk t_boxint) l ≡ boxed 6 l (omega arith) lt
mk-boxed_box l lt = or_low 47 131062 l lt

mk-boxed_obj : (l : ℕ) (lt : l < 2 ^ 47) → bit_or (mk t_obj) l ≡ boxed 5 l (omega arith) lt
mk-boxed_obj l lt = or_low 47 131061 l lt

-- The low bits of a small integer, and the integer that they stand for.
inline_bits : ℤ → ℕ
inline_bits (pos n) = n
inline_bits (negsuc n) = 2 ^ 47 - suc n

inline_low : (x : ℤ) → fits_inline x ≡ true → bit_and (to_u64 x) payload ≡ inline_bits x
unfolding inline_bits
inline_low (pos n) h = ground (arith, h, and_mask 47 (to_u64 (pos n)))
inline_low (negsuc n) h = ground (arith, h, and_mask 47 (to_u64 (negsuc n)))

inline_lt : (x : ℤ) → fits_inline x ≡ true → inline_bits x < 2 ^ 47
unfolding inline_bits
inline_lt (pos n) h = ground (arith, h)
inline_lt (negsuc n) h = ground (arith, h)

sign_extended :
    (x : ℤ)
    → fits_inline x ≡ true
    → shift_right (of_u64 ((131060 * 2 ^ 47 + inline_bits x) * 2 ^ 17 % 2 ^ 64)) 17 ≡ x
unfolding inline_bits shift_right
sign_extended (pos n) h = ground (arith, h)
sign_extended (negsuc n) h = ground (arith, h)

module _ (heap : ℕ → ℤ) (x : ℤ) (box : ℕ) where
  inline-boxed :
      (fits : fits_inline x ≡ true)
      → integer x box ≡ boxed 4 (inline_bits x) (omega arith) (inline_lt x fits)
  unfolding integer
  inline-boxed fits =
      ap
        (λ (b : Bool).
          if b
          then bit_or (mk t_int) (bit_and (to_u64 x) payload)
          else bit_or (mk t_boxint) (bit_and box payload))
        fits
      ∙ ap (bit_or (mk t_int)) (inline_low x fits)
      ∙ mk-boxed_int (inline_bits x) (inline_lt x fits)

  as_int-inline :
      (l : ℕ) (lt : l < 2 ^ 47)
      → as_int heap (boxed 4 l (omega arith) lt)
        ≡ shift_right (of_u64 ((131060 * 2 ^ 47 + l) * 2 ^ 17 % 2 ^ 64)) 17
  unfolding as_int
  as_int-inline l lt =
      ap
        (λ (k : ℕ).
          if k == mk t_int
          then shift_right (of_u64 ((131060 * 2 ^ 47 + l) * 2 ^ 17 % 2 ^ 64)) 17
          else heap (ptr (boxed 4 l (omega arith) lt)))
        (tbits-boxed 4 l (omega arith) lt)

  inline-Boxes :
      fits_inline x ≡ true → (tag (integer x box) ≡ int) × (as_int heap (integer x box) ≡ x)
  inline-Boxes fits =
      let lt = inline_lt x fits in
      let e = inline-boxed fits in
      (
        ap tag e ∙ tag-boxed 4 (inline_bits x) (omega arith) lt,
        ap (as_int heap) e ∙ as_int-inline (inline_bits x) lt ∙ sign_extended x fits,
      )

  outline-boxed :
      fits_inline x ≡ false → (lt : box < 2 ^ 47) → integer x box ≡ boxed 6 box (omega arith) lt
  unfolding integer
  outline-boxed large lt =
      let e : bit_and box payload ≡ box = omega (arith, and_mask 47 box, lt) in
      ap
        (λ (b : Bool).
          if b
          then bit_or (mk t_int) (bit_and (to_u64 x) payload)
          else bit_or (mk t_boxint) (bit_and box payload))
        large
      ∙ ap (bit_or (mk t_boxint)) e
      ∙ mk-boxed_box box lt

  as_int-outline : (lt : box < 2 ^ 47) → as_int heap (boxed 6 box (omega arith) lt) ≡ heap box
  unfolding as_int
  as_int-outline lt =
      ap
        (λ (k : ℕ).
          if k == mk t_int
          then shift_right (of_u64 (boxed 6 box (omega arith) lt * 2 ^ 17 % 2 ^ 64)) 17
          else heap (ptr (boxed 6 box (omega arith) lt)))
        (tbits-boxed 6 box (omega arith) lt)
      ∙ ap heap (ptr-boxed 6 box (omega arith) lt)

  outline-Boxes :
      fits_inline x ≡ false
      → box < 2 ^ 47
      → heap box ≡ x
      → (tag (integer x box) ≡ int) × (as_int heap (integer x box) ≡ x)
  outline-Boxes large lt stored =
      let e = outline-boxed large lt in
      (ap tag e ∙ tag-boxed 6 box (omega arith) lt, ap (as_int heap) e ∙ as_int-outline lt ∙ stored)

  -- If the heap has an integer at an address of 47 bits, the value that Value::integer makes
  -- of the integer and the address has the tag of integers, and asInt gives the integer
  -- back, whether it is stored inline or boxed.
  pub integer-Boxes :
      box < 2 ^ 47 → heap box ≡ x → (tag (integer x box) ≡ int) × (as_int heap (integer x box) ≡ x)
  integer-Boxes lt stored = elim (Bool-cases (fits_inline x)) [
    | inl y ↦ inline-Boxes y
    | inr n ↦ outline-Boxes n lt stored
  ]

untagged : (u : ℕ) → u / 2 ^ 51 % 2 ^ 13 < 8191 → tag u ≡ float
unfolding tag
untagged u h =
    let e : bit_and u tags == tags ≡ false = ground (arith, tagged_bits u, h) in
    ap (λ (b : Bool). if b then kind_of (bit_and (u / 2 ^ 47) 15) else float) e

-- The tag bits of a pattern that is no NaN are not all set.
ordinary_bits : (bits : ℕ) → bits < 2 ^ 64 → is_nan bits ≡ false → bits / 2 ^ 51 % 2 ^ 13 < 8191
ordinary_bits bits lt n = ground (arith, lt, n)

-- Of every 64 bits, Value::real makes a value with the tag of floats, which is a NaN just if
-- the bits are one and else is the bits themselves.
pub real-Boxes :
    (bits : ℕ)
    → bits < 2 ^ 64
    → (tag (real bits) ≡ float)
      × (is_nan (real bits) ≡ is_nan bits)
      × ((real bits ≡ bits) ⊎ (is_nan bits ≡ true))
real-Boxes bits lt = go (is_nan bits) refl
  where
    go :
        (nan : Bool)
        → is_nan bits ≡ nan
        → (tag (if nan then 0x7FF8000000000000 else bits) ≡ float)
          × (is_nan (if nan then 0x7FF8000000000000 else bits) ≡ nan)
          × (((if nan then 0x7FF8000000000000 else bits) ≡ bits) ⊎ (nan ≡ true))
    go true e = (untagged 0x7FF8000000000000 (omega arith), refl, inr refl)
    go false e = (untagged bits (ordinary_bits bits lt e), e, inl refl)

-- The value that Value::object makes of an address of 47 bits has the tag of objects, gives
-- the address back, and has a pointer for the collector just if the address is not 0.
pub object-Boxes :
    (o : ℕ)
    → o < 2 ^ 47
    → (tag (object o) ≡ obj) × (ptr (object o) ≡ o) × (has_ptr (object o) ≡ not (o == 0))
unfolding object has_ptr
object-Boxes o lt =
    let i : bit_and o payload ≡ o = omega (arith, and_mask 47 o, lt) in
    let e : object o ≡ boxed 5 o (omega arith) lt = ap (bit_or (mk t_obj)) i ∙ mk-boxed_obj o lt in
    let p = ptr-boxed 5 o (omega arith) lt in
    (
      ap tag e ∙ tag-boxed 5 o (omega arith) lt,
      ap ptr e ∙ p,
      ap has_ptr e
          ∙ ap
              (λ (k : ℕ).
                (k == mk t_obj || k == mk t_boxint) && not (ptr (boxed 5 o (omega arith) lt) == 0))
              (tbits-boxed 5 o (omega arith) lt)
          ∙ ap (λ (k : ℕ). not (k == 0)) p,
    )
