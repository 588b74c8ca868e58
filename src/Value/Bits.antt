-- ===== src/Value/Bits.antt =====
-- The bits of a `Value` of src/object/object.hpp.
use lovax.Base.{
  ℕ, ◌+◌, ◌*◌, ◌/◌, ◌%◌, ◌^◌, ◌<◌, ◌≡◌, ap, ◌∙◌, Bool, true, arith, ◌==◌, if◌then◌else◌,
}
use lovax.Base.Mask.{and_mask}
use lovax.Base.Union.{and_high}
use lovax.Value.{tags, tbits, ptr, kind_of, tag, float}
use Prim.Native.Nat.{bit_and}

pub tagged_bits : (u : ℕ) → bit_and u tags ≡ u / 2 ^ 51 % 2 ^ 13 * 2 ^ 51
tagged_bits u = and_high 51 u 8191 ∙ ap (λ (t : ℕ). t * 2 ^ 51) (and_mask 13 (u / 2 ^ 51))

pub tbits_bits : (u : ℕ) → tbits u ≡ u / 2 ^ 47 % 2 ^ 17 * 2 ^ 47
unfolding tbits
tbits_bits u = and_high 47 u 131071 ∙ ap (λ (t : ℕ). t * 2 ^ 47) (and_mask 17 (u / 2 ^ 47))

pub ptr_bits : (u : ℕ) → ptr u ≡ u % 2 ^ 47
unfolding ptr
ptr_bits u = and_mask 47 u

-- A tag over a payload.
module _ (t l : ℕ) (h : t < 16) (lt : l < 2 ^ 47) where
  abbrev pub boxed : ℕ
  boxed = (131056 + t) * 2 ^ 47 + l

  pub tbits-boxed : tbits boxed ≡ (131056 + t) * 2 ^ 47
  tbits-boxed = omega (arith, tbits_bits boxed, h, lt)

  pub ptr-boxed : ptr boxed ≡ l
  ptr-boxed = omega (arith, ptr_bits boxed, h, lt)

  pub tag-boxed : tag boxed ≡ kind_of t
  unfolding tag
  tag-boxed =
      let e : bit_and boxed tags == tags ≡ true = ground (arith, tagged_bits boxed, h, lt) in
      let k : bit_and (boxed / 2 ^ 47) 15 ≡ t = omega (arith, and_mask 4 (boxed / 2 ^ 47), h, lt) in
      ap (λ (b : Bool). if b then kind_of (bit_and (boxed / 2 ^ 47) 15) else float) e ∙ ap kind_of k
