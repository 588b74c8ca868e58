-- ===== src/Value/Tests.antt =====
-- Runs of the values, and their theorems at an input.
use lovax.Base.{ℕ, ◌^◌, ◌≡◌, refl, ◌⊎◌, true, false, not, arith, ◌==◌}
use lovax.Base.Int.{ℤ, pos, negsuc}
use lovax.Int64.{shift_right}
use lovax.Value.{
  is_nan, ptr, nil_value, boolean, integer, real, object, tag, as_int, as_bool, has_ptr, nil, bool,
  int, float, obj,
}
use lovax.Value.Boxes.{integer-Boxes, real-Boxes, object-Boxes}

abbrev heap : ℕ → ℤ
heap address = negsuc (2 ^ 62)

abbrev no_heap : ℕ → ℤ
no_heap address = pos 0

minus_one :
    (integer (negsuc 0) 0 ≡ 0xFFFA7FFFFFFFFFFF) × (as_int no_heap 0xFFFA7FFFFFFFFFFF ≡ negsuc 0)
unfolding integer as_int shift_right
minus_one = (refl, refl)

-- The negative quiet NaN, whose bits are those of a tag.
negative_nan : real 0xFFF8000000000000 ≡ 0x7FF8000000000000
negative_nan = refl

integer-Boxes_example :
    (tag (integer (negsuc (2 ^ 62)) 4096) ≡ int)
    × (as_int heap (integer (negsuc (2 ^ 62)) 4096) ≡ negsuc (2 ^ 62))
integer-Boxes_example = integer-Boxes heap (negsuc (2 ^ 62)) 4096 (omega arith) refl

real-Boxes_example :
    (tag (real 0xFFF8000000000000) ≡ float)
    × (is_nan (real 0xFFF8000000000000) ≡ is_nan 0xFFF8000000000000)
    × ((real 0xFFF8000000000000 ≡ 0xFFF8000000000000) ⊎ (is_nan 0xFFF8000000000000 ≡ true))
real-Boxes_example = real-Boxes 0xFFF8000000000000 (omega arith)

object-Boxes_example :
    (tag (object 4096) ≡ obj)
    × (ptr (object 4096) ≡ 4096)
    × (has_ptr (object 4096) ≡ not (4096 == 0))
object-Boxes_example = object-Boxes 4096 (omega arith)

-- The values of nil and of the Booleans.
constants :
    (tag nil_value ≡ nil)
    × (has_ptr nil_value ≡ false)
    × (tag (boolean true) ≡ bool)
    × (as_bool (boolean true) ≡ true)
    × (as_bool (boolean false) ≡ false)
unfolding tag has_ptr as_bool
constants = (refl, refl, refl, refl, refl)
