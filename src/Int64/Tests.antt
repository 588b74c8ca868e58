-- ===== src/Int64/Tests.antt =====
-- Runs of the wrapped and floor operations at the edges of the range.
use lovax.Base.{ℕ, ◌-◌, ◌^◌, ◌≡◌, refl, ◌⊎◌, arith}
use lovax.Base.Int.{◌+ℤ◌, ◌-ℤ◌, ◌*ℤ◌, ℤ, pos, negsuc}
use lovax.Int64.{
  InRange, wrap_add, wrap_sub, wrap_mul, wrap_neg, wrap_shl, shift_right, floor_div, floor_mod,
}
use lovax.Int64.Wrap.{wrap-Represents, Represents}
use lovax.Int64.Floor.{floor_div-IsFloorDiv, IsFloorDiv}
use lovax.Int64.Identity.{floor_identity}
use lovax.Int64.Shift.{shifts_scale}

abbrev int64_min : ℤ
int64_min = negsuc (2 ^ 63 - 1)

abbrev int64_max : ℤ
int64_max = pos (2 ^ 63 - 1)

wraps_at_edges :
    (wrap_add int64_max (pos 1) ≡ int64_min)
    × (wrap_neg int64_min ≡ int64_min)
    × (wrap_mul int64_min (negsuc 0) ≡ int64_min)
unfolding wrap_add wrap_neg wrap_mul
wraps_at_edges = (refl, refl, refl)

floors :
    (floor_div (negsuc 4) (pos 3) ≡ negsuc 1)
    × (floor_mod (negsuc 4) (pos 3) ≡ pos 1)
    × (floor_mod (pos 5) (negsuc 2) ≡ negsuc 0)
    × (floor_div int64_min (negsuc 0) ≡ int64_min)
unfolding floor_div floor_mod wrap_neg ◌+ℤ◌ ◌-ℤ◌
floors = (refl, refl, refl, refl)

wrap-Represents_example :
    Represents (wrap_add int64_max (pos 1)) (int64_max +ℤ pos 1)
    × Represents (wrap_sub int64_max (pos 1)) (int64_max -ℤ pos 1)
    × Represents (wrap_mul int64_max (pos 1)) (int64_max *ℤ pos 1)
    × Represents (wrap_neg int64_max) (pos 0 -ℤ int64_max)
wrap-Represents_example = wrap-Represents int64_max (pos 1) (omega arith) (omega arith)

floor_div-IsFloorDiv_example :
    IsFloorDiv (negsuc 4) (pos 3) (floor_div (negsuc 4) (pos 3)) (floor_mod (negsuc 4) (pos 3))
floor_div-IsFloorDiv_example = floor_div-IsFloorDiv (negsuc 4) (pos 3) (ground arith) (ground arith)

floor_identity_example :
    InRange (floor_div int64_min (negsuc 0))
    × InRange (floor_mod int64_min (negsuc 0))
    × (wrap_add
          (wrap_mul (floor_div int64_min (negsuc 0)) (negsuc 0))
          (floor_mod int64_min (negsuc 0))
        ≡ int64_min)
floor_identity_example =
    floor_identity int64_min (negsuc 0) (omega arith) (omega arith) (ground arith)

shifts_scale_example :
    (wrap_shl (negsuc 6) 62 ≡ wrap_mul (negsuc 6) (wrap_shl (pos 1) 62))
    × ((m : ℤ) × IsFloorDiv (negsuc 6) (pos (2 ^ 62)) (shift_right (negsuc 6) 62) m)
    × (◌≡◌ {A = ℕ} 62 63 ⊎ (shift_right (negsuc 6) 62 ≡ floor_div (negsuc 6) (pos (2 ^ 62))))
shifts_scale_example = shifts_scale (negsuc 6) 62 (omega arith)
