-- ===== src/Value.antt =====
-- The NaN-boxed `Value` of src/object/object.hpp: 64 bits as a number below 2 ^ 64. A double is
-- its bit pattern, a pointer its address, and the heap of boxed integers is a function.
pub mod Bits
pub mod Boxes
mod Tests
use lovax.Base.{ℕ, ◌-◌, ◌*◌, ◌/◌, ◌%◌, ◌^◌, Bool, not, ◌&&◌, ◌||◌, ◌==◌, if◌then◌else◌}
use lovax.Base.Int.{ltb_ℤ, leb_ℤ, ℤ, pos, negsuc}
use lovax.Int64.{to_u64, of_u64, shift_right}
use Prim.Native.Nat.{bit_and, bit_or}

pub data VKind : Type 0 where
  nil bool int float obj : VKind

abbrev pub tags : ℕ
tags = 0xFFF8000000000000

abbrev pub payload : ℕ
payload = 0x7FFFFFFFFFFF

-- `mk`; the tags below are `T_NIL` to `T_BOXINT`.
abbrev pub mk : ℕ → ℕ
mk t = bit_or tags (t * 2 ^ 47)

abbrev pub t_nil : ℕ
t_nil = 1

abbrev pub t_false : ℕ
t_false = 2

abbrev pub t_true : ℕ
t_true = 3

abbrev pub t_int : ℕ
t_int = 4

abbrev pub t_obj : ℕ
t_obj = 5

abbrev pub t_boxint : ℕ
t_boxint = 6

-- `TAG_MASK`
abbrev pub tag_mask : ℕ
tag_mask = bit_or tags (15 * 2 ^ 47)

-- `x != x` of a double: all bits of its exponent are set, and one of its fraction.
abbrev pub is_nan : ℕ → Bool
is_nan bits = (bits / 2 ^ 52 % 2 ^ 11 == 2047) && not (bits % 2 ^ 52 == 0)

-- `fromDouble`
abbrev pub from_double : ℕ → ℕ
from_double bits = if is_nan bits then 0x7FF8000000000000 else bits

-- `fitsInline`
abbrev pub fits_inline : ℤ → Bool
fits_inline x = leb_ℤ (negsuc (2 ^ 46 - 1)) x && ltb_ℤ x (pos (2 ^ 46))

unfoldable pub tagged : ℕ → Bool
tagged u = bit_and u tags == tags

unfoldable pub tbits : ℕ → ℕ
tbits u = bit_and u tag_mask

-- `ptr`
unfoldable pub ptr : ℕ → ℕ
ptr u = bit_and u payload

abbrev pub nil_value : ℕ
nil_value = mk t_nil

abbrev pub boolean : Bool → ℕ
boolean x = mk (if x then t_true else t_false)

-- `integer`, with the address at which a large one is boxed.
unfoldable pub integer : ℤ → ℕ → ℕ
integer x box =
    if fits_inline x
    then bit_or (mk t_int) (bit_and (to_u64 x) payload)
    else bit_or (mk t_boxint) (bit_and box payload)

-- `real`
abbrev pub real : ℕ → ℕ
real bits = from_double bits

unfoldable pub object : ℕ → ℕ
object o = bit_or (mk t_obj) (bit_and o payload)

abbrev pub kind_of : ℕ → VKind
kind_of t =
    if t == t_nil
    then nil
    else if t == t_true || t == t_false
    then bool
    else if t == t_int || t == t_boxint
    then int
    else obj

-- `tag`
unfoldable pub tag : ℕ → VKind
unfolding tagged
tag u = if tagged u then kind_of (bit_and (u / 2 ^ 47) 0xF) else float

-- `asInt`; the shift up drops the tag, the one down extends the sign.
unfoldable pub as_int : (ℕ → ℤ) → ℕ → ℤ
unfolding tbits ptr
as_int heap u =
    if tbits u == mk t_int then shift_right (of_u64 (u * 2 ^ 17 % 2 ^ 64)) 17 else heap (ptr u)

unfoldable pub as_bool : ℕ → Bool
unfolding tbits
as_bool u = tbits u == mk t_true

-- `hasPtr`
unfoldable pub has_ptr : ℕ → Bool
unfolding tbits ptr
has_ptr u = (tbits u == mk t_obj || tbits u == mk t_boxint) && not (ptr u == 0)
