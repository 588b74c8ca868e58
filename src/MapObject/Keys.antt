-- ===== src/MapObject/Keys.antt =====
-- Keys, their hashes and their comparison: `mix64`, `strHash`, `intHash`, and the lambdas that
-- `findStr`, `setStr`, `set`, `get` and `remove` hand to the probe.
use Prim.Native.Nat.{bit_xor}
use lovax.Base.Text.{bytes_equal}
use lovax.Base.{
  ℕ, ◌*◌, ◌/◌, ◌%◌, ◌^◌, ◌≡◌, refl, ap, Bool, true, false, Option, none, some, List, [], ◌∷◌, arith,
  ◌==◌,
}
use lovax.Base.Int.{ℤ, pos, negsuc}
use lovax.Int64.{to_u64}
use native.Mathlib.Decide.{ℕ_discrete}

-- `other` is an object of a type that is no key.
pub data Key : Type 0 where
  str : List ℕ → Key
  int : ℤ → Key
  bool : Bool → Key
  other : Key

mix64 : ℕ → ℕ
mix64 h =
    let a = bit_xor h (h / 2 ^ 32) in
    let b = a * 0xd6e8feb86659fd93 % 2 ^ 64 in bit_xor b (b / 2 ^ 32)

-- The loop of FNV-1a over the bytes.
fnv : ℕ → List ℕ → ℕ
fnv h [] = h
fnv h (c ∷ s) = fnv (bit_xor h c * 1099511628211 % 2 ^ 64) s

unfoldable pub str_hash : List ℕ → ℕ
unfolding fnv mix64
str_hash s = mix64 (fnv 1469598103934665603 s)

unfoldable pub int_hash : ℤ → ℕ
unfolding mix64
int_hash v = mix64 (to_u64 v * 0x9E3779B97F4A7C15 % 2 ^ 64)

-- The hash of a key that the index holds; a boolean has none.
abbrev pub key_hash : Key → Option ℕ
key_hash (str s) = some (str_hash s)
key_hash (int v) = some (int_hash v)
key_hash _ = none

pub Key-discrete : Discrete Key
Key-discrete = hlevel ℕ_discrete

abbrev int_eq : ℤ → ℤ → Bool
int_eq (pos a) (pos b) = a == b
int_eq (negsuc a) (negsuc b) = a == b
int_eq _ _ = false

-- The tags agree and the values do.
unfoldable pub same_key : Key → Key → Bool
same_key (str s) (str t) = bytes_equal s t
same_key (int a) (int b) = int_eq a b
same_key (bool true) (bool true) = true
same_key (bool false) (bool false) = true
same_key _ _ = false

bytes_eq_sound : (s t : List ℕ) → bytes_equal s t ≡ true → s ≡ t
bytes_eq_sound [] [] h = refl
bytes_eq_sound [] (b ∷ t) h = cc
bytes_eq_sound (a ∷ s) [] h = cc
bytes_eq_sound (a ∷ s) (b ∷ t) h = ground (arith, bytes_eq_sound s t)

bytes_eq_refl : (s : List ℕ) → bytes_equal s s ≡ true
bytes_eq_refl [] = refl
bytes_eq_refl (a ∷ s) = ground (arith, bytes_eq_refl s)

pub same_key_sound : (a b : Key) → same_key a b ≡ true → a ≡ b
unfolding same_key
same_key_sound (str s) (str t) h = ap str (bytes_eq_sound s t h)
same_key_sound (int (pos a)) (int (pos b)) h = ground arith
same_key_sound (int (negsuc a)) (int (negsuc b)) h = ground arith
same_key_sound (bool true) (bool true) h = refl
same_key_sound (bool false) (bool false) h = refl
same_key_sound _ _ h = absurd (cc)

-- A key of the index is the same as itself.
pub same_key_refl : (a : Key) (h : ℕ) → key_hash a ≡ some h → same_key a a ≡ true
unfolding same_key
same_key_refl (str s) h e = bytes_eq_refl s
same_key_refl (int (pos a)) h e = ground arith
same_key_refl (int (negsuc a)) h e = ground arith
same_key_refl (bool b) h e = absurd (cc)
same_key_refl other h e = absurd (cc)
