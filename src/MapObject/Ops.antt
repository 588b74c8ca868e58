-- ===== src/MapObject/Ops.antt =====
-- The operations: `findStr`, `get`, `setStr`, `set`, `rebuildIndex` and `remove`.

use lovax.Base.{
  ℕ, zero, suc, ◌+◌, ◌*◌, ◌/◌, Bool, true, false, Option, none, some, List, [], ◌∷◌, ◌++◌, ltb,
  ◌==◌, if◌then◌else◌, ◌>>=◌, length, set, replicate,
}
use lovax.MapObject.Keys.{str_hash, int_hash, same_key, Key, str, int, bool, other}
use lovax.MapObject.Slots.{
  empty_slot, slot_at, probe_slot, seat, index_grow, index_wants_grow, KeySlot,
}

pub record MapObject {ℓ} (V : Type ℓ) : Type ℓ where
  pub entries : List (Key × V)
  pub index : List KeySlot
  pub index_used : ℕ
  pub bool_false : Option ℕ
  pub bool_true : Option ℕ

abbrev pub bool_index {ℓ} : {V : Type ℓ} → MapObject V → Bool → Option ℕ
bool_index m false = m.bool_false
bool_index m true = m.bool_true

abbrev pub same_at : Key → Option Key → Bool
same_at k none = false
same_at k (some j) = same_key k j

-- `while (ncap < need) ncap *= 2`; `none` means that the fuel ran out.
unfoldable pub double_until : ℕ → ℕ → ℕ → Option ℕ
double_until zero need ncap = none
double_until (suc fuel) need ncap =
    let rest = double_until fuel need (ncap * 2) in if ltb ncap need then rest else some ncap

module _ {ℓ} {V : Type ℓ} where
  abbrev pub key_at : List (Key × V) → ℕ → Option Key
  key_at [] p = none
  key_at ((k, v) ∷ es) zero = some k
  key_at ((k, v) ∷ es) (suc p) = key_at es p

  abbrev pub value_at : List (Key × V) → Option ℕ → Option V
  value_at es none = none
  value_at [] (some p) = none
  value_at ((k, v) ∷ es) (some zero) = some v
  value_at ((k, v) ∷ es) (some (suc p)) = value_at es (some p)

  -- `entries[p].second = val`
  abbrev pub set_value : List (Key × V) → ℕ → V → List (Key × V)
  set_value [] p v = []
  set_value ((k, w) ∷ es) zero v = (k, v) ∷ es
  set_value ((k, w) ∷ es) (suc p) v = (k, w) ∷ set_value es p v

  -- `entries.erase(entries.begin() + p)`
  abbrev pub erase_at : List (Key × V) → ℕ → List (Key × V)
  erase_at [] p = []
  erase_at (e ∷ es) zero = es
  erase_at (e ∷ es) (suc p) = e ∷ erase_at es p

  -- The comparison that the probe makes with the key of an entry.
  abbrev pub eq_at : List (Key × V) → Key → ℕ → Bool
  eq_at es k p = same_at k (key_at es p)

  -- `findStr`, and the same lines of the integer branches of `get` and `remove`.
  unfoldable pub index_pos : MapObject V → Key → ℕ → Option (Option ℕ)
  index_pos m k h =
      if length m.index == 0
      then some none
      else (do i ← probe_slot m.index h (eq_at m.entries k); some (slot_at m.index i).pos)

  unfoldable pub find : MapObject V → Key → Option (Option ℕ)
  unfolding index_pos
  find m (str s) = index_pos m (str s) (str_hash s)
  find m (int v) = index_pos m (int v) (int_hash v)
  find m (bool b) = some (bool_index m b)
  find m other = some none

  unfoldable pub get : MapObject V → Key → Option (Option V)
  get m k = do pos ← find m k; some (value_at m.entries pos)

  -- The last lines of `setStr`, on the slot that the probe found.
  unfoldable pub store : MapObject V → ℕ → ℕ → Key → V → Option ℕ → MapObject V
  store m i h k v (some p) = record m { entries = set_value m.entries p v }
  store m i h k v none = record m {
    index = set m.index i (record { h = h; pos = some (length m.entries) });
    index_used = m.index_used + 1;
    entries = m.entries ++ (k, v) ∷ [];
  }

  unfoldable pub set_indexed : MapObject V → Key → ℕ → V → Option (MapObject V)
  unfolding store
  set_indexed m k h v = do
    index ← if index_wants_grow m.index_used m.index then index_grow m.index else some m.index
    i ← probe_slot index h (eq_at m.entries k)
    some (store (record m { index = index }) i h k v (slot_at index i).pos)

  -- `boolIndex[b] = p`
  unfoldable pub with_bool : MapObject V → Bool → Option ℕ → MapObject V
  with_bool m b p = record m {
    bool_false = if b then m.bool_false else p;
    bool_true = if b then p else m.bool_true;
  }

  unfoldable pub set_bool : MapObject V → Bool → V → Option ℕ → MapObject V
  unfolding with_bool
  set_bool m b v (some p) = record m { entries = set_value m.entries p v }
  set_bool m b v none = record (with_bool m b (some (length m.entries))) {
    entries = m.entries ++ (bool b, v) ∷ [];
  }

  -- `set` of the source.
  unfoldable pub insert : MapObject V → Key → V → Option (MapObject V)
  unfolding set_indexed set_bool
  insert m (str s) v = set_indexed m (str s) (str_hash s) v
  insert m (int z) v = set_indexed m (int z) (int_hash z) v
  insert m (bool b) v = some (set_bool m b v (bool_index m b))
  insert m other v = some m

  -- One entry of the loop of `rebuildIndex`, at position `p`. An entry's key is a string, an
  -- integer or a boolean; the source takes it for a boolean without a test.
  unfoldable pub reindex : MapObject V → ℕ → Key → Option (MapObject V)
  unfolding with_bool
  reindex m p (bool b) = some (with_bool m b (some p))
  reindex m p other = some m
  reindex m p (str s) = do
    index ← seat m.index (record { h = str_hash s; pos = some p })
    some (record m { index = index; index_used = m.index_used + 1 })
  reindex m p (int z) = do
    index ← seat m.index (record { h = int_hash z; pos = some p })
    some (record m { index = index; index_used = m.index_used + 1 })

  unfoldable pub reindex_from : ℕ → List (Key × V) → MapObject V → Option (MapObject V)
  unfolding reindex
  reindex_from p [] m = some m
  reindex_from p ((k, v) ∷ es) m = reindex m p k >>= reindex_from (p + 1) es

  unfoldable pub rebuild_index : MapObject V → Option (MapObject V)
  unfolding double_until reindex_from
  rebuild_index m = do
    let need = length m.entries * 10 / 7 + 1
    ncap ← double_until need need 8
    reindex_from 0 m.entries (record m {
      index = replicate ncap empty_slot;
      index_used = 0;
      bool_false = none;
      bool_true = none;
    })

  unfoldable pub remove_at : MapObject V → Option ℕ → Option (Bool × MapObject V)
  unfolding rebuild_index
  remove_at m none = some (false, m)
  remove_at m (some p) = do
    m' ← rebuild_index (record m { entries = erase_at m.entries p })
    some (true, m')

  unfoldable pub remove : MapObject V → Key → Option (Bool × MapObject V)
  unfolding remove_at
  remove m k = do pos ← find m k; remove_at m pos

abbrev pub new_map {ℓ} : {V : Type ℓ} → MapObject V
new_map = record { entries = []; index = []; index_used = 0; bool_false = none; bool_true = none }
