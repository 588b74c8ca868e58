-- ===== src/MapObject/Find.antt =====
-- `findStr`, `get` and the probes of `remove`.
use lovax.Base.{
  ℕ, ◌*◌, ◌≤◌, ◌<◌, ◌≡◌, refl, sym, ap, ◌∙◌, inl, inr, false, Option, none, some, List, [], arith,
  ◌==◌, ==_iff, Bool-cases, ◌>>=◌, length,
}
use lovax.MapObject.{
  str_hash, int_hash, key_hash, Key, str, int, bool, other, slot_at, probe_slot, KeySlot,
  bool_index, value_at, eq_at, index_pos, find, get, MapObject,
}
use lovax.MapObject.Probe.{walk, IsSized-pos, some_ne_none, probe_slot-Lands, IsSized, Lands}
use lovax.MapObject.Seat.{occupied, vacancy}
use lovax.MapObject.Valid.{landing-At, IsIndexed, IsValid, At, absent, present}
use lovax.MapObject.Spec.{assoc_get, Absent, get-At}

-- A vector with at most seven tenths of its slots filled has an empty one.
pub room_left :
    {index : List KeySlot} {used : ℕ}
    → IsSized index
    → occupied index ≡ used
    → used * 10 ≤ length index * 7
    → occupied index < length index
room_left z count sparse = omega (arith, IsSized-pos z)

not_empty : (index : List KeySlot) → index ≡ [] → (length index == 0) ≡ false → ⊥
not_empty index e ne =
    let zero_length : length index ≡ 0 = ap (λ (t : List KeySlot). length t) e in ground arith

module _ {ℓ} {V : Type ℓ} where
  -- A probe for a key ends on the slot of the key, or on an empty one if there is none.
  pub probe-At :
      (entries : List (Key × V)) (index : List KeySlot) (used : ℕ) (k : Key) (h : ℕ)
      → IsIndexed entries index used
      → key_hash k ≡ some h
      → IsSized index
      → Lands index h (eq_at entries k) (probe_slot index h (eq_at entries k))
  probe-At entries index used k h v hash sized =
      let (i, lt, gap) = vacancy index (room_left sized v.count v.sparse) in
      probe_slot-Lands index h (eq_at entries k) i sized lt gap

  empty_index :
      (m : MapObject V) (k : Key) (h : ℕ)
      → IsValid m
      → key_hash k ≡ some h
      → length m.index ≡ 0
      → Absent m.entries k
  empty_index m k h v hash e p at = let s = v.indexed.seated p h k at hash in omega (arith, s.near)

  index_pos-At :
      (m : MapObject V) (k : Key) (h : ℕ)
      → IsValid m
      → key_hash k ≡ some h
      → (pos : Option ℕ) × (index_pos m k h ≡ some pos) × At m.entries k pos
  unfolding index_pos
  index_pos-At m k h v hash = elim (Bool-cases (length m.index == 0)) [
    | inl e ↦ (none, rw e refl, absent (empty_index m k h v hash ((==_iff _ _).0 e)))
    | inr e ↦ elim v.indexed.shape [
      | inl no_index ↦ absurd (not_empty m.index no_index e)
      | inr sized ↦
          let l = probe-At m.entries m.index m.index_used k h v.indexed hash sized in
          (
            (slot_at m.index (walk m.index h l.steps)).pos,
            rw (e, l.returns) refl,
            landing-At m.entries m.index m.index_used k h v.indexed hash l,
          )
    ]
  ]

  -- `find` ends on every key of a valid map, with the key's position, or none if it is not there.
  pub find-At :
      (m : MapObject V) (k : Key)
      → IsValid m
      → (pos : Option ℕ) × (find m k ≡ some pos) × At m.entries k pos
  unfolding find
  find-At m (str s) v = index_pos-At m (str s) (str_hash s) v refl
  find-At m (int z) v = index_pos-At m (int z) (int_hash z) v refl
  find-At m (bool b) v = (bool_index m b, refl, bool-At (bool_index m b) refl)
    where
      bool-At : (pos : Option ℕ) → bool_index m b ≡ pos → At m.entries (bool b) pos
      bool-At none e = absent λ p at. some_ne_none p (sym (v.bools_complete b p at) ∙ e)
      bool-At (some p) e = present p (v.bools_sound b p e)
  find-At m other v = (none, refl, absent v.keyed)

  -- On a valid map `get` ends on every key, with the value that the entries give the key, or
  -- none if no entry has it.
  pub get-assoc_get :
      (m : MapObject V) (k : Key) → IsValid m → get m k ≡ some (assoc_get k m.entries)
  unfolding get
  get-assoc_get m k v =
      let (pos, run, at) = find-At m k v in
      ap (λ (t : Option (Option ℕ)). t >>= λ q. some (value_at m.entries q)) run
      ∙ ap some (get-At m.entries k v.unique at)
