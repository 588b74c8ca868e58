-- ===== src/MapObject/Insert.antt =====
-- `set` and `setStr` of the map.
use mathlib.Core.Option.{some-injective}
use lovax.Base.{
  ℕ, ◌+◌, ◌≡◌, refl, sym, ap, ◌∙◌, ◌≢◌, ◌⊎◌, inl, inr, Bool, Option, none, some, List, [], ◌∷◌,
  ◌++◌, arith, if◌then◌else◌, length, set,
}
use lovax.MapObject.{
  str_hash, int_hash, key_hash, Key, str, int, bool, other, slot_at, probe_slot, index_grow,
  index_wants_grow, KeySlot, bool_index, eq_at, store, set_indexed, with_bool, set_bool, insert,
  MapObject,
}
use lovax.MapObject.Probe.{walk, some_ne_none, Lands}
use lovax.MapObject.Seat.{slot, fill-Filled, Passed-Full, Filled}
use lovax.MapObject.Valid.{landing-At, IsValid, At, absent, present}
use lovax.MapObject.Spec.{assoc_set, Absent, set-Absent, set-At_present}
use lovax.MapObject.Find.{probe-At}
use lovax.MapObject.Append.{
  key_at-append_left, key_at-append_last, key_at-append_cases, set_value-IsValid, make_room,
  appended-IsIndexed, appended_other-IsIndexed, Unique-longer, keyed_longer, Ready,
}

pub hash_not_other : (k : Key) (h : ℕ) → key_hash k ≡ some h → k ≢ other
hash_not_other k h e same = some_ne_none h (sym e ∙ ap (λ (t : Key). key_hash t) same)

hash_not_bool : (k : Key) (h : ℕ) (b : Bool) → key_hash k ≡ some h → k ≢ bool b
hash_not_bool k h b e same = some_ne_none h (sym e ∙ ap (λ (t : Key). key_hash t) same)

bool_injective : {b c : Bool} → bool b ≡ bool c → b ≡ c
bool_injective e = cc

module _ {ℓ} {V : Type ℓ} where
  -- The run ends in a valid map whose entries are `es`.
  pub record Writes (es : List (Key × V)) (run : Option (MapObject V)) : Type ℓ where
    pub result : MapObject V
    pub returns : run ≡ some result
    pub valid : IsValid result
    pub holds : result.entries ≡ es

  module _ (m : MapObject V) (k : Key) (h : ℕ) (v : V) (valid : IsValid m)
      (hash : key_hash k ≡ some h) where
    pub stored-IsValid :
        (index next : List KeySlot)
        → Ready m.entries m.index_used index
        → Filled index h (length m.entries) next
        → Absent m.entries k
        → IsValid (record m {
          index = next;
          index_used = m.index_used + 1;
          entries = m.entries ++ (k, v) ∷ [];
        })
    stored-IsValid index next ready f gone = record {
      indexed =
          appended-IsIndexed m.entries index next m.index_used k h v ready.indexed hash f
            ready.sized ready.roomy;
      bools_sound = λ b p e. key_at-append_left k v m.entries p (bool b) (valid.bools_sound b p e);
      bools_complete = λ b p e. elim (key_at-append_cases k v m.entries p (bool b) e) [
        | inl there ↦ valid.bools_complete b p there
        | inr (last, same) ↦ absurd (hash_not_bool k h b hash same)
      ];
      unique = Unique-longer m k v valid gone;
      keyed = keyed_longer m k v valid gone (hash_not_other k h hash);
    }

    -- The last lines of `setStr`, by what the probe found.
    store-Writes :
        (index : List KeySlot)
        → Ready m.entries m.index_used index
        → (l : Lands index h (eq_at m.entries k) (probe_slot index h (eq_at m.entries k)))
        → (pos : Option ℕ) → (slot_at index (walk index h l.steps)).pos ≡ pos
        → At m.entries k pos
        → Writes
            (assoc_set k v m.entries)
            (some (store (record m { index = index }) (walk index h l.steps) h k v pos))
    unfolding store
    store-Writes index ready l none gap (absent gone) = record {
      result = _;
      returns = refl;
      valid =
          stored-IsValid index (set index (walk index h l.steps) (slot h (length m.entries))) ready
            (fill-Filled index h (length m.entries) l.steps l.near gap (λ n less.
              Passed-Full index h (eq_at m.entries k) (walk index h n) (l.passed n less)))
            gone;
      holds = set-Absent m.entries k v gone;
    }
    store-Writes index ready l (some p) full (present _ at) = record {
      result = _;
      returns = refl;
      valid =
          set_value-IsValid (record m { index = index }) p v
            (record {
              indexed = ready.indexed;
              bools_sound = valid.bools_sound;
              bools_complete = valid.bools_complete;
              unique = valid.unique;
              keyed = valid.keyed;
            });
      holds = set-At_present m.entries k v p valid.unique at;
    }

    set_indexed-run :
        (index : List KeySlot) (i : ℕ)
        → (if index_wants_grow m.index_used m.index then index_grow m.index else some m.index)
          ≡ some index
        → probe_slot index h (eq_at m.entries k) ≡ some i
        → set_indexed m k h v
          ≡ some (store (record m { index = index }) i h k v (slot_at index i).pos)
    unfolding set_indexed
    set_indexed-run index i grow probe = rw (grow, probe) refl

    set_indexed-Writes : Writes (assoc_set k v m.entries) (set_indexed m k h v)
    set_indexed-Writes =
        let (index, grow, ready) = make_room m.entries m.index m.index_used valid.indexed in
        let l = probe-At m.entries index m.index_used k h ready.indexed hash ready.sized in
        let at = landing-At m.entries index m.index_used k h ready.indexed hash l in
        rw (set_indexed-run index (walk index h l.steps) grow l.returns)
          (store-Writes index ready l (slot_at index (walk index h l.steps)).pos refl at)

  module _ (m : MapObject V) (b : Bool) (v : V) (valid : IsValid m) where
    bool_index-with_bool :
        (c : Bool) (p : Option ℕ)
        → ((b ≡ c) × (bool_index (with_bool m b p) c ≡ p))
          ⊎ ((b ≢ c) × (bool_index (with_bool m b p) c ≡ bool_index m c))
    unfolding with_bool
    bool_index-with_bool c p = ground arith

    pub new_bool-IsValid :
        bool_index m b ≡ none
        → IsValid (record (with_bool m b (some (length m.entries))) {
          entries = m.entries ++ (bool b, v) ∷ [];
        })
    unfolding with_bool
    new_bool-IsValid none_there = record {
      indexed = appended_other-IsIndexed (bool b) v valid.indexed refl;
      bools_sound = λ c p e. elim (bool_index-with_bool c (some (length m.entries))) [
        | inl (same, at) ↦
            rw (← some-injective _ _ (sym at ∙ e), ← same) (key_at-append_last (bool b) v m.entries)
        | inr (ne, at) ↦
            key_at-append_left (bool b) v m.entries p (bool c) (valid.bools_sound c p (sym at ∙ e))
      ];
      bools_complete = λ c p e. elim (bool_index-with_bool c (some (length m.entries))) [
        | inl (same, at) ↦ elim (key_at-append_cases (bool b) v m.entries p (bool c) e) [
          | inl there ↦ absurd (gone p (rw same there))
          | inr (last, _) ↦ at ∙ ap some (sym last)
        ]
        | inr (ne, at) ↦ elim (key_at-append_cases (bool b) v m.entries p (bool c) e) [
          | inl there ↦ at ∙ valid.bools_complete c p there
          | inr (last, same) ↦ absurd (ne (bool_injective same))
        ]
      ];
      unique = Unique-longer m (bool b) v valid gone;
      keyed = keyed_longer m (bool b) v valid gone (λ e. cc);
    }
      where
        gone : Absent m.entries (bool b)
        gone p at = some_ne_none p (sym (valid.bools_complete b p at) ∙ none_there)

    set_bool-Writes :
        (pos : Option ℕ)
        → bool_index m b ≡ pos
        → Writes (assoc_set (bool b) v m.entries) (some (set_bool m b v pos))
    unfolding set_bool with_bool
    set_bool-Writes none e = record {
      result = _;
      returns = refl;
      valid = new_bool-IsValid e;
      holds =
          set-Absent m.entries (bool b) v
            (λ p at. some_ne_none p (sym (valid.bools_complete b p at) ∙ e));
    }
    set_bool-Writes (some p) e = record {
      result = _;
      returns = refl;
      valid = set_value-IsValid m p v valid;
      holds = set-At_present m.entries (bool b) v p valid.unique (valid.bools_sound b p e);
    }

  -- On a valid map `set` ends for every key of a supported type, in a valid map: a key that is
  -- there keeps its place and gets the new value, a new key comes last.
  pub insert-Writes :
      (m : MapObject V) (k : Key) (v : V)
      → IsValid m
      → k ≢ other
      → Writes (assoc_set k v m.entries) (insert m k v)
  unfolding insert
  insert-Writes m (str s) v valid ne = set_indexed-Writes m (str s) (str_hash s) v valid refl
  insert-Writes m (int z) v valid ne = set_indexed-Writes m (int z) (int_hash z) v valid refl
  insert-Writes m (bool b) v valid ne = set_bool-Writes m b v valid (bool_index m b) refl
  insert-Writes m other v valid ne = absurd (ne refl)
