-- ===== src/MapObject/Rebuild.antt =====
-- The loop of `rebuildIndex` over the positions of the entries.
use mathlib.Core.List.{append_assoc, append-nil}
use lovax.Base.{
  ℕ, zero, suc, ◌+◌, ◌*◌, ◌≤◌, ◌<◌, ◌≡◌, refl, sym, ap, ◌∙◌, ◌≢◌, Bool, Option, none, some, List,
  [], ◌∷◌, ◌++◌, arith, ◌>>=◌, length, length-append,
}
use lovax.MapObject.{
  str_hash, int_hash, key_hash, Key, str, int, bool, other, seat, KeySlot, bool_index, key_at,
  with_bool, reindex, reindex_from, MapObject,
}
use lovax.MapObject.Probe.{IsSized}
use lovax.MapObject.Seat.{slot, seat-Filled}
use lovax.MapObject.Grow.{IsSized-width}
use lovax.MapObject.Valid.{IsValid}
use lovax.MapObject.Spec.{Absent, Unique}
use lovax.MapObject.Find.{room_left}
use lovax.MapObject.Append.{some_ne_none_key, key_at-lt}
use lovax.MapObject.Insert.{stored-IsValid, new_bool-IsValid}

module _ {ℓ} {V : Type ℓ} where
  -- The map whose index has been rebuilt for the entries `done` alone.
  abbrev pub over : MapObject V → List (Key × V) → MapObject V
  over m done = record m { entries = done }

  -- The invariant of the loop: `done` is indexed, and there is room for `total` entries.
  pub record Rebuilding (m : MapObject V) (done : List (Key × V)) (total : ℕ) : Type 0 where
    pub valid : IsValid (over m done)
    pub sized : IsSized m.index
    pub few : m.index_used ≤ length done
    pub room : total * 10 ≤ length m.index * 7

  -- One turn of the loop.
  pub record Turned (m : MapObject V) (done : List (Key × V)) (total : ℕ)
      (run : Option (MapObject V)) : Type ℓ where
    pub result : MapObject V
    pub returns : run ≡ some result
    pub same_entries : result.entries ≡ m.entries
    pub rebuilding : Rebuilding result done total

  module _ (m : MapObject V) (done : List (Key × V)) (total : ℕ) (k : Key) (v : V)
      (r : Rebuilding m done total) (more : length done < total) (gone : Absent done k) where
    longer_by_one : length (done ++ (k, v) ∷ []) ≡ length done + 1
    longer_by_one = length-append done ((k, v) ∷ [])

    reindexed :
        (h : ℕ)
        → key_hash k ≡ some h
        → Turned m (done ++ (k, v) ∷ []) total (do
          index ← seat m.index (slot h (length done))
          some (record m { index = index; index_used = m.index_used + 1 }))
    reindexed h hash =
        let roomy : (m.index_used + 1) * 10 ≤ length m.index * 7 = omega (arith, r.few, r.room) in
        let room = room_left r.sized (r.valid.indexed.count) (r.valid.indexed.sparse) in
        let (next, run, f) = seat-Filled m.index h (length done) r.sized room in
        record {
          result = record m { index = next; index_used = m.index_used + 1 };
          returns =
              ap
                (λ (t : Option (List KeySlot)).
                  t >>= λ i. some (record m { index = i; index_used = m.index_used + 1 }))
                run;
          same_entries = refl;
          rebuilding = record {
            valid =
                stored-IsValid (over m done) k h v r.valid hash m.index next
                  (record { indexed = r.valid.indexed; sized = r.sized; roomy = roomy }) f gone;
            sized = IsSized-width f.width r.sized;
            few = omega (arith, r.few, longer_by_one);
            room = rw f.width r.room;
          };
        }

    turn_bool :
        (b : Bool)
        → k ≡ bool b
        → Turned m (done ++ (k, v) ∷ []) total (reindex m (length done) (bool b))
    unfolding reindex with_bool
    turn_bool b e = record {
      result = with_bool m b (some (length done));
      returns = refl;
      same_entries = refl;
      rebuilding = record {
        valid = rw e (new_bool-IsValid (over m done) b v r.valid (no_bool (bool_index m b) refl));
        sized = r.sized;
        few = omega (arith, r.few, longer_by_one);
        room = r.room;
      };
    }
      where
        no_bool : (pos : Option ℕ) → bool_index m b ≡ pos → bool_index m b ≡ none
        no_bool none q = q
        no_bool (some p) q = absurd (gone p (r.valid.bools_sound b p q ∙ ap some (sym e)))

  turn :
      (m : MapObject V) (done : List (Key × V)) (total : ℕ) (k : Key) (v : V)
      → Rebuilding m done total
      → length done < total
      → Absent done k
      → k ≢ other
      → Turned m (done ++ (k, v) ∷ []) total (reindex m (length done) k)
  unfolding reindex
  turn m done total (str s) v r more gone ne =
      reindexed m done total (str s) v r more gone (str_hash s) refl
  turn m done total (int z) v r more gone ne =
      reindexed m done total (int z) v r more gone (int_hash z) refl
  turn m done total (bool b) v r more gone ne = turn_bool m done total (bool b) v r more gone b refl
  turn m done total other v r more gone ne = absurd (ne refl)

  key_at-append :
      (es tail : List (Key × V)) (p : ℕ) (j : Key)
      → key_at es p ≡ some j
      → key_at (es ++ tail) p ≡ some j
  key_at-append [] tail p j e = absurd (some_ne_none_key e)
  key_at-append ((i, w) ∷ es) tail zero j e = e
  key_at-append ((i, w) ∷ es) tail (suc p) j e = key_at-append es tail p j e

  key_at-middle :
      (done rest : List (Key × V)) (k : Key) (v : V)
      → key_at (done ++ (k, v) ∷ rest) (length done) ≡ some k
  key_at-middle [] rest k v = refl
  key_at-middle (e ∷ done) rest k v = key_at-middle done rest k v

  prefix-Absent :
      (done rest : List (Key × V)) (k : Key) (v : V)
      → Unique (done ++ (k, v) ∷ rest)
      → Absent done k
  prefix-Absent done rest k v unique p at =
      let same =
        unique p (length done) k (key_at-append done ((k, v) ∷ rest) p k at)
          (key_at-middle done rest k v) in
      omega (arith, same, key_at-lt done p k at)

  head_keyed :
      (done rest : List (Key × V)) (k : Key) (v : V)
      → ((p : ℕ) → key_at (done ++ (k, v) ∷ rest) p ≢ some other)
      → k ≢ other
  head_keyed done rest k v keyed e = keyed (length done) (key_at-middle done rest k v ∙ ap some e)

  -- The loop from the entry behind `done` on.
  pub reindex_from-Turned :
      (rest done : List (Key × V)) (m : MapObject V) (total : ℕ)
      → Rebuilding m done total
      → length (done ++ rest) ≤ total
      → Unique (done ++ rest)
      → ((p : ℕ) → key_at (done ++ rest) p ≢ some other)
      → Turned m (done ++ rest) total (reindex_from (length done) rest m)
  unfolding reindex_from
  reindex_from-Turned [] done m total r fits unique keyed =
      rw (append-nil done)
        (record { result = m; returns = refl; same_entries = refl; rebuilding = r })
  reindex_from-Turned ((k, v) ∷ rest) done m total r fits unique keyed =
      let regroup : (done ++ (k, v) ∷ []) ++ rest ≡ done ++ (k, v) ∷ rest =
        append_assoc done ((k, v) ∷ []) rest in
      let t =
        turn m done total k v r (omega (arith, length-append done ((k, v) ∷ rest)))
          (prefix-Absent done rest k v unique) (head_keyed done rest k v keyed) in
      let u =
        reindex_from-Turned rest (done ++ (k, v) ∷ []) t.result total t.rebuilding (rw regroup fits)
          (rw regroup unique) (rw regroup keyed) in
      record {
        result = u.result;
        returns =
            ap (λ (x : Option (MapObject V)). x >>= reindex_from (length done + 1) rest) t.returns
            ∙ ap (λ (n : ℕ). reindex_from n rest t.result) (sym (length-append done ((k, v) ∷ [])))
            ∙ u.returns;
        same_entries = u.same_entries ∙ t.same_entries;
        rebuilding = rw regroup at u.rebuilding;
      }
