-- ===== src/MapObject/History.antt =====
-- Lists of calls of `set` and `remove`, on the map and on the abstract map.
use mathlib.Core.Logic.{ite, if_pos, if_neg}
use lovax.Base.{◌≡◌, refl, sym, ap, ◌∙◌, ◌≢◌, Bool, Option, some, List, [], ◌∷◌, ◌>>=◌}
use lovax.MapObject.{Key-discrete, Key, other, get, insert, remove, new_map, MapObject}
use lovax.MapObject.Valid.{IsValid}
use lovax.MapObject.Spec.{assoc_get, assoc_set, assoc_erase}
use lovax.MapObject.Find.{get-assoc_get}
use lovax.MapObject.Insert.{insert-Writes, Writes}
use lovax.MapObject.Remove.{remove-Removes, new_map-IsValid}

pub data Command {ℓ} (V : Type ℓ) : Type ℓ where
  write : (k : Key) → k ≢ other → V → Command V
  erase : Key → Command V

module _ {ℓ} {V : Type ℓ} where
  -- The map's side: `set` and `remove`, one after the other.
  unfoldable pub perform : List (Command V) → MapObject V → Option (MapObject V)
  perform [] m = some m
  perform (write k ok v ∷ cs) m = insert m k v >>= perform cs
  perform (erase k ∷ cs) m = do (removed, m') ← remove m k; perform cs m'

  -- The abstract side.
  unfoldable pub replay : List (Command V) → List (Key × V) → List (Key × V)
  replay [] es = es
  replay (write k ok v ∷ cs) es = replay cs (assoc_set k v es)
  replay (erase k ∷ cs) es = replay cs (assoc_erase k es)

  perform-Writes :
      (cs : List (Command V)) (m : MapObject V)
      → IsValid m
      → Writes (replay cs m.entries) (perform cs m)
  unfolding perform replay
  perform-Writes [] m valid = record { result = m; returns = refl; valid = valid; holds = refl }
  perform-Writes (write k ok v ∷ cs) m valid =
      let w = insert-Writes m k v valid ok in
      let u = perform-Writes cs w.result w.valid in
      record {
        result = u.result;
        returns = ap (λ (x : Option (MapObject V)). x >>= perform cs) w.returns ∙ u.returns;
        valid = u.valid;
        holds = u.holds ∙ ap (λ (es : List (Key × V)). replay cs es) w.holds;
      }
  perform-Writes (erase k ∷ cs) m valid =
      let w = remove-Removes m k valid in
      let u = perform-Writes cs w.result w.valid in
      record {
        result = u.result;
        returns =
            ap (λ (x : Option (Bool × MapObject V)). x >>= λ r. perform cs r.1) w.returns
            ∙ u.returns;
        valid = u.valid;
        holds = u.holds ∙ ap (λ (es : List (Key × V)). replay cs es) w.holds;
      }

  -- After any history of `set` and `remove` on a new map, every step having ended, `get` gives for
  -- every key what the abstract map of the same history holds.
  pub history-assoc_get :
      (cs : List (Command V)) (k : Key)
      → (perform cs new_map >>= λ m. get m k) ≡ some (assoc_get k (replay cs []))
  history-assoc_get cs k =
      let w = perform-Writes cs new_map new_map-IsValid in
      ap (λ (x : Option (MapObject V)). x >>= λ m. get m k) w.returns
      ∙ get-assoc_get w.result k w.valid
      ∙ ap (λ (es : List (Key × V)). some (assoc_get k es)) w.holds

  -- The abstract map is a map: a write is read back at its key and changes no other.
  pub assoc_get-assoc_set :
      (k j : Key) (v : V) (es : List (Key × V))
      → assoc_get j (assoc_set k v es) ≡ ite (Key-discrete k j) (some v) (assoc_get j es)
  unfolding assoc_get assoc_set
  assoc_get-assoc_set k j v [] = refl
  assoc_get-assoc_set k j v ((i, w) ∷ es) = elim (Key-discrete i k) [
    | yes same ↦ rw (if_pos _ same) (elim (Key-discrete i j) [
      | yes p ↦ rw (if_pos _ p, if_pos (Key-discrete k j) (sym same ∙ p)) refl
      | no n ↦ rw (if_neg _ n, if_neg (Key-discrete k j) (λ q. n (same ∙ q)), if_neg _ n) refl
    ])
    | no ne ↦ rw (if_neg _ ne) (elim (Key-discrete i j) [
      | yes p ↦ rw (if_pos _ p, if_neg (Key-discrete k j) (λ q. ne (p ∙ sym q)), if_pos _ p) refl
      | no n ↦ rw (if_neg _ n, if_neg _ n) (assoc_get-assoc_set k j v es)
    ])
  ]
