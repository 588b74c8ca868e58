-- ===== src/MapObject/Tests.antt =====
-- Runs of the map, and the theorems at concrete maps.
use lovax.Base.{ℕ, ◌≡◌, refl, ◌≢◌, true, Option, none, some, List, [], ◌∷◌, ◌>>=◌}
use lovax.Base.Int.{pos}
use lovax.MapObject.{
  str_hash, int_hash, same_key, Key, str, int, bool, other, probe_slot, index_grow,
  index_wants_grow, index_pos, find, get, insert, remove, new_map,
}
use lovax.MapObject.Spec.{assoc_get, assoc_set}
use lovax.MapObject.Find.{get-assoc_get}
use lovax.MapObject.Insert.{insert-Writes, Writes}
use lovax.MapObject.Remove.{remove-Removes, new_map-IsValid, Removes}
use lovax.MapObject.History.{perform, replay, history-assoc_get, Command, write, erase}

abbrev hp : Key
hp = str (b'h' ∷ b'p' ∷ [])

hp-ne-other : hp ≢ other
hp-ne-other e = cc

abbrev seven : Key
seven = int (pos 7)

seven-ne-other : seven ≢ other
seven-ne-other e = cc

true-ne-other : bool true ≢ other
true-ne-other e = cc

abbrev history : List (Command ℕ)
history =
    write hp hp-ne-other 100
    ∷ write seven seven-ne-other 70
    ∷ write (bool true) true-ne-other 1
    ∷ write hp hp-ne-other 25
    ∷ erase seven
    ∷ []

read : Key → Option (Option ℕ)
unfolding perform insert remove get find index_pos index_grow index_wants_grow probe_slot str_hash
    int_hash same_key
read k = perform history new_map >>= λ m. get m k

read_back :
    (read hp ≡ some (some 25)) × (read seven ≡ some none) × (read (bool true) ≡ some (some 1))
unfolding read
read_back = (refl, refl, refl)

history-assoc_get_example :
    (perform history new_map >>= λ m. get m hp) ≡ some (assoc_get hp (replay history []))
history-assoc_get_example = history-assoc_get history hp

get-assoc_get_example : get (new_map {V = ℕ}) hp ≡ some (assoc_get hp [])
get-assoc_get_example = get-assoc_get new_map hp new_map-IsValid

insert-Writes_example : Writes {V = ℕ} (assoc_set hp 5 []) (insert new_map hp 5)
insert-Writes_example = insert-Writes new_map hp 5 new_map-IsValid hp-ne-other

remove-Removes_example : Removes (new_map {V = ℕ}) seven (remove new_map seven)
remove-Removes_example = remove-Removes new_map seven new_map-IsValid
