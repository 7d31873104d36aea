-- ===== src/HashMap/Tests.antt =====
-- The theorems on the map at a map of two entries.
use mimuw_pw_tasks.Prelude.{
  ℕ, ◌%◌, ◌<◌, ◌≡◌, refl, true, Option, some, none, List, [], ◌∷◌, arith, length,
}
use mimuw_pw_tasks.CString.{CString, str_eq, strcmp}
use mathlib.Core.List.{flatten}
use mimuw_pw_tasks.HashMap.{
  Pair, HashMap, size_mod, get_hash, hmap_new, hmap_get, hmap_insert, hmap_remove, hmap_iterator,
  hmap_size, visit, find_pair,
}
use mimuw_pw_tasks.HashMap.Chain.{IsDistinct, value_of}
use mimuw_pw_tasks.HashMap.Buckets.{pairs}
use mimuw_pw_tasks.HashMap.Methods.{found}
use mimuw_pw_tasks.HashMap.Laws.{
  Models, update, hmap_new-Models, hmap_insert-Models, hmap_remove-Models, visit-Models,
}

abbrev key_a : CString
key_a = b'a' ∷ []

abbrev empty_map : HashMap ℕ
empty_map = hmap_new

abbrev one_entry : HashMap ℕ
one_entry = (hmap_insert empty_map key_a (some 7)).0

abbrev nothing : CString → Option ℕ
nothing _ = none

abbrev one_value : CString → Option ℕ
one_value = update nothing key_a (some 7)

one_entry_found : hmap_get one_entry key_a ≡ some 7
unfolding hmap_get hmap_insert hmap_new get_hash find_pair str_eq strcmp
one_entry_found = refl

one_entry-Models : Models one_value one_entry
one_entry-Models = (hmap_insert-Models nothing empty_map key_a (some 7) hmap_new-Models).1

hmap_insert-Models_example :
    ((hmap_insert empty_map key_a (some 7)).1 ≡ true)
    × Models (update nothing key_a (some 7)) (hmap_insert empty_map key_a (some 7)).0
hmap_insert-Models_example = hmap_insert-Models nothing empty_map key_a (some 7) hmap_new-Models

hmap_remove-Models_example :
    ((hmap_remove one_entry key_a).1 ≡ found (one_value key_a))
    × Models (update one_value key_a none) (hmap_remove one_entry key_a).0
hmap_remove-Models_example = hmap_remove-Models one_value one_entry key_a one_entry-Models

one_entry-pairs : length (pairs one_entry) < 2
unfolding hmap_insert hmap_new get_hash flatten find_pair
one_entry-pairs = omega arith

visit-Models_example :
    (ps : List (Pair ℕ)) × (visit 2 one_entry (hmap_iterator one_entry) ≡ some ps)
    × IsDistinct ps
    × ((q : CString) → value_of (find_pair ps q) ≡ one_value q)
    × (hmap_size one_entry ≡ length ps % size_mod)
visit-Models_example = visit-Models one_value one_entry 2 one_entry-Models one_entry-pairs
