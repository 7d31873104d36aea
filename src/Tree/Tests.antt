-- ===== src/Tree/Tests.antt =====
-- Runs of Zaliczeniowe_2/Tree.c at concrete inputs.
use mathlib.Core.List.{flatten}
use mimuw_pw_tasks.Prelude.{
  ◌≡◌, ◌≤◌, ◌<◌, ◌^◌, refl, true, false, Option, none, some, List, [], ◌∷◌, ◌++◌, ◌==◌,
  if◌then◌else◌, length, arith,
}
use mimuw_pw_tasks.CString.{CString, strcmp, str_eq}
use mimuw_pw_tasks.HashMap.{HashMap, hmap_new, hmap_get, hmap_insert, find_pair, get_hash}
use mimuw_pw_tasks.HashMap.Buckets.{pairs}
use mimuw_pw_tasks.HashMap.Laws.{hmap_new-Models, hmap_insert-Models}
use mimuw_pw_tasks.HashMap.Methods.{found}
use mimuw_pw_tasks.Paths.{is_path_valid, max_path_length}
use mimuw_pw_tasks.Paths.Names.{IsName, IsPath, render, body}
use mimuw_pw_tasks.Paths.Valid.{is_path_valid_iff}
use mimuw_pw_tasks.Paths.Contents.{IsAscending, contains, join, room, keys_of}
use mimuw_pw_tasks.Store.{Ptr, null, Node, Heap, done}
use mimuw_pw_tasks.Node.Quiet.{quiet}
use mimuw_pw_tasks.Tree.{
  success, einval, enoent, ebusy, eexist, ebadmove, tree_list, tree_create, tree_remove,
}
use mimuw_pw_tasks.Tree.Move.{tree_move}
use mimuw_pw_tasks.Tree.Create.{tree_create-Creates}
use mimuw_pw_tasks.Tree.Insert.{Created}
use mimuw_pw_tasks.Tree.Descent.{on, Descent, here, below, Settled}
use mimuw_pw_tasks.Tree.Listing.{tree_list-Models}
use mimuw_pw_tasks.Tree.Missing.{calls_missing}
use mimuw_pw_tasks.Tree.Refusals.{calls_invalid, tree_move-below}

abbrev empty_heap : Heap
empty_heap = record { node = λ _. none; next = 1 }

-- no slash at its end
abbrev open_path : CString
open_path = b'/' ∷ b'a' ∷ []

abbrev a : CString
a = b'a' ∷ []

abbrev b : CString
b = b'b' ∷ []

a-IsName : IsName a
a-IsName = omega arith

b-IsName : IsName b
b-IsName = omega arith

open_path-IsPath_false : ¬ IsPath open_path
unfolding is_path_valid
open_path-IsPath_false p = cc ((is_path_valid_iff open_path).1 p)

calls_invalid_example :
    (tree_list 3 1 open_path empty_heap ≡ done none empty_heap)
    × (tree_create 3 1 open_path empty_heap ≡ done einval empty_heap)
    × (tree_remove 3 1 open_path empty_heap ≡ done einval empty_heap)
    × (tree_move 3 1 open_path (render (a ∷ [])) empty_heap ≡ done einval empty_heap)
    × (tree_move 3 1 (render (a ∷ [])) open_path empty_heap ≡ done einval empty_heap)
calls_invalid_example =
    calls_invalid 3 1 open_path (render (a ∷ [])) empty_heap open_path-IsPath_false

a-IsPath : IsPath (render (a ∷ []))
unfolding render body
a-IsPath = record { names = a ∷ []; valid = (a-IsName, tt); rendered = refl; bounded = omega arith }

ab-IsPath : IsPath (render (a ∷ b ∷ []))
unfolding render body
ab-IsPath = record {
  names = a ∷ b ∷ [];
  valid = (a-IsName, (b-IsName, tt));
  rendered = refl;
  bounded = omega arith;
}

tree_move-below_example :
    (tree_move 3 1 (render (a ∷ [])) (render (a ∷ b ∷ [])) empty_heap ≡ done ebadmove empty_heap)
    × (tree_move 3 1 (render []) (render (a ∷ [])) empty_heap ≡ done ebusy empty_heap)
    × (tree_move 3 1 (render (a ∷ [])) (render []) empty_heap ≡ done eexist empty_heap)
tree_move-below_example = tree_move-below 3 1 a [] b [] empty_heap a-IsPath ab-IsPath

abbrev empty_map : HashMap Ptr
empty_map = hmap_new

-- the map of one child under the name `name`
abbrev one_child : CString → Ptr → HashMap Ptr
one_child name p = (hmap_insert empty_map name (some p)).0

-- what the map of the folder `/a/` holds
abbrev child_of_a : CString → Option Ptr
child_of_a q = if str_eq q b then some 3 else none

-- `/a/` at 2 under the root at 1, with the child `b`
abbrev two_nodes : Ptr → Option Node
two_nodes p =
    if p == 1
    then some (quiet null [] (one_child a 2) true false 0 0 0)
    else if p == 2
    then some (quiet 1 a (one_child b 3) true false 0 0 0)
    else none

abbrev two_node_heap : Heap
two_node_heap = record { node = two_nodes; next = 4 }

a-in-root : hmap_get (one_child a 2) a ≡ some 2
unfolding hmap_get hmap_insert hmap_new find_pair get_hash str_eq strcmp
a-in-root = refl

below_root : Descent two_nodes 2 (one_child b 3) null 1 0 (a ∷ []) (1 ∷ 2 ∷ [])
unfolding on
below_root =
    below [] (one_child a 2) true false refl refl a-in-root refl (here a true false refl refl)

one_child_small : room (keys_of (pairs (one_child b 3))) < 2 ^ 32
unfolding hmap_insert hmap_new get_hash flatten find_pair
one_child_small = omega arith

a_short : length (render (a ∷ [])) ≤ max_path_length
unfolding render body
a_short = omega arith

tree_list-Models_example :
    (ks : List CString) × (h' : Heap) × (tree_list 3 1 (render (a ∷ [])) two_node_heap
      ≡ done (some (join ks)) h')
    × IsAscending ks
    × ((k : CString) → contains k ks ≡ found (child_of_a k))
    × Settled (1 ∷ 2 ∷ []) two_node_heap h'
tree_list-Models_example =
    tree_list-Models 3 1 2 (one_child b 3) (a ∷ []) (1 ∷ 2 ∷ []) two_node_heap child_of_a below_root
      (a-IsName, tt) a_short (omega arith)
      (hmap_insert-Models (λ _. none) empty_map b (some 3) hmap_new-Models).1 one_child_small

a-below_a : hmap_get (one_child b 3) a ≡ none
unfolding hmap_get hmap_insert hmap_new find_pair get_hash str_eq strcmp
a-below_a = refl

aab_short : length (render (((a ∷ []) ++ a ∷ []) ++ b ∷ [])) ≤ max_path_length
unfolding render body
aab_short = omega arith

calls_missing_example :
    (h' : Heap) × (tree_list 3 1 (render ((a ∷ []) ++ a ∷ [])) two_node_heap ≡ done none h')
    × (tree_remove 3 1 (render ((a ∷ []) ++ a ∷ [])) two_node_heap ≡ done enoent h')
    × (tree_create 3 1 (render (((a ∷ []) ++ a ∷ []) ++ b ∷ [])) two_node_heap ≡ done enoent h')
    × Settled (1 ∷ 2 ∷ []) two_node_heap h'
calls_missing_example =
    calls_missing 3 1 2 (one_child b 3) (a ∷ []) a [] (1 ∷ 2 ∷ []) two_node_heap b below_root
      (a-IsName, (a-IsName, (b-IsName, tt))) aab_short (omega arith) a-below_a

aa_short : length (render ((a ∷ []) ++ a ∷ [])) ≤ max_path_length
unfolding render body
aa_short = omega arith

fresh_four : on (1 ∷ 2 ∷ []) two_node_heap.next ≡ false
unfolding on
fresh_four = refl

tree_create-Creates_example :
    (h' : Heap) × (tree_create 3 1 (render ((a ∷ []) ++ a ∷ [])) two_node_heap
      ≡ done (if found (child_of_a a) then eexist else success) h')
    × Created child_of_a (1 ∷ 2 ∷ []) 2 a two_node_heap h'
tree_create-Creates_example =
    tree_create-Creates 3 1 2 (one_child b 3) (a ∷ []) (1 ∷ 2 ∷ []) two_node_heap child_of_a a
      (hmap_insert-Models (λ _. none) empty_map b (some 3) hmap_new-Models).1 below_root
      (a-IsName, (a-IsName, tt)) aa_short (omega arith) fresh_four
