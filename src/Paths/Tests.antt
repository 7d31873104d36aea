-- ===== src/Paths/Tests.antt =====
-- The theorems on paths at short paths.
use mimuw_pw_tasks.Prelude.{
  ℕ, ◌^◌, ◌<◌, Ordering, ◌≡◌, ◌↔◌, refl, true, false, Option, some, none, List, [], ◌∷◌, arith,
  length,
}
use mimuw_pw_tasks.CString.{CString, strchr, strncmp}
use mathlib.Core.List.{flatten}
use mimuw_pw_tasks.HashMap.{HashMap, hmap_new, hmap_insert, get_hash, find_pair}
use mimuw_pw_tasks.HashMap.Buckets.{pairs}
use mimuw_pw_tasks.HashMap.Methods.{found}
use mimuw_pw_tasks.HashMap.Laws.{update, hmap_new-Models, hmap_insert-Models}
use mimuw_pw_tasks.Paths.{
  PathResult, is_path_valid, split_path, make_path_to_parent, make_shared_path, compare_paths,
  make_map_contents_string,
}
use mimuw_pw_tasks.Paths.Names.{IsName, render, IsPath}
use mimuw_pw_tasks.Paths.Valid.{is_path_valid_iff}
use mimuw_pw_tasks.Paths.Split.{split_path-render, make_path_to_parent-render}
use mimuw_pw_tasks.Paths.Shared.{common_prefix, make_shared_path-render}
use mimuw_pw_tasks.Paths.Order.{
  opposite, leftist, compare_paths-eq-leftist, compare_paths_linear, compare_paths-descendant,
}
use mimuw_pw_tasks.Paths.Contents.{
  IsAscending, contains, join, room, keys_of, make_map_contents_string-Models,
}

abbrev a : CString
a = b'a' ∷ []

abbrev b : CString
b = b'b' ∷ []

-- "/a/b/"
abbrev path_ab : CString
path_ab = b'/' ∷ b'a' ∷ b'/' ∷ b'b' ∷ b'/' ∷ []

path_ab_valid : is_path_valid path_ab ≡ true
unfolding is_path_valid strchr
path_ab_valid = refl

-- a capital letter is refused
capital_refused : is_path_valid (b'/' ∷ b'A' ∷ b'/' ∷ []) ≡ false
unfolding is_path_valid strchr
capital_refused = refl

a-IsName : IsName a
a-IsName = omega arith

b-IsName : IsName b
b-IsName = omega arith

is_path_valid_iff_example : (is_path_valid path_ab ≡ true) ↔ IsPath path_ab
is_path_valid_iff_example = is_path_valid_iff path_ab

split_path-render_example : split_path (render (a ∷ b ∷ [])) ≡ PathResult.found (render (b ∷ [])) a
split_path-render_example = split_path-render (a ∷ b ∷ []) (a-IsName, (b-IsName, tt))

make_path_to_parent-render_example :
    (make_path_to_parent (render (a ∷ b ∷ [])) ≡ PathResult.found (render (a ∷ [])) b)
    × (make_path_to_parent (render []) ≡ PathResult.null)
make_path_to_parent-render_example = make_path_to_parent-render (a ∷ []) b b-IsName

make_shared_path-render_example :
    make_shared_path (render (a ∷ b ∷ [])) (render (a ∷ a ∷ []))
    ≡ render (common_prefix (a ∷ b ∷ []) (a ∷ a ∷ []))
make_shared_path-render_example =
    make_shared_path-render (a ∷ b ∷ []) (a ∷ a ∷ []) (a-IsName, (b-IsName, tt))
      (a-IsName, (a-IsName, tt))

-- two paths that share no folder share the root
shared_root : make_shared_path (b'/' ∷ b'a' ∷ b'/' ∷ []) (b'/' ∷ b'b' ∷ b'/' ∷ []) ≡ b'/' ∷ []
unfolding make_shared_path strchr strncmp
shared_root = refl

compare_paths_linear_example :
    ((compare_paths path_ab a ≡ Ordering.eq) ↔ (path_ab ≡ a))
    × (compare_paths a path_ab ≡ opposite (compare_paths path_ab a))
    × (compare_paths path_ab a ≡ Ordering.lt
        → compare_paths a b ≡ Ordering.lt
        → compare_paths path_ab b ≡ Ordering.lt)
compare_paths_linear_example = compare_paths_linear path_ab a b

compare_paths-descendant_example :
    compare_paths (render (a ∷ b ∷ [])) (render (a ∷ [])) ≡ Ordering.lt
compare_paths-descendant_example = compare_paths-descendant (a ∷ []) [] b

abbrev empty_map : HashMap ℕ
empty_map = hmap_new

abbrev one_entry : HashMap ℕ
one_entry = (hmap_insert empty_map a (some 7)).0

abbrev one_value : CString → Option ℕ
one_value = update (λ _. none) a (some 7)

one_entry_small : (length (pairs one_entry) < 2) × (room (keys_of (pairs one_entry)) < 2 ^ 32)
unfolding hmap_insert hmap_new get_hash flatten find_pair
one_entry_small = omega arith

make_map_contents_string-Models_example :
    (ks : List CString) × (make_map_contents_string 2 one_entry ≡ some (join ks))
    × IsAscending ks
    × ((q : CString) → contains q ks ≡ found (one_value q))
make_map_contents_string-Models_example =
    make_map_contents_string-Models one_value one_entry 2
      (hmap_insert-Models (λ _. none) empty_map a (some 7) hmap_new-Models).1 one_entry_small.0
      one_entry_small.1

compare_paths-eq-leftist_example : compare_paths path_ab (b'/' ∷ []) ≡ leftist path_ab (b'/' ∷ [])
compare_paths-eq-leftist_example = compare_paths-eq-leftist path_ab (b'/' ∷ [])
