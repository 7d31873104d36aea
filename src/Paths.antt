-- ===== src/Paths.antt =====
-- Zaliczeniowe_2/path_utils.c: paths of folders as C strings.
pub mod Names
pub mod Chars
pub mod Valid
pub mod Split
pub mod Shared
pub mod Order
pub mod Contents
mod Tests
use mimuw_pw_tasks.Prelude.{
  ℕ, zero, suc, ◌+◌, ◌-◌, ◌*◌, ◌/◌, ◌%◌, ◌^◌, ◌≤◌, ◌<◌, compare, Ordering, ◌≡◌, refl, sym, ap, ◌∙◌,
  ◌≢◌, ◌↔◌, ◌⊎◌, inl, inr, Bool, true, false, ◌&&◌, ◌||◌, not, Option, none, some, List, [], ◌∷◌,
  ◌++◌, map, arith, dec_lt, ℕ_discrete, ltb, leb, ◌==◌, if◌then◌else◌, ltb→lt, lt→ltb, leb→le,
  ==_iff, tests, Bool-cases, Option-cases, length, get_elem?, set, length-append, length-set,
  get_or, take, drop, replicate, length-replicate, length-map, length-take, length-drop,
  take-append-drop, List-cases,
}
use mimuw_pw_tasks.CString.{CString, strcmp, strncmp, is_zero, str_eq, strchr}
use mimuw_pw_tasks.HashMap.{Pair, HashMap, hmap_size, hmap_iterator, visit}

abbrev pub max_path_length : ℕ
max_path_length = 4095

abbrev pub max_folder_name_length : ℕ
max_folder_name_length = 255

abbrev pub slash : ℕ
slash = b'/'

-- `p + 1`
abbrev pub after : CString → CString
after [] = []
after (x ∷ xs) = xs

-- The sign of the result of `compare_paths`.
unfoldable pub compare_paths : CString → CString → Ordering
compare_paths p1 p2 =
    if ltb (length p2) (length p1)
    then (if is_zero (strncmp p1 p2 (length p2)) then Ordering.lt else strcmp p1 p2)
    else if length p1 == length p2
    then strcmp p1 p2
    else if is_zero (strncmp p1 p2 (length p1))
    then Ordering.gt
    else strcmp p1 p2

-- the `for` loop of `is_path_valid`, over the `n` bytes between the pointers
unfoldable pub lower_case : ℕ → CString → Bool
lower_case zero p = true
lower_case (suc n) [] = false
lower_case (suc n) (c ∷ p) = if ltb c b'a' || ltb b'z' c then false else lower_case n p

-- One round of the `while` loop: the check of the component from `name_start` to `name_end`.
unfoldable pub component_valid : CString → CString → Bool
unfolding lower_case
component_valid name_start name_end =
    let n = length name_start - length name_end in
    if n == 0 || ltb max_folder_name_length n then false else lower_case n name_start

-- the `while` loop; a round shortens `name_start`
unfoldable pub components_valid : ℕ → CString → Bool
unfolding component_valid
components_valid zero name_start = false
components_valid (suc fuel) [] = true
components_valid (suc fuel) (c ∷ s) = elim (strchr (c ∷ s) slash) [
  | none ↦ false
  | some name_end ↦
      let rest = components_valid fuel (after name_end) in
      if component_valid (c ∷ s) name_end then rest else false
]

-- `path[i]`, the null character past the end
abbrev pub byte_at : CString → ℕ → ℕ
byte_at path i = get_or path i 0

unfoldable pub is_path_valid : CString → Bool
unfolding components_valid
is_path_valid path =
    let len = length path in
    if len == 0 || ltb max_path_length len
    then false
    else if not (byte_at path 0 == slash) || not (byte_at path (len - 1) == slash)
    then false
    else components_valid (suc len) (after path)

-- What `split_path` and `make_path_to_parent` may do: return a null pointer, return a path and
-- write a component, stop at a failed `assert`, or read before the string.
pub data PathResult : Type 0 where
  null : PathResult
  found : (path component : CString) → PathResult
  assert_failed : PathResult
  out_of_bounds : PathResult

-- `assert(len >= 1 && len <= MAX_FOLDER_NAME_LENGTH)`
abbrev pub checked : CString → CString → PathResult
checked path component =
    if leb 1 (length component) && leb (length component) max_folder_name_length
    then PathResult.found path component
    else PathResult.assert_failed

unfoldable pub split_path : CString → PathResult
split_path path = elim (strchr (after path) slash) [
  | none ↦ PathResult.null
  | some subpath ↦ checked subpath (take (length (after path) - length subpath) (after path))
]

-- `while (*p != '/') p--;` from the offset `i`
unfoldable pub last_slash : CString → ℕ → Option ℕ
last_slash path zero = if byte_at path 0 == slash then some 0 else none
last_slash path (suc i) =
    let before = last_slash path i in if byte_at path (suc i) == slash then some (suc i) else before

unfoldable pub make_path_to_parent : CString → PathResult
unfolding last_slash
make_path_to_parent path =
    let len = length path in
    if len == 1 then PathResult.null else elim (last_slash path (len - 2)) [
      | none ↦ PathResult.out_of_bounds
      | some p ↦
          let subpath_len = p + 1 in
          checked (take subpath_len path) (take (len - subpath_len - 1) (drop (p + 1) path))
    ]

-- the `while` loop of `make_shared_path`, with the number of bytes shared; a round shortens
-- `subpath`
unfoldable pub shared_loop : ℕ → CString → CString → ℕ → Option CString → ℕ
shared_loop zero a b shared_cnt subpath = shared_cnt
shared_loop (suc fuel) a b shared_cnt none = shared_cnt
shared_loop (suc fuel) a b shared_cnt (some subpath) =
    let name_length = length a - length subpath - shared_cnt + 1 in
    let rest = shared_loop fuel a b (shared_cnt + name_length) (strchr (after subpath) slash) in
    if is_zero (strncmp (drop shared_cnt a) (drop shared_cnt b) name_length)
    then rest
    else shared_cnt

unfoldable pub make_shared_path : CString → CString → CString
unfolding shared_loop
make_shared_path a b = take (shared_loop (suc (length a)) a b 1 (strchr (after a) slash)) a

-- `qsort` by `compare_string_pointers`, as insertion sort
unfoldable pub insert_sorted : CString → List CString → List CString
insert_sorted k [] = k ∷ []
insert_sorted k (j ∷ ks) = elim (strcmp k j) [
  | Ordering.gt ↦ j ∷ insert_sorted k ks
  | _ ↦ k ∷ j ∷ ks
]

unfoldable pub sort_strings : List CString → List CString
unfolding insert_sorted
sort_strings [] = []
sort_strings (k ∷ ks) = insert_sorted k (sort_strings ks)

module _ {ℓ} {V : Type ℓ} where
  -- The keys in the order of the iterator, then sorted. The array has room for `n_keys` keys and a
  -- null pointer, and the sort reads `n_keys` of them: `none` is an array that does not fit, or an
  -- iteration that runs out of fuel.
  unfoldable pub make_map_contents_array : ℕ → HashMap V → Option (List CString)
  unfolding sort_strings
  make_map_contents_array fuel m =
      let n_keys = hmap_size m in
      elim (visit fuel m (hmap_iterator m)) [
        | none ↦ none
        | some ps ↦
            if length ps == n_keys
            then some (sort_strings (map (λ (p : Pair V). p.key) ps))
            else none
      ]

-- the loop that writes each key and a comma from `position` on; `none` is a failed `assert`
unfoldable pub write_keys : ℕ → ℕ → List CString → Option CString
write_keys result_size position [] = some []
write_keys result_size position (k ∷ ks) =
    if leb (position + length k) result_size
    then elim (write_keys result_size (position + length k + 1) ks) [
      | none ↦ none
      | some s ↦ some (k ++ b',' ∷ s)
    ]
    else none

-- the comma written last is overwritten by the null character
unfoldable pub drop_last : CString → CString
drop_last [] = []
drop_last (x ∷ []) = []
drop_last (x ∷ y ∷ s) = x ∷ drop_last (y ∷ s)

-- `result_size`
unfoldable pub contents_size : List CString → ℕ
contents_size [] = 0
contents_size (k ∷ ks) = (length k + 1 + contents_size ks) % 2 ^ 32

-- the string of a sorted array of keys
unfoldable pub contents_string : List CString → Option CString
unfolding write_keys drop_last contents_size
contents_string keys =
    if contents_size keys == 0
    then some []
    else elim (write_keys (contents_size keys) 0 keys) [ none ↦ none | some s ↦ some (drop_last s) ]

module _ {ℓ} {V : Type ℓ} where
  unfoldable pub make_map_contents_string : ℕ → HashMap V → Option CString
  unfolding make_map_contents_array contents_string
  make_map_contents_string fuel m = elim (make_map_contents_array fuel m) [
    | none ↦ none
    | some keys ↦ contents_string keys
  ]
