-- ===== src/Tree/Missing.antt =====
-- The calls of Zaliczeniowe_2/Tree.c on a path that ends before its folder.
use mimuw_pw_tasks.Prelude.{
  suc, ◌+◌, ◌-◌, ◌≤◌, ◌<◌, ◌≡◌, refl, ap, true, false, none, List, [], ◌∷◌, ◌++◌, length,
  length-append, arith,
}
use mimuw_pw_tasks.CString.{CString}
use mimuw_pw_tasks.HashMap.{HashMap, hmap_get}
use mimuw_pw_tasks.Paths.{max_path_length, is_path_valid}
use mimuw_pw_tasks.Paths.Names.{All, IsName, render, body}
use mimuw_pw_tasks.Paths.Valid.{is_path_valid_iff}
use mimuw_pw_tasks.Paths.Split.{body-append, split_path-render, make_path_to_parent-render}
use mimuw_pw_tasks.Store.{Ptr, null, Heap, done}
use mimuw_pw_tasks.Node.{notify_parent_nodes}
use mimuw_pw_tasks.Node.Writes.{load_lem}
use mimuw_pw_tasks.Node.Quiet.{quiet}
use mimuw_pw_tasks.Tree.{
  enoent, tree_list, tree_remove, tree_create, list_folder, remove_folder, create_folder,
  process_path,
}
use mimuw_pw_tasks.Tree.Descent.{Descent, Settled, first_node}
use mimuw_pw_tasks.Tree.Refusals.{is_root-append}
use mimuw_pw_tasks.Tree.Round.{look_up-absent}
use mimuw_pw_tasks.Tree.Walk.{walk}
use mimuw_pw_tasks.Tree.Listing.{length_le_body}

pub All-suffix : (xs ys : List CString) → All IsName (xs ++ ys) → All IsName ys
All-suffix [] ys v = v
All-suffix (x ∷ xs) ys v = All-suffix xs ys v.1

pub All-prefix : (xs ys : List CString) → All IsName (xs ++ ys) → All IsName xs
All-prefix [] ys v = tt
All-prefix (x ∷ xs) ys v = (v.0, All-prefix xs ys v.1)

pub is_path_valid-render :
    (names : List CString)
    → All IsName names
    → length (render names) ≤ max_path_length
    → is_path_valid (render names) ≡ true
is_path_valid-render names v short =
    (is_path_valid_iff (render names)).1
      (record { names = names; valid = v; rendered = refl; bounded = short })

module _ (depth root q : Ptr) (m : HashMap Ptr) (keys : List CString) (key : CString)
    (more : List CString) (ps : List Ptr) (h : Heap) where
  process_path_absent :
      Descent h.node q m null root 0 keys ps
      → All IsName (keys ++ key ∷ more)
      → length ps < depth
      → hmap_get m key ≡ none
      → (h' : Heap) × (process_path depth root (render (keys ++ key ∷ more)) true false h
          ≡ done (enoent, q) h')
        × Settled ps h h'
  unfolding process_path notify_parent_nodes quiet
  process_path_absent d v deep miss =
      let path = render (keys ++ key ∷ more) in
      let few : length path + 1 ≡ length keys + suc (length path - length keys) =
        unfold render in
        omega (arith, length_le_body (keys ++ key ∷ more), length-append keys (key ∷ more)) in
      let w =
        walk depth null (length path + 1) (length path - length keys) (key ∷ more) h d v few refl in
      let n = first_node d in
      (
        w.after,
        rw
            (
              load_lem h root n.4,
              w.found,
              split_path-render (key ∷ more) (All-suffix keys (key ∷ more) v),
              look_up-absent depth w.at_end q w.end_parent w.end_name m w.b w.c 0 w.gets key
                  w.end_node miss,
              w.back (suc (depth - length ps - 1)) depth (omega arith),
            )
            refl,
        w.settled,
      )

  -- Let a path of valid names lead from the root over nodes that no thread is at to a folder with no
  -- child of the next name. Then `tree_list` of the path returns the null pointer, and `tree_remove`
  -- of it and `tree_create` of any name under it return ENOENT, and each ends with the same memory:
  -- every counter on the way is 0 again, and all other nodes are as they were. The longer path has
  -- at most `max_path_length` bytes, and `depth` is above the number of nodes on the way.
  pub calls_missing :
      (name : CString)
      → Descent h.node q m null root 0 keys ps
      → All IsName ((keys ++ key ∷ more) ++ name ∷ [])
      → length (render ((keys ++ key ∷ more) ++ name ∷ [])) ≤ max_path_length
      → length ps < depth
      → hmap_get m key ≡ none
      → (h' : Heap) × (tree_list depth root (render (keys ++ key ∷ more)) h ≡ done none h')
        × (tree_remove depth root (render (keys ++ key ∷ more)) h ≡ done enoent h')
        × (tree_create depth root (render ((keys ++ key ∷ more) ++ name ∷ [])) h ≡ done enoent h')
        × Settled ps h h'
  unfolding tree_list list_folder tree_remove remove_folder tree_create create_folder
  calls_missing name d v short deep miss =
      let path = keys ++ key ∷ more in
      let shorter : length (render path) ≤ max_path_length =
        unfold render in
        omega (
          arith,
          ap length (body-append path (name ∷ [])),
          length-append (body path) (body (name ∷ [])),
        ) in
      let v1 = All-prefix path (name ∷ []) v in
      let valid = is_path_valid-render path v1 shorter in
      let valid1 = is_path_valid-render (path ++ name ∷ []) v short in
      let some_name = is_root-append keys key more in
      let some_name1 = is_root-append path name [] in
      let w = process_path_absent d v1 deep miss in
      (
        w.0,
        rw (valid, w.1) refl,
        rw (valid, some_name, w.1) refl,
        rw
            (
              valid1,
              some_name1,
              (make_path_to_parent-render path name (All-suffix path (name ∷ []) v).0).0,
              w.1,
            )
            refl,
        w.2,
      )
