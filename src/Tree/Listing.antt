-- ===== src/Tree/Listing.antt =====
-- `tree_list` of Zaliczeniowe_2/Tree.c on a folder that is there.
use mimuw_pw_tasks.Prelude.{
  suc, ◌+◌, ◌-◌, ◌^◌, ◌≤◌, ◌<◌, ◌≡◌, refl, ◌∙◌, Option, some, List, [], ◌∷◌, length, length-append,
  arith,
}
use mimuw_pw_tasks.CString.{CString}
use mimuw_pw_tasks.HashMap.{HashMap, hmap_size}
use mimuw_pw_tasks.HashMap.Buckets.{pairs}
use mimuw_pw_tasks.HashMap.Laws.{Models}
use mimuw_pw_tasks.HashMap.Methods.{found}
use mimuw_pw_tasks.SafeHashMap.{change_writers}
use mimuw_pw_tasks.Paths.{make_map_contents_string, max_path_length, slash}
use mimuw_pw_tasks.Paths.Names.{All, IsName, render, body}
use mimuw_pw_tasks.Paths.Valid.{is_path_valid_iff}
use mimuw_pw_tasks.Paths.Contents.{
  make_map_contents_string-Models, IsAscending, contains, join, room, keys_of, length-le-room,
}
use mimuw_pw_tasks.Store.{Ptr, null, Heap, done}
use mimuw_pw_tasks.Node.{notify_parent_nodes}
use mimuw_pw_tasks.Node.Writes.{put, node-put, put-put, load_lem}
use mimuw_pw_tasks.Node.Quiet.{quiet, enter_reader, leave_reader, list_children}
use mimuw_pw_tasks.Tree.{tree_list, list_folder, process_path}
use mimuw_pw_tasks.Tree.Descent.{Descent, Settled, first_node}
use mimuw_pw_tasks.Tree.Walk.{walk_to}

pub length_le_body : (keys : List CString) → length keys ≤ length (body keys)
unfolding body
length_le_body [] = omega arith
length_le_body (k ∷ keys) = omega (arith, length-append k (slash ∷ body keys), length_le_body keys)

module _ (depth root q : Ptr) (m : HashMap Ptr) (keys : List CString) (ps : List Ptr)
    (h : Heap) where
  list_folder_lem :
      (text : CString)
      → Descent h.node q m null root 0 keys ps
      → All IsName keys
      → length ps < depth
      → make_map_contents_string (hmap_size m + 1) m ≡ some text
      → (h' : Heap) × (list_folder depth root (render keys) h ≡ done (some text) h')
        × Settled ps h h'
  unfolding list_folder process_path notify_parent_nodes quiet
  list_folder_lem text d v deep made =
      let few : length (render keys) + 1 ≡ length keys + suc (length (render keys) - length keys) =
        unfold render in omega (arith, length_le_body keys) in
      let (w, ended) =
        walk_to depth null (length (render keys) + 1) (length (render keys) - length keys) h d v few
          refl in
      let r = depth - length ps - 1 in
      let n = first_node d in
      let inside = quiet w.end_parent w.end_name m w.b w.c 1 1 w.gets in
      let listed = quiet w.end_parent w.end_name m w.b change_writers 1 1 w.gets in
      let left = quiet w.end_parent w.end_name m change_writers change_writers 0 1 w.gets in
      let h1 = put w.at_end q inside in
      let h2 = put h1 q listed in
      let over : put h2 q left ≡ put w.at_end q left =
        put-put h1 q listed left ∙ put-put w.at_end q inside left in
      (
        w.after,
        rw
            (
              load_lem h root n.4,
              ended,
              enter_reader w.at_end q w.end_parent w.end_name m w.b w.c 0 w.gets w.end_node,
              list_children h1 q w.end_parent w.end_name m w.b w.c 1 1 w.gets text
                  (node-put w.at_end q inside) made,
              leave_reader h2 q w.end_parent w.end_name m w.b change_writers 1 w.gets
                  (node-put h1 q listed),
              over,
              w.back (suc r) depth (omega arith),
            )
            refl,
        w.settled,
      )

  -- Let a path of valid names lead from the root to a folder, over nodes that no thread is at, and
  -- let the folder's map be well formed and hold a partial function, with keys and commas of less
  -- than 2 ^ 32 bytes. Then `tree_list` of the path returns the names of the folder's children, each
  -- once and in ascending order, joined by commas. Every counter on the path is 0 again, and all
  -- other nodes are as they were. The path has at most `max_path_length` bytes, and `depth` is above
  -- the number of nodes on it.
  pub tree_list-Models :
      (f : CString → Option Ptr)
      → Descent h.node q m null root 0 keys ps
      → All IsName keys
      → length (render keys) ≤ max_path_length
      → length ps < depth
      → Models f m
      → room (keys_of (pairs m)) < 2 ^ 32
      → (ks : List CString) × (h' : Heap) × (tree_list depth root (render keys) h
          ≡ done (some (join ks)) h')
        × IsAscending ks
        × ((k : CString) → contains k ks ≡ found (f k))
        × Settled ps h h'
  unfolding tree_list
  tree_list-Models f d v short deep g small =
      let size : length (pairs m) < hmap_size m + 1 =
        unfold hmap_size in omega (arith, g.valid.counted, length-le-room (pairs m)) in
      let t = make_map_contents_string-Models f m (hmap_size m + 1) g size small in
      let l = list_folder_lem (join t.0) d v deep t.1 in
      let valid =
        (is_path_valid_iff (render keys)).1
          (record { names = keys; valid = v; rendered = refl; bounded = short }) in
      (t.0, l.0, rw (valid) l.1, t.2, t.3, l.2)
