-- ===== src/Tree/Create.antt =====
-- `tree_create` of Zaliczeniowe_2/Tree.c under a folder that is there.
use mimuw_pw_tasks.Prelude.{
  zero, suc, ◌+◌, ◌-◌, ◌≤◌, ◌<◌, ◌≡◌, refl, sym, ap, ◌∙◌, false, Option, some, List, [], ◌∷◌, ◌++◌,
  ◌==◌, Bool-cases, inl, inr, if◌then◌else◌, length, arith,
}
use mimuw_pw_tasks.CString.{CString}
use mimuw_pw_tasks.HashMap.{HashMap}
use mimuw_pw_tasks.HashMap.Laws.{Models, hmap_insert-Models}
use mimuw_pw_tasks.HashMap.Methods.{found}
use mimuw_pw_tasks.SafeHashMap.{change_readers}
use mimuw_pw_tasks.Paths.{PathResult, max_path_length}
use mimuw_pw_tasks.Paths.Names.{All, IsName, render}
use mimuw_pw_tasks.Paths.Split.{split_path-render, make_path_to_parent-render}
use mimuw_pw_tasks.Tree.Listing.{length_le_body}
use mimuw_pw_tasks.Tree.Missing.{All-prefix, All-suffix, is_path_valid-render}
use mimuw_pw_tasks.Tree.Refusals.{is_root-append}
use mimuw_pw_tasks.Store.{Ptr, null, Heap, done}
use mimuw_pw_tasks.Node.{notify_parent_nodes, new_node}
use mimuw_pw_tasks.Node.Writes.{eq_other, node-put, node-put_other, load_lem}
use mimuw_pw_tasks.Node.Quiet.{quiet}
use mimuw_pw_tasks.Tree.{
  success, eexist, create_under, create_folder, tree_create, process_path, process_loop,
}
use mimuw_pw_tasks.Tree.Descent.{on, on_ne, Descent, first_node}
use mimuw_pw_tasks.Tree.Returned.{last_on}
use mimuw_pw_tasks.Tree.Way.{way}
use mimuw_pw_tasks.Tree.Insert.{
  grown, dropped, create_under_lem, grown_other, grown_new, dropped_other, dropped_there, Created,
  put_there, map_there, Returned-Created,
}

module _ (depth root q : Ptr) (m : HashMap Ptr) (keys : List CString) (ps : List Ptr) (h : Heap)
    (f : CString → Option Ptr) (name : CString) where
  create_folder_lem :
      Models f m
      → Descent h.node q m null root 0 keys ps
      → All IsName keys
      → length ps ≤ depth
      → on ps h.next ≡ false
      → (h' : Heap) × (create_folder (suc depth) root (PathResult.found (render keys) name) h
          ≡ done (if found (f name) then eexist else success) h')
        × Created f ps q name h h'
  unfolding create_folder process_path process_loop notify_parent_nodes quiet
  create_folder_lem g d v deep fresh =
      let few : length (render keys) + 1 ≡ length keys + suc (length (render keys) - length keys) =
        unfold render in omega (arith, length_le_body keys) in
      let w =
        way (suc depth) null (length (render keys) + 1) (length (render keys) - length keys) h d v
          few refl in
      let there = last_on d in
      let made = new_node q name in
      let apart : (q == w.at_end.next) ≡ false = rw w.same_next (on_ne ps q h.next there fresh) in
      let n = first_node d in
      let k = put_there w name in
      let back =
        w.back k (map_there w name) change_readers
          (λ x i not_q.
            node-put_other (grown w.at_end made) q x _ not_q
            ∙ grown_other w.at_end made x (rw w.same_next (on_ne ps x h.next i fresh)))
          (node-put (grown w.at_end made) q _) (suc (depth - length ps)) (suc depth)
          (omega arith) in
      let after = back.0 in
      let new_there : after.node w.at_end.next ≡ some made =
        back.2.off w.at_end.next (rw w.same_next fresh)
        ∙ node-put_other (grown w.at_end made) q w.at_end.next _ (eq_other w.at_end.next q apart)
        ∙ grown_new w.at_end made in
      let called =
        create_under_lem depth w.at_end q w.end_parent w.end_name name m w.b w.c w.gets after
          w.end_node apart back.1 new_there in
      let answer = (hmap_insert-Models f m name (some w.at_end.next) g).0 in
      let reached : create_folder (suc depth) root (PathResult.found (render keys) name) h
          ≡ create_under (suc depth) q name w.at_end =
        rw (load_lem h root n.4, w.found, split_path-render [] tt) refl in
      let over = Returned-Created w name f after in
      elim (Bool-cases (found (f name))) [
        | inl t ↦ (
          dropped after w.at_end.next,
          reached ∙ called ∙ rw (answer, t) refl,
          over (dropped after w.at_end.next) g there fresh back.2
              (λ x new. dropped_other after w.at_end.next x (rw w.same_next new))
              (unfold dropped in refl)
              (ap (dropped after w.at_end.next).node (sym w.same_next)
                ∙ dropped_there after w.at_end.next
                ∙ rw t refl),
        )
        | inr u ↦ (
          after,
          reached ∙ called ∙ rw (answer, u) refl,
          over after g there fresh back.2 (λ x new. refl) refl
              (ap after.node (sym w.same_next) ∙ new_there ∙ rw u refl),
        )
      ]

-- Let a path of valid names lead from the root to a folder, over nodes that no thread is at, let the
-- folder's map be well formed and hold a partial function, and let the address of the next
-- allocation not be on the way. Then `tree_create` of a valid name in the folder returns EEXIST
-- where the name is there, and the new node is freed; it returns success where it is not, and a new
-- node under the folder, with no children, is then the name's entry in the folder's map. All other
-- entries are as before, every counter on the way is 0 again, and all other nodes are as they were.
-- The path has at most `max_path_length` bytes, and `depth` is above the number of nodes on the way.
pub tree_create-Creates :
    (depth root q : Ptr) (m : HashMap Ptr) (keys : List CString) (ps : List Ptr) (h : Heap)
    (f : CString → Option Ptr) (name : CString)
    → Models f m
    → Descent h.node q m null root 0 keys ps
    → All IsName (keys ++ name ∷ [])
    → length (render (keys ++ name ∷ [])) ≤ max_path_length
    → length ps < depth
    → on ps h.next ≡ false
    → (h' : Heap) × (tree_create depth root (render (keys ++ name ∷ [])) h
        ≡ done (if found (f name) then eexist else success) h')
      × Created f ps q name h h'
unfolding tree_create
tree_create-Creates zero root q m keys ps h f name g d v short deep fresh = absurd (omega arith)
tree_create-Creates (suc depth) root q m keys ps h f name g d v short deep fresh =
    let made = make_path_to_parent-render keys name (All-suffix keys (name ∷ []) v).0 in
    let l =
      create_folder_lem depth root q m keys ps h f name g d (All-prefix keys (name ∷ []) v)
        (omega arith) fresh in
    (
      l.0,
      rw (is_path_valid-render (keys ++ name ∷ []) v short, is_root-append keys name [], made.0)
          l.1,
      l.2,
    )
