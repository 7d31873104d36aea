-- ===== src/Tree.antt =====
-- Zaliczeniowe_2/Tree.c, as one thread runs its functions alone. `free` of strings is not modelled.
pub mod Move
pub mod Refusals
pub mod Descent
pub mod Round
pub mod Walk
pub mod Returned
pub mod Way
pub mod Insert
pub mod Create
pub mod Listing
pub mod Missing
mod Tests
use mimuw_pw_tasks.Prelude.{
  ℕ, zero, suc, ◌+◌, ◌-◌, Ordering, Bool, true, false, ◌&&◌, ◌||◌, not, Option, none, some, List,
  [], ◌∷◌, ◌==◌, if◌then◌else◌, length, drop,
}
use mimuw_pw_tasks.CString.{CString, strcmp, strncmp, str_eq, is_zero}
use mimuw_pw_tasks.HashMap.{hmap_insert, hmap_remove}
use mimuw_pw_tasks.Paths.{
  slash, PathResult, is_path_valid, split_path, make_path_to_parent, make_shared_path,
  compare_paths,
}
use mimuw_pw_tasks.SafeHashMap.{map_writer_preliminary_protocol, map_writer_final_protocol}
use mimuw_pw_tasks.Store.{
  Ptr, null, Node, Heap, Run, done, Cmd, pure, ◌>>=◌, ◌>>◌, wait, crash, load, store, modify,
}
use mimuw_pw_tasks.Node.{
  node_new, node_free, notify_parent_nodes, node_discard_waiting, node_reader_preliminary_protocol,
  node_reader_final_protocol, node_writer_preliminary_protocol, node_writer_final_protocol,
  safe_hmap_get_child, safe_hmap_insert_child, safe_hmap_remove_child, safe_hmap_size_children,
  safe_make_children_string, enter_map, leave_map, insert_child, remove_child,
}

-- what the functions return: 0, the codes of <errno.h>, and EBADMOVE
pub data Code : Type 0 where
  success enoent einval eexist ebusy enotempty ebadmove : Code

abbrev pub root_path : CString
root_path = slash ∷ []

-- `strcmp(path, "/") == 0`
abbrev pub is_root : CString → Bool
is_root path = str_eq path root_path

-- `strncmp(a, b, strlen(a)) == 0`
abbrev pub begins_with : CString → CString → Bool
begins_with a b = is_zero (strncmp a b (length a))

-- Each function takes a bound `depth`: the rounds that a loop over ancestors, over the names of a
-- path or down a subtree may take.
module _ (depth : ℕ) where
  -- `notify_parent_nodes` and a return
  abbrev pub notify_and : {A : Type 0} → Ptr → Ptr → A → Cmd A
  notify_and first last a = notify_parent_nodes depth first last >> pure a

  -- The node's name in the map of its children, between the reader's protocols where they are not
  -- skipped; `none` where the node is being discarded.
  unfoldable pub look_up : Bool → Ptr → CString → Cmd (Option Ptr)
  unfolding node_reader_preliminary_protocol node_reader_final_protocol safe_hmap_get_child
  look_up true p component = do next ← safe_hmap_get_child p component; pure (some next)
  look_up false p component = do
    discarded ← node_reader_preliminary_protocol p
    elim discarded [
      | true ↦ node_reader_final_protocol p >> pure none
      | false ↦ do
        next ← safe_hmap_get_child p component
        node_reader_final_protocol p
        pure (some next)
    ]

-- the loop of `process_path`, with the code and the node that it ends at
unfoldable pub process_loop : ℕ → ℕ → Ptr → Ptr → PathResult → Bool → Cmd (Code × Ptr)
unfolding look_up notify_parent_nodes split_path
process_loop depth zero last p path skip = crash
process_loop depth (suc rounds) last p PathResult.null skip = pure (success, p)
process_loop depth (suc rounds) last p PathResult.assert_failed skip = crash
process_loop depth (suc rounds) last p PathResult.out_of_bounds skip = crash
process_loop depth (suc rounds) last p (PathResult.found path component) skip =
    look_up depth skip p component >>= λ r. elim r [
      | none ↦ notify_and depth p last (enoent, p)
      | some next ↦
          let rest = process_loop depth rounds last next (split_path path) false in
          let absent = notify_and depth p last (enoent, p) in if next == null then absent else rest
    ]

module _ (depth : ℕ) where
  unfoldable pub process_path : Ptr → CString → Bool → Bool → Cmd (Code × Ptr)
  unfolding process_loop load
  process_path p path notify_path_root skip_root_node_protocols = do
    n ← load p
    process_loop depth (length path + 1) (if notify_path_root then n.parent else p) p
        (split_path path) skip_root_node_protocols

  -- `tree_new`, with the address of the root
  unfoldable pub tree_new : Cmd Ptr
  unfolding node_new
  tree_new = node_new null []

  unfoldable pub tree_free : Ptr → Cmd (Unit {0})
  unfolding node_free
  tree_free root = node_free depth root

  -- `tree_list` behind the test of the path; `none` is the null pointer
  unfoldable pub list_folder : Ptr → CString → Cmd (Option CString)
  unfolding process_path safe_make_children_string
  list_folder root path = do
    found ← process_path root path true false
    elim (found.0) [
      | success ↦ do
        let node = found.1
        discarded ← node_reader_preliminary_protocol node
        elim discarded [
          | true ↦ node_reader_final_protocol node >> notify_and depth node null none
          | false ↦ do
            result ← safe_make_children_string node
            node_reader_final_protocol node
            notify_and depth node null (some result)
        ]
      | _ ↦ pure none
    ]

  unfoldable pub tree_list : Ptr → CString → Cmd (Option CString)
  unfolding list_folder is_path_valid
  tree_list root path = if is_path_valid path then list_folder root path else pure none

  -- `tree_create` behind the processing of the path to the parent
  unfoldable pub create_under : Ptr → CString → Cmd Code
  unfolding node_new safe_hmap_insert_child node_free
  create_under node target = do
    target_node ← node_new node target
    discarded ← node_reader_preliminary_protocol node
    elim discarded [
      | true ↦ do
        node_reader_final_protocol node
        notify_parent_nodes depth node null
        node_free depth target_node
        pure enoent
      | false ↦ do
        inserted ← safe_hmap_insert_child node target target_node
        node_reader_final_protocol node
        notify_parent_nodes depth node null
        elim inserted [ true ↦ pure success | false ↦ node_free depth target_node >> pure eexist ]
    ]

  unfoldable pub create_folder : Ptr → PathResult → Cmd Code
  unfolding process_path create_under
  create_folder root (PathResult.found path_to_parent target) = do
    found ← process_path root path_to_parent true false
    elim (found.0) [ success ↦ create_under found.1 target | code ↦ pure code ]
  create_folder root _ = crash

  unfoldable pub tree_create : Ptr → CString → Cmd Code
  unfolding create_folder is_path_valid make_path_to_parent
  tree_create root path =
      if not (is_path_valid path)
      then pure einval
      else if is_root path
      then pure eexist
      else create_folder root (make_path_to_parent path)

  -- `tree_remove` behind the processing of the path
  unfoldable pub remove_node : Ptr → Cmd Code
  unfolding safe_hmap_size_children safe_hmap_remove_child node_discard_waiting node_free
  remove_node node = do
    discarded ← node_writer_preliminary_protocol node
    elim discarded [
      | true ↦ node_writer_final_protocol node >> notify_and depth node null enoent
      | false ↦ do
        size ← safe_hmap_size_children node
        if not (size == 0)
            then (node_writer_final_protocol node >> notify_and depth node null enotempty)
            else (do
              n ← load node
              safe_hmap_remove_child n.parent n.name
              node_discard_waiting node
              node_writer_final_protocol node
              notify_parent_nodes depth node null
              node_free depth node
              pure success)
    ]

  unfoldable pub remove_folder : Ptr → CString → Cmd Code
  unfolding process_path remove_node
  remove_folder root path = do
    found ← process_path root path true false
    elim (found.0) [ success ↦ remove_node found.1 | code ↦ pure code ]

  unfoldable pub tree_remove : Ptr → CString → Cmd Code
  unfolding remove_folder is_path_valid
  tree_remove root path =
      if not (is_path_valid path)
      then pure einval
      else if is_root path
      then pure ebusy
      else remove_folder root path
