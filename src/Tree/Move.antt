-- ===== src/Tree/Move.antt =====
-- `tree_move` of Zaliczeniowe_2/Tree.c, as one thread runs it alone.
use mimuw_pw_tasks.Prelude.{
  ℕ, ◌-◌, Ordering, Bool, true, false, ◌&&◌, ◌||◌, not, ◌==◌, if◌then◌else◌, length, drop,
}
use mimuw_pw_tasks.CString.{CString, str_eq}
use mimuw_pw_tasks.Paths.{
  PathResult, is_path_valid, make_path_to_parent, make_shared_path, compare_paths,
}
use mimuw_pw_tasks.SafeHashMap.{map_writer_preliminary_protocol, map_writer_final_protocol}
use mimuw_pw_tasks.Store.{Ptr, null, Cmd, pure, ◌>>=◌, ◌>>◌, crash, load, modify}
use mimuw_pw_tasks.Node.{
  notify_parent_nodes, node_discard_waiting, node_reader_preliminary_protocol,
  node_reader_final_protocol, node_writer_preliminary_protocol, node_writer_final_protocol,
  enter_map, leave_map, insert_child, remove_child,
}
use mimuw_pw_tasks.Tree.{
  Code, success, enoent, einval, eexist, ebusy, ebadmove, is_root, begins_with, process_path,
}

-- the node that is moved and its parent to be, or the code of a failure
pub data Acquired : Type 0 where
  acquired : (source_node target_node_parent : Ptr) → Acquired
  failed : Code → Acquired

-- `compare_paths(source, target) <= 0`
abbrev pub source_first : CString → CString → Bool
source_first source target = elim (compare_paths source target) [ Ordering.gt ↦ false | _ ↦ true ]

-- the two maps that are written, by the addresses of their nodes
abbrev pub left_map : CString → CString → Ptr → Ptr → Ptr
left_map source target source_parent target_parent =
    if source_first source target then source_parent else target_parent

abbrev pub right_map : CString → CString → Ptr → Ptr → Ptr
right_map source target source_parent target_parent =
    if source_first source target then target_parent else source_parent

module _ (depth : ℕ) where
  -- The reader's protocol on the parent of the target, unless it is the shared node, which is
  -- already held; the result is `emergency_pass`.
  abbrev pub hold_parent : Ptr → Ptr → Cmd Bool
  hold_parent parent shared =
      if parent == shared then pure false else node_reader_preliminary_protocol parent

  abbrev pub release_parent : Ptr → Ptr → Cmd (Unit {0})
  release_parent parent shared =
      if parent == shared then pure tt else node_reader_final_protocol parent

  -- the branch that takes the source node first, from behind its path on
  unfoldable pub target_second : Ptr → CString → Ptr → Cmd Acquired
  unfolding process_path
  target_second shared path source_node = do
    found ← process_path depth shared path false true
    elim (found.0) [
      | success ↦ do
        let parent = found.1
        discarded ← hold_parent parent shared
        elim discarded [
          | true ↦ do
            node_writer_final_protocol source_node
            node_reader_final_protocol parent
            node_reader_final_protocol shared
            notify_parent_nodes depth source_node null
            notify_parent_nodes depth parent shared
            pure (failed enoent)
          | false ↦ pure (acquired source_node parent)
        ]
      | code ↦ do
        node_writer_final_protocol source_node
        node_reader_final_protocol shared
        notify_parent_nodes depth source_node null
        pure (failed code)
    ]

  unfoldable pub acquire_source_first : CString → CString → Ptr → CString → ℕ → Cmd Acquired
  unfolding process_path target_second
  acquire_source_first source target shared path_to_target_parent shared_path_len = do
    found ← process_path depth shared (drop shared_path_len source) false true
    elim (found.0) [
      | success ↦ do
        let source_node = found.1
        discarded ← node_writer_preliminary_protocol source_node
        elim discarded [
          | true ↦ do
            node_writer_final_protocol source_node
            node_reader_final_protocol shared
            notify_parent_nodes depth source_node null
            pure (failed enoent)
          | false ↦
              if begins_with target source
              then (do
                node_writer_final_protocol source_node
                node_reader_final_protocol shared
                notify_parent_nodes depth source_node null
                pure (failed eexist))
              else target_second shared (drop shared_path_len path_to_target_parent) source_node
        ]
      | code ↦ do
        node_reader_final_protocol shared
        notify_parent_nodes depth shared null
        pure (failed code)
    ]

  -- the branch that takes the parent of the target first, from behind its protocol on
  unfoldable pub source_second : Ptr → CString → Ptr → Cmd Acquired
  unfolding process_path
  source_second shared path parent = do
    found ← process_path depth shared path false true
    elim (found.0) [
      | success ↦ do
        let source_node = found.1
        discarded ← node_writer_preliminary_protocol source_node
        elim discarded [
          | true ↦ do
            node_writer_final_protocol source_node
            release_parent parent shared
            node_reader_final_protocol shared
            notify_parent_nodes depth source_node null
            notify_parent_nodes depth parent shared
            pure (failed enoent)
          | false ↦ pure (acquired source_node parent)
        ]
      | code ↦ do
        release_parent parent shared
        node_reader_final_protocol shared
        notify_parent_nodes depth parent null
        pure (failed code)
    ]

  unfoldable pub acquire_target_first : CString → Ptr → CString → ℕ → Cmd Acquired
  unfolding process_path source_second
  acquire_target_first source shared path_to_target_parent shared_path_len = do
    found ← process_path depth shared (drop shared_path_len path_to_target_parent) false true
    elim (found.0) [
      | success ↦ do
        let parent = found.1
        discarded ← hold_parent parent shared
        elim discarded [
          | true ↦ do
            node_reader_final_protocol parent
            node_reader_final_protocol shared
            notify_parent_nodes depth parent null
            pure (failed enoent)
          | false ↦ source_second shared (drop shared_path_len source) parent
        ]
      | code ↦ do
        node_reader_final_protocol shared
        notify_parent_nodes depth shared null
        pure (failed code)
    ]

  -- the end of both branches: the protocols of the maps and of the nodes that are still held
  unfoldable pub leave_maps : Ptr → Ptr → Cmd (Unit {0})
  unfolding leave_map
  leave_maps left right = do
    leave_map map_writer_final_protocol left
    if left == right then pure tt else leave_map map_writer_final_protocol right

  unfoldable pub exchange : CString → CString → Ptr → CString → Ptr → Ptr → Cmd Code
  unfolding enter_map leave_maps insert_child remove_child node_discard_waiting
  exchange source target shared target_name source_node target_node_parent = do
    n ← load source_node
    let left = left_map source target n.parent target_node_parent
    let right = right_map source target n.parent target_node_parent
    enter_map map_writer_preliminary_protocol left
    if left == right then pure tt else enter_map map_writer_preliminary_protocol right
    inserted ← insert_child target_node_parent target_name source_node
    elim inserted [
      | false ↦ do
        leave_maps left right
        node_writer_final_protocol source_node
        release_parent target_node_parent shared
        node_reader_final_protocol shared
        notify_parent_nodes depth source_node null
        notify_parent_nodes depth target_node_parent shared
        pure eexist
      | true ↦ do
        remove_child n.parent n.name
        node_discard_waiting source_node
        node_writer_final_protocol source_node
        notify_parent_nodes depth source_node null
        modify source_node (λ m. record m { name = target_name; parent = target_node_parent })
        leave_maps left right
        release_parent target_node_parent shared
        node_reader_final_protocol shared
        notify_parent_nodes depth target_node_parent shared
        pure success
    ]

  -- `tree_move` behind the processing of the shared path
  unfoldable pub move_below : CString → CString → CString → CString → ℕ → Ptr → Cmd Code
  unfolding acquire_source_first acquire_target_first exchange
  move_below source target path_to_target_parent target_name shared_path_len shared = do
    discarded ← node_reader_preliminary_protocol shared
    elim discarded [
      | true ↦ do
        node_reader_final_protocol shared
        notify_parent_nodes depth shared null
        pure enoent
      | false ↦ do
        nodes ←
            if source_first source target
            then acquire_source_first source target shared path_to_target_parent shared_path_len
            else acquire_target_first source shared path_to_target_parent shared_path_len
        elim nodes [
          | acquired source_node target_node_parent ↦
              exchange source target shared target_name source_node target_node_parent
          | failed code ↦ pure code
        ]
    ]

  unfoldable pub move_folder : Ptr → CString → CString → PathResult → Cmd Code
  unfolding process_path move_below make_shared_path
  move_folder root source target (PathResult.found path_to_target_parent target_name) = do
    let shared_path = make_shared_path source path_to_target_parent
    found ← process_path depth root shared_path true false
    elim (found.0) [
      | success ↦
          move_below source target path_to_target_parent target_name (length shared_path - 1)
            found.1
      | code ↦ pure code
    ]
  move_folder root source target _ = crash

  unfoldable pub tree_move : Ptr → CString → CString → Cmd Code
  unfolding move_folder is_path_valid make_path_to_parent
  tree_move root source target =
      if not (is_path_valid source) || not (is_path_valid target)
      then pure einval
      else if is_root source
      then pure ebusy
      else if is_root target
      then pure eexist
      else if begins_with source target && not (str_eq source target)
      then pure ebadmove
      else move_folder root source target (make_path_to_parent target)
