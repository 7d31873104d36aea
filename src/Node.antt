-- ===== src/Node.antt =====
-- Zaliczeniowe_2/Node.c, and the functions of SafeHashMap.c on the children of a node, as one thread
-- runs them alone. A signal wakes nobody then, and a wait never ends.
pub mod Writes
pub mod Quiet
pub mod Visits
use mimuw_pw_tasks.Prelude.{
  ℕ, zero, suc, ◌+◌, ◌^◌, Bool, true, false, ◌&&◌, ◌||◌, not, Option, none, some, List, [], ◌∷◌,
  ◌==◌, ltb, if◌then◌else◌,
}
use mimuw_pw_tasks.Prelude.Ints.{int_add, increment, decrement, positive}
use mimuw_pw_tasks.CString.{CString}
use mimuw_pw_tasks.HashMap.{
  Pair, HashMap, hmap_get, hmap_insert, hmap_remove, hmap_size, hmap_iterator, visit,
}
use mimuw_pw_tasks.Paths.{make_map_contents_string}
use mimuw_pw_tasks.SafeHashMap.{
  SafeHashMap, Signal, Entry, waits, enters, safe_hmap_new, change_readers, change_writers,
  map_reader_preliminary_protocol, map_reader_final_protocol, map_writer_preliminary_protocol,
  map_writer_final_protocol,
}
use mimuw_pw_tasks.Store.{
  Ptr, null, Node, Heap, Cmd, pure, ◌>>=◌, ◌>>◌, wait, crash, load, store, modify, allocate, free,
}

-- A node as `node_new` leaves it.
unfoldable pub new_node : Ptr → CString → Node
new_node parent name = record {
  parent = parent;
  name = name;
  children = safe_hmap_new;
  readers_inside = 0;
  writers_inside = 0;
  readers_waiting = 0;
  writers_waiting = 0;
  subtree_threads = 0;
  safe_hmap_get_count = 0;
  change = change_writers;
  emergency_pass = false;
}

unfoldable pub node_new : Ptr → CString → Cmd Ptr
unfolding new_node allocate
node_new parent name = allocate (new_node parent name)

-- the preliminary and the final part of a protocol on the children of a node
unfoldable pub enter_map : (SafeHashMap Ptr → SafeHashMap Ptr × Entry) → Ptr → Cmd (Unit {0})
unfolding load store
enter_map protocol p = do
  n ← load p
  let (m, entry) = protocol n.children
  elim entry [ waits ↦ wait | enters sig ↦ store p (record n { children = m }) ]

unfoldable pub leave_map : (SafeHashMap Ptr → SafeHashMap Ptr × Signal) → Ptr → Cmd (Unit {0})
unfolding modify
leave_map protocol p = modify p (λ n. record n { children = (protocol n.children).0 })

-- `thread_counter` is held for this
unfoldable pub count_get : Ptr → Cmd (Unit {0})
unfolding modify
count_get p = modify p (λ n. record n { safe_hmap_get_count = increment n.safe_hmap_get_count })

-- `null` where the key is absent
unfoldable pub safe_hmap_get_child : Ptr → CString → Cmd Ptr
unfolding enter_map leave_map count_get load
safe_hmap_get_child p key = do
  enter_map map_reader_preliminary_protocol p
  n ← load p
  child ← elim (hmap_get n.children.map key) [ none ↦ pure null | some c ↦ count_get c >> pure c ]
  leave_map map_reader_final_protocol p
  pure child

unfoldable pub insert_child : Ptr → CString → Ptr → Cmd Bool
unfolding load store
insert_child p key child = do
  n ← load p
  let (m, success) = hmap_insert n.children.map key (some child)
  store p (record n { children = record (n.children) { map = m } })
  pure success

unfoldable pub remove_child : Ptr → CString → Cmd (Unit {0})
unfolding modify
remove_child p key =
    modify p (λ n. record n {
      children = record (n.children) { map = (hmap_remove n.children.map key).0 };
    })

-- `safe_hmap_insert` and the others, on the children of `p`
unfoldable pub safe_hmap_insert_child : Ptr → CString → Ptr → Cmd Bool
unfolding enter_map insert_child leave_map
safe_hmap_insert_child p key child = do
  enter_map map_writer_preliminary_protocol p
  success ← insert_child p key child
  leave_map map_writer_final_protocol p
  pure success

unfoldable pub safe_hmap_remove_child : Ptr → CString → Cmd (Unit {0})
unfolding enter_map remove_child leave_map
safe_hmap_remove_child p key = do
  enter_map map_writer_preliminary_protocol p
  remove_child p key
  leave_map map_writer_final_protocol p

unfoldable pub safe_hmap_size_children : Ptr → Cmd ℕ
unfolding enter_map leave_map load
safe_hmap_size_children p = do
  enter_map map_reader_preliminary_protocol p
  n ← load p
  leave_map map_reader_final_protocol p
  pure (hmap_size n.children.map)

-- the text, or a fault where it overruns its buffer
unfoldable pub safe_make_children_string : Ptr → Cmd CString
unfolding enter_map leave_map load
safe_make_children_string p = do
  enter_map map_reader_preliminary_protocol p
  n ← load p
  text ← elim (make_map_contents_string (hmap_size n.children.map + 1) n.children.map) [
    | none ↦ crash
    | some s ↦ pure s
  ]
  leave_map map_reader_final_protocol p
  pure text

-- The test of the reader's `while`.
abbrev pub node_reader_must_wait : Node → Bool
node_reader_must_wait n =
    (positive n.writers_inside || (positive n.writers_waiting && n.change)) && not n.emergency_pass

-- It returns `emergency_pass`, as the source does after its critical sections.
unfoldable pub node_reader_preliminary_protocol : Ptr → Cmd Bool
unfolding load store modify
node_reader_preliminary_protocol p = do
  n ← load p
  if node_reader_must_wait n
      then wait
      else store p (record n { readers_inside = increment n.readers_inside })
  modify p (λ m. record m { subtree_threads = increment m.subtree_threads })
  m ← load p
  pure m.emergency_pass

unfoldable pub node_reader_final_protocol : Ptr → Cmd (Unit {0})
unfolding modify
node_reader_final_protocol p =
    modify p
      (λ n. record n { readers_inside = decrement n.readers_inside; change = change_writers })

-- The test of the writer's `while`.
abbrev pub node_writer_must_wait : Node → Bool
node_writer_must_wait n =
    (positive (int_add n.writers_inside n.readers_inside)
      || (positive n.readers_waiting && not n.change))
    && not n.emergency_pass

-- `x > 1` of an `int`
abbrev pub above_one : ℕ → Bool
above_one x = ltb 1 x && ltb x (2 ^ 31)

-- The second `while`, over the threads in the subtree.
abbrev pub subtree_busy : Node → Bool
subtree_busy n = above_one n.subtree_threads && not n.emergency_pass

unfoldable pub node_writer_preliminary_protocol : Ptr → Cmd Bool
unfolding load store modify
node_writer_preliminary_protocol p = do
  n ← load p
  if node_writer_must_wait n
      then wait
      else store p (record n { writers_inside = increment n.writers_inside })
  modify p (λ m. record m { subtree_threads = increment m.subtree_threads })
  m ← load p
  if subtree_busy m then wait else pure m.emergency_pass

unfoldable pub node_writer_final_protocol : Ptr → Cmd (Unit {0})
unfolding modify
node_writer_final_protocol p =
    modify p
      (λ n. record n { writers_inside = decrement n.writers_inside; change = change_readers })

-- `emergency_pass` is set while the threads that hold a pointer to the node leave.
unfoldable pub node_discard_waiting : Ptr → Cmd (Unit {0})
unfolding load modify
node_discard_waiting p = do
  modify p (λ n. record n { emergency_pass = true })
  n ← load p
  if above_one n.safe_hmap_get_count
      then wait
      else modify p (λ m. record m { emergency_pass = false })

-- one round of the loop of `notify_parent_nodes`
abbrev pub notified : Node → Node
notified n = record n {
  subtree_threads = decrement n.subtree_threads;
  safe_hmap_get_count =
      if n.parent == null then n.safe_hmap_get_count else decrement n.safe_hmap_get_count;
}

-- A round goes up one node, so the depth of `first` and one more are rounds enough; when the rounds
-- run out the command faults.
unfoldable pub notify_parent_nodes : ℕ → Ptr → Ptr → Cmd (Unit {0})
unfolding load store
notify_parent_nodes zero first last = crash
notify_parent_nodes (suc rounds) first last =
    let up : Cmd (Unit {0}) =
      load first >>= λ n. store first (notified n) >> notify_parent_nodes rounds n.parent last in
    if first == last then pure tt else up

-- The children in the order of the iteration, each with what is under it, and then the node. A call
-- goes down one node, so the height and one more are enough.
unfoldable pub free_all : (Ptr → Cmd (Unit {0})) → List (Pair Ptr) → Cmd (Unit {0})
free_all free_one [] = pure tt
free_all free_one (c ∷ cs) = free_one c.value >> free_all free_one cs

abbrev pub free_visited : (Ptr → Cmd (Unit {0})) → Option (List (Pair Ptr)) → Cmd (Unit {0})
free_visited free_one none = crash
free_visited free_one (some cs) = free_all free_one cs

unfoldable pub node_free : ℕ → Ptr → Cmd (Unit {0})
unfolding free_all load free
node_free zero p = crash
node_free (suc height) p = do
  n ← load p
  free_visited (node_free height)
      (visit (hmap_size n.children.map + 1) n.children.map (hmap_iterator n.children.map))
  free p
