-- ===== src/Node/Visits.antt =====
-- Threads at one node of Zaliczeniowe_2/Node.c and Zaliczeniowe_2/Tree.c, interleaved in any order. The
-- node is not the root. A stretch under `lock` or under `thread_counter` is one step, with its signals. A
-- thread may also return from `pthread_cond_wait` with no signal. `safe_hmap_get` and the
-- `safe_hmap_remove` of the node hold the map of its parent, and are one step each.
pub mod Census
pub mod Shares
pub mod Invariant
pub mod Signals
pub mod Live
mod Reached
pub mod Safety
mod Tests
use mimuw_pw_tasks.Prelude.{
  ℕ, ◌<◌, ◌≡◌, Bool, true, false, Option, none, some, List, [], ◌∷◌, ◌==◌, if◌then◌else◌, get_elem?,
  set, replicate,
}
use mimuw_pw_tasks.Prelude.Ints.{increment, decrement}
use mimuw_pw_tasks.CString.{CString}
use mimuw_pw_tasks.SafeHashMap.{change_readers, change_writers}
use mimuw_pw_tasks.Store.{Ptr, null, Node}
use mimuw_pw_tasks.Node.{
  new_node, node_reader_must_wait, node_writer_must_wait, above_one, subtree_busy, notified,
}

-- A thread's way past the node. `refused` threads have seen `emergency_pass`.
pub data Visit : Type 0 where
  away : Visit
  -- behind `safe_hmap_get`
  reader_arrived reader_blocked reader_woken reader_entered reader_counted reader_refused
        reader_inside :
      Visit
  -- in the subtree, before `notify_parent_nodes`
  below turned_back : Visit
  writer_arrived writer_blocked writer_woken writer_entered writer_waiting writer_asleep
        writer_passed writer_refused :
      Visit
  writer_inside : Visit
  -- `tree_remove` and `tree_move`: behind the removal from the map, in `node_discard_waiting`, behind
  -- its loop, behind the protocols, and in `node_free` or before the new name
  unlinked discarding discarder_asleep released discarded removed freeing renaming : Visit

-- the node, and whether the map of its parent has it
pub record Place : Type 0 where
  pub node : Node
  pub linked : Bool

-- the node under its lock, and whether the thread has entered
unfoldable pub reader_lock : Node → Node × Bool
reader_lock n =
    if node_reader_must_wait n
    then (record n { readers_waiting = increment n.readers_waiting }, false)
    else (record n { readers_inside = increment n.readers_inside }, true)

unfoldable pub reader_relock : Node → Node × Bool
unfolding reader_lock
reader_relock n = reader_lock (record n { readers_waiting = decrement n.readers_waiting })

unfoldable pub writer_lock : Node → Node × Bool
writer_lock n =
    if node_writer_must_wait n
    then (record n { writers_waiting = increment n.writers_waiting }, false)
    else (record n { writers_inside = increment n.writers_inside }, true)

unfoldable pub writer_relock : Node → Node × Bool
unfolding writer_lock
writer_relock n = writer_lock (record n { writers_waiting = decrement n.writers_waiting })

abbrev pub reader_unlock : Node → Node
reader_unlock n = record n { readers_inside = decrement n.readers_inside; change = change_writers }

abbrev pub writer_unlock : Node → Node
writer_unlock n = record n { writers_inside = decrement n.writers_inside; change = change_readers }

abbrev pub count_thread : Node → Node
count_thread n = record n { subtree_threads = increment n.subtree_threads }

abbrev pub count_lookup : Node → Node
count_lookup n = record n { safe_hmap_get_count = increment n.safe_hmap_get_count }

-- the condition variables of a node
pub data Signal : Type 0 where
  readers writers private_access : Signal

-- the signals of `node_reader_preliminary_protocol`, and of the two final protocols
abbrev pub entry_signals : Node → List Signal
entry_signals n = if n.writers_waiting == 0 then readers ∷ [] else []

abbrev pub reader_signals : Node → List Signal
reader_signals n = if n.readers_inside == 0 then writers ∷ [] else []

abbrev pub writer_signals : Node → List Signal
writer_signals n = if n.readers_waiting == 0 then writers ∷ [] else readers ∷ []

-- what a thread that waits for this signal does next
abbrev pub stirred : Signal → Visit → Option Visit
stirred readers reader_blocked = some reader_woken
stirred writers writer_blocked = some writer_woken
stirred private_access writer_asleep = some writer_waiting
stirred private_access discarder_asleep = some discarding
stirred _ _ = none

-- `pthread_cond_signal`: one of the threads blocked on the variable is woken, if there is one.
pub data Wakes (sig : Signal) (vs : List Visit) : List Visit → Type 0 where
  one :
      {v w : Visit} (i : ℕ)
      → get_elem? vs i ≡ some v
      → stirred sig v ≡ some w
      → Wakes sig vs (set vs i w)
  none_blocked :
      ((i : ℕ) (v : Visit) → get_elem? vs i ≡ some v → stirred sig v ≡ none) → Wakes sig vs vs

pub data AllWake : List Signal → List Visit → List Visit → Type 0 where
  no_signals : {vs : List Visit} → AllWake [] vs vs
  signals :
      {sig : Signal} {sigs : List Signal} {vs ws us : List Visit}
      → Wakes sig vs ws
      → AllWake sigs ws us
      → AllWake (sig ∷ sigs) vs us

-- One step of one thread, with its signals.
pub data Move (s : Place) : Visit → Place → List Signal → Visit → Type 0 where
  get_reader :
      s.linked ≡ true → Move s away (record s { node = count_lookup s.node }) [] reader_arrived
  get_writer :
      s.linked ≡ true → Move s away (record s { node = count_lookup s.node }) [] writer_arrived
  reader_waits :
      {n : Node}
      → reader_lock s.node ≡ (n, false)
      → Move s reader_arrived (record s { node = n }) [] reader_blocked
  reader_enters :
      {n : Node}
      → reader_lock s.node ≡ (n, true)
      → Move s reader_arrived (record s { node = n }) (entry_signals n) reader_entered
  reader_wakes : Move s reader_blocked s [] reader_woken
  reader_waits_again :
      {n : Node}
      → reader_relock s.node ≡ (n, false)
      → Move s reader_woken (record s { node = n }) [] reader_blocked
  reader_enters_late :
      {n : Node}
      → reader_relock s.node ≡ (n, true)
      → Move s reader_woken (record s { node = n }) (entry_signals n) reader_entered
  reader_counts : Move s reader_entered (record s { node = count_thread s.node }) [] reader_counted
  -- the return of `emergency_pass`
  reader_passes : s.node.emergency_pass ≡ false → Move s reader_counted s [] reader_inside
  reader_is_refused : s.node.emergency_pass ≡ true → Move s reader_counted s [] reader_refused
  reader_leaves :
      Move s reader_inside
        (record s { node = reader_unlock s.node })
        (reader_signals (reader_unlock s.node))
        below
  reader_turns_back :
      Move s reader_refused
        (record s { node = reader_unlock s.node })
        (reader_signals (reader_unlock s.node))
        turned_back
  notifies : Move s below (record s { node = notified s.node }) (private_access ∷ []) away
  notifies_back :
      Move s turned_back (record s { node = notified s.node }) (private_access ∷ []) away
  writer_waits :
      {n : Node}
      → writer_lock s.node ≡ (n, false)
      → Move s writer_arrived (record s { node = n }) [] writer_blocked
  writer_enters :
      {n : Node}
      → writer_lock s.node ≡ (n, true)
      → Move s writer_arrived (record s { node = n }) [] writer_entered
  writer_wakes : Move s writer_blocked s [] writer_woken
  writer_waits_again :
      {n : Node}
      → writer_relock s.node ≡ (n, false)
      → Move s writer_woken (record s { node = n }) [] writer_blocked
  writer_enters_late :
      {n : Node}
      → writer_relock s.node ≡ (n, true)
      → Move s writer_woken (record s { node = n }) [] writer_entered
  writer_counts : Move s writer_entered (record s { node = count_thread s.node }) [] writer_waiting
  -- the second loop
  writer_sleeps : subtree_busy s.node ≡ true → Move s writer_waiting s [] writer_asleep
  writer_stirs : Move s writer_asleep s [] writer_waiting
  writer_goes_on : subtree_busy s.node ≡ false → Move s writer_waiting s [] writer_passed
  writer_passes : s.node.emergency_pass ≡ false → Move s writer_passed s [] writer_inside
  writer_is_refused : s.node.emergency_pass ≡ true → Move s writer_passed s [] writer_refused
  writer_leaves :
      Move s writer_inside
        (record s { node = writer_unlock s.node })
        (writer_signals (writer_unlock s.node))
        below
  writer_turns_back :
      Move s writer_refused
        (record s { node = writer_unlock s.node })
        (writer_signals (writer_unlock s.node))
        turned_back
  unlinks : Move s writer_inside (record s { linked = false }) [] unlinked
  discards :
      Move s unlinked
        (record s { node = record (s.node) { emergency_pass = true } })
        (readers ∷ writers ∷ private_access ∷ [])
        discarding
  discarder_sleeps :
      above_one s.node.safe_hmap_get_count ≡ true → Move s discarding s [] discarder_asleep
  discarder_stirs : Move s discarder_asleep s [] discarding
  sees_none : above_one s.node.safe_hmap_get_count ≡ false → Move s discarding s [] released
  ends_pass :
      Move s released (record s { node = record (s.node) { emergency_pass = false } }) [] discarded
  remover_leaves :
      Move s discarded
        (record s { node = writer_unlock s.node })
        (writer_signals (writer_unlock s.node))
        removed
  remover_notifies :
      Move s removed (record s { node = notified s.node }) (private_access ∷ []) freeing
  -- `tree_move` holds the maps of both parents from `unlinks` on
  mover_notifies :
      Move s removed (record s { node = notified s.node }) (private_access ∷ []) renaming
  relinks :
      {name : CString} {parent : Ptr}
      → (parent == null) ≡ false
      → Move s renaming
          (record { node = record (s.node) { name = name; parent = parent }; linked = true })
          []
          away

pub record Visitors : Type 0 where
  pub place : Place
  pub visits : List Visit

-- Any of the threads takes the next step.
pub data Visited (parent : Ptr) (name : CString) (threads : ℕ) : Visitors → Type 0 where
  nobody_yet : Visited parent name threads (record {
    place = record { node = new_node parent name; linked = true };
    visits = replicate threads away;
  })
  moves :
      {s : Visitors} {place : Place} {v w : Visit} {sigs : List Signal} {vs : List Visit} (i : ℕ)
      → Visited parent name threads s
      → get_elem? s.visits i ≡ some v
      → Move s.place v place sigs w
      → AllWake sigs (set s.visits i w) vs
      → Visited parent name threads (record { place = place; visits = vs })
