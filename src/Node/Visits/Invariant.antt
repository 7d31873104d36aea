-- ===== src/Node/Visits/Invariant.antt =====
-- What holds of a node and the threads at it.
use mimuw_pw_tasks.Prelude.{ℕ, ◌+◌, ◌≤◌, ◌<◌, ◌^◌, ◌≡◌, true, false, List, arith, ◌==◌}
use mimuw_pw_tasks.Store.{Node, null}
use mimuw_pw_tasks.Node.Visits.{
  Place, Visit, Signal, Move, reader_lock, reader_relock, writer_lock, writer_relock, get_reader,
  get_writer, reader_waits, reader_enters, reader_waits_again, reader_enters_late, reader_counts,
  reader_passes, reader_is_refused, reader_leaves, reader_turns_back, notifies, notifies_back,
  writer_waits, writer_enters, writer_waits_again, writer_enters_late, writer_counts,
  writer_goes_on, writer_passes, writer_is_refused, writer_leaves, writer_turns_back, unlinks,
  discards, sees_none, reader_wakes, writer_wakes, writer_sleeps, writer_stirs, discarder_sleeps,
  discarder_stirs, ends_pass, remover_leaves, remover_notifies, mover_notifies, relinks,
}
use mimuw_pw_tasks.Node.Visits.Census.{Census, share}
use mimuw_pw_tasks.Node.Visits.Shares.{IsCensus, Moved}

pub record Exact (n : Node) (c : Census) : Type 0 where
  pub not_root : (n.parent == null) ≡ false
  pub gets : n.safe_hmap_get_count ≡ c.holding
  pub readers_in : n.readers_inside ≡ c.reading
  pub writers_in : n.writers_inside ≡ c.writing
  pub threads_in : n.subtree_threads ≡ c.counted

pub record Inv (s : Place) (c : Census) : Type 0 where
  pub exact : Exact s.node c
  -- one thread removes the node, if any
  pub one_remover : c.unlinking + c.discards + c.releases + c.ends + c.frees ≤ 1
  pub kept : s.linked ≡ true → c.unlinking + c.discards + c.releases + c.ends + c.frees ≡ 0
  pub lost : s.linked ≡ false → c.unlinking + c.discards + c.releases + c.ends + c.frees ≡ 1
  pub passing : s.node.emergency_pass ≡ true → c.discards + c.releases ≡ 1
  pub not_passing : s.node.emergency_pass ≡ false → c.discards + c.releases ≡ 0
  -- before `emergency_pass`
  pub single : c.discards + c.releases + c.ends + c.frees ≡ 0 → c.writing ≤ 1
  pub apart : c.discards + c.releases + c.ends + c.frees ≡ 0 → 0 < c.writing → c.reading ≡ 0
  pub private_access : c.discards + c.releases + c.ends + c.frees ≡ 0 → 0 < c.alone → c.counted ≡ 1
  -- while it is set, and after it
  pub all_refused : 0 < c.discards → c.at_work ≡ 0
  pub all_left : 0 < c.releases + c.ends → c.holding ≡ 1
  pub all_gone : 0 < c.frees → c.holding ≡ 0

-- A move of one thread keeps it.
pub Move-Inv :
    {threads : ℕ} {s t : Place} {c c' : Census} {v w : Visit} {sigs : List Signal}
    → threads < 2 ^ 31
    → IsCensus threads c
    → Inv s c
    → Move s v t sigs w
    → Moved c (share v) (share w) c'
    → Inv t c'
unfolding reader_lock reader_relock writer_lock writer_relock
Move-Inv few all inv (get_reader e) m = ground arith
Move-Inv few all inv (get_writer e) m = ground arith
Move-Inv few all inv (reader_waits e) m = ground arith
Move-Inv few all inv (reader_enters e) m = ground arith
Move-Inv few all inv reader_wakes m = ground arith
Move-Inv few all inv (reader_waits_again e) m = ground arith
Move-Inv few all inv (reader_enters_late e) m = ground arith
Move-Inv few all inv reader_counts m = ground arith
Move-Inv few all inv (reader_passes e) m = ground arith
Move-Inv few all inv (reader_is_refused e) m = ground arith
Move-Inv few all inv reader_leaves m = ground arith
Move-Inv few all inv reader_turns_back m = ground arith
Move-Inv few all inv notifies m = ground arith
Move-Inv few all inv notifies_back m = ground arith
Move-Inv few all inv (writer_waits e) m = ground arith
Move-Inv few all inv (writer_enters e) m = ground arith
Move-Inv few all inv writer_wakes m = ground arith
Move-Inv few all inv (writer_waits_again e) m = ground arith
Move-Inv few all inv (writer_enters_late e) m = ground arith
Move-Inv few all inv writer_counts m = ground arith
Move-Inv few all inv (writer_sleeps e) m = ground arith
Move-Inv few all inv writer_stirs m = ground arith
Move-Inv few all inv (writer_goes_on e) m = ground arith
Move-Inv few all inv (writer_passes e) m = ground arith
Move-Inv few all inv (writer_is_refused e) m = ground arith
Move-Inv few all inv writer_leaves m = ground arith
Move-Inv few all inv writer_turns_back m = ground arith
Move-Inv few all inv unlinks m = ground arith
Move-Inv few all inv discards m = ground arith
Move-Inv few all inv (discarder_sleeps e) m = ground arith
Move-Inv few all inv discarder_stirs m = ground arith
Move-Inv few all inv (sees_none e) m = ground arith
Move-Inv few all inv ends_pass m = ground arith
Move-Inv few all inv remover_leaves m = ground arith
Move-Inv few all inv remover_notifies m = ground arith
Move-Inv few all inv mover_notifies m = ground arith
Move-Inv few all inv (relinks e) m = ground arith
