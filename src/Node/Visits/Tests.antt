-- ===== src/Node/Visits/Tests.antt =====
-- A run of two threads at a node of Zaliczeniowe_2/Node.c: one removes it, the other comes too late.
use mimuw_pw_tasks.Prelude.{
  ℕ, zero, suc, ◌≡◌, ◌≢◌, refl, true, none, some, [], ◌∷◌, arith, get_elem?,
}
use mimuw_pw_tasks.Node.{new_node}
use mimuw_pw_tasks.Node.Visits.{
  Visit, away, writer_inside, freeing, discarding, reader_woken, reader_entered, turned_back,
  removed, reader_blocked, Visitors, Visited, nobody_yet, moves, reader_lock, reader_relock,
  writer_lock, get_reader, get_writer, reader_waits, reader_enters_late, reader_counts,
  reader_is_refused, reader_turns_back, notifies_back, writer_enters, writer_counts, writer_goes_on,
  writer_passes, unlinks, discards, sees_none, ends_pass, remover_leaves, remover_notifies, Signal,
  readers, writers, private_access, stirred, Wakes, one, none_blocked, AllWake, no_signals, signals,
}
use mimuw_pw_tasks.Node.Visits.Census.{census}
use mimuw_pw_tasks.Node.Visits.Invariant.{Exact}
use mimuw_pw_tasks.Node.Visits.Safety.{
  counters_lem, writer_alone, freed_alone, goes_past, is_moving,
}

Wakes-nobody :
    (sig : Signal) (v w : Visit)
    → stirred sig v ≡ none
    → stirred sig w ≡ none
    → Wakes sig (v ∷ w ∷ []) (v ∷ w ∷ [])
Wakes-nobody sig v w p q = none_blocked neither
  where
    neither : (i : ℕ) (u : Visit) → get_elem? (v ∷ w ∷ []) i ≡ some u → stirred sig u ≡ none
    neither zero u h = cc
    neither (suc zero) u h = cc
    neither (suc (suc i)) u h = cc

AllWake-nobody :
    (sig : Signal) (v w : Visit)
    → stirred sig v ≡ none
    → stirred sig w ≡ none
    → AllWake (sig ∷ []) (v ∷ w ∷ []) (v ∷ w ∷ [])
AllWake-nobody sig v w p q = signals (Wakes-nobody sig v w p q) no_signals

-- The first thread has entered as a writer, the second one waits as a reader.
entered : (s : Visitors) × Visited 1 [] 2 s
unfolding new_node reader_lock writer_lock
entered =
    let start : Visited 1 [] 2 _ = nobody_yet in
    let r1 = moves 0 start refl (get_writer refl) no_signals in
    let r2 = moves 1 r1 refl (get_reader refl) no_signals in
    let r3 = moves 0 r2 refl (writer_enters refl) no_signals in
    let r4 = moves 1 r3 refl (reader_waits refl) no_signals in
    let r5 = moves 0 r4 refl writer_counts no_signals in
    let r6 = moves 0 r5 refl (writer_goes_on refl) no_signals in
    let r7 = moves 0 r6 refl (writer_passes refl) no_signals in (_, r7)

-- It has removed the node, and the second one, which it has woken, has turned back.
freed : (s : Visitors) × Visited 1 [] 2 s
unfolding entered new_node reader_lock reader_relock writer_lock
freed =
    let r8 = moves 0 (entered.1) refl unlinks no_signals in
    let to_all = signals (one 1 refl refl) (
      signals (Wakes-nobody writers discarding reader_woken refl refl)
        (AllWake-nobody private_access discarding reader_woken refl refl)) in
    let r9 = moves 0 r8 refl discards to_all in
    let r10 =
      moves 1 r9 refl (reader_enters_late refl)
        (AllWake-nobody readers discarding reader_entered refl refl) in
    let r11 = moves 1 r10 refl reader_counts no_signals in
    let r12 = moves 1 r11 refl (reader_is_refused refl) no_signals in
    let r13 =
      moves 1 r12 refl reader_turns_back
        (AllWake-nobody writers discarding turned_back refl refl) in
    let r14 =
      moves 1 r13 refl notifies_back (AllWake-nobody private_access discarding away refl refl) in
    let r15 = moves 0 r14 refl (sees_none refl) no_signals in
    let r16 = moves 0 r15 refl ends_pass no_signals in
    let r17 = moves 0 r16 refl remover_leaves (AllWake-nobody writers removed away refl refl) in
    let r18 =
      moves 0 r17 refl remover_notifies (AllWake-nobody private_access freeing away refl refl) in
    (_, r18)

counters_lem_example : Exact (entered.0.place.node) (census (entered.0.visits))
counters_lem_example = counters_lem refl (omega arith) (entered.1)

writer_alone_example : ◌≡◌ {A = ℕ} 0 0
unfolding entered new_node reader_lock writer_lock
writer_alone_example =
    writer_alone refl (omega arith) (entered.1) 0 0 writer_inside writer_inside refl refl refl refl

freed_alone_example : ◌≡◌ {A = Visit} away away
unfolding freed entered new_node reader_lock reader_relock writer_lock
freed_alone_example =
    freed_alone refl (omega arith) (freed.1) 0 1 freeing away refl refl refl (omega arith)

reader_blocked-ne-away : reader_blocked ≢ away
reader_blocked-ne-away e = cc

goes_past_example :
    (j : ℕ) × (w : Visit) × (get_elem? (entered.0.visits) j ≡ some w) × (is_moving w ≡ true)
unfolding entered new_node reader_lock writer_lock
goes_past_example =
    goes_past refl (omega arith) (entered.1) 1 reader_blocked refl reader_blocked-ne-away
