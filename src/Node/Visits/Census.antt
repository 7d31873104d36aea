-- ===== src/Node/Visits/Census.antt =====
-- How many threads at a node stand where.
use mimuw_pw_tasks.Prelude.{ℕ, List}
use mimuw_pw_tasks.Prelude.Counting.{total}
use mimuw_pw_tasks.Node.Visits.{
  Visit, away, reader_arrived, reader_blocked, reader_woken, reader_entered, reader_counted,
  reader_refused, reader_inside, below, turned_back, writer_arrived, writer_blocked, writer_woken,
  writer_entered, writer_waiting, writer_asleep, writer_passed, writer_refused, writer_inside,
  unlinked, discarding, discarder_asleep, released, discarded, removed, freeing, renaming,
}

-- The threads that hold a pointer to the node, and those of them that are not about to leave it to be
-- freed; the readers and the writers; those that `subtree_threads` counts, and those of them that work in
-- the node or below it; the writers that are not between both their loops and their leave or
-- `node_discard_waiting`, the one that is, and the counted threads besides it; and the one that removes the
-- node, by the stages of that.
pub record Census : Type 0 where
  pub holding : ℕ
  pub staying : ℕ
  pub reading : ℕ
  pub writing : ℕ
  pub counted : ℕ
  pub at_work : ℕ
  pub not_alone : ℕ
  pub alone : ℕ
  pub accompanied : ℕ
  pub unlinking : ℕ
  pub discards : ℕ
  pub releases : ℕ
  pub ends : ℕ
  pub frees : ℕ

abbrev pub nobody : Census
nobody = record {
  holding = 0;
  staying = 0;
  reading = 0;
  writing = 0;
  counted = 0;
  at_work = 0;
  not_alone = 0;
  alone = 0;
  accompanied = 0;
  unlinking = 0;
  discards = 0;
  releases = 0;
  ends = 0;
  frees = 0;
}

-- one thread's share
abbrev pub share : Visit → Census
share away = nobody
share reader_arrived = record nobody { holding = 1; staying = 1 }
share reader_blocked = record nobody { holding = 1; staying = 1 }
share reader_woken = record nobody { holding = 1; staying = 1 }
share reader_entered = record nobody { holding = 1; staying = 1; reading = 1 }
share reader_counted = record nobody {
  holding = 1;
  staying = 1;
  reading = 1;
  counted = 1;
  accompanied = 1;
}
share reader_refused = record nobody {
  holding = 1;
  staying = 1;
  reading = 1;
  counted = 1;
  accompanied = 1;
}
share reader_inside = record nobody {
  holding = 1;
  staying = 1;
  reading = 1;
  counted = 1;
  at_work = 1;
  accompanied = 1;
}
share below = record nobody { holding = 1; staying = 1; counted = 1; at_work = 1; accompanied = 1 }
share turned_back = record nobody { holding = 1; staying = 1; counted = 1; accompanied = 1 }
share writer_arrived = record nobody { holding = 1; staying = 1 }
share writer_blocked = record nobody { holding = 1; staying = 1 }
share writer_woken = record nobody { holding = 1; staying = 1 }
share writer_entered = record nobody { holding = 1; staying = 1; writing = 1; not_alone = 1 }
share writer_waiting = record nobody {
  holding = 1;
  staying = 1;
  writing = 1;
  counted = 1;
  not_alone = 1;
  accompanied = 1;
}
share writer_asleep = record nobody {
  holding = 1;
  staying = 1;
  writing = 1;
  counted = 1;
  not_alone = 1;
  accompanied = 1;
}
share writer_passed = record nobody {
  holding = 1;
  staying = 1;
  writing = 1;
  counted = 1;
  alone = 1;
}
share writer_refused = record nobody {
  holding = 1;
  staying = 1;
  writing = 1;
  counted = 1;
  not_alone = 1;
  accompanied = 1;
}
share writer_inside = record nobody {
  holding = 1;
  staying = 1;
  writing = 1;
  counted = 1;
  at_work = 1;
  alone = 1;
}
share unlinked = record nobody {
  holding = 1;
  staying = 1;
  writing = 1;
  counted = 1;
  alone = 1;
  unlinking = 1;
}
share discarding = record nobody {
  holding = 1;
  staying = 1;
  writing = 1;
  counted = 1;
  not_alone = 1;
  accompanied = 1;
  discards = 1;
}
share discarder_asleep = record nobody {
  holding = 1;
  staying = 1;
  writing = 1;
  counted = 1;
  not_alone = 1;
  accompanied = 1;
  discards = 1;
}
share released = record nobody {
  holding = 1;
  writing = 1;
  counted = 1;
  not_alone = 1;
  accompanied = 1;
  releases = 1;
}
share discarded = record nobody {
  holding = 1;
  writing = 1;
  counted = 1;
  not_alone = 1;
  accompanied = 1;
  ends = 1;
}
share removed = record nobody { holding = 1; counted = 1; accompanied = 1; ends = 1 }
share freeing = record nobody { frees = 1 }
share renaming = record nobody { frees = 1 }

unfoldable pub census : List Visit → Census
census vs = record {
  holding = total (λ v. (share v).holding) vs;
  staying = total (λ v. (share v).staying) vs;
  reading = total (λ v. (share v).reading) vs;
  writing = total (λ v. (share v).writing) vs;
  counted = total (λ v. (share v).counted) vs;
  at_work = total (λ v. (share v).at_work) vs;
  not_alone = total (λ v. (share v).not_alone) vs;
  alone = total (λ v. (share v).alone) vs;
  accompanied = total (λ v. (share v).accompanied) vs;
  unlinking = total (λ v. (share v).unlinking) vs;
  discards = total (λ v. (share v).discards) vs;
  releases = total (λ v. (share v).releases) vs;
  ends = total (λ v. (share v).ends) vs;
  frees = total (λ v. (share v).frees) vs;
}
