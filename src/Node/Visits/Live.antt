-- ===== src/Node/Visits/Live.antt =====
-- Who goes on at a node, and who is still to be woken.
use mimuw_pw_tasks.Prelude.{ℕ, ◌+◌, ◌≤◌, ◌<◌, ◌^◌, ◌≡◌, true, false, List, [], ◌∷◌, arith}
use mimuw_pw_tasks.Prelude.Counting.{total}
use mimuw_pw_tasks.Store.{Node}
use mimuw_pw_tasks.Node.Visits.{
  Place, Visit, Signal, Move, reader_lock, reader_relock, writer_lock, writer_relock, away,
  reader_arrived, reader_blocked, reader_woken, reader_entered, reader_counted, reader_refused,
  reader_inside, below, turned_back, writer_arrived, writer_blocked, writer_woken, writer_entered,
  writer_waiting, writer_asleep, writer_passed, writer_refused, writer_inside, unlinked, discarding,
  discarder_asleep, released, discarded, removed, freeing, renaming, get_reader, get_writer,
  reader_waits, reader_enters, reader_wakes, reader_waits_again, reader_enters_late, reader_counts,
  reader_passes, reader_is_refused, reader_leaves, reader_turns_back, notifies, notifies_back,
  writer_waits, writer_enters, writer_wakes, writer_waits_again, writer_enters_late, writer_counts,
  writer_sleeps, writer_stirs, writer_goes_on, writer_passes, writer_is_refused, writer_leaves,
  writer_turns_back, unlinks, discards, discarder_sleeps, discarder_stirs, sees_none, ends_pass,
  remover_leaves, remover_notifies, mover_notifies, relinks,
}
use mimuw_pw_tasks.Node.Visits.Census.{Census, share, census}
use mimuw_pw_tasks.Node.Visits.Shares.{IsCensus, Moved}
use mimuw_pw_tasks.Node.Visits.Invariant.{Inv}
use mimuw_pw_tasks.Node.Visits.Signals.{Sleepers, rest, sleepers, Shifted, Stirs}

-- what the two censuses of the same threads have in common
pub record IsRested (c : Census) (z : Sleepers) : Type 0 where
  pub all :
      c.holding + c.frees
      ≡ z.moving + z.readers_blocked + z.writers_blocked + z.asleep + z.discarder
  pub outside :
      z.readers_blocked + z.readers_woken + z.writers_blocked + z.writers_woken + c.counted
      ≤ c.holding
  pub discards_write : c.discards + c.releases ≤ c.writing
  pub asleep_write : z.asleep ≤ c.writing
  pub discarder_discards : z.discarder ≤ c.discards
  pub readers_move : c.reading + z.readers_woken + z.writers_woken ≤ z.moving
  pub writers_move : c.writing ≤ z.moving + z.asleep + z.discarder
  pub counted_move : c.counted ≤ z.moving + z.asleep + z.discarder
  pub discards_move : c.discards ≤ z.moving + z.discarder
  pub last_move : c.releases + c.ends + c.frees ≤ z.moving

rest-IsRested : (v : Visit) → IsRested (share v) (rest v)
rest-IsRested away = omega arith
rest-IsRested reader_arrived = omega arith
rest-IsRested reader_blocked = omega arith
rest-IsRested reader_woken = omega arith
rest-IsRested reader_entered = omega arith
rest-IsRested reader_counted = omega arith
rest-IsRested reader_refused = omega arith
rest-IsRested reader_inside = omega arith
rest-IsRested below = omega arith
rest-IsRested turned_back = omega arith
rest-IsRested writer_arrived = omega arith
rest-IsRested writer_blocked = omega arith
rest-IsRested writer_woken = omega arith
rest-IsRested writer_entered = omega arith
rest-IsRested writer_waiting = omega arith
rest-IsRested writer_asleep = omega arith
rest-IsRested writer_passed = omega arith
rest-IsRested writer_refused = omega arith
rest-IsRested writer_inside = omega arith
rest-IsRested unlinked = omega arith
rest-IsRested discarding = omega arith
rest-IsRested discarder_asleep = omega arith
rest-IsRested released = omega arith
rest-IsRested discarded = omega arith
rest-IsRested removed = omega arith
rest-IsRested freeing = omega arith
rest-IsRested renaming = omega arith

pub sleepers-IsRested : (vs : List Visit) → IsRested (census vs) (sleepers vs)
unfolding census sleepers total
sleepers-IsRested [] = omega arith
sleepers-IsRested (v ∷ vs) = omega (arith, sleepers-IsRested vs, rest-IsRested v)

-- No wake-up is lost.
pub record Live (n : Node) (c : Census) (z : Sleepers) : Type 0 where
  pub readers_wait : n.readers_waiting ≡ z.readers_blocked + z.readers_woken
  pub writers_wait : n.writers_waiting ≡ z.writers_blocked + z.writers_woken
  -- before `emergency_pass`: as in SafeHashMap
  pub chain :
      c.discards + c.releases + c.ends + c.frees ≡ 0
      → 0 < c.reading
      → 0 < z.readers_blocked
      → 0 < z.readers_woken + n.writers_waiting
  pub writers_turn :
      c.discards + c.releases + c.ends + c.frees ≡ 0
      → c.reading + c.writing ≡ 0
      → 0 < z.writers_blocked
      → n.change ≡ true
      → 0 < z.writers_woken
  pub readers_turn :
      c.discards + c.releases + c.ends + c.frees ≡ 0
      → c.reading + c.writing ≡ 0
      → 0 < z.readers_blocked
      → n.change ≡ false
      → 0 < z.readers_woken
  pub active :
      c.discards + c.releases + c.ends + c.frees ≡ 0
      → 0 < z.readers_blocked + z.writers_blocked
      → 0 < c.reading + c.writing + z.readers_woken + z.writers_woken
  pub asleep_waits : c.discards + c.releases + c.ends + c.frees ≡ 0 → 0 < z.asleep → 2 ≤ c.counted
  -- while it is set: a reader has a thread before it that will wake it, and so has a writer
  pub readers_next :
      0 < c.discards → 0 < z.readers_blocked → 1 < z.readers_woken + n.writers_waiting + c.writing
  pub writers_next :
      0 < c.discards
      → 0 < z.writers_blocked
      → 1 < z.writers_woken + z.readers_woken + c.reading + c.writing
  pub none_asleep : 0 < c.discards → z.asleep ≡ 0
  pub discarder_waits : 0 < z.discarder → 2 ≤ c.holding

pub Move-Live :
    {threads : ℕ} {s t : Place} {c c' : Census} {z z1 z' : Sleepers} {v w : Visit}
    {sigs : List Signal}
    → threads < 2 ^ 31
    → IsCensus threads c
    → IsRested c z
    → IsRested c' z'
    → Inv s c
    → Live s.node c z
    → Move s v t sigs w
    → Moved c (share v) (share w) c'
    → Shifted z (rest v) (rest w) z1
    → Stirs sigs z1 z'
    → Live t.node c' z'
unfolding reader_lock reader_relock writer_lock writer_relock
Move-Live few all r r' inv live (get_reader e) m h g = ground arith
Move-Live few all r r' inv live (get_writer e) m h g = ground arith
Move-Live few all r r' inv live (reader_waits e) m h g = ground arith
Move-Live few all r r' inv live (reader_enters e) m h g = ground arith
Move-Live few all r r' inv live reader_wakes m h g = ground arith
Move-Live few all r r' inv live (reader_waits_again e) m h g = ground arith
Move-Live few all r r' inv live (reader_enters_late e) m h g = ground arith
Move-Live few all r r' inv live reader_counts m h g = ground arith
Move-Live few all r r' inv live (reader_passes e) m h g = ground arith
Move-Live few all r r' inv live (reader_is_refused e) m h g = ground arith
Move-Live few all r r' inv live reader_leaves m h g = ground arith
Move-Live few all r r' inv live reader_turns_back m h g = ground arith
Move-Live few all r r' inv live notifies m h g = ground arith
Move-Live few all r r' inv live notifies_back m h g = ground arith
Move-Live few all r r' inv live (writer_waits e) m h g = ground arith
Move-Live few all r r' inv live (writer_enters e) m h g = ground arith
Move-Live few all r r' inv live writer_wakes m h g = ground arith
Move-Live few all r r' inv live (writer_waits_again e) m h g = ground arith
Move-Live few all r r' inv live (writer_enters_late e) m h g = ground arith
Move-Live few all r r' inv live writer_counts m h g = ground arith
Move-Live few all r r' inv live (writer_sleeps e) m h g = ground arith
Move-Live few all r r' inv live writer_stirs m h g = ground arith
Move-Live few all r r' inv live (writer_goes_on e) m h g = ground arith
Move-Live few all r r' inv live (writer_passes e) m h g = ground arith
Move-Live few all r r' inv live (writer_is_refused e) m h g = ground arith
Move-Live few all r r' inv live writer_leaves m h g = ground arith
Move-Live few all r r' inv live writer_turns_back m h g = ground arith
Move-Live few all r r' inv live unlinks m h g = ground arith
Move-Live few all r r' inv live discards m h g = ground arith
Move-Live few all r r' inv live (discarder_sleeps e) m h g = ground arith
Move-Live few all r r' inv live discarder_stirs m h g = ground arith
Move-Live few all r r' inv live (sees_none e) m h g = ground arith
Move-Live few all r r' inv live ends_pass m h g = ground arith
Move-Live few all r r' inv live remover_leaves m h g = ground arith
Move-Live few all r r' inv live remover_notifies m h g = ground arith
Move-Live few all r r' inv live mover_notifies m h g = ground arith
Move-Live few all r r' inv live (relinks e) m h g = ground arith
