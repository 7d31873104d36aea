-- ===== src/Node/Visits/Safety.antt =====
-- What the threads at a node never do.
use mimuw_pw_tasks.Prelude.{
  List, ℕ, ◌+◌, ◌≤◌, ◌<◌, ◌^◌, ◌≡◌, ◌≢◌, refl, Bool, true, false, some, List, arith, get_elem?,
  ℕ_discrete, ◌==◌,
}
use mimuw_pw_tasks.Prelude.Counting.{total-pos, le-total, le-total_two}
use mimuw_pw_tasks.CString.{CString}
use mimuw_pw_tasks.Store.{Ptr, null}
use mimuw_pw_tasks.Node.Visits.{
  Visit, Place, Visitors, Visited, away, reader_blocked, reader_inside, below, writer_blocked,
  writer_asleep, writer_inside, unlinked, discarding, discarder_asleep, released, discarded,
  freeing, renaming,
}
use mimuw_pw_tasks.Node.Visits.Census.{Census, census, share}
use mimuw_pw_tasks.Node.Visits.Shares.{IsCensus, census-IsCensus}
use mimuw_pw_tasks.Node.Visits.Invariant.{Exact, Inv}
use mimuw_pw_tasks.Node.Visits.Signals.{Sleepers, rest, sleepers}
use mimuw_pw_tasks.Node.Visits.Live.{Live, IsRested, sleepers-IsRested}
use mimuw_pw_tasks.Node.Visits.Reached.{Visited-IsSound}

-- a writer between its protocols, which `emergency_pass` has not let in
abbrev pub is_exclusive : Visit → Bool
is_exclusive writer_inside = true
is_exclusive unlinked = true
is_exclusive discarding = true
is_exclusive released = true
is_exclusive discarded = true
is_exclusive _ = false

-- a thread that works with the node or below it
abbrev pub is_at_work : Visit → Bool
is_at_work reader_inside = true
is_at_work below = true
is_at_work v = is_exclusive v

-- two threads among those of a census
record Two (c p q : Census) : Type 0 where
  holding : p.holding + q.holding ≤ c.holding
  counted : p.counted + q.counted ≤ c.counted
  at_work : p.at_work + q.at_work ≤ c.at_work
  alone : p.alone + q.alone ≤ c.alone
  unlinking : p.unlinking + q.unlinking ≤ c.unlinking
  discards : p.discards + q.discards ≤ c.discards
  releases : p.releases + q.releases ≤ c.releases
  ends : p.ends + q.ends ≤ c.ends
  frees : p.frees + q.frees ≤ c.frees

shares-Two :
    (vs : List Visit) (i j : ℕ) (v w : Visit)
    → get_elem? vs i ≡ some v
    → get_elem? vs j ≡ some w
    → i ≢ j
    → Two (census vs) (share v) (share w)
unfolding census
shares-Two vs i j v w at_i at_j d = record {
  holding = le-total_two (λ u. (share u).holding) vs i j v w at_i at_j d;
  counted = le-total_two (λ u. (share u).counted) vs i j v w at_i at_j d;
  at_work = le-total_two (λ u. (share u).at_work) vs i j v w at_i at_j d;
  alone = le-total_two (λ u. (share u).alone) vs i j v w at_i at_j d;
  unlinking = le-total_two (λ u. (share u).unlinking) vs i j v w at_i at_j d;
  discards = le-total_two (λ u. (share u).discards) vs i j v w at_i at_j d;
  releases = le-total_two (λ u. (share u).releases) vs i j v w at_i at_j d;
  ends = le-total_two (λ u. (share u).ends) vs i j v w at_i at_j d;
  frees = le-total_two (λ u. (share u).frees) vs i j v w at_i at_j d;
}

-- what the shares of such threads add up to
exclusive_share :
    (v : Visit)
    → is_exclusive v ≡ true
    → ((share v).holding ≡ 1)
      × ((share v).counted ≡ 1)
      × ((share v).alone + (share v).discards + (share v).releases + (share v).ends ≡ 1)
exclusive_share writer_inside h = omega arith
exclusive_share unlinked h = omega arith
exclusive_share discarding h = omega arith
exclusive_share released h = omega arith
exclusive_share discarded h = omega arith
exclusive_share v h = cc

work_share :
    (v : Visit)
    → is_at_work v ≡ true
    → ((share v).holding ≡ 1)
      × ((share v).counted ≡ 1)
      × ((share v).at_work
            + (share v).unlinking
            + (share v).discards
            + (share v).releases
            + (share v).ends
          ≡ 1)
work_share reader_inside h = omega arith
work_share below h = omega arith
work_share writer_inside h = omega arith
work_share unlinked h = omega arith
work_share discarding h = omega arith
work_share released h = omega arith
work_share discarded h = omega arith
work_share v h = cc

clash :
    {place : Place} {c : Census} {threads : ℕ}
    → Inv place c
    → IsCensus threads c
    → (v w : Visit) → is_exclusive v ≡ true
    → is_at_work w ≡ true
    → Two c (share v) (share w)
    → ⊥
clash inv all v w exclusive works two =
    let a = exclusive_share v exclusive in let b = work_share w works in ground arith

-- a thread that frees the node or renames it
abbrev pub is_last : Visit → Bool
is_last freeing = true
is_last renaming = true
is_last _ = false

last_share : (v : Visit) → is_last v ≡ true → (share v).frees ≡ 1
last_share freeing h = refl
last_share renaming h = refl
last_share v h = cc

nobody_left :
    {place : Place} {c : Census} (v w : Visit)
    → Inv place c
    → is_last v ≡ true
    → Two c (share v) (share w)
    → w ≡ away
nobody_left v away inv last two = refl
nobody_left v w inv last two = let one = last_share v last in absurd (ground arith)

-- a thread that neither is away nor waits for a signal
abbrev pub is_moving : Visit → Bool
is_moving away = false
is_moving reader_blocked = false
is_moving writer_blocked = false
is_moving writer_asleep = false
is_moving discarder_asleep = false
is_moving _ = true

moving_lem : (v : Visit) → 0 < (rest v).moving → is_moving v ≡ true
moving_lem away h = absurd (omega arith)
moving_lem reader_blocked h = absurd (omega arith)
moving_lem writer_blocked h = absurd (omega arith)
moving_lem writer_asleep h = absurd (omega arith)
moving_lem discarder_asleep h = absurd (omega arith)
moving_lem v h = refl

some-holding : (v : Visit) → v ≢ away → 0 < (share v).holding + (share v).frees
some-holding away h = absurd (h refl)
some-holding v h = omega arith

somebody-moves :
    {place : Place} {c : Census} {z : Sleepers} {threads : ℕ}
    → IsCensus threads c
    → IsRested c z
    → Inv place c
    → Live place.node c z
    → 0 < c.holding + c.frees
    → 0 < z.moving
somebody-moves all r inv live here = ground arith

module _ {parent : Ptr} {name : CString} {threads : ℕ} {s : Visitors}
    (below_root : (parent == null) ≡ false) (few : threads < 2 ^ 31)
    (r : Visited parent name threads s) where
  -- The counters of a node are the numbers of threads that hold a pointer to it, that read, that
  -- write, and that are in it or below it, and none overflows, for fewer than 2 ^ 31 threads.
  pub counters_lem : Exact s.place.node (census s.visits)
  counters_lem = (Visited-IsSound below_root few r).inv.exact

  -- While a writer that `emergency_pass` has not let in is between its two protocols, no other thread
  -- works in the node or below it, however fewer than 2 ^ 31 threads were interleaved.
  pub writer_alone :
      (i j : ℕ) (v w : Visit)
      → get_elem? s.visits i ≡ some v
      → get_elem? s.visits j ≡ some w
      → is_exclusive v ≡ true
      → is_at_work w ≡ true
      → i ≡ j
  writer_alone i j v w at_i at_j exclusive works = elim (ℕ_discrete i j) [
    | yes e ↦ e
    | no d ↦
        let inv = (Visited-IsSound below_root few r).inv in
        let all = census-IsCensus s.visits in
        absurd (clash inv all v w exclusive works (shares-Two s.visits i j v w at_i at_j d))
  ]

  -- When a thread frees the node in `tree_remove`, or gives it its new name and parent in `tree_move`, no
  -- other thread holds a pointer to it, however fewer than 2 ^ 31 threads were interleaved.
  pub freed_alone :
      (i j : ℕ) (v w : Visit)
      → get_elem? s.visits i ≡ some v
      → get_elem? s.visits j ≡ some w
      → is_last v ≡ true
      → i ≢ j
      → w ≡ away
  freed_alone i j v w at_i at_j last d =
      let inv = (Visited-IsSound below_root few r).inv in
      nobody_left v w inv last (shares-Two s.visits i j v w at_i at_j d)

  -- No wake-up is lost: while a thread is at the node or below it, some thread neither is away nor waits
  -- for a signal, however fewer than 2 ^ 31 threads were interleaved.
  pub goes_past :
      (i : ℕ) (v : Visit)
      → get_elem? s.visits i ≡ some v
      → v ≢ away
      → (j : ℕ) × (w : Visit) × (get_elem? s.visits j ≡ some w) × (is_moving w ≡ true)
  unfolding census sleepers
  goes_past i v at_i here =
      let sound = Visited-IsSound below_root few r in
      let holding = le-total (λ u. (share u).holding) s.visits i v at_i in
      let frees = le-total (λ u. (share u).frees) s.visits i v at_i in
      let some_share = some-holding v here in
      let (j, w, at_j, moves_on) =
        total-pos (λ u. (rest u).moving) s.visits
          (somebody-moves (census-IsCensus s.visits) (sleepers-IsRested s.visits) sound.inv
            sound.live (omega arith)) in
      (j, w, at_j, moving_lem w moves_on)
