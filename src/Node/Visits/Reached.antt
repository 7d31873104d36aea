-- ===== src/Node/Visits/Reached.antt =====
-- What holds of the threads at a node after any moves.
use mimuw_pw_tasks.Prelude.{
  sym, set, List, ℕ, ◌<◌, ◌^◌, ◌≡◌, refl, ◌∙◌, true, false, some, List, arith, get_elem?, length,
  length-set, length-replicate, replicate, ◌==◌,
}
use mimuw_pw_tasks.Prelude.Counting.{total-replicate}
use mimuw_pw_tasks.CString.{CString}
use mimuw_pw_tasks.Store.{Ptr, null}
use mimuw_pw_tasks.Node.{new_node}
use mimuw_pw_tasks.Node.Visits.{
  Visit, Place, Signal, Move, AllWake, Visitors, Visited, nobody_yet, moves, away,
}
use mimuw_pw_tasks.Node.Visits.Census.{census, share}
use mimuw_pw_tasks.Node.Visits.Shares.{IsCensus, Moved, set-Moved, census-IsCensus}
use mimuw_pw_tasks.Node.Visits.Invariant.{Inv, Move-Inv}
use mimuw_pw_tasks.Node.Visits.Signals.{
  rest, sleepers, set-Shifted, AllWake-Stirs, AllWake-census, length-AllWake,
}
use mimuw_pw_tasks.Node.Visits.Live.{Live, Move-Live, sleepers-IsRested}

length-Visited :
    {parent : Ptr} {name : CString} {threads : ℕ} {s : Visitors}
    → Visited parent name threads s
    → length s.visits ≡ threads
length-Visited {threads} nobody_yet = length-replicate threads away
length-Visited (moves {s} {w} i before at_i m wakes) =
    length-AllWake wakes ∙ length-set s.visits i w ∙ length-Visited before

start-Inv :
    (parent : Ptr) (name : CString) (threads : ℕ)
    → (parent == null) ≡ false
    → Inv (record { node = new_node parent name; linked = true }) (census (replicate threads away))
unfolding new_node census
start-Inv parent name threads below_root =
    let z = λ (w : Visit → ℕ) (e : w away ≡ 0). total-replicate w away threads e in
    ground (
      arith,
      below_root,
      z (λ v. (share v).holding) refl,
      z (λ v. (share v).reading) refl,
      z (λ v. (share v).writing) refl,
      z (λ v. (share v).counted) refl,
      z (λ v. (share v).at_work) refl,
      z (λ v. (share v).alone) refl,
      z (λ v. (share v).unlinking) refl,
      z (λ v. (share v).discards) refl,
      z (λ v. (share v).releases) refl,
      z (λ v. (share v).ends) refl,
      z (λ v. (share v).frees) refl,
    )

start-Live :
    (parent : Ptr) (name : CString) (threads : ℕ)
    → Live
        (new_node parent name)
        (census (replicate threads away))
        (sleepers (replicate threads away))
unfolding new_node census sleepers
start-Live parent name threads =
    let z = λ (w : Visit → ℕ) (e : w away ≡ 0). total-replicate w away threads e in
    ground (
      arith,
      z (λ v. (share v).reading) refl,
      z (λ v. (share v).writing) refl,
      z (λ v. (share v).discards) refl,
      z (λ v. (rest v).readers_blocked) refl,
      z (λ v. (rest v).readers_woken) refl,
      z (λ v. (rest v).writers_blocked) refl,
      z (λ v. (rest v).writers_woken) refl,
      z (λ v. (rest v).asleep) refl,
      z (λ v. (rest v).discarder) refl,
    )

pub record IsSound (s : Visitors) : Type 0 where
  pub inv : Inv s.place (census s.visits)
  pub live : Live s.place.node (census s.visits) (sleepers s.visits)

move-IsSound :
    {threads : ℕ} {s : Visitors} {place : Place} {v w : Visit} {sigs : List Signal}
    {vs : List Visit} (i : ℕ)
    → threads < 2 ^ 31
    → length s.visits ≡ threads
    → IsSound s
    → get_elem? s.visits i ≡ some v
    → Move s.place v place sigs w
    → AllWake sigs (set s.visits i w) vs
    → IsSound (record { place = place; visits = vs })
move-IsSound {threads} {s} {v} {w} {vs} i few size sound at_i m wakes =
    let all : IsCensus threads (census s.visits) = rw (sym size) (census-IsCensus s.visits) in
    let moved = set-Moved s.visits i v w at_i in
    let same = AllWake-census wakes in
    let moved' : Moved (census s.visits) (share v) (share w) (census vs) = rw same moved in
    record {
      inv = Move-Inv few all sound.inv m moved';
      live =
          Move-Live few all (sleepers-IsRested s.visits) (sleepers-IsRested vs) sound.inv sound.live
            m moved' (set-Shifted s.visits i v w at_i) (AllWake-Stirs wakes);
    }

pub Visited-IsSound :
    {parent : Ptr} {name : CString} {threads : ℕ} {s : Visitors}
    → (parent == null) ≡ false
    → threads < 2 ^ 31
    → Visited parent name threads s
    → IsSound s
Visited-IsSound {parent} {name} {threads} below_root few nobody_yet = record {
  inv = start-Inv parent name threads below_root;
  live = start-Live parent name threads;
}
Visited-IsSound below_root few (moves i before at_i m wakes) =
    move-IsSound i few (length-Visited before) (Visited-IsSound below_root few before) at_i m wakes
