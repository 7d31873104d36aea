-- ===== src/SafeHashMap/Safety.antt =====
-- The states that the threads of a SafeHashMap reach.
use mimuw_pw_tasks.Prelude.{
  ℕ, ◌+◌, ◌^◌, ◌<◌, ◌≡◌, refl, ◌∙◌, true, not, some, List, arith, get_elem?, length, length-set,
  length-replicate, replicate, ℕ_discrete, dec_lt, Option, none,
}
use mimuw_pw_tasks.Prelude.Counting.{total, total-replicate, total-pos, le-total, le-total_two}
use mimuw_pw_tasks.SafeHashMap.{Signal, safe_hmap_new, Request, is_writer}
use mimuw_pw_tasks.SafeHashMap.Threads.{
  Pc, idle, blocked, woken, inside, working, finished, System, Wakes, one, none_blocked, Step,
  arrive_waiting, arrive_entering, wake, wait_again, enter_late, load, store, leave, Reach, begin,
  next,
}
use mimuw_pw_tasks.SafeHashMap.Census.{
  share, bit, census, set-Moved, Wakes-Signalled, census-IsSmall,
}
use mimuw_pw_tasks.SafeHashMap.Invariant.{
  Exact, Inv, arrive_waiting-Inv, arrive_entering-Inv, wake-Inv, load-Inv, store-Inv,
  wait_again-Inv, enter_late-Inv, leave-Inv,
}

module _ {ℓ} {V : Type ℓ} where
  length-Wakes : {sig : Signal} {ps qs : List (Pc V)} → Wakes sig ps qs → length qs ≡ length ps
  length-Wakes {ps} (one i r h on) = length-set ps i (woken r)
  length-Wakes (none_blocked h) = refl

  pub length-Step : {s t : System V} → Step s t → length t.pcs ≡ length s.pcs
  length-Step {s} (arrive_waiting i r h e) = length-set s.pcs i (blocked r)
  length-Step {s} (arrive_entering i r h e w) = length-Wakes w ∙ length-set s.pcs i (inside r)
  length-Step {s} (wake i r h) = length-set s.pcs i (woken r)
  length-Step {s} (wait_again i r h e) = length-set s.pcs i (blocked r)
  length-Step {s} (enter_late i r h e w) = length-Wakes w ∙ length-set s.pcs i (inside r)
  length-Step {s} (load i r h) = length-set s.pcs i (working r s.shared.map)
  length-Step {s} (store i r seen {a} h e) = length-set s.pcs i (finished r a)
  length-Step {s} (leave i r a h e w) = length-Wakes w ∙ length-set s.pcs i idle

  Step-Inv :
      {s t : System V}
      → length s.pcs < 2 ^ 31
      → Step s t
      → Inv s.shared (census s.pcs)
      → Inv t.shared (census t.pcs)
  Step-Inv {s} few (arrive_waiting i r h e) inv =
      arrive_waiting-Inv r inv (census-IsSmall s.pcs few) e (set-Moved s.pcs i idle (blocked r) h)
  Step-Inv {s} few (arrive_entering i r h e w) inv =
      arrive_entering-Inv r inv (census-IsSmall s.pcs few) e (set-Moved s.pcs i idle (inside r) h)
        (Wakes-Signalled w)
  Step-Inv {s} few (wake i r h) inv = wake-Inv r inv (set-Moved s.pcs i (blocked r) (woken r) h)
  Step-Inv {s} few (wait_again i r h e) inv =
      wait_again-Inv r inv (census-IsSmall s.pcs few) e (set-Moved s.pcs i (woken r) (blocked r) h)
  Step-Inv {s} few (enter_late i r h e w) inv =
      enter_late-Inv r inv (census-IsSmall s.pcs few) e (set-Moved s.pcs i (woken r) (inside r) h)
        (Wakes-Signalled w)
  Step-Inv {s} few (load i r h) inv =
      load-Inv r s.shared.map inv (set-Moved s.pcs i (inside r) (working r s.shared.map) h)
  Step-Inv {s} few (store i r seen {a} h e) inv =
      store-Inv r seen a inv (set-Moved s.pcs i (working r seen) (finished r a) h)
  Step-Inv {s} few (leave i r a h e w) inv =
      leave-Inv r inv (census-IsSmall s.pcs few) a e (set-Moved s.pcs i (finished r a) idle h)
        (Wakes-Signalled w)

  start-Inv : (n : ℕ) → Inv {V = V} safe_hmap_new (census {V = V} (replicate n idle))
  unfolding safe_hmap_new census
  start-Inv n =
      let z = λ (w : Pc V → ℕ) (e : w idle ≡ 0). total-replicate w idle n e in
      ground (
        arith,
        z (λ p. (share p).reading) refl,
        z (λ p. (share p).writing) refl,
        z (λ p. (share p).readers_blocked) refl,
        z (λ p. (share p).readers_woken) refl,
        z (λ p. (share p).writers_blocked) refl,
        z (λ p. (share p).writers_woken) refl,
      )

  length-Reach : {n : ℕ} {s : System V} → Reach n s → length s.pcs ≡ n
  length-Reach {n} begin = length-replicate n idle
  length-Reach (next r st) = length-Step st ∙ length-Reach r

  pub Reach-Inv : {n : ℕ} {s : System V} → n < 2 ^ 31 → Reach n s → Inv s.shared (census s.pcs)
  Reach-Inv {n} few begin = start-Inv n
  Reach-Inv few (next r st) = Step-Inv (omega (arith, length-Reach r)) st (Reach-Inv few r)

  -- the request of a thread that is between its two protocols
  abbrev pub request_inside : Pc V → Option (Request V)
  request_inside (inside r) = some r
  request_inside (working r m) = some r
  request_inside (finished r a) = some r
  request_inside _ = none

  share-inside :
      (p : Pc V) (r : Request V)
      → request_inside p ≡ some r
      → ((share p).writing ≡ bit (is_writer r)) × ((share p).reading ≡ bit (not (is_writer r)))
  share-inside idle r h = cc
  share-inside (blocked q) r h = cc
  share-inside (woken q) r h = cc
  share-inside (inside q) r h = ground arith
  share-inside (working q m) r h = ground arith
  share-inside (finished q a) r h = ground arith

  -- the thread is neither in `pthread_cond_wait` nor between calls
  abbrev pub IsMoving : Pc V → Type 0
  IsMoving idle = ⊥
  IsMoving (blocked r) = ⊥
  IsMoving _ = Unit

  -- While a thread with `safe_hmap_insert` or `safe_hmap_remove` is between its two protocols, no
  -- other thread is between its own, however fewer than 2 ^ 31 threads were interleaved.
  pub mutual_exclusion :
      {n : ℕ} {s : System V} (i j : ℕ) (p q : Pc V) (r r' : Request V)
      → n < 2 ^ 31
      → Reach n s
      → get_elem? s.pcs i ≡ some p
      → get_elem? s.pcs j ≡ some q
      → request_inside p ≡ some r
      → request_inside q ≡ some r'
      → is_writer r ≡ true
      → i ≡ j
  unfolding census
  mutual_exclusion {s} i j p q r r' few reach at_i at_j in_i in_j writes =
      let exact = (Reach-Inv few reach).exact in
      let a = share-inside p r in_i in
      let b = share-inside q r' in_j in
      elim (ℕ_discrete i j) [
        | yes e ↦ e
        | no d ↦
            let two = le-total_two (λ p. (share p).writing) s.pcs i j p q at_i at_j d in
            let w = le-total (λ p. (share p).writing) s.pcs i p at_i in
            let r = le-total (λ p. (share p).reading) s.pcs j q at_j in
            absurd (ground (arith, exact.single, exact.apart))
      ]

  -- Every counter is the number of threads that it stands for, so that none overflows or goes below
  -- zero: the threads that read, that write, and that wait as readers and as writers.
  pub counters-Exact :
      {n : ℕ} {s : System V} → n < 2 ^ 31 → Reach n s → Exact s.shared (census s.pcs)
  counters-Exact few reach = (Reach-Inv few reach).exact

  find-IsMoving :
      (ps : List (Pc V)) (w : Pc V → ℕ)
      → ((p : Pc V) → 0 < w p → IsMoving p)
      → 0 < total w ps
      → (j : ℕ) × (p : Pc V) × (get_elem? ps j ≡ some p) × IsMoving p
  find-IsMoving ps w moving h = let (j, p, e, pos) = total-pos w ps h in (j, p, e, moving p pos)

  share-IsMoving :
      (p : Pc V)
      → 0
        < (share p).reading + (share p).writing + (share p).readers_woken + (share p).writers_woken
      → IsMoving p
  share-IsMoving idle h = omega arith
  share-IsMoving (blocked r) h = omega arith
  share-IsMoving (woken r) h = tt
  share-IsMoving (inside r) h = tt
  share-IsMoving (working r m) h = tt
  share-IsMoving (finished r a) h = tt

  active-IsMoving :
      (ps : List (Pc V))
      → 0
        < (census ps).reading
          + (census ps).writing
          + (census ps).readers_woken
          + (census ps).writers_woken
      → (j : ℕ) × (p : Pc V) × (get_elem? ps j ≡ some p) × IsMoving p
  unfolding census
  active-IsMoving ps h = elim (dec_lt 0 (census ps).reading) [
    | yes a ↦ find-IsMoving ps (λ p. (share p).reading) (λ p e. share-IsMoving p (omega arith)) a
    | no a ↦ elim (dec_lt 0 (census ps).writing) [
      | yes b ↦ find-IsMoving ps (λ p. (share p).writing) (λ p e. share-IsMoving p (omega arith)) b
      | no b ↦ elim (dec_lt 0 (census ps).readers_woken) [
        | yes c ↦
            find-IsMoving ps (λ p. (share p).readers_woken) (λ p e. share-IsMoving p (omega arith))
              c
        | no c ↦
            find-IsMoving ps (λ p. (share p).writers_woken) (λ p e. share-IsMoving p (omega arith))
              (omega arith)
      ]
    ]
  ]

  blocked-counted :
      (ps : List (Pc V)) (i : ℕ) (r : Request V)
      → get_elem? ps i ≡ some (blocked r)
      → 0 < (census ps).readers_blocked + (census ps).writers_blocked
  unfolding census
  blocked-counted ps i r h = ground (
    arith,
    le-total (λ p. (share p).readers_blocked) ps i (blocked r) h,
    le-total (λ p. (share p).writers_blocked) ps i (blocked r) h,
  )

  -- No wake-up is lost: if a thread is blocked in `pthread_cond_wait`, some thread is woken or
  -- between its protocols, and so has a step to take with no further signal.
  pub no_deadlock :
      {n : ℕ} {s : System V} (i : ℕ) (r : Request V)
      → n < 2 ^ 31
      → Reach n s
      → get_elem? s.pcs i ≡ some (blocked r)
      → (j : ℕ) × (p : Pc V) × (get_elem? s.pcs j ≡ some p) × IsMoving p
  no_deadlock {s} i r few reach h =
      active-IsMoving s.pcs ((Reach-Inv few reach).active (blocked-counted s.pcs i r h))
