-- ===== src/Collatz/Teams/Join.antt =====
-- The threads that `TeamNewThreads` creates, and the results that it collects from the oldest on.
use mathlib.Core.List.{append_assoc, append-nil}
use mimuw_pw_tasks.Prelude.{
  ℕ, suc, ◌+◌, ◌-◌, ◌%◌, ◌<◌, ◌≤◌, ◌≡◌, refl, sym, ap, ◌∙◌, inl, inr, false, ◌==◌, Bool-cases, some,
  List, [], ◌∷◌, ◌++◌, length, length-append, length-replicate, get_elem?, set, replicate, arith,
}
use mimuw_pw_tasks.Collatz.{InfInt, Outcome, returns, uint64_mod, calc_collatz}
use mimuw_pw_tasks.Collatz.Count.{IsExact, calc_collatz-Collatz}
use mimuw_pw_tasks.Collatz.Teams.{
  Window, collect_oldest, join_threads, create_thread, create_threads, run_solo, run_const_threads,
  run_new_threads,
}
use mimuw_pw_tasks.Collatz.Teams.Scores.{Scores, no_task, task, Scores-length}
use mimuw_pw_tasks.Collatz.Teams.Deal.{run_const_threads-run_solo}

-- the promises that hold these values
abbrev kept : List ℕ → List (Outcome ℕ)
kept [] = []
kept (v ∷ vs) = returns v ∷ kept vs

kept-append : (u v : List ℕ) → kept (u ++ v) ≡ kept u ++ kept v
kept-append [] v = refl
kept-append (x ∷ u) v = ap (λ l. returns x ∷ l) (kept-append u v)

get_elem?-kept :
    (u : List ℕ) (v : ℕ) (rest : List ℕ)
    → get_elem? (kept (u ++ v ∷ rest)) (length u) ≡ some (returns v)
get_elem?-kept [] v rest = refl
get_elem?-kept (x ∷ u) v rest = get_elem?-kept u v rest

set-append :
    (u : List ℕ) (z v : ℕ) (rest : List ℕ)
    → set (u ++ z ∷ rest) (length u) v ≡ (u ++ v ∷ []) ++ rest
set-append [] z v rest = refl
set-append (x ∷ u) z v rest = ap (λ l. x ∷ l) (set-append u z v rest)

-- Some results are collected, some threads are there, and the rest of the vector is as it was.
record IsWindow (collected pending empty : List ℕ) (w : Window) : Type 0 where
  results : w.r ≡ collected ++ empty
  promises : w.r_promises ≡ kept (collected ++ pending)
  counted : w.threads ≡ length pending
  oldest : w.oldest_task_id ≡ length collected

collect_oldest-IsWindow :
    (collected pending empty : List ℕ) (v z : ℕ) (w : Window)
    → IsWindow collected (v ∷ pending) (z ∷ empty) w
    → (w' : Window) × (collect_oldest w ≡ returns w')
      × IsWindow (collected ++ v ∷ []) pending empty w'
unfolding collect_oldest
collect_oldest-IsWindow collected pending empty v z w g =
    let w' : Window = record {
      r = set w.r w.oldest_task_id v;
      r_promises = w.r_promises;
      threads = w.threads - 1;
      oldest_task_id = w.oldest_task_id + 1;
    } in
    let here : get_elem? w.r_promises w.oldest_task_id ≡ some (returns v) =
      rw (g.promises, g.oldest) (get_elem?-kept collected v pending) in
    (
      w',
      rw (here, collect_oldest) refl,
      record {
        results = rw (g.results, g.oldest) (set-append collected z v empty);
        promises = g.promises ∙ ap kept (sym (append_assoc collected (v ∷ []) pending));
        counted = omega (arith, g.counted);
        oldest = omega (arith, g.oldest, length-append collected (v ∷ []));
      },
    )

join_threads-IsWindow :
    (pending collected empty : List ℕ) (w : Window)
    → IsWindow collected pending empty w
    → length empty ≡ length pending
    → (w' : Window) × (join_threads (length pending) w ≡ returns w') × (w'.r ≡ collected ++ pending)
unfolding join_threads
join_threads-IsWindow [] collected [] w g e = (w, refl, g.results)
join_threads-IsWindow [] collected (z ∷ empty) w g e = absurd (omega arith)
join_threads-IsWindow (v ∷ pending) collected [] w g e = absurd (omega arith)
join_threads-IsWindow (v ∷ pending) collected (z ∷ empty) w g e =
    let (w1, first, g1) = collect_oldest-IsWindow collected pending empty v z w g in
    let (w2, others, done) =
      join_threads-IsWindow pending (collected ++ v ∷ []) empty w1 g1 (omega arith) in
    (w2, rw (first) others, done ∙ append_assoc collected (v ∷ []) pending)

module _ {I : Type 0} {num : InfInt I} {is : I → ℕ → Type 0} (laws : IsExact num is)
    (fuel : ℕ) where
  create_thread-IsWindow :
      (collected pending empty : List ℕ) (v : ℕ) (n : I) (w : Window)
      → IsWindow collected pending empty w
      → calc_collatz num fuel n ≡ returns v
      → IsWindow collected (pending ++ v ∷ []) empty (create_thread num fuel n w)
  unfolding create_thread
  create_thread-IsWindow collected pending empty v n w g e = record {
    results = g.results;
    promises =
        ap (λ l. l ++ calc_collatz num fuel n ∷ []) g.promises
        ∙ ap (λ o. kept (collected ++ pending) ++ o ∷ []) e
        ∙ sym (kept-append (collected ++ pending) (v ∷ []))
        ∙ ap kept (append_assoc collected pending (v ∷ []));
    counted = omega (arith, g.counted, length-append pending (v ∷ []));
    oldest = g.oldest;
  }

  -- what the loop over the tasks leaves
  record IsFilled (all : List ℕ) (w : Window) : Type 0 where
    collected : List ℕ
    pending : List ℕ
    empty : List ℕ
    window : IsWindow collected pending empty w
    enough : length empty ≡ length pending
    whole : collected ++ pending ≡ all

  -- what the loop over the tasks does in any window that has room for their results
  abbrev Fills : ℕ → List I → List ℕ → Type 0
  Fills size input rs =
      (collected pending empty : List ℕ) (w : Window)
      → IsWindow collected pending empty w
      → length empty ≡ length pending + length rs
      → length pending ≤ size
      → (w' : Window) × (create_threads num fuel size input w ≡ returns w')
        × IsFilled ((collected ++ pending) ++ rs) w'

  next_task :
      (size : ℕ) (input : List I) (n : I) (v : ℕ) (rs : List ℕ)
      → Fills size input rs
      → calc_collatz num fuel n ≡ returns v
      → (collected pending empty : List ℕ) (w : Window) → IsWindow collected pending empty w
      → length empty ≡ length pending + suc (length rs)
      → length pending < size
      → (w' : Window) × (create_threads num fuel size input (create_thread num fuel n w)
          ≡ returns w')
        × IsFilled ((collected ++ pending) ++ v ∷ rs) w'
  next_task size input n v rs fills e collected pending empty w g enough room =
      let (w', run, filled) =
        fills collected (pending ++ v ∷ []) empty (create_thread num fuel n w)
          (create_thread-IsWindow collected pending empty v n w g e)
          (omega (arith, enough, length-append pending (v ∷ [])))
          (omega (arith, length-append pending (v ∷ []))) in
      let same : (collected ++ (pending ++ v ∷ [])) ++ rs ≡ (collected ++ pending) ++ v ∷ rs =
        ap (λ l. l ++ rs) (sym (append_assoc collected pending (v ∷ [])))
        ∙ append_assoc (collected ++ pending) (v ∷ []) rs in
      (w', run, rw (← same) filled)

  create_threads-cons :
      (size : ℕ) (input : List I) (n : I) (v : ℕ) (rs : List ℕ)
      → 0 < size
      → Fills size input rs
      → calc_collatz num fuel n ≡ returns v
      → Fills size (n ∷ input) (v ∷ rs)
  unfolding create_threads
  create_threads-cons size input n v rs positive fills e collected [] empty w g enough few =
      let below : (w.threads == size) ≡ false = ground (arith, g.counted) in
      let (w', run, filled) =
        next_task size input n v rs fills e collected [] empty w g enough positive in
      (w', rw below run, filled)
  create_threads-cons size input n v rs positive fills e collected (u ∷ pending) [] w g enough few =
      absurd (omega arith)
  create_threads-cons size input n v rs positive fills e collected (u ∷ pending) (z ∷ empty) w g
        enough few =
      elim (Bool-cases (w.threads == size)) [
        | inr below ↦
            let room : length (u ∷ pending) < size = ground (arith, below, g.counted) in
            let (w', run, filled) =
              next_task size input n v rs fills e collected (u ∷ pending) (z ∷ empty) w g enough
                room in
            (w', rw below run, filled)
        | inl full ↦
            let (w1, first, g1) = collect_oldest-IsWindow collected pending empty u z w g in
            let (w', run, filled) =
              next_task size input n v rs fills e (collected ++ u ∷ []) pending empty w1 g1
                (omega arith) (omega arith) in
            let same : (collected ++ u ∷ []) ++ pending ≡ collected ++ u ∷ pending =
              append_assoc collected (u ∷ []) pending in
            (w', rw (full, first) run, rw (← same) filled)
      ]

  create_threads-IsFilled :
      (size : ℕ)
      → 0 < size
      → {input : List I} {rs : List ℕ} → Scores is fuel input rs
      → Fills size input rs
  unfolding create_threads
  create_threads-IsFilled size positive no_task = λ collected pending empty w g e few. (
    w,
    refl,
    record {
      collected = collected;
      pending = pending;
      empty = empty;
      window = g;
      enough = omega (arith, e);
      whole = sym (append-nil (collected ++ pending));
    },
  )
  create_threads-IsFilled size positive (task {n} {k = k} {tasks = input} {rs = rs} m c less more) =
      create_threads-cons size input n (k % uint64_mod) rs positive
        (create_threads-IsFilled size positive more) (calc_collatz-Collatz laws fuel m c less)

  join_filled :
      (all : List ℕ) (w : Window)
      → IsFilled all w
      → (w' : Window) × (join_threads w.threads w ≡ returns w') × (w'.r ≡ all)
  join_filled all w g =
      let (w', run, done) =
        join_threads-IsWindow g.pending g.collected g.empty w g.window g.enough in
      (w', ap (λ t. join_threads t w) g.window.counted ∙ run, done ∙ g.whole)

  run_new_threads-Scores :
      (size : ℕ)
      → 0 < size
      → {input : List I} {rs : List ℕ} → Scores is fuel input rs
      → run_new_threads num fuel size input ≡ returns rs
  unfolding run_new_threads
  run_new_threads-Scores size positive {input} {rs} s =
      let start : Window = record {
        r = replicate (length input) 0;
        r_promises = [];
        threads = 0;
        oldest_task_id = 0;
      } in
      let g : IsWindow [] [] (replicate (length input) 0) start = record {
        results = refl;
        promises = refl;
        counted = refl;
        oldest = refl;
      } in
      let (w, run, filled) =
        create_threads-IsFilled size positive s [] [] (replicate (length input) 0) start g
          (length-replicate (length input) 0 ∙ Scores-length s ∙ omega arith) (omega arith) in
      let (w', joined, done) = join_filled rs w filled in rw (run, joined) (ap returns done)

  -- Where the Collatz sequence of each task comes to 1 within the bound, and no results are shared,
  -- `TeamConstThreads` and `TeamNewThreads` of any size above 0 return what `TeamSolo` returns: the
  -- steps of the sequences in the order of the tasks, modulo the range of `uint64_t`.
  pub teams_agree :
      (size : ℕ)
      → 0 < size
      → {input : List I} {rs : List ℕ} → Scores is fuel input rs
      → (run_const_threads num fuel size input ≡ returns rs)
        × (run_new_threads num fuel size input ≡ returns rs)
        × (run_solo num fuel input ≡ returns rs)
  teams_agree size positive s =
      let (dealt, alone) = run_const_threads-run_solo laws fuel size positive s in
      (dealt, run_new_threads-Scores size positive s, alone)
