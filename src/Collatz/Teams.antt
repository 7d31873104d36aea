-- ===== src/Collatz/Teams.antt =====
-- The teams of Zaliczeniowe_3/teams.cpp and teams.hpp that compute in one thread or in threads that each have
-- their tasks from the start. Timers, and the number of threads created, are left out.
pub mod Scores
pub mod Deal
pub mod Join
use mimuw_pw_tasks.Prelude.{
  ℕ, zero, suc, ◌+◌, ◌-◌, ◌%◌, Option, none, some, List, [], ◌∷◌, ◌++◌, ◌==◌, if◌then◌else◌, ltb,
  length, get_elem?, set, replicate,
}
use mimuw_pw_tasks.Collatz.{
  InfInt, Outcome, returns, unfinished, and_then, Results, calc_collatz, shared_collatz,
}

-- A future is the promise it belongs to: the number of its vector, and its place there.
abbrev pub Future : Type 0
Future = ℕ × ℕ

-- `future.get()`, where the promises of thread `j` hold what `results j` says
unfoldable pub get_future : (ℕ → Outcome (List ℕ)) → Future → Outcome ℕ
get_future results (j, k) =
    and_then (results j)
      (λ values. elim (get_elem? values k) [ none ↦ unfinished | some v ↦ returns v ])

unfoldable pub get_all : (ℕ → Outcome (List ℕ)) → List Future → Outcome (List ℕ)
unfolding get_future
get_all results [] = returns []
get_all results (f ∷ futures) =
    and_then (get_future results f)
      (λ v. and_then (get_all results futures) (λ vs. returns (v ∷ vs)))

module _ {I : Type 0} where
  abbrev pub push_back : (ℕ → List I) → ℕ → I → ℕ → List I
  push_back tasks i n j = if j == i then tasks j ++ n ∷ [] else tasks j

  -- the loop that deals out the tasks, from the task `i` on; a promise stands in each vector for each
  -- task there
  unfoldable pub deal : ℕ → ℕ → (ℕ → List I) → List I → (ℕ → List I) × List Future
  deal size i tasks [] = (tasks, [])
  deal size i tasks (n ∷ input) =
      let (dealt, futures) = deal size (i + 1) (push_back tasks (i % size) n) input in
      (dealt, (i % size, length (tasks (i % size))) ∷ futures)

module _ {I : Type 0} (num : InfInt I) where
  -- `TeamSolo::runContest`
  unfoldable pub run_solo : ℕ → List I → Outcome (List ℕ)
  run_solo fuel [] = returns []
  run_solo fuel (n ∷ input) =
      and_then (calc_collatz num fuel n)
        (λ r. and_then (run_solo fuel input) (λ rs. returns (r ∷ rs)))

  -- one task, with the shared results or with none
  unfoldable pub work : ℕ → Option (Results num) → I → Outcome (ℕ × Option (Results num))
  work fuel none n = and_then (calc_collatz num fuel n) (λ r. returns (r, none))
  work fuel (some r_shared) n =
      and_then (shared_collatz num fuel n r_shared) (λ found. returns (found.0, some found.1))

  -- the loop that a thread of `TeamConstThreads` runs over its tasks, with no other thread in between
  unfoldable pub run_tasks :
      ℕ → Option (Results num) → List I → Outcome (List ℕ × Option (Results num))
  unfolding work
  run_tasks fuel r_shared [] = returns ([], r_shared)
  run_tasks fuel r_shared (n ∷ tasks) = and_then (work fuel r_shared n) (λ one.
      and_then (run_tasks fuel one.1 tasks) (λ others. returns (one.0 ∷ others.0, others.1)))

  -- the values that the thread `j` gives; only the threads below `size` are created
  unfoldable pub thread_results : ℕ → ℕ → (ℕ → List I) → ℕ → Outcome (List ℕ)
  unfolding run_tasks
  thread_results fuel size tasks j =
      let ran = and_then (run_tasks fuel none (tasks j)) (λ done. returns done.0) in
      if ltb j size then ran else unfinished

  -- `TeamConstThreads::runContestImpl`, with no shared results
  unfoldable pub run_const_threads : ℕ → ℕ → List I → Outcome (List ℕ)
  unfolding deal get_all thread_results
  run_const_threads fuel size input =
      let (tasks, futures) = deal size 0 (λ _. []) input in
      get_all (thread_results fuel size tasks) futures

-- `TeamNewThreads::runContestImpl`: the results, the promises of the threads that are created, the
-- number of threads in the deque, and the task of the first of them
pub record Window : Type 0 where
  pub r : List ℕ
  pub r_promises : List (Outcome ℕ)
  pub threads : ℕ
  pub oldest_task_id : ℕ

-- `r[oldest_task_ID] = r_futures[oldest_task_ID].get()`, and what follows it
unfoldable pub collect_oldest : Window → Outcome Window
collect_oldest w = elim (get_elem? w.r_promises w.oldest_task_id) [
  | none ↦ unfinished
  | some promise ↦ and_then promise (λ v. returns (record {
    r = set w.r w.oldest_task_id v;
    r_promises = w.r_promises;
    threads = w.threads - 1;
    oldest_task_id = w.oldest_task_id + 1;
  }))
]

-- the loop behind the creation of the threads, for as many as are left
unfoldable pub join_threads : ℕ → Window → Outcome Window
unfolding collect_oldest
join_threads zero w = returns w
join_threads (suc left) w = and_then (collect_oldest w) (join_threads left)

module _ {I : Type 0} (num : InfInt I) where
  -- a thread and its promise, with no shared results
  unfoldable pub create_thread : ℕ → I → Window → Window
  create_thread fuel n w = record w {
    r_promises = w.r_promises ++ calc_collatz num fuel n ∷ [];
    threads = w.threads + 1;
  }

  unfoldable pub create_threads : ℕ → ℕ → List I → Window → Outcome Window
  unfolding collect_oldest create_thread
  create_threads fuel size [] w = returns w
  create_threads fuel size (n ∷ input) w =
      and_then (if w.threads == size then collect_oldest w else returns w)
        (λ v. create_threads fuel size input (create_thread fuel n v))

  unfoldable pub run_new_threads : ℕ → ℕ → List I → Outcome (List ℕ)
  unfolding create_threads join_threads
  run_new_threads fuel size input =
      let start : Window = record {
        r = replicate (length input) 0;
        r_promises = [];
        threads = 0;
        oldest_task_id = 0;
      } in
      and_then (create_threads fuel size input start)
        (λ w. and_then (join_threads w.threads w) (λ v. returns v.r))
