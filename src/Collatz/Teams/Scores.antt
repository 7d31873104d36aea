-- ===== src/Collatz/Teams/Scores.antt =====
-- What the teams of Zaliczeniowe_3/teams.cpp and teams.hpp return.
use mimuw_pw_tasks.Prelude.{
  ℕ, suc, ◌%◌, ◌<◌, ◌≡◌, refl, ap, Option, none, some, List, [], ◌∷◌, ◌++◌, length,
}
use mimuw_pw_tasks.Collatz.{InfInt, returns, uint64_mod, Results}
use mimuw_pw_tasks.Collatz.Count.{IsExact, Collatz, calc_collatz-Collatz}
use mimuw_pw_tasks.Collatz.Shared.{IsCorrect, shared_collatz-Collatz}
use mimuw_pw_tasks.Collatz.Teams.{run_solo, work, run_tasks}

-- the steps of the Collatz sequences of the tasks, modulo the range of `uint64_t`, where each has
-- fewer than `fuel`
pub data Scores {I : Type 0} (is : I → ℕ → Type 0) (fuel : ℕ) : List I → List ℕ → Type 0 where
  no_task : Scores is fuel [] []
  task :
      {n : I} {x k : ℕ} {tasks : List I} {rs : List ℕ}
      → is n x
      → Collatz x k
      → k < fuel
      → Scores is fuel tasks rs
      → Scores is fuel (n ∷ tasks) (k % uint64_mod ∷ rs)

module _ {I : Type 0} {is : I → ℕ → Type 0} {fuel : ℕ} where
  pub Scores-append :
      {a b : List I} {u v : List ℕ}
      → Scores is fuel a u
      → Scores is fuel b v
      → Scores is fuel (a ++ b) (u ++ v)
  Scores-append no_task t = t
  Scores-append (task m c few s) t = task m c few (Scores-append s t)

  pub Scores-length : {a : List I} {u : List ℕ} → Scores is fuel a u → length a ≡ length u
  Scores-length no_task = refl
  Scores-length (task m c few s) = ap suc (Scores-length s)

abbrev pub CorrectShared :
    {I : Type 0} (num : InfInt I) → (I → ℕ → Type 0) → Option (Results num) → Type 0
CorrectShared num is none = Unit
CorrectShared num is (some results) = IsCorrect num is results

module _ {I : Type 0} {num : InfInt I} {is : I → ℕ → Type 0} (laws : IsExact num is)
    (fuel : ℕ) where
  pub run_solo-Scores :
      {input : List I} {rs : List ℕ}
      → Scores is fuel input rs
      → run_solo num fuel input ≡ returns rs
  unfolding run_solo
  run_solo-Scores no_task = refl
  run_solo-Scores (task m c few s) =
      rw (calc_collatz-Collatz laws fuel m c few, run_solo-Scores s) refl

  work-Scores :
      {n : I} {x k : ℕ} (r_shared : Option (Results num))
      → CorrectShared num is r_shared
      → is n x
      → Collatz x k
      → k < fuel
      → (after : Option (Results num)) × (work num fuel r_shared n
          ≡ returns (k % uint64_mod, after))
        × CorrectShared num is after
  unfolding work
  work-Scores none r m c few = (none, rw (calc_collatz-Collatz laws fuel m c few) refl, tt)
  work-Scores (some results) r m c few =
      let (after, run, _, r') = shared_collatz-Collatz laws fuel results r m c few in
      (some after, rw run refl, r')

  -- Whether results are shared or not, a thread's loop over its tasks returns the steps of their
  -- Collatz sequences, modulo the range of `uint64_t`, and leaves the shared results correct, where they were so.
  pub run_tasks-Scores :
      {tasks : List I} {rs : List ℕ} (r_shared : Option (Results num))
      → CorrectShared num is r_shared
      → Scores is fuel tasks rs
      → (after : Option (Results num)) × (run_tasks num fuel r_shared tasks ≡ returns (rs, after))
        × CorrectShared num is after
  unfolding run_tasks
  run_tasks-Scores r_shared r no_task = (r_shared, refl, r)
  run_tasks-Scores r_shared r (task m c few s) =
      let (between, one, r') = work-Scores r_shared r m c few in
      let (after, others, r'') = run_tasks-Scores between r' s in
      (after, rw (one, others) refl, r'')
