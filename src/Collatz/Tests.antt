-- ===== src/Collatz/Tests.antt =====
-- Runs of the Collatz computations of Zaliczeniowe_3 at concrete inputs.
use mimuw_pw_tasks.Prelude.{
  ℕ, ◌+◌, ◌*◌, ◌/◌, ◌%◌, ◌≡◌, refl, some, [], ◌∷◌, ◌==◌, ltb, arith, zero, suc, List, get_elem?,
  if◌then◌else◌,
}
use mimuw_pw_tasks.Collatz.{InfInt, returns, uint64_mod, Results, calc_collatz, shared_collatz}
use mimuw_pw_tasks.Collatz.{get, insert, entry_of}
use mimuw_pw_tasks.Collatz.Count.{IsExact, Collatz, stop, go, calc_collatz-Collatz}
use mimuw_pw_tasks.Collatz.Shared.{IsCorrect, shared_collatz-Collatz}
use mimuw_pw_tasks.Collatz.Threads.{
  Progress, calling, returning, proceed, Turns, at_start, turn, turns_of, IsStart, IsRight,
  Turns-IsRight,
}
use mimuw_pw_tasks.Collatz.Teams.{run_solo, run_const_threads, run_new_threads}
use mimuw_pw_tasks.Collatz.Teams.Scores.{Scores, no_task, task}
use mimuw_pw_tasks.Collatz.Teams.Join.{teams_agree}

-- the natural numbers themselves
abbrev naturals : InfInt ℕ
naturals = record {
  of_int = λ x. x;
  add = λ x y. x + y;
  multiply = λ x y. x * y;
  divide = λ x y. x / y;
  remainder = λ x y. x % y;
  equal = λ x y. x == y;
  greater = λ x y. ltb y x;
}

abbrev Same : ℕ → ℕ → Type 0
Same a x = a ≡ x

naturals-IsExact : IsExact naturals Same
naturals-IsExact = record {
  of_int = λ x. refl;
  add = λ p q. cc;
  multiply = λ p q. cc;
  divide = λ p q _. cc;
  remainder = λ p q _. cc;
  equal = λ p q. cc;
  greater = λ p q. cc;
}

-- 3, 10, 5, 16, 8, 4, 2, 1
from_four : Collatz 4 2
from_four = go (λ e. absurd (omega (arith, e))) (go (λ e. absurd (omega (arith, e))) stop)

from_three : Collatz 3 7
from_three =
    go (λ e. absurd (omega (arith, e)))
      (go (λ e. absurd (omega (arith, e)))
        (go (λ e. absurd (omega (arith, e)))
          (go (λ e. absurd (omega (arith, e))) (go (λ e. absurd (omega (arith, e))) from_four))))

calc_collatz-Collatz_example : calc_collatz naturals 8 3 ≡ returns (7 % uint64_mod)
calc_collatz-Collatz_example = calc_collatz-Collatz naturals-IsExact 8 refl from_three (omega arith)

-- the results of 4
abbrev of_four : Results naturals
of_four = (4, 2) ∷ []

of_four-IsCorrect : IsCorrect naturals Same of_four
of_four-IsCorrect = ((4, 2, refl, from_four, refl), tt)

shared_collatz-Collatz_example :
    (results' : Results naturals) × (shared_collatz naturals 8 3 of_four
      ≡ returns (7 % uint64_mod, results'))
    × (calc_collatz naturals 8 3 ≡ returns (7 % uint64_mod))
    × IsCorrect naturals Same results'
shared_collatz-Collatz_example =
    shared_collatz-Collatz naturals-IsExact 8 of_four of_four-IsCorrect refl from_three
      (omega arith)

three_and_four : Scores Same 8 (3 ∷ 4 ∷ []) (7 % uint64_mod ∷ 2 % uint64_mod ∷ [])
three_and_four = task refl from_three (omega arith) (task refl from_four (omega arith) no_task)

teams_agree_example :
    (run_const_threads naturals 8 2 (3 ∷ 4 ∷ []) ≡ returns (7 % uint64_mod ∷ 2 % uint64_mod ∷ []))
    × (run_new_threads naturals 8 2 (3 ∷ 4 ∷ []) ≡ returns (7 % uint64_mod ∷ 2 % uint64_mod ∷ []))
    × (run_solo naturals 8 (3 ∷ 4 ∷ []) ≡ returns (7 % uint64_mod ∷ 2 % uint64_mod ∷ []))
teams_agree_example = teams_agree naturals-IsExact 8 2 (omega arith) three_and_four

abbrev two_threads : List (Progress ℕ)
two_threads = calling 3 [] ∷ calling 4 [] ∷ []

abbrev steps_of : ℕ → ℕ
steps_of i = if i == 0 then 7 else 2

two_threads-IsStart :
    (i : ℕ) (p : Progress ℕ) → get_elem? two_threads i ≡ some p → IsStart Same (steps_of i) p
two_threads-IsStart zero p e = (3, 3, cc, refl, from_three)
two_threads-IsStart (suc zero) p e = (4, 4, cc, refl, from_four)
two_threads-IsStart (suc (suc i)) p e = cc

abbrev four_returned : List (Progress ℕ)
four_returned = calling 10 (3 ∷ []) ∷ returning 2 [] ∷ []

-- one turn of the first thread, and all of the second
six_turns : Turns naturals [] two_threads ((4, 2) ∷ (2, 1) ∷ []) four_returned
unfolding proceed get insert entry_of
six_turns =
    turn 1 (turn 1 (turn 1 (turn 1 (turn 1 (turn 0 at_start refl) refl) refl) refl) refl) refl

Turns-IsRight_example :
    IsCorrect naturals Same ((4, 2) ∷ (2, 1) ∷ [])
    × ((i : ℕ) (p : Progress ℕ)
        → get_elem? four_returned i ≡ some p
        → IsRight Same (steps_of i) (turns_of naturals six_turns i) p)
Turns-IsRight_example = Turns-IsRight naturals-IsExact steps_of tt two_threads-IsStart six_turns
