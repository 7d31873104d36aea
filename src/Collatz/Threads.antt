-- ===== src/Collatz/Threads.antt =====
-- Calls of `SharedResults::sharedCollatz` of Zaliczeniowe_3/sharedresults.hpp by any number of threads: each
-- `get` and each `insert`, under its lock, is one step.
use mimuw_pw_tasks.Prelude.{
  ℕ, zero, suc, ◌+◌, ◌-◌, ◌*◌, ◌%◌, ◌<◌, ◌≤◌, ◌≡◌, refl, sym, ap, ◌∙◌, inl, inr, true, false, ◌==◌,
  ==_iff, ◌||◌, not, if◌then◌else◌, lt→ltb, Bool-cases, some, List, [], ◌∷◌, length, get_elem?, set,
  get_elem?-set_ne, ℕ_discrete, arith,
}
use mimuw_pw_tasks.Collatz.{InfInt, uint64_mod, uint64_suc, successor, Results, get, insert}
use mimuw_pw_tasks.Prelude.{some_injective}
use mimuw_pw_tasks.Collatz.Count.{IsExact, Collatz, Collatz-pos, successor_lem, equal_one}
use mimuw_pw_tasks.Collatz.Shared.{
  IsCorrect, get-IsCorrect, insert-IsCorrect, Collatz-one, Collatz-more,
}

get_elem?-set_found :
    {A : Type 0} (xs : List A) (i : ℕ) {p : A} (v : A)
    → get_elem? xs i ≡ some p
    → get_elem? (set xs i v) i ≡ some v
get_elem?-set_found [] i v e = cc
get_elem?-set_found (x ∷ xs) zero v e = refl
get_elem?-set_found (x ∷ xs) (suc i) v e = get_elem?-set_found xs i v e

-- A thread calls `sharedCollatz` of a number, or returns from it; `waiting` has the numbers of the calls
-- around it, the innermost first.
pub data Progress (I : Type 0) : Type 0 where
  calling : I → List I → Progress I
  returning : ℕ → List I → Progress I
  aborted : Progress I

module _ {I : Type 0} (num : InfInt I) where
  -- one step of a thread
  unfoldable pub proceed : Results num → Progress I → Results num × Progress I
  unfolding get insert
  proceed results (calling n waiting) =
      let score = get num results n in
      if num.greater n (num.of_int 0)
      then (if num.equal n (num.of_int 1) || not (score == 0)
          then (results, returning score waiting)
          else (results, calling (successor num n) (n ∷ waiting)))
      else (results, aborted)
  proceed results (returning score []) = (results, returning score [])
  proceed results (returning score (n ∷ waiting)) =
      (insert num results n (uint64_suc score), returning (uint64_suc score) waiting)
  proceed results aborted = (results, aborted)

  -- Any of the threads takes the next step.
  pub data Turns (results : Results num) (threads : List (Progress I))
      : Results num → List (Progress I) → Type 0 where
    at_start : Turns results threads results threads
    turn :
        {results' : Results num} {threads' : List (Progress I)} {p : Progress I} (i : ℕ)
        → Turns results threads results' threads'
        → get_elem? threads' i ≡ some p
        → Turns results threads (proceed results' p).0 (set threads' i (proceed results' p).1)

module _ {I : Type 0} (num : InfInt I) where
  -- the turns that one thread has taken
  unfoldable pub turns_of :
      {results : Results num} {threads : List (Progress I)} {results' : Results num}
      {threads' : List (Progress I)}
      → Turns num results threads results' threads'
      → ℕ
      → ℕ
  turns_of at_start j = 0
  turns_of (turn i before at_i) j = if i == j then suc (turns_of before j) else turns_of before j

same_score : {I : Type 0} {u v : ℕ} {a b : List I} → returning u a ≡ returning v b → u ≡ v
same_score e = cc

module _ {I : Type 0} (is : I → ℕ → Type 0) where
  -- The calls around a call of `k` steps belong to a sequence of `total` steps.
  abbrev pub Around : List I → ℕ → ℕ → Type 0
  Around [] k total = k ≡ total
  Around (n ∷ waiting) k total =
      ((x : ℕ) × is n x × Collatz x (suc k)) × Around waiting (suc k) total

  -- a thread in the call of a number whose sequence has `total` steps, with so many turns to take
  pub data IsOnWay (total : ℕ) : ℕ → Progress I → Type 0 where
    in_call :
        {n : I} {x k : ℕ} {waiting : List I}
        → is n x
        → Collatz x k
        → Around waiting k total
        → IsOnWay total (2 * k + length waiting + 1) (calling n waiting)
    in_return :
        (k : ℕ) {score : ℕ} {waiting : List I}
        → score ≡ k % uint64_mod
        → Around waiting k total
        → IsOnWay total (length waiting) (returning score waiting)

  -- a thread at its call of a number whose sequence has `total` steps
  abbrev pub IsStart : ℕ → Progress I → Type 0
  IsStart total p = (n : I) × (x : ℕ) × (p ≡ calling n []) × is n x × Collatz x total

  IsStart-IsOnWay :
      {total : ℕ} {p : Progress I}
      → IsStart total p
      → (left : ℕ) × IsOnWay total left p × (left ≤ 2 * total + 1)
  IsStart-IsOnWay {total} (n, x, e, m, c) =
      (2 * total + 0 + 1, rw e (in_call {waiting = []} m c refl), omega arith)

  -- A thread does not abort, returns the right value, and has returned by its turn `2 * total + 1`.
  abbrev pub IsRight : ℕ → ℕ → Progress I → Type 0
  IsRight total turns p =
      ¬ (p ≡ aborted)
      × ((v : ℕ) → p ≡ returning v [] → v ≡ total % uint64_mod)
      × (2 * total < turns → p ≡ returning (total % uint64_mod) [])

  IsOnWay-IsRight :
      {total left turns : ℕ} {p : Progress I}
      → IsOnWay total left p
      → left ≤ 2 * total + 1 - turns
      → IsRight total turns p
  IsOnWay-IsRight (in_call m c around) few = ((λ e. cc), (λ v e. cc), λ late. absurd (omega arith))
  IsOnWay-IsRight (in_return k {waiting = []} value around) few =
      let right = value ∙ ap (λ j. j % uint64_mod) around in
      ((λ e. cc), (λ v e. sym (same_score e) ∙ right), λ late. ap (λ v. returning v []) right)
  IsOnWay-IsRight (in_return k {waiting = n ∷ waiting} value around) few =
      ((λ e. cc), (λ v e. cc), λ late. absurd (omega arith))

module _ {I : Type 0} {num : InfInt I} {is : I → ℕ → Type 0} (laws : IsExact num is) where
  proceed_done :
      (results : Results num) {n : I} {x : ℕ} (waiting : List I)
      → is n x
      → 0 < x
      → ((x == 1) || not (get num results n == 0)) ≡ true
      → proceed num results (calling n waiting) ≡ (results, returning (get num results n) waiting)
  unfolding proceed
  proceed_done results {n} {x} waiting m up test =
      rw (laws.greater m (laws.of_int 0) ∙ lt→ltb 0 x up, equal_one laws m, test) refl

  proceed_deeper :
      (results : Results num) {n : I} {x : ℕ} (waiting : List I)
      → is n x
      → 0 < x
      → ((x == 1) || not (get num results n == 0)) ≡ false
      → proceed num results (calling n waiting) ≡ (results, calling (successor num n) (n ∷ waiting))
  unfolding proceed
  proceed_deeper results {n} {x} waiting m up test =
      rw (laws.greater m (laws.of_int 0) ∙ lt→ltb 0 x up, equal_one laws m, test) refl

  abbrev GoesOn : ℕ → ℕ → Results num × Progress I → Type 0
  GoesOn total left after =
      IsCorrect num is after.0 × (left' : ℕ) × IsOnWay is total left' after.1 × (left' ≤ left - 1)

  call-IsOnWay :
      (results : Results num) {n : I} {x k total : ℕ} (waiting : List I)
      → IsCorrect num is results
      → is n x
      → Collatz x k
      → Around is waiting k total
      → GoesOn total (2 * k + length waiting + 1) (proceed num results (calling n waiting))
  call-IsOnWay results {n} {x} {k} waiting r m c around =
      let up = Collatz-pos c in
      elim (Bool-cases (get num results n == 0)) [
        | inr f ↦
            let value : get num results n ≡ k % uint64_mod =
              elim (get-IsCorrect laws results r m c) [
                | inl e ↦ absurd (ground (arith, e, f))
                | inr e ↦ e
              ] in
            rw (proceed_done results waiting m up (ground (arith, f)))
              (r, length waiting, in_return k value around, omega arith)
        | inl t ↦
            let none_yet : get num results n ≡ 0 = (==_iff _ 0).0 t in
            elim (Bool-cases (x == 1)) [
              | inl one ↦
                  let no_steps : k ≡ 0 = Collatz-one c ((==_iff x 1).0 one) in
                  rw (proceed_done results waiting m up (rw one refl))
                    (r, length waiting, in_return k (none_yet ∙ omega arith) around, omega arith)
              | inr more ↦
                  let (j, c', i) = Collatz-more c (λ e. absurd (ground (arith, e, more))) in
                  rw (proceed_deeper results waiting m up (ground (arith, more, none_yet))) (
                    r,
                    2 * j + suc (length waiting) + 1,
                    in_call (successor_lem laws m) c' ((x, m, rw i at c), rw i at around),
                    omega (arith, i),
                  )
            ]
      ]

  -- A step of a thread that is on its way leaves it on its way.
  proceed-IsOnWay :
      (results : Results num) {p : Progress I} {total left : ℕ}
      → IsCorrect num is results
      → IsOnWay is total left p
      → GoesOn total left (proceed num results p)
  unfolding proceed
  proceed-IsOnWay results r (in_call {waiting = waiting} m c around) =
      call-IsOnWay results waiting r m c around
  proceed-IsOnWay results r (in_return k {waiting = []} e around) =
      (r, 0, in_return k e around, omega arith)
  proceed-IsOnWay results r (in_return k {score} {waiting = n ∷ waiting} e ((x, m, c), around)) =
      let sum : uint64_suc score ≡ suc k % uint64_mod = omega (arith, e) in
      (
        insert-IsCorrect laws results r m c sum,
        length waiting,
        in_return (suc k) sum around,
        omega arith,
      )

  abbrev AreOnWay : (ℕ → ℕ) → (ℕ → ℕ) → List (Progress I) → Type 0
  AreOnWay total turns threads =
      (i : ℕ) (p : Progress I)
      → get_elem? threads i ≡ some p
      → (left : ℕ) × IsOnWay is (total i) left p × (left ≤ 2 * total i + 1 - turns i)

  Turns-AreOnWay :
      {results : Results num} {threads : List (Progress I)} {results' : Results num}
      {threads' : List (Progress I)} (total : ℕ → ℕ)
      → IsCorrect num is results
      → AreOnWay total (λ _. 0) threads
      → (t : Turns num results threads results' threads')
      → IsCorrect num is results' × AreOnWay total (turns_of num t) threads'
  unfolding turns_of
  Turns-AreOnWay total r on_way at_start = (r, on_way)
  Turns-AreOnWay total r on_way (turn {results'} {threads'} {p} i before at_i) =
      let (r', on_way') = Turns-AreOnWay total r on_way before in
      let (left, here, few) = on_way' i p at_i in
      let (r'', left', there, fewer) = proceed-IsOnWay results' r' here in
      let set_lem = get_elem?-set_found threads' i (proceed num results' p).1 at_i in
      (
        r'',
        λ j q at_j. elim (ℕ_discrete i j) [
          | yes e ↦
              let now : get_elem? (set threads' i (proceed num results' p).1) i ≡ some q =
                rw (← e) at at_j in
              let same : (proceed num results' p).1 ≡ q = some_injective (sym set_lem ∙ now) in
              let own : (i == j) ≡ true = (==_iff i j).1 e in
              (left', rw (← e, ← same) there, rw (own, ← e) (omega arith))
          | no ne ↦
              let other : (i == j) ≡ false = ground (arith, ne) in
              rw other
                (on_way' j q (sym (get_elem?-set_ne threads' (proceed num results' p).1 ne) ∙ at_j))
        ],
      )

  -- Let threads call `sharedCollatz` of numbers whose Collatz sequences come to 1, with correct shared
  -- results, and take their turns in any order. Then no thread fails the assertion; a thread that
  -- has returned from its call has the steps of its sequence, modulo the range of `uint64_t`; a thread has
  -- returned once it has taken more turns than twice those steps; and the shared results stay correct.
  pub Turns-IsRight :
      {results : Results num} {threads : List (Progress I)} {results' : Results num}
      {threads' : List (Progress I)} (total : ℕ → ℕ)
      → IsCorrect num is results
      → ((i : ℕ) (p : Progress I) → get_elem? threads i ≡ some p → IsStart is (total i) p)
      → (t : Turns num results threads results' threads')
      → IsCorrect num is results'
        × ((i : ℕ) (p : Progress I)
            → get_elem? threads' i ≡ some p
            → IsRight is (total i) (turns_of num t i) p)
  Turns-IsRight total r starts t =
      let (r', on_way) =
        Turns-AreOnWay total r
          (λ i p e.
            let (left, begins, few) = IsStart-IsOnWay is (starts i p e) in
            (left, begins, omega arith))
          t in
      (r', λ i p e. let (left, ends, few) = on_way i p e in IsOnWay-IsRight is ends few)
