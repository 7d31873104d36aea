-- ===== src/Collatz/Shared.antt =====
-- `SharedResults::sharedCollatz` of Zaliczeniowe_3/sharedresults.hpp returns what `calcCollatz` does.
use mimuw_pw_tasks.Prelude.{
  ℕ, zero, suc, ◌%◌, ◌<◌, ◌≡◌, ◌≢◌, refl, sym, ap, ◌∙◌, ◌⊎◌, inl, inr, true, false, ◌==◌, ==_iff,
  ◌||◌, not, lt→ltb, Bool-cases, some, Option-cases, [], ◌∷◌, arith,
}
use mimuw_pw_tasks.Collatz.{
  InfInt, returns, uint64_mod, uint64_suc, successor, Results, entry_of, get, insert, calc_collatz,
  shared_collatz,
}
use mimuw_pw_tasks.Collatz.Count.{
  IsExact, next, Collatz, stop, go, Collatz-pos, successor_lem, equal_one, calc_collatz-Collatz,
}

pub Collatz-unique : {x k j : ℕ} → Collatz x k → Collatz x j → k ≡ j
Collatz-unique stop stop = refl
Collatz-unique stop (go n c) = absurd (n refl)
Collatz-unique (go n c) stop = absurd (n refl)
Collatz-unique (go n c) (go n' c') = ap suc (Collatz-unique c c')

pub Collatz-one : {x k : ℕ} → Collatz x k → x ≡ 1 → k ≡ 0
Collatz-one stop e = refl
Collatz-one (go n c) e = absurd (n e)

pub Collatz-more : {x k : ℕ} → Collatz x k → x ≢ 1 → (j : ℕ) × Collatz (next x) j × (k ≡ suc j)
Collatz-more stop n = absurd (n refl)
Collatz-more (go {k} n c) _ = (k, c, refl)

module _ {I : Type 0} (num : InfInt I) (is : I → ℕ → Type 0) where
  -- each entry has a number and the steps of its sequence, modulo the range of `uint64_t`
  abbrev pub IsCorrect : Results num → Type 0
  IsCorrect [] = Unit
  IsCorrect (entry ∷ results) =
      ((x : ℕ) × (k : ℕ) × is entry.0 x × Collatz x k × (entry.1 ≡ k % uint64_mod))
      × IsCorrect results

module _ {I : Type 0} {num : InfInt I} {is : I → ℕ → Type 0} (laws : IsExact num is) where
  entry_of-IsCorrect :
      (results : Results num) {n : I} {x k v : ℕ}
      → IsCorrect num is results
      → is n x
      → Collatz x k
      → entry_of num results n ≡ some v
      → v ≡ k % uint64_mod
  unfolding entry_of
  entry_of-IsCorrect [] r m c e = cc
  entry_of-IsCorrect (entry ∷ results) {n} {x} {k} {v} ((y, j, my, cy, i), rest) m c e =
      elim (Bool-cases (num.equal n entry.0)) [
        | inl t ↦
            let same : x ≡ y = (==_iff x y).0 (sym (laws.equal m my) ∙ t) in
            let steps : j ≡ k = Collatz-unique cy (rw same at c) in
            let here : some entry.1 ≡ some v = rw t at e in cc
        | inr f ↦ entry_of-IsCorrect results rest m c (rw f at e)
      ]

  pub get-IsCorrect :
      (results : Results num) {n : I} {x k : ℕ}
      → IsCorrect num is results
      → is n x
      → Collatz x k
      → (get num results n ≡ 0) ⊎ (get num results n ≡ k % uint64_mod)
  unfolding get
  get-IsCorrect results {n} r m c = elim (Option-cases (entry_of num results n)) [
    | inl e ↦ inl (rw (e, get) refl)
    | inr (v, e) ↦ inr ((rw (e, get) refl) ∙ entry_of-IsCorrect results r m c e)
  ]

  pub insert-IsCorrect :
      (results : Results num) {n : I} {x k v : ℕ}
      → IsCorrect num is results
      → is n x
      → Collatz x k
      → v ≡ k % uint64_mod
      → IsCorrect num is (insert num results n v)
  unfolding insert
  insert-IsCorrect results {n} {x} {k} {v} r m c i = elim (Option-cases (entry_of num results n)) [
    | inl e ↦
        let new : insert num results n v ≡ (n, v) ∷ results = rw (e, insert) refl in
        rw new ((x, k, m, c, i), r)
    | inr (old, e) ↦ let kept : insert num results n v ≡ results = rw (e, insert) refl in rw kept r
  ]

  shared_rest :
      (fuel : ℕ) {n : I} {x j : ℕ} (results : Results num)
      → get num results n ≡ 0
      → is n x
      → x ≢ 1
      → 0 < x
      → (later : Results num)
      → shared_collatz num fuel (successor num n) results ≡ returns (j, later)
      → shared_collatz num (suc fuel) n results
        ≡ returns (uint64_suc j, insert num later n (uint64_suc j))
  unfolding shared_collatz
  shared_rest fuel {n} {x} results zero_score m other up later run =
      let ne : (x == 1) ≡ false = ground arith in
      rw (laws.greater m (laws.of_int 0) ∙ lt→ltb 0 x up, equal_one laws m ∙ ne, zero_score, run)
        refl

  shared_done :
      (fuel : ℕ) {n : I} {x : ℕ} (results : Results num)
      → is n x
      → 0 < x
      → ((x == 1) || not (get num results n == 0)) ≡ true
      → shared_collatz num (suc fuel) n results ≡ returns (get num results n, results)
  unfolding shared_collatz
  shared_done fuel {n} {x} results m up test =
      rw (laws.greater m (laws.of_int 0) ∙ lt→ltb 0 x up, equal_one laws m, test) refl

  -- Where the Collatz sequence of a number comes to 1, and the shared results are correct,
  -- `sharedCollatz` of the number returns the steps of the sequence, modulo the range of `uint64_t`, as
  -- `calcCollatz` does, and leaves the shared results correct. The bound is above the number of
  -- steps.
  pub shared_collatz-Collatz :
      (fuel : ℕ) {n : I} {x k : ℕ} (results : Results num)
      → IsCorrect num is results
      → is n x
      → Collatz x k
      → k < fuel
      → (results' : Results num) × (shared_collatz num fuel n results
          ≡ returns (k % uint64_mod, results'))
        × (calc_collatz num fuel n ≡ returns (k % uint64_mod))
        × IsCorrect num is results'
  shared_collatz-Collatz zero results r m c few = absurd (omega arith)
  shared_collatz-Collatz (suc fuel) {n} {x} {k} results r m c few =
      elim (Bool-cases (get num results n == 0)) [
        | inr f ↦
            let value : get num results n ≡ k % uint64_mod = elim (get-IsCorrect results r m c) [
              | inl e ↦ absurd (ground (arith, e, f))
              | inr e ↦ e
            ] in
            let test : ((x == 1) || not (get num results n == 0)) ≡ true = ground (arith, f) in
            (
              results,
              shared_done fuel results m (Collatz-pos c) test
                  ∙ ap (λ v. returns (v, results)) value,
              calc_collatz-Collatz laws (suc fuel) m c few,
              r,
            )
        | inl t ↦
            let none_yet : get num results n ≡ 0 = (==_iff _ 0).0 t in
            elim (Bool-cases (x == 1)) [
              | inl one ↦
                  let no_steps : k ≡ 0 = Collatz-one c ((==_iff x 1).0 one) in
                  let zero_score : get num results n ≡ k % uint64_mod = none_yet ∙ omega arith in
                  (
                    results,
                    shared_done fuel results m (Collatz-pos c) (rw one refl)
                        ∙ ap (λ v. returns (v, results)) zero_score,
                    calc_collatz-Collatz laws (suc fuel) m c few,
                    r,
                  )
              | inr more ↦
                  let other : x ≢ 1 = λ i. absurd (ground (arith, i, more)) in
                  let (j, c', i) = Collatz-more c other in
                  let (later, run, _, r') =
                    shared_collatz-Collatz fuel results r (successor_lem laws m) c' (omega arith) in
                  let sum : uint64_suc (j % uint64_mod) ≡ k % uint64_mod = omega arith in
                  (
                    insert num later n (uint64_suc (j % uint64_mod)),
                    shared_rest fuel results none_yet m other (Collatz-pos c) later run
                        ∙ ap (λ v. returns (v, insert num later n (uint64_suc (j % uint64_mod))))
                            sum,
                    calc_collatz-Collatz laws (suc fuel) m c few,
                    insert-IsCorrect later r' m c sum,
                  )
            ]
      ]
