-- ===== src/Collatz.antt =====
-- Zaliczeniowe_3: the lengths of Collatz sequences (collatz.hpp), the results that threads share
-- (sharedresults.hpp), and the teams that compute them. `InfInt` is a vendored library: its type
-- and its operations are parameters.
pub mod Count
pub mod Shared
pub mod Threads
pub mod Teams
mod Tests
use mimuw_pw_tasks.Prelude.{
  ℕ, zero, suc, ◌+◌, ◌%◌, ◌^◌, Bool, true, false, ◌||◌, not, Option, none, some, List, [], ◌∷◌,
  ◌++◌, ◌==◌, if◌then◌else◌, ltb, length, get_elem?,
}

-- the operations of InfInt that the sources call; `of_int` converts a literal
pub record InfInt (I : Type 0) : Type 0 where
  pub of_int : ℕ → I
  pub add : I → I → I
  pub multiply : I → I → I
  pub divide : I → I → I
  pub remainder : I → I → I
  pub equal : I → I → Bool
  pub greater : I → I → Bool

-- A run returns, or fails an assertion, or does not end within its bound.
pub data Outcome (A : Type 0) : Type 0 where
  returns : A → Outcome A
  assert_failed : Outcome A
  unfinished : Outcome A

module _ {A B : Type 0} where
  abbrev pub and_then : Outcome A → (A → Outcome B) → Outcome B
  and_then (returns a) k = k a
  and_then assert_failed k = assert_failed
  and_then unfinished k = unfinished

-- the range of `uint64_t`
abbrev pub uint64_mod : ℕ
uint64_mod = 2 ^ 64

abbrev pub uint64_suc : ℕ → ℕ
uint64_suc n = (n + 1) % uint64_mod

module _ {I : Type 0} (num : InfInt I) where
  abbrev pub is_odd : I → Bool
  is_odd n = num.equal (num.remainder n (num.of_int 2)) (num.of_int 1)

  -- `n *= 3; n += 1` and `3 * n + 1`
  abbrev pub triple_and_one : I → I
  triple_and_one n = num.add (num.multiply n (num.of_int 3)) (num.of_int 1)

  abbrev pub half : I → I
  half n = num.divide n (num.of_int 2)

  -- the loop of `calcCollatz`; the first argument bounds the tests of its condition
  unfoldable pub collatz_loop : ℕ → I → ℕ → Outcome ℕ
  collatz_loop zero n count = unfinished
  collatz_loop (suc fuel) n count =
      let round =
        collatz_loop fuel (if is_odd n then triple_and_one n else half n) (uint64_suc count) in
      if not (num.equal n (num.of_int 1)) then round else returns count

  unfoldable pub calc_collatz : ℕ → I → Outcome ℕ
  unfolding collatz_loop
  calc_collatz fuel n =
      if num.greater n (num.of_int 0) then collatz_loop fuel n 0 else assert_failed

  -- the entries of the hash map `_results`
  abbrev pub Results : Type 0
  Results = List (I × ℕ)

  -- `_results[key]`, if the key is there
  unfoldable pub entry_of : Results → I → Option ℕ
  entry_of [] key = none
  entry_of (entry ∷ results) key =
      if num.equal key entry.0 then some entry.1 else entry_of results key

  -- `SharedResults::get`
  unfoldable pub get : Results → I → ℕ
  unfolding entry_of
  get results key = elim (entry_of results key) [ none ↦ 0 | some value ↦ value ]

  -- `SharedResults::insert`, which leaves a key that is there
  unfoldable pub insert : Results → I → ℕ → Results
  unfolding entry_of
  insert results key value = elim (entry_of results key) [
    | none ↦ (key, value) ∷ results
    | some old ↦ results
  ]

  abbrev pub successor : I → I
  successor n = if is_odd n then num.add (num.multiply (num.of_int 3) n) (num.of_int 1) else half n

  -- the first argument bounds the depth of the recursion
  unfoldable pub shared_collatz : ℕ → I → Results → Outcome (ℕ × Results)
  unfolding get insert
  shared_collatz zero n results = unfinished
  shared_collatz (suc fuel) n results =
      let score = get results n in
      let rest =
        and_then (shared_collatz fuel (successor n) results)
          (λ found. let result = uint64_suc found.0 in returns (result, insert found.1 n result)) in
      if num.greater n (num.of_int 0)
      then if num.equal n (num.of_int 1) || not (score == 0) then returns (score, results) else rest
      else assert_failed
