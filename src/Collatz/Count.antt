-- ===== src/Collatz/Count.antt =====
-- `calcCollatz` of Zaliczeniowe_3/collatz.hpp counts the steps of a Collatz sequence.
use mimuw_pw_tasks.Prelude.{
  ℕ, zero, suc, ◌+◌, ◌*◌, ◌/◌, ◌%◌, ◌<◌, ◌≡◌, ◌≢◌, ap, ◌∙◌, inl, inr, false, ◌==◌, if◌then◌else◌,
  ltb, lt→ltb, Bool-cases, arith,
}
use mimuw_pw_tasks.Collatz.{
  InfInt, returns, uint64_mod, uint64_suc, is_odd, triple_and_one, half, successor, collatz_loop,
  calc_collatz,
}

-- What the documentation of InfInt says of its operations on natural numbers; `is a x` says that `a`
-- is the number `x`.
pub record IsExact {I : Type 0} (num : InfInt I) (is : I → ℕ → Type 0) : Type 0 where
  pub of_int : (x : ℕ) → is (num.of_int x) x
  pub add : {a b : I} {x y : ℕ} → is a x → is b y → is (num.add a b) (x + y)
  pub multiply : {a b : I} {x y : ℕ} → is a x → is b y → is (num.multiply a b) (x * y)
  pub divide : {a b : I} {x y : ℕ} → is a x → is b y → 0 < y → is (num.divide a b) (x / y)
  pub remainder : {a b : I} {x y : ℕ} → is a x → is b y → 0 < y → is (num.remainder a b) (x % y)
  pub equal : {a b : I} {x y : ℕ} → is a x → is b y → num.equal a b ≡ (x == y)
  pub greater : {a b : I} {x y : ℕ} → is a x → is b y → num.greater a b ≡ ltb y x

-- the next number of a Collatz sequence
abbrev pub next : ℕ → ℕ
next x = if x % 2 == 1 then 3 * x + 1 else x / 2

-- The sequence from a number first comes to 1 after so many steps.
pub data Collatz : ℕ → ℕ → Type 0 where
  stop : Collatz 1 0
  go : {x k : ℕ} → x ≢ 1 → Collatz (next x) k → Collatz x (suc k)

pub Collatz-pos : {x k : ℕ} → Collatz x k → 0 < x
Collatz-pos stop = omega arith
Collatz-pos (go {x} n c) = let up = Collatz-pos c in ground arith

module _ {I : Type 0} {num : InfInt I} {is : I → ℕ → Type 0} (laws : IsExact num is) where
  pub is_odd_lem : {n : I} {x : ℕ} → is n x → is_odd num n ≡ (x % 2 == 1)
  is_odd_lem m = laws.equal (laws.remainder m (laws.of_int 2) (omega arith)) (laws.of_int 1)

  pub equal_one : {n : I} {x : ℕ} → is n x → num.equal n (num.of_int 1) ≡ (x == 1)
  equal_one m = laws.equal m (laws.of_int 1)

  next_lem :
      {n : I} {x : ℕ}
      → is n x
      → is (if is_odd num n then triple_and_one num n else half num n) (next x)
  next_lem {n} {x} m = elim (Bool-cases (x % 2 == 1)) [
    | inl e ↦
        let i : 3 * x ≡ x * 3 = omega arith in
        rw (is_odd_lem m ∙ e, e, i) ((laws.add (laws.multiply m (laws.of_int 3)) (laws.of_int 1)))
    | inr e ↦ rw (is_odd_lem m ∙ e, e) (laws.divide m (laws.of_int 2) (omega arith))
  ]

  pub successor_lem : {n : I} {x : ℕ} → is n x → is (successor num n) (next x)
  successor_lem {n} {x} m = elim (Bool-cases (x % 2 == 1)) [
    | inl e ↦ rw (is_odd_lem m ∙ e, e) (laws.add (laws.multiply (laws.of_int 3) m) (laws.of_int 1))
    | inr e ↦ rw (is_odd_lem m ∙ e, e) (laws.divide m (laws.of_int 2) (omega arith))
  ]

  collatz_loop_lem :
      (fuel : ℕ) {n : I} {x k : ℕ} (count : ℕ)
      → is n x
      → Collatz x k
      → k < fuel
      → count < uint64_mod
      → collatz_loop num fuel n count ≡ returns ((count + k) % uint64_mod)
  unfolding collatz_loop
  collatz_loop_lem zero count m c few small = absurd (omega arith)
  collatz_loop_lem (suc fuel) count m stop few small =
      let r : count ≡ (count + 0) % uint64_mod = omega arith in rw (equal_one m) (ap returns r)
  collatz_loop_lem (suc fuel) {n} {x} count m (go {k} other c) few small =
      let ne : (x == 1) ≡ false = ground arith in
      let r : (uint64_suc count + k) % uint64_mod ≡ (count + suc k) % uint64_mod = omega arith in
      rw (equal_one m ∙ ne) (
        collatz_loop_lem fuel (uint64_suc count) (next_lem m) c (omega arith) (omega arith)
        ∙ ap returns r)

  -- Where the Collatz sequence of a number comes to 1, `calcCollatz` of it returns the steps of the
  -- sequence up to there, modulo the range of `uint64_t`. The bound is above the number of steps.
  pub calc_collatz-Collatz :
      (fuel : ℕ) {n : I} {x k : ℕ}
      → is n x
      → Collatz x k
      → k < fuel
      → calc_collatz num fuel n ≡ returns (k % uint64_mod)
  unfolding calc_collatz
  calc_collatz-Collatz fuel {n} {x} {k} m c few =
      let up = Collatz-pos c in
      let z : (0 + k) % uint64_mod ≡ k % uint64_mod = omega arith in
      rw (laws.greater m (laws.of_int 0) ∙ lt→ltb 0 x up)
        (collatz_loop_lem fuel 0 m c few (omega arith) ∙ ap returns z)
