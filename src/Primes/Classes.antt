-- ===== src/Primes/Classes.antt =====
-- The threads of Lab_9/primes.c share out the numbers.
use mimuw_pw_tasks.Prelude.{
  ℕ, zero, suc, ◌+◌, ◌-◌, ◌≤◌, ◌<◌, ◌≡◌, refl, ap, ◌∙◌, arith, if◌then◌else◌,
}
use mimuw_pw_tasks.Prelude.Counting.{total}
use mimuw_pw_tasks.Primes.{is_prime, number_loop, worker, joined}

-- the primes among `count` numbers from `number` on
unfoldable pub primes_from : ℕ → ℕ → ℕ
primes_from zero number = 0
primes_from (suc count) number = (if is_prime number then 1 else 0) + primes_from count (suc number)

number_loop-add :
    (fuel num limit number c : ℕ)
    → number_loop fuel num limit number c ≡ c + number_loop fuel num limit number 0
unfolding number_loop
number_loop-add zero num limit number c = omega arith
number_loop-add (suc fuel) num limit number c =
    let a = number_loop-add fuel num limit (number + num) (if is_prime number then c + 1 else c) in
    let b = number_loop-add fuel num limit (number + num) (if is_prime number then 0 + 1 else 0) in
    ground arith

-- more fuel changes nothing
number_loop-fuel :
    (fuel more num limit number c : ℕ)
    → 0 < num
    → limit ≤ number + fuel
    → limit ≤ number + more
    → number_loop fuel num limit number c ≡ number_loop more num limit number c
unfolding number_loop
number_loop-fuel zero zero num limit number c some_threads h k = refl
number_loop-fuel zero (suc more) num limit number c some_threads h k = ground arith
number_loop-fuel (suc fuel) zero num limit number c some_threads h k = ground arith
number_loop-fuel (suc fuel) (suc more) num limit number c some_threads h k =
    let d : ℕ = if is_prime number then c + 1 else c in
    let rest =
      number_loop-fuel fuel more num limit (number + num) d some_threads (omega arith)
        (omega arith) in
    ground arith

add_zero : (n : ℕ) → n + 0 ≡ n
add_zero n = omega arith

add_suc : (n m : ℕ) → n + suc m ≡ suc n + m
add_suc n m = omega arith

add_two : (n : ℕ) → suc (2 + n) ≡ 2 + suc n
add_two n = omega arith

module _ (num limit : ℕ) (some_threads : 0 < num) where
  -- the primes that a thread counts from `number` on
  from : ℕ → ℕ
  from number = number_loop limit num limit number 0

  weight : ℕ → ℕ
  weight number = if is_prime number then 1 else 0

  from-end : (number : ℕ) → limit ≤ number → from number ≡ 0
  unfolding from number_loop
  from-end number h =
      number_loop-fuel limit 0 num limit number 0 some_threads (omega arith) (omega arith)

  from-step : (number : ℕ) → number < limit → from number ≡ weight number + from (number + num)
  unfolding from weight number_loop
  from-step number h =
      let more =
        number_loop-fuel limit (suc limit) num limit number 0 some_threads (omega arith)
          (omega arith) in
      let d : ℕ = if is_prime number then 0 + 1 else 0 in
      let split = number_loop-add limit num limit (number + num) d in ground arith

  -- the counts of `n` threads from `number` on
  unfoldable counts : ℕ → ℕ → ℕ
  counts zero number = 0
  counts (suc n) number = from number + counts n (suc number)

  counts-shift :
      (n number : ℕ) → counts n number + from (number + n) ≡ from number + counts n (suc number)
  unfolding counts
  counts-shift zero number = omega (arith, ap from (add_zero number))
  counts-shift (suc n) number =
      omega (arith, counts-shift n (suc number), ap from (add_suc number n))

  counts-end : (n number : ℕ) → limit ≤ number → counts n number ≡ 0
  unfolding counts
  counts-end zero number h = refl
  counts-end (suc n) number h =
      omega (arith, from-end number h, counts-end n (suc number) (omega arith))

  counts-primes :
      (count number : ℕ) → number + count ≡ limit → counts num number ≡ primes_from count number
  unfolding primes_from weight
  counts-primes zero number h = counts-end num number (omega arith)
  counts-primes (suc count) number h = omega (
    arith,
    from-step number (omega arith),
    counts-shift num number,
    counts-primes count (suc number) (omega arith),
  )

  total-joined : (id n : ℕ) → total (λ c. c) (joined num limit id n) ≡ counts n (2 + id)
  unfolding total joined worker counts from
  total-joined id zero = refl
  total-joined id (suc n) = omega (arith, total-joined (suc id) n, ap (counts n) (add_two id))

-- With a thread or more, and LIMIT at least 2, the counts of the NUM threads add up to the number of
-- primes, by the loop over the divisors, from 2 to below LIMIT: none is left out or counted twice.
pub joined-primes :
    (num limit : ℕ)
    → 0 < num
    → 2 ≤ limit
    → total (λ c. c) (joined num limit 0 num) ≡ primes_from (limit - 2) 2
joined-primes num limit some_threads big =
    total-joined num limit some_threads 0 num
    ∙ counts-primes num limit some_threads (limit - 2) 2 (omega arith)
