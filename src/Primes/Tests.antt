-- ===== src/Primes/Tests.antt =====
-- The theorems on Lab_9/primes.c at small numbers.
use mimuw_pw_tasks.Prelude.{◌-◌, ◌≡◌, ◌↔◌, refl, true, arith, [], ◌∷◌}
use mimuw_pw_tasks.Prelude.Counting.{total}
use mimuw_pw_tasks.Primes.{divisor_loop, is_prime, number_loop, worker, joined}
use mimuw_pw_tasks.Primes.Divisors.{IsPrime, is_prime_lem}
use mimuw_pw_tasks.Primes.Classes.{primes_from, joined-primes}

-- three threads find 2, 5, 11 and 17, then 3, then 7, 13 and 19
joined-three : joined 3 20 0 3 ≡ 4 ∷ 1 ∷ 3 ∷ []
unfolding joined worker number_loop divisor_loop
joined-three = refl

is_prime_lem_example : (is_prime 91 ≡ true) ↔ IsPrime 91
is_prime_lem_example = is_prime_lem 91 (omega arith)

joined-primes_example : total (λ c. c) (joined 3 20 0 3) ≡ primes_from (20 - 2) 2
joined-primes_example = joined-primes 3 20 (omega arith) (omega arith)
