-- ===== src/Primes.antt =====
-- Lab_9/primes.c: threads that count the primes below LIMIT, each in its own residue class. The threads
-- share nothing but their arguments and results, so that each is a function; printing is left out.
pub mod Divisors
pub mod Classes
mod Tests
use mimuw_pw_tasks.Prelude.{
  ℕ, zero, suc, ◌+◌, ◌/◌, ◌%◌, Bool, true, false, List, [], ◌∷◌, ltb, leb, ◌==◌, if◌then◌else◌,
}

-- The loop over `divisor`, and `prime` behind it. The fuel bounds its rounds.
unfoldable pub divisor_loop : ℕ → ℕ → ℕ → Bool
divisor_loop zero number divisor = true
divisor_loop (suc fuel) number divisor =
    let rest = divisor_loop fuel number (divisor + 1) in
    if leb divisor (number / 2) then if number % divisor == 0 then false else rest else true

abbrev pub is_prime : ℕ → Bool
is_prime number = divisor_loop number number 2

-- The loop over `number`, for NUM threads and LIMIT, with `*prime_count`.
unfoldable pub number_loop : ℕ → ℕ → ℕ → ℕ → ℕ → ℕ
number_loop zero num limit number prime_count = prime_count
number_loop (suc fuel) num limit number prime_count =
    let rest =
      number_loop fuel num limit (number + num)
        (if is_prime number then prime_count + 1 else prime_count) in
    if ltb number limit then rest else prime_count

unfoldable pub worker : ℕ → ℕ → ℕ → ℕ
worker num limit id = number_loop limit num limit (2 + id) 0

-- what `main` gets from the threads, from the thread `id` on
unfoldable pub joined : ℕ → ℕ → ℕ → ℕ → List ℕ
joined num limit id zero = []
joined num limit id (suc n) = worker num limit id ∷ joined num limit (suc id) n
