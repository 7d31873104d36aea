-- ===== src/Primes/Divisors.antt =====
-- The loop over the divisors in Lab_9/primes.c.
use native.Mathlib.Nat.{mod-eq-sub-mod, mod-eq_of_lt}
use mimuw_pw_tasks.Prelude.{
  ℕ, zero, suc, ◌+◌, ◌-◌, ◌/◌, ◌%◌, ◌≤◌, ◌<◌, ◌≡◌, ◌≢◌, ◌↔◌, refl, ◌∙◌, true, arith, dec_lt,
  ℕ_discrete,
}
use mimuw_pw_tasks.Primes.{divisor_loop, is_prime}

-- no divisor from `low` on but the number
abbrev pub NoDivisor : ℕ → ℕ → Type 0
NoDivisor number low = (d : ℕ) → low ≤ d → d < number → number % d ≢ 0

-- a number above one with no divisor but one and itself
abbrev pub IsPrime : ℕ → Type 0
IsPrime number = (2 ≤ number) × NoDivisor number 2

past_half : (number d : ℕ) → number / 2 < d → d < number → number % d ≢ 0
past_half number d half less e =
    let below : number - d < d = omega arith in
    let same = mod-eq-sub-mod {n = number} {m = d} (omega arith) ∙ mod-eq_of_lt below in
    absurd (omega arith)

divisor_loop-NoDivisor :
    (fuel number divisor : ℕ)
    → number < fuel + divisor
    → divisor_loop fuel number divisor ≡ true
    → NoDivisor number divisor
unfolding divisor_loop
divisor_loop-NoDivisor zero number divisor enough h = λ d low less. absurd (omega arith)
divisor_loop-NoDivisor (suc fuel) number divisor enough h = λ d low less.
    elim (dec_lt (number / 2) d) [
      | yes p ↦ past_half number d p less
      | no p ↦ elim (ℕ_discrete divisor d) [
        | yes e ↦ λ f. ground arith
        | no n ↦
            let more : divisor_loop fuel number (divisor + 1) ≡ true = ground arith in
            divisor_loop-NoDivisor fuel number (divisor + 1) (omega arith) more d (omega arith) less
      ]
    ]

NoDivisor-divisor_loop :
    (fuel number divisor : ℕ)
    → 2 ≤ divisor
    → 2 ≤ number
    → NoDivisor number divisor
    → divisor_loop fuel number divisor ≡ true
unfolding divisor_loop
NoDivisor-divisor_loop zero number divisor two big h = refl
NoDivisor-divisor_loop (suc fuel) number divisor two big h =
    let rest =
      NoDivisor-divisor_loop fuel number (divisor + 1) (omega arith) big
        (λ d low less. h d (omega arith) less) in
    elim (dec_lt (number / 2) divisor) [
      | yes p ↦ ground arith
      | no p ↦ let here = h divisor (omega arith) (omega arith) in ground arith
    ]

-- The loop over the divisors finds out whether a number above one is a prime, though it stops at half of
-- the number.
pub is_prime_lem : (number : ℕ) → 2 ≤ number → (is_prime number ≡ true) ↔ IsPrime number
is_prime_lem number big = (
  λ h. (big, divisor_loop-NoDivisor number number 2 (omega arith) h),
  λ p. NoDivisor-divisor_loop number number 2 (omega arith) big (p.1),
)
