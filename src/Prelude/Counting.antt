-- ===== src/Prelude/Counting.antt =====
-- Totals of a weight over a list, under the change of one element.
use Prim.Native.Nat.{ℕ, zero, suc, ◌+◌, ◌≤◌, ◌<◌}
use mathlib.Core.Path.{◌≡◌, refl, ap}
use mathlib.Core.Logic.{◌≢◌}
use mathlib.Core.Option.{some}
use mathlib.Core.List.{List, [], ◌∷◌}
use native.Mathlib.Omega.{arith}
use native.Mathlib.Decide.{dec_lt}
use mimuw_pw_tasks.Prelude.Lists.{get_elem?, set, replicate}

module _ {ℓ} {A : Type ℓ} (w : A → ℕ) where
  unfoldable pub total : List A → ℕ
  total [] = 0
  total (x ∷ xs) = w x + total xs

  pub total-set :
      (xs : List A) (i : ℕ) (x y : A)
      → get_elem? xs i ≡ some x
      → total (set xs i y) + w x ≡ total xs + w y
  unfolding total
  total-set [] i x y h = cc
  total-set (z ∷ xs) zero x y h = let e : w z ≡ w x = cc in omega arith
  total-set (z ∷ xs) (suc i) x y h = omega (arith, total-set xs i x y h)

  pub total-zero :
      (xs : List A) → ((i : ℕ) (x : A) → get_elem? xs i ≡ some x → w x ≡ 0) → total xs ≡ 0
  unfolding total
  total-zero [] h = refl
  total-zero (x ∷ xs) h = omega (arith, h 0 x refl, total-zero xs (λ i. h (suc i)))

  pub le-total : (xs : List A) (i : ℕ) (x : A) → get_elem? xs i ≡ some x → w x ≤ total xs
  unfolding total
  le-total [] i x h = cc
  le-total (z ∷ xs) zero x h = let e : w z ≡ w x = cc in omega arith
  le-total (z ∷ xs) (suc i) x h = omega (arith, le-total xs i x h)

  -- an element with a weight, where the total is positive
  pub total-pos :
      (xs : List A) → 0 < total xs → (i : ℕ) × (x : A) × (get_elem? xs i ≡ some x) × (0 < w x)
  unfolding total
  total-pos [] h = absurd (omega arith)
  total-pos (x ∷ xs) h = elim (dec_lt 0 (w x)) [
    | yes p ↦ (0, x, refl, p)
    | no n ↦ let (i, y, e, p) = total-pos xs (omega arith) in (suc i, y, e, p)
  ]

  -- two elements at different places
  pub le-total_two :
      (xs : List A) (i j : ℕ) (x y : A)
      → get_elem? xs i ≡ some x
      → get_elem? xs j ≡ some y
      → i ≢ j
      → w x + w y ≤ total xs
  unfolding total
  le-total_two [] i j x y h k n = cc
  le-total_two (z ∷ xs) zero zero x y h k n = absurd (n refl)
  le-total_two (z ∷ xs) zero (suc j) x y h k n =
      let e : w z ≡ w x = cc in omega (arith, le-total xs j y k)
  le-total_two (z ∷ xs) (suc i) zero x y h k n =
      let e : w z ≡ w y = cc in omega (arith, le-total xs i x h)
  le-total_two (z ∷ xs) (suc i) (suc j) x y h k n =
      omega (arith, le-total_two xs i j x y h k (λ e. n (ap suc e)))

  pub total-replicate : (x : A) (n : ℕ) → w x ≡ 0 → total (replicate n x) ≡ 0
  unfolding total
  total-replicate x zero h = refl
  total-replicate x (suc n) h = omega (arith, total-replicate x n h)
