-- ===== src/HashMap/Flat.antt =====
-- All the pairs of a map in one list, bucket after bucket.
use mathlib.Core.List.{flatten}
use mimuw_pw_tasks.CString.{CString}
use mimuw_pw_tasks.CString.Laws.{str_eq_refl}
use mimuw_pw_tasks.HashMap.{Pair, HashMap, get_hash, find_pair}
use mimuw_pw_tasks.HashMap.Chain.{IsDistinct}
use mimuw_pw_tasks.HashMap.Buckets.{IsValid, chain_of, pairs}
use mimuw_pw_tasks.Prelude.{
  ℕ, zero, suc, ◌+◌, ◌≡◌, refl, ◌∙◌, ◌≢◌, ◌⊎◌, inl, inr, none, List, [], ◌∷◌, ◌++◌, arith,
  ℕ_discrete, get_or,
}

module _ {ℓ} {V : Type ℓ} where
  find_pair-append_absent :
      (a b : List (Pair V)) (q : CString)
      → find_pair a q ≡ none
      → find_pair (a ++ b) q ≡ find_pair b q
  unfolding find_pair
  find_pair-append_absent [] b q h = refl
  find_pair-append_absent (p ∷ a) b q h = ground (arith, find_pair-append_absent a b q)

  find_pair-append_only :
      (a b : List (Pair V)) (q : CString)
      → find_pair b q ≡ none
      → find_pair (a ++ b) q ≡ find_pair a q
  unfolding find_pair
  find_pair-append_only [] b q h = h
  find_pair-append_only (p ∷ a) b q h = ground (arith, find_pair-append_only a b q)

  find_pair-flatten_nowhere :
      (bs : List (List (Pair V))) (q : CString)
      → ((i : ℕ) → find_pair (get_or bs i []) q ≡ none)
      → find_pair (flatten bs) q ≡ none
  unfolding flatten find_pair
  find_pair-flatten_nowhere [] q h = refl
  find_pair-flatten_nowhere (c ∷ cs) q h =
      find_pair-append_absent c _ q (h 0) ∙ find_pair-flatten_nowhere cs q (λ i. h (suc i))

  find_pair-flatten_only :
      (bs : List (List (Pair V))) (q : CString) (h : ℕ)
      → ((i : ℕ) → h ≢ i → find_pair (get_or bs i []) q ≡ none)
      → find_pair (flatten bs) q ≡ find_pair (get_or bs h []) q
  unfolding flatten
  find_pair-flatten_only [] q h n = refl
  find_pair-flatten_only (c ∷ cs) q zero n =
      find_pair-append_only c _ q (find_pair-flatten_nowhere cs q (λ i. n (suc i) (omega arith)))
  find_pair-flatten_only (c ∷ cs) q (suc h) n =
      find_pair-append_absent c _ q (n 0 (omega arith))
      ∙ find_pair-flatten_only cs q h (λ i d. n (suc i) (omega arith))

  append-IsDistinct :
      (a b : List (Pair V))
      → IsDistinct a
      → IsDistinct b
      → ((q : CString) → (find_pair a q ≡ none) ⊎ (find_pair b q ≡ none))
      → IsDistinct (a ++ b)
  unfolding find_pair
  append-IsDistinct [] b da db apart = db
  append-IsDistinct (p ∷ a) b da db apart =
      (head_absent (apart p.key), append-IsDistinct a b da.1 db (λ q. tail_apart q (apart q)))
    where
      head_absent :
          (find_pair (p ∷ a) p.key ≡ none) ⊎ (find_pair b p.key ≡ none)
          → find_pair (a ++ b) p.key ≡ none
      head_absent (inl e) = absurd (ground (arith, str_eq_refl p.key))
      head_absent (inr e) = find_pair-append_only a b p.key e ∙ da.0

      tail_apart :
          (q : CString)
          → (find_pair (p ∷ a) q ≡ none) ⊎ (find_pair b q ≡ none)
          → (find_pair a q ≡ none) ⊎ (find_pair b q ≡ none)
      tail_apart q (inr e) = inr e
      tail_apart q (inl e) = inl (ground arith)

  flatten-IsDistinct :
      (bs : List (List (Pair V))) (h : ℕ)
      → ((q : CString) (i : ℕ) → get_hash q ≢ h + i → find_pair (get_or bs i []) q ≡ none)
      → ((i : ℕ) → IsDistinct (get_or bs i []))
      → IsDistinct (flatten bs)
  unfolding flatten
  flatten-IsDistinct [] h placed once = tt
  flatten-IsDistinct (c ∷ cs) h placed once =
      append-IsDistinct c (flatten cs) (once 0)
        (flatten-IsDistinct cs (h + 1) (λ q i n. placed q (suc i) (omega arith))
          (λ i. once (suc i)))
        (λ q. elim (ℕ_discrete (get_hash q) h) [
          | yes e ↦ inr (find_pair-flatten_nowhere cs q (λ i. placed q (suc i) (omega arith)))
          | no n ↦ inl (placed q 0 (omega arith))
        ])

  pub find_pair-pairs :
      (m : HashMap V)
      → IsValid m
      → (q : CString) → find_pair (pairs m) q ≡ find_pair (chain_of m q) q
  find_pair-pairs m v q = find_pair-flatten_only m.buckets q (get_hash q) (v.placed q)

  pub pairs-IsDistinct : (m : HashMap V) → IsValid m → IsDistinct (pairs m)
  pairs-IsDistinct m v =
      flatten-IsDistinct m.buckets 0 (λ q i n. v.placed q i (omega arith)) v.distinct
