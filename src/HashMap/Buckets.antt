-- ===== src/HashMap/Buckets.antt =====
-- Where the pairs of a map stand, and what the map means.
use mathlib.Core.List.{flatten}
use mimuw_pw_tasks.CString.{CString}
use mimuw_pw_tasks.HashMap.{Pair, HashMap, n_buckets, size_mod, get_hash, find_pair}
use mimuw_pw_tasks.HashMap.Chain.{IsDistinct}
use mimuw_pw_tasks.Prelude.{
  ℕ, zero, suc, ◌+◌, ◌%◌, ◌<◌, ◌≡◌, refl, ap, ◌∙◌, ◌≢◌, none, List, [], ◌∷◌, arith, ℕ_discrete,
  ◌==◌, if◌then◌else◌, length, set, length-append, length-set, get_or,
}

module _ {ℓ} {A : Type ℓ} where
  pub get_or-set_self :
      (xs : List A) (i : ℕ) (v d : A) → i < length xs → get_or (set xs i v) i d ≡ v
  get_or-set_self [] i v d h = absurd (omega arith)
  get_or-set_self (x ∷ xs) zero v d h = refl
  get_or-set_self (x ∷ xs) (suc i) v d h = get_or-set_self xs i v d (omega arith)

  pub get_or-set_ne :
      (xs : List A) (i j : ℕ) (v d : A) → i ≢ j → get_or (set xs i v) j d ≡ get_or xs j d
  get_or-set_ne [] i j v d h = refl
  get_or-set_ne (x ∷ xs) zero zero v d h = absurd (h refl)
  get_or-set_ne (x ∷ xs) zero (suc j) v d h = refl
  get_or-set_ne (x ∷ xs) (suc i) zero v d h = refl
  get_or-set_ne (x ∷ xs) (suc i) (suc j) v d h = get_or-set_ne xs i j v d (λ e. h (ap suc e))

  -- replacing one bucket changes the number of pairs by the difference of the two
  pub size-replaced_bucket :
      (table : List (List A)) (h : ℕ) (bucket : List A)
      → h < length table
      → length (get_or table h []) + length (flatten (set table h bucket))
        ≡ length bucket + length (flatten table)
  unfolding flatten
  size-replaced_bucket [] h bucket lt = elim lt [ ]
  size-replaced_bucket (old ∷ table) zero bucket lt =
      omega (arith, length-append old (flatten table), length-append bucket (flatten table))
  size-replaced_bucket (old ∷ table) (suc h) bucket lt = omega (
    arith,
    length-append old (flatten table),
    length-append old (flatten (set table h bucket)),
    size-replaced_bucket table h bucket (omega arith),
  )

module _ {ℓ} {V : Type ℓ} where
  -- the bucket of a key
  abbrev pub chain_of : HashMap V → CString → List (Pair V)
  chain_of m k = get_or m.buckets (get_hash k) []

  -- all the pairs, bucket after bucket
  abbrev pub pairs : HashMap V → List (Pair V)
  pairs m = flatten m.buckets

  -- There are eight buckets; a key stands only in its own bucket, and once; `size` counts the
  -- pairs, modulo the range of `size_t`.
  pub record IsValid (m : HashMap V) : Type ℓ where
    pub width : length m.buckets ≡ n_buckets
    pub placed : (q : CString) (i : ℕ) → get_hash q ≢ i → find_pair (get_or m.buckets i []) q ≡ none
    pub distinct : (i : ℕ) → IsDistinct (get_or m.buckets i [])
    pub counted : m.size ≡ length (pairs m) % size_mod

  -- a write of one bucket
  pub set-IsValid :
      (m : HashMap V) (h : ℕ) (c : List (Pair V)) (size : ℕ)
      → IsValid m
      → h < n_buckets
      → ((q : CString) → get_hash q ≢ h → find_pair c q ≡ none)
      → IsDistinct c
      → size ≡ length (flatten (set m.buckets h c)) % size_mod
      → IsValid (record { buckets = set m.buckets h c; size = size })
  set-IsValid m h c size v lt own once counted = record {
    width = length-set m.buckets h c ∙ v.width;
    placed = λ q i n. elim (ℕ_discrete h i) [
      | yes e ↦
          rw (← e, get_or-set_self m.buckets h c [] (omega (arith, v.width)))
            (own q (λ f. n (f ∙ e)))
      | no e ↦ rw (get_or-set_ne m.buckets h i c [] e) (v.placed q i n)
    ];
    distinct = λ i. elim (ℕ_discrete h i) [
      | yes e ↦ rw (← e, get_or-set_self m.buckets h c [] (omega (arith, v.width))) once
      | no e ↦ rw (get_or-set_ne m.buckets h i c [] e) (v.distinct i)
    ];
    counted = counted;
  }

  -- what another key reads after such a write
  pub chain_of-set :
      (m : HashMap V) (h : ℕ) (c : List (Pair V)) (k : CString)
      → IsValid m
      → h < n_buckets
      → get_or (set m.buckets h c) (get_hash k) [] ≡ (if h == get_hash k then c else chain_of m k)
  chain_of-set m h c k v lt = elim (ℕ_discrete h (get_hash k)) [
    | yes e ↦ rw (← e) (get_or-set_self m.buckets h c [] (omega (arith, v.width)) ∙ ground arith)
    | no e ↦ get_or-set_ne m.buckets h _ c [] e ∙ ground arith
  ]
