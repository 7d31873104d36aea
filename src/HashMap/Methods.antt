-- ===== src/HashMap/Methods.antt =====
-- Each operation of the map against a partial function from keys to values.
use mathlib.Core.List.{flatten}
use mimuw_pw_tasks.CString.{CString, str_eq}
use mimuw_pw_tasks.CString.Laws.{str_eq_iff}
use mimuw_pw_tasks.HashMap.{
  Pair, HashMap, n_buckets, size_mod, get_hash, find_pair, unlink, hmap_new, hmap_get, push_pair,
  hmap_insert,
}
use mimuw_pw_tasks.HashMap.Hash.{get_hash-lt}
use mimuw_pw_tasks.HashMap.Chain.{
  value_of, length-unlink, find_pair-unlink_ne, find_pair-unlink_self, unlink-IsDistinct,
}
use mimuw_pw_tasks.HashMap.Buckets.{
  IsValid, chain_of, size-replaced_bucket, set-IsValid, chain_of-set,
}
use mimuw_pw_tasks.Prelude.{
  ℕ, ◌+◌, ◌-◌, ◌%◌, ◌≡◌, refl, sym, ap, ◌∙◌, ◌≢◌, ◌⊎◌, inl, inr, Bool, true, false, Option, none,
  some, List, [], ◌∷◌, arith, ◌==◌, if◌then◌else◌, ==_iff, Bool-cases, Option-cases, set, get_or,
  replicate,
}

module _ {ℓ} {V : Type ℓ} where
  abbrev pub found : Option V → Bool
  found none = false
  found (some v) = true

  -- the value of `a`, or that of `b` where there is none
  abbrev pub first : Option V → Option V → Option V
  first none b = b
  first (some v) b = some v

  pub empty_bucket : (i : ℕ) → get_or {A = List (Pair V)} (replicate n_buckets []) i [] ≡ []
  empty_bucket i = grind arith

  -- the new map is well formed
  pub hmap_new-IsValid : IsValid {V = V} hmap_new
  unfolding hmap_new flatten find_pair
  hmap_new-IsValid = record {
    width = refl;
    placed = λ q i n. rw (empty_bucket i);
    distinct = λ i. rw (empty_bucket i) tt;
    counted = refl;
  }

  -- the table with a bucket replaced, as `hmap_remove` leaves it
  unfoldable pub shrink : HashMap V → ℕ → List (Pair V) → HashMap V
  shrink m h rest = record {
    buckets = set m.buckets h rest;
    size = (m.size + size_mod - 1) % size_mod;
  }

  pub hmap_get_lem :
      (m : HashMap V) (k : CString) → hmap_get m k ≡ value_of (find_pair (chain_of m k) k)
  unfolding hmap_get
  hmap_get_lem m k = ground arith

  pub found-get :
      (m : HashMap V) (k : CString)
      → (find_pair (chain_of m k) k ≡ none) × (hmap_get m k ≡ none)
        ⊎ ((p : Pair V) × (find_pair (chain_of m k) k ≡ some p) × (hmap_get m k ≡ some p.value))
  found-get m k = elim (Option-cases (find_pair (chain_of m k) k)) [
    | inl e ↦ inl (e, rw (hmap_get_lem, e))
    | inr (p, e) ↦ inr (p, e, rw (hmap_get_lem, e))
  ]

  -- `hmap_insert` by whether the key is there
  pub hmap_insert_absent :
      (m : HashMap V) (k : CString) (x : V)
      → hmap_get m k ≡ none
      → hmap_insert m k (some x) ≡ (push_pair m (get_hash k) k x, true)
  unfolding hmap_insert
  hmap_insert_absent m k x h = elim (found-get m k) [
    | inl (e, _) ↦ rw (e, hmap_insert)
    | inr (p, _, e) ↦ absurd (cc)
  ]

  pub hmap_insert_present :
      (m : HashMap V) (k : CString) (x y : V)
      → hmap_get m k ≡ some y
      → hmap_insert m k (some x) ≡ (m, false)
  unfolding hmap_insert
  hmap_insert_present m k x y h = elim (found-get m k) [
    | inl (_, e) ↦ absurd (cc)
    | inr (p, e, _) ↦ rw (e, hmap_insert)
  ]

  module _ (m : HashMap V) (k : CString) (v : IsValid m) where
    get-bucket :
        (size : ℕ) (c : List (Pair V)) (q : CString)
        → hmap_get (record { buckets = set m.buckets (get_hash k) c; size = size }) q
          ≡ (if get_hash k == get_hash q then value_of (find_pair c q) else hmap_get m q)
    get-bucket size c q =
        rw (hmap_get_lem, hmap_get_lem, chain_of-set m (get_hash k) c q v (get_hash-lt k))
          (ground arith)

    pub push_pair-IsValid : (x : V) → hmap_get m k ≡ none → IsValid (push_pair m (get_hash k) k x)
    unfolding push_pair find_pair
    push_pair-IsValid x h =
        let c = chain_of m k in
        let p : Pair V = record { key = k; value = x } in
        elim (found-get m k) [
          | inr (p, _, e) ↦ absurd (cc)
          | inl (e, _) ↦
              set-IsValid m (get_hash k) (p ∷ c) _ v (get_hash-lt k)
                (λ q n. other q n (Bool-cases (str_eq q k))) (e, v.distinct _)
                (omega (
                  arith,
                  v.counted,
                  v.width,
                  get_hash-lt k,
                  size-replaced_bucket m.buckets (get_hash k) (p ∷ c)
                      (omega (arith, v.width, get_hash-lt k)),
                ))
        ]
      where
        other :
            (q : CString)
            → get_hash q ≢ get_hash k
            → (str_eq q k ≡ true) ⊎ (str_eq q k ≡ false)
            → find_pair (record { key = k; value = x } ∷ chain_of m k) q ≡ none
        other q n (inl e) = absurd (n (ap get_hash ((str_eq_iff q k).0 e)))
        other q n (inr e) = rw e (v.placed q (get_hash k) n)

    get-same_bucket :
        (q : CString)
        → get_hash k ≡ get_hash q
        → hmap_get m q ≡ value_of (find_pair (chain_of m k) q)
    get-same_bucket q e = rw (hmap_get_lem, e)

    same_hash : (q : CString) → str_eq q k ≡ true → (get_hash k == get_hash q) ≡ true
    same_hash q e = (==_iff _ _).1 (sym (ap get_hash ((str_eq_iff q k).0 e)))

    -- to know what a bucket's replacement reads, it is enough to compare it with the old bucket
    get-replaced :
        (size : ℕ) (c : List (Pair V)) (q : CString) (r : Option V)
        → (str_eq q k ≡ true → value_of (find_pair c q) ≡ r)
        → (str_eq q k ≡ false → find_pair c q ≡ find_pair (chain_of m k) q)
        → hmap_get (record { buckets = set m.buckets (get_hash k) c; size = size }) q
          ≡ (if str_eq q k then r else hmap_get m q)
    get-replaced size c q r self other = elim (Bool-cases (str_eq q k)) [
      | inl e ↦ rw (get-bucket, same_hash q e, e, self e)
      | inr e ↦
          rw (get-bucket, e)
            (elim (Bool-cases (get_hash k == get_hash q)) [
              | inl s ↦ rw (s, other e) (sym (get-same_bucket q ((==_iff _ _).0 s)))
              | inr n ↦ rw n
            ])
    ]

    pub get-push_pair :
        (x : V) (q : CString)
        → hmap_get (push_pair m (get_hash k) k x) q ≡ (if str_eq q k then some x else hmap_get m q)
    unfolding push_pair find_pair
    get-push_pair x q = get-replaced _ _ q (some x) (λ e. rw e) (λ e. rw e)

    pub shrink-IsValid :
        (rest : List (Pair V))
        → unlink (chain_of m k) k ≡ some rest
        → IsValid (shrink m (get_hash k) rest)
    unfolding shrink
    shrink-IsValid rest e =
        set-IsValid m (get_hash k) rest _ v (get_hash-lt k) (λ q n. other q n)
          (unlink-IsDistinct k _ rest e (v.distinct _))
          (omega (
            arith,
            v.counted,
            v.width,
            get_hash-lt k,
            length-unlink k _ rest e,
            size-replaced_bucket m.buckets (get_hash k) rest,
          ))
      where
        other : (q : CString) → get_hash q ≢ get_hash k → find_pair rest q ≡ none
        other q n = elim (Bool-cases (str_eq q k)) [
          | inl s ↦ absurd (n (ap get_hash ((str_eq_iff q k).0 s)))
          | inr d ↦ find_pair-unlink_ne k _ rest e q d ∙ v.placed q (get_hash k) n
        ]

    pub get-shrink :
        (rest : List (Pair V))
        → unlink (chain_of m k) k ≡ some rest
        → (q : CString)
        → hmap_get (shrink m (get_hash k) rest) q ≡ (if str_eq q k then none else hmap_get m q)
    unfolding shrink
    get-shrink rest e q =
        get-replaced _ rest q none
          (λ s. rw ((str_eq_iff q k).0 s, find_pair-unlink_self k _ rest e (v.distinct _)))
          (find_pair-unlink_ne k _ rest e q)
