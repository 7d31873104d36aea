-- ===== src/HashMap/Iterator.antt =====
-- `hmap_iterator` and `hmap_next`, by the pairs that are still to come.
use mathlib.Core.List.{flatten}
use mimuw_pw_tasks.HashMap.{
  Pair, HashMap, HashMapIterator, n_buckets, next_bucket, hmap_iterator, hmap_next, visit,
}
use mimuw_pw_tasks.HashMap.Buckets.{pairs}
use mimuw_pw_tasks.Prelude.{
  ℕ, zero, suc, ◌+◌, ◌-◌, ◌≤◌, ◌<◌, ◌≡◌, refl, sym, ap, ◌∙◌, ◌⊎◌, inl, inr, none, some, List, [],
  ◌∷◌, ◌++◌, arith, ltb, Bool-cases, length, get_or, drop, List-cases,
}

pub drop-get_or {ℓ} :
    {A : Type ℓ} (bs : List (List A)) (i : ℕ)
    → i < length bs
    → flatten (drop i bs) ≡ get_or bs i [] ++ flatten (drop (i + 1) bs)
unfolding flatten
drop-get_or [] i h = absurd (omega arith)
drop-get_or (b ∷ bs) zero h = refl
drop-get_or (b ∷ bs) (suc i) h = rw (drop-get_or bs i (omega arith)) (ground arith)

pub drop-all {ℓ} : {A : Type ℓ} (bs : List A) (i : ℕ) → length bs ≤ i → drop i bs ≡ []
drop-all [] zero h = refl
drop-all [] (suc i) h = refl
drop-all (b ∷ bs) zero h = absurd (omega arith)
drop-all (b ∷ bs) (suc i) h = drop-all bs i (omega arith)

module _ {ℓ} {V : Type ℓ} (m : HashMap V) (wide : length m.buckets ≡ n_buckets) where
  -- the pairs that the iterator has before it
  abbrev pub remaining : HashMapIterator V → List (Pair V)
  remaining it = it.pair ++ flatten (drop (it.bucket + 1) m.buckets)

  pub record Reaches (it found : HashMapIterator V) : Type ℓ where
    pub same : remaining found ≡ remaining it
    pub within : found.bucket < n_buckets
    pub stops : found.pair ≡ [] → remaining found ≡ []

  at_end : (b : ℕ) → n_buckets ≤ b + 1 → remaining (record { bucket = b; pair = [] }) ≡ []
  unfolding flatten
  at_end b h = rw (drop-all m.buckets (b + 1) (omega (arith, wide)))

  to_next :
      (b : ℕ)
      → b + 1 < n_buckets
      → remaining (record { bucket = b + 1; pair = get_or m.buckets (b + 1) [] })
        ≡ remaining (record { bucket = b; pair = [] })
  to_next b h = sym (drop-get_or m.buckets (b + 1) (omega (arith, wide)))

  next_bucket-Reaches :
      (fuel : ℕ) (b : ℕ) (c : List (Pair V))
      → b < n_buckets
      → n_buckets ≤ b + 1 + fuel
      → Reaches
          (record { bucket = b; pair = c })
          (next_bucket fuel m (record { bucket = b; pair = c }))
  unfolding next_bucket flatten
  next_bucket-Reaches zero b c lt enough = record {
    same = refl;
    within = lt;
    stops = λ e. rw e (at_end b (omega arith));
  }
  next_bucket-Reaches (suc fuel) b (p ∷ c) lt enough = record {
    same = refl;
    within = lt;
    stops = λ e. absurd (cc);
  }
  next_bucket-Reaches (suc fuel) b [] lt enough = elim (Bool-cases (ltb b (n_buckets - 1))) [
    | inl e ↦
        let r =
          next_bucket-Reaches fuel (b + 1) (get_or m.buckets (b + 1) []) (ground arith)
            (omega arith) in
        rw e
          (record { same = r.same ∙ to_next b (ground arith); within = r.within; stops = r.stops })
    | inr e ↦ rw e (record { same = refl; within = lt; stops = λ _. at_end b (ground arith) })
  ]

  -- `hmap_next` returns the first of the pairs before the iterator and leaves the others, and
  -- returns false exactly when there is none.
  pub hmap_next-remaining :
      (it : HashMapIterator V)
      → it.bucket < n_buckets
      → ((remaining it ≡ []) × (hmap_next m it ≡ none))
        ⊎ ((p : Pair V) × (it' : HashMapIterator V) × (hmap_next m it ≡ some (p, it'))
            × (remaining it ≡ p ∷ remaining it')
            × (it'.bucket < n_buckets))
  unfolding hmap_next
  hmap_next-remaining it lt =
      let f = next_bucket n_buckets m it in
      let r = next_bucket-Reaches n_buckets it.bucket it.pair lt (omega arith) in
      elim (List-cases f.pair) [
        | inl e ↦ inl (sym r.same ∙ r.stops e, rw (e, hmap_next))
        | inr (p, next, e) ↦ inr (
          p,
          record { bucket = f.bucket; pair = next },
          rw (e, hmap_next),
          sym r.same ∙ rw e,
          r.within,
        )
      ]

  visit-remaining :
      (fuel : ℕ) (it : HashMapIterator V)
      → it.bucket < n_buckets
      → length (remaining it) < fuel
      → visit fuel m it ≡ some (remaining it)
  unfolding visit
  visit-remaining zero it lt enough = absurd (omega arith)
  visit-remaining (suc fuel) it lt enough = elim (hmap_next-remaining it lt) [
    | inl (e, n) ↦ rw (n, e)
    | inr (p, it', n, e, lt') ↦ rw (n, e, visit-remaining fuel it' lt' (omega (arith, ap length e)))
  ]

  iterator-remaining : remaining (hmap_iterator m) ≡ pairs m
  unfolding hmap_iterator
  iterator-remaining = sym (drop-get_or m.buckets 0 (omega (arith, wide)))

  pub visit-pairs :
      (fuel : ℕ) → length (pairs m) < fuel → visit fuel m (hmap_iterator m) ≡ some (pairs m)
  visit-pairs fuel enough =
      visit-remaining fuel (hmap_iterator m) (unfold hmap_iterator in omega arith)
        (omega (arith, ap length iterator-remaining))
      ∙ ap some iterator-remaining
