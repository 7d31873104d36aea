-- ===== src/HashMap/Laws.antt =====
-- The map and partial functions from keys to values.
use mimuw_pw_tasks.CString.{CString, str_eq}
use mimuw_pw_tasks.CString.Laws.{str_eq_iff}
use mimuw_pw_tasks.HashMap.{
  Pair, HashMap, size_mod, get_hash, find_pair, hmap_new, hmap_get, hmap_insert, hmap_remove,
  hmap_size, hmap_iterator, visit,
}
use mimuw_pw_tasks.HashMap.Chain.{IsDistinct, value_of, unlink-eq-none, unlink-eq-some}
use mimuw_pw_tasks.HashMap.Buckets.{IsValid, chain_of, pairs}
use mimuw_pw_tasks.HashMap.Flat.{find_pair-pairs, pairs-IsDistinct}
use mimuw_pw_tasks.HashMap.Iterator.{visit-pairs}
use mimuw_pw_tasks.HashMap.Methods.{
  found, first, hmap_new-IsValid, empty_bucket, shrink, hmap_get_lem, found-get, hmap_insert_absent,
  hmap_insert_present, push_pair-IsValid, get-push_pair, shrink-IsValid, get-shrink,
}
use mimuw_pw_tasks.Prelude.{
  ℕ, ◌%◌, ◌<◌, ◌≡◌, refl, sym, ap, ◌∙◌, inl, inr, ◌&&◌, not, Option, none, some, List, arith,
  if◌then◌else◌, Bool-cases, Option-cases, length,
}

module _ {ℓ} {V : Type ℓ} where
  -- `m` is well formed and holds the partial function `f`
  pub record Models (f : CString → Option V) (m : HashMap V) : Type ℓ where
    pub valid : IsValid m
    pub reads : (q : CString) → hmap_get m q ≡ f q

  -- the partial function with another value at one key
  abbrev pub update : (CString → Option V) → CString → Option V → CString → Option V
  update f k o q = if str_eq q k then o else f q

  update_same :
      (f : CString → Option V) (k : CString) (o : Option V) (q : CString)
      → f k ≡ o
      → update f k o q ≡ f q
  update_same f k o q h = elim (Bool-cases (str_eq q k)) [
    | inl e ↦ rw e (sym h ∙ ap f (sym ((str_eq_iff q k).0 e)))
    | inr e ↦ rw e
  ]

  pub hmap_new-Models : Models (λ _. none) hmap_new
  unfolding hmap_new find_pair
  hmap_new-Models = record {
    valid = hmap_new-IsValid;
    reads = λ q. rw (hmap_get_lem, empty_bucket (get_hash q));
  }

  -- `hmap_insert` returns true exactly when the value is not null and the key is absent; the map
  -- then holds the value under the key, and is otherwise the same function as before.
  pub hmap_insert-Models :
      (f : CString → Option V) (m : HashMap V) (k : CString) (o : Option V)
      → Models f m
      → ((hmap_insert m k o).1 ≡ (found o && not (found (f k))))
        × Models (update f k (first (f k) o)) (hmap_insert m k o).0
  unfolding hmap_insert
  hmap_insert-Models f m k none h = (
    refl,
    record { valid = h.valid; reads = λ q. h.reads q ∙ sym (update_same f k _ q (ground arith)) },
  )
  hmap_insert-Models f m k (some x) h = elim (Option-cases (f k)) [
    | inl e ↦
        rw (hmap_insert_absent m k x (h.reads k ∙ e), e)
          (
            refl,
            record {
              valid = push_pair-IsValid m k h.valid x (h.reads k ∙ e);
              reads = λ q. rw (get-push_pair m k h.valid x q, h.reads q) refl;
            },
          )
    | inr (y, e) ↦
        rw (hmap_insert_present m k x y (h.reads k ∙ e), e)
          (refl, record { valid = h.valid; reads = λ q. h.reads q ∙ sym (update_same f k _ q e) })
  ]

  -- `hmap_remove` returns true exactly when the key is there; afterwards the key is absent, and
  -- every other key has the value that it had.
  pub hmap_remove-Models :
      (f : CString → Option V) (m : HashMap V) (k : CString)
      → Models f m
      → ((hmap_remove m k).1 ≡ found (f k)) × Models (update f k none) (hmap_remove m k).0
  unfolding hmap_remove shrink
  hmap_remove-Models f m k h = elim (found-get m k) [
    | inl (e, g) ↦
        let absent = sym (h.reads k) ∙ g in
        rw (unlink-eq-none (chain_of m k) k e, hmap_remove, absent)
          (
            refl,
            record {
              valid = h.valid;
              reads = λ q. h.reads q ∙ sym (update_same f k none q absent);
            },
          )
    | inr (p, e, g) ↦
        let (rest, u) = unlink-eq-some (chain_of m k) k e in
        rw (u, hmap_remove, sym (h.reads k) ∙ g)
          (
            refl,
            record {
              valid = shrink-IsValid m k h.valid rest u;
              reads = λ q. rw (get-shrink m k h.valid rest u q, h.reads q);
            },
          )
  ]

  -- Iteration over a well-formed map ends; it visits each key once, with the value that
  -- `hmap_get` returns for it, and every key that has a value; it makes `hmap_size` visits, modulo
  -- the range of `size_t`.
  pub visit-Models :
      (f : CString → Option V) (m : HashMap V) (fuel : ℕ)
      → Models f m
      → length (pairs m) < fuel
      → (ps : List (Pair V)) × (visit fuel m (hmap_iterator m) ≡ some ps)
        × IsDistinct ps
        × ((q : CString) → value_of (find_pair ps q) ≡ f q)
        × (hmap_size m ≡ length ps % size_mod)
  unfolding hmap_size
  visit-Models f m fuel h enough = (
    pairs m,
    visit-pairs m h.valid.width fuel enough,
    pairs-IsDistinct m h.valid,
    λ q. ap value_of (find_pair-pairs m h.valid q) ∙ sym (hmap_get_lem m q) ∙ h.reads q,
    h.valid.counted,
  )
