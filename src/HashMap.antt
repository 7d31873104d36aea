-- ===== src/HashMap.antt =====
-- Zaliczeniowe_2/HashMap.c: a map from C strings to non-null pointers, with eight buckets that are
-- singly linked lists.
pub mod Chain
pub mod Hash
pub mod Buckets
pub mod Methods
pub mod Laws
pub mod Iterator
pub mod Flat
mod Tests
use mimuw_pw_tasks.Prelude.{
  ℕ, zero, suc, ◌+◌, ◌-◌, ◌*◌, ◌/◌, ◌%◌, ◌^◌, ◌≤◌, ◌<◌, compare, Ordering, ◌≡◌, refl, sym, ap, ◌∙◌,
  ◌≢◌, ◌↔◌, ◌⊎◌, inl, inr, Bool, true, false, ◌&&◌, ◌||◌, not, Option, none, some, List, [], ◌∷◌,
  ◌++◌, map, arith, dec_lt, ℕ_discrete, ltb, leb, ◌==◌, if◌then◌else◌, ltb→lt, lt→ltb, leb→le,
  ==_iff, tests, Bool-cases, Option-cases, length, get_elem?, set, length-append, length-set,
  get_or, take, drop, replicate, length-replicate, length-map, length-take, length-drop,
  take-append-drop,
}
use mimuw_pw_tasks.CString.{CString, str_eq}

-- `N_BUCKETS`
abbrev pub n_buckets : ℕ
n_buckets = 8

-- `SIZE_MAX + 1`
abbrev pub size_mod : ℕ
size_mod = 2 ^ 64

abbrev pub u32 : ℕ → ℕ
u32 n = n % 2 ^ 32

module _ {ℓ} (V : Type ℓ) where
  -- `struct Pair`; the `next` pointers are the list
  pub record Pair : Type ℓ where
    pub key : CString
    pub value : V

  pub record HashMap : Type ℓ where
    pub buckets : List (List Pair)
    pub size : ℕ

  -- `pair` is the rest of the bucket; the empty list is the null pointer
  pub record HashMapIterator : Type ℓ where
    pub bucket : ℕ
    pub pair : List Pair

-- `*key` as an `unsigned int`: a `char` is signed, so a byte from 128 on is extended by ones
abbrev pub sign_extend : ℕ → ℕ
sign_extend c = if ltb c 128 then c else c + (2 ^ 32 - 256)

-- the loop of `get_hash`
unfoldable pub hash_loop : ℕ → CString → ℕ
hash_loop hash [] = hash
hash_loop hash (c ∷ key) = hash_loop (u32 (u32 (u32 (hash * 2 ^ 3) + hash) + sign_extend c)) key

unfoldable pub get_hash : CString → ℕ
unfolding hash_loop
get_hash key = hash_loop 17 key % n_buckets

module _ {ℓ} {V : Type ℓ} where
  -- `hmap_new`, where `malloc` succeeds
  unfoldable pub hmap_new : HashMap V
  hmap_new = record { buckets = replicate n_buckets []; size = 0 }

  -- the loop of `hmap_find`
  unfoldable pub find_pair : List (Pair V) → CString → Option (Pair V)
  find_pair [] key = none
  find_pair (p ∷ next) key = if str_eq key p.key then some p else find_pair next key

  unfoldable pub hmap_find : HashMap V → ℕ → CString → Option (Pair V)
  hmap_find m h key = find_pair (get_or m.buckets h []) key

  -- `none` is the null pointer
  unfoldable pub hmap_get : HashMap V → CString → Option V
  unfolding hmap_find
  hmap_get m key = elim (hmap_find m (get_hash key) key) [ none ↦ none | some p ↦ some p.value ]

  -- the new pair, at the head of its bucket
  unfoldable pub push_pair : HashMap V → ℕ → CString → V → HashMap V
  push_pair m h key value = record {
    buckets = set m.buckets h (record { key = key; value = value } ∷ get_or m.buckets h []);
    size = (m.size + 1) % size_mod;
  }

  unfoldable pub hmap_insert : HashMap V → CString → Option V → HashMap V × Bool
  unfolding hmap_find push_pair
  hmap_insert m key none = (m, false)
  hmap_insert m key (some value) = elim (hmap_find m (get_hash key) key) [
    | some p ↦ (m, false)
    | none ↦ (push_pair m (get_hash key) key value, true)
  ]

  -- the loop of `hmap_remove`: the bucket without its first pair under `key`, if there is one
  unfoldable pub unlink : List (Pair V) → CString → Option (List (Pair V))
  unlink [] key = none
  unlink (p ∷ next) key =
      if str_eq key p.key
      then some next
      else elim (unlink next key) [ none ↦ none | some rest ↦ some (p ∷ rest) ]

  unfoldable pub hmap_remove : HashMap V → CString → HashMap V × Bool
  unfolding unlink
  hmap_remove m key = elim (unlink (get_or m.buckets (get_hash key) []) key) [
    | none ↦ (m, false)
    | some rest ↦ (
      record {
        buckets = set m.buckets (get_hash key) rest;
        size = (m.size + size_mod - 1) % size_mod;
      },
      true,
    )
  ]

  unfoldable pub hmap_size : HashMap V → ℕ
  hmap_size m = m.size

  unfoldable pub hmap_iterator : HashMap V → HashMapIterator V
  hmap_iterator m = record { bucket = 0; pair = get_or m.buckets 0 [] }

  -- the loop of `hmap_next`: it goes on to the next bucket while `p` is null. A round raises
  -- `bucket`, so `n_buckets` rounds suffice.
  unfoldable pub next_bucket : ℕ → HashMap V → HashMapIterator V → HashMapIterator V
  next_bucket zero m it = it
  next_bucket (suc fuel) m it = elim (it.pair) [
    | p ∷ next ↦ it
    | [] ↦
        let rest =
          next_bucket fuel m
            (record { bucket = it.bucket + 1; pair = get_or m.buckets (it.bucket + 1) [] }) in
        if ltb it.bucket (n_buckets - 1) then rest else it
  ]

  -- the pair that the iterator points to and the iterator moved on, or `none` at the end
  unfoldable pub hmap_next : HashMap V → HashMapIterator V → Option (Pair V × HashMapIterator V)
  unfolding next_bucket
  hmap_next m it =
      let found = next_bucket n_buckets m it in
      elim (found.pair) [
        | [] ↦ none
        | p ∷ next ↦ some (p, record { bucket = found.bucket; pair = next })
      ]

  -- `while (hmap_next(map, &it, &key, &value))`, with the pairs that it visits; `none` when the
  -- fuel runs out
  unfoldable pub visit : ℕ → HashMap V → HashMapIterator V → Option (List (Pair V))
  unfolding hmap_next
  visit zero m it = none
  visit (suc fuel) m it = elim (hmap_next m it) [
    | none ↦ some []
    | some (p, it') ↦ elim (visit fuel m it') [ none ↦ none | some ps ↦ some (p ∷ ps) ]
  ]

  -- the inner loop of `hmap_free`, with the pairs that it frees
  unfoldable pub free_chain : List (Pair V) → List (Pair V)
  free_chain [] = []
  free_chain (p ∷ next) = p ∷ free_chain next

  -- the outer loop, over the buckets from `h` on
  unfoldable pub free_buckets : ℕ → ℕ → HashMap V → List (Pair V)
  unfolding free_chain
  free_buckets zero h m = []
  free_buckets (suc rounds) h m =
      free_chain (get_or m.buckets h []) ++ free_buckets rounds (h + 1) m

  -- `hmap_free`, with the pairs whose key and memory it frees, in that order
  unfoldable pub hmap_free : HashMap V → List (Pair V)
  unfolding free_buckets
  hmap_free m = free_buckets n_buckets 0 m
