-- ===== src/HashMap/Chain.antt =====
-- One bucket.
use mathlib.Core.Path.{subst}
use mimuw_pw_tasks.CString.{CString, str_eq}
use mimuw_pw_tasks.CString.Laws.{str_eq_iff}
use mimuw_pw_tasks.HashMap.{Pair, find_pair, unlink}
use mimuw_pw_tasks.Prelude.{
  ◌+◌, ◌≡◌, refl, ◌∙◌, inl, inr, false, Option, none, some, List, [], ◌∷◌, arith, Bool-cases,
  Option-cases, length,
}

module _ {ℓ} {V : Type ℓ} where
  -- each pair's key does not come again after it
  abbrev pub IsDistinct : List (Pair V) → Type ℓ
  IsDistinct [] = Unit
  IsDistinct (p ∷ c) = (find_pair c p.key ≡ none) × IsDistinct c

  -- the value under a key
  abbrev pub value_of : Option (Pair V) → Option V
  value_of none = none
  value_of (some p) = some p.value

  pub find_pair-key :
      (c : List (Pair V)) (k : CString) (p : Pair V) → find_pair c k ≡ some p → p.key ≡ k
  unfolding find_pair
  find_pair-key [] k p h = cc
  find_pair-key (q ∷ c) k p h = ground (arith, find_pair-key c k p, str_eq_iff k q.key)

  -- a bucket is left as it is exactly where the key is absent
  pub unlink-eq-none : (c : List (Pair V)) (k : CString) → find_pair c k ≡ none → unlink c k ≡ none
  unfolding find_pair unlink
  unlink-eq-none [] k h = refl
  unlink-eq-none (q ∷ c) k h = ground (arith, unlink-eq-none c k)

  pub unlink-eq-some :
      (c : List (Pair V)) (k : CString) {p : Pair V}
      → find_pair c k ≡ some p
      → (c' : List (Pair V)) × (unlink c k ≡ some c')
  unfolding find_pair unlink
  unlink-eq-some [] k h = cc
  unlink-eq-some (q ∷ c) k h = elim (Bool-cases (str_eq k q.key)) [
    | inl e ↦ (c, rw e)
    | inr e ↦ let (r, u) = unlink-eq-some c k (rw e at h) in (q ∷ r, rw (e, u))
  ]

  module _ (k : CString) where
    pub length-unlink : (c c' : List (Pair V)) → unlink c k ≡ some c' → length c' + 1 ≡ length c
    unfolding unlink
    length-unlink [] c' h = cc
    length-unlink (q ∷ c) c' h = elim (Option-cases (unlink c k)) [
      | inl e ↦ ground arith
      | inr (r, e) ↦ ground (arith, length-unlink c r e)
    ]

    pub find_pair-unlink_ne :
        (c c' : List (Pair V))
        → unlink c k ≡ some c'
        → (j : CString) → str_eq j k ≡ false
        → find_pair c' j ≡ find_pair c j
    unfolding find_pair unlink
    find_pair-unlink_ne [] c' h j n = cc
    find_pair-unlink_ne (q ∷ c) c' h j n = elim (Option-cases (unlink c k)) [
      | inl e ↦ ground (arith, str_eq_iff k q.key, str_eq_iff j q.key, str_eq_iff j k)
      | inr (r, e) ↦ ground (
        arith,
        find_pair-unlink_ne c r e j n,
        str_eq_iff k q.key,
        str_eq_iff j q.key,
        str_eq_iff j k,
      )
    ]

    pub find_pair-unlink_self :
        (c c' : List (Pair V)) → unlink c k ≡ some c' → IsDistinct c → find_pair c' k ≡ none
    unfolding find_pair unlink
    find_pair-unlink_self [] c' h d = cc
    find_pair-unlink_self (q ∷ c) c' h d = elim (Option-cases (unlink c k)) [
      | inl e ↦ ground (arith, str_eq_iff k q.key)
      | inr (r, e) ↦ ground (arith, find_pair-unlink_self c r e, str_eq_iff k q.key)
    ]

    pub unlink-IsDistinct :
        (c c' : List (Pair V)) → unlink c k ≡ some c' → IsDistinct c → IsDistinct c'
    unfolding unlink
    unlink-IsDistinct [] c' h d = cc
    unlink-IsDistinct (q ∷ c) c' h d = elim (Bool-cases (str_eq k q.key)) [
      | inl e ↦ let same : c ≡ c' = ground arith in subst IsDistinct same d.1
      | inr n ↦ elim (Option-cases (unlink c k)) [
        | inl e ↦ absurd (ground arith)
        | inr (r, e) ↦
            let same : q ∷ r ≡ c' = ground arith in
            let fresh : str_eq q.key k ≡ false =
              ground (arith, str_eq_iff k q.key, str_eq_iff q.key k) in
            subst IsDistinct same
              (find_pair-unlink_ne c r e q.key fresh ∙ d.0, unlink-IsDistinct c r e d.1)
      ]
    ]
