-- ===== src/Paths/Shared.antt =====
-- `make_shared_path` on the paths of two lists of names.
use mathlib.Core.List.{append_assoc}
use mimuw_pw_tasks.Prelude.{
  ℕ, zero, suc, ◌+◌, ◌-◌, ◌≤◌, ◌<◌, ◌≡◌, refl, sym, ap, ◌∙◌, inl, inr, Bool, false, List, [], ◌∷◌,
  ◌++◌, arith, if◌then◌else◌, length, length-append, take, Bool-cases,
}
use mimuw_pw_tasks.CString.{CString, strcmp, strncmp, str_eq, is_zero, strchr}
use mimuw_pw_tasks.CString.Laws.{str_eq_iff}
use mimuw_pw_tasks.Paths.{slash, shared_loop, make_shared_path}
use mimuw_pw_tasks.Paths.Names.{All, IsLower, IsName, body, render}
use mimuw_pw_tasks.Paths.Chars.{drop-append, strchr-body}

-- the names that two lists begin with, in order
unfoldable pub common_prefix : List CString → List CString → List CString
common_prefix [] ys = []
common_prefix (a ∷ xs) [] = []
common_prefix (a ∷ xs) (b ∷ ys) = if str_eq a b then a ∷ common_prefix xs ys else []

-- does a list begin with the name
abbrev begins : CString → List CString → Bool
begins a [] = false
begins a (b ∷ ys) = str_eq a b

strncmp-name :
    (a b r s : CString)
    → All IsLower a
    → All IsLower b
    → is_zero (strncmp (a ++ slash ∷ r) (b ++ slash ∷ s) (suc (length a))) ≡ str_eq a b
unfolding strncmp str_eq strcmp
strncmp-name [] [] r s u v = refl
strncmp-name [] (y ∷ b) r s u v = ground arith
strncmp-name (x ∷ a) [] r s u v = ground arith
strncmp-name (x ∷ a) (y ∷ b) r s u v = ground (arith, strncmp-name a b r s)

strncmp-body :
    (a : CString) (xs ys : List CString)
    → IsName a
    → All IsName ys
    → is_zero (strncmp (body (a ∷ xs)) (body ys) (suc (length a))) ≡ begins a ys
unfolding body
strncmp-body [] xs [] u v = absurd (omega (arith, u.non_empty))
strncmp-body (x ∷ a) xs [] u v = unfold strncmp in refl
strncmp-body a xs (b ∷ ys) u v = strncmp-name a b (body xs) (body ys) u.lower v.0.lower

-- one round of the loop, at a name that the first path has
shared_loop-round :
    (fuel : ℕ) (p : CString) (a : CString) (xs ys : List CString)
    → IsName a
    → All IsName ys
    → shared_loop
        (suc fuel)
        (p ++ body (a ∷ xs))
        (p ++ body ys)
        (length p)
        (strchr (body (a ∷ xs)) slash)
      ≡ (if begins a ys
          then shared_loop fuel
              (p ++ body (a ∷ xs))
              (p ++ body ys)
              (length p + suc (length a))
              (strchr (body xs) slash)
          else length p)
unfolding shared_loop
shared_loop-round fuel p a xs ys u v =
    let n : length (p ++ body (a ∷ xs)) - length (slash ∷ body xs) - length p + 1 ≡ suc (length a) =
      unfold body in
      omega (arith, length-append p (a ++ slash ∷ body xs), length-append a (slash ∷ body xs)) in
    rw (
      strchr-body a xs u,
      shared_loop,
      n,
      drop-append p (body (a ∷ xs)),
      drop-append p (body ys),
      strncmp-body a xs ys u v,
    )

regroup :
    (p a : CString) (xs : List CString) → p ++ body (a ∷ xs) ≡ (p ++ (a ++ slash ∷ [])) ++ body xs
unfolding body
regroup p a xs = simp append_assoc

shared_loop-names :
    (fuel : ℕ) (p : CString) (xs ys : List CString)
    → length xs < fuel
    → All IsName xs
    → All IsName ys
    → shared_loop fuel (p ++ body xs) (p ++ body ys) (length p) (strchr (body xs) slash)
      ≡ length p + length (body (common_prefix xs ys))
shared_loop-names zero p xs ys lt u v = absurd (omega arith)
shared_loop-names (suc fuel) p [] ys lt u v =
    unfold shared_loop body strchr common_prefix in omega arith
shared_loop-names (suc fuel) p (a ∷ xs) [] lt u v =
    shared_loop-round fuel p a xs [] u.0 v ∙ (unfold body common_prefix in omega arith)
shared_loop-names (suc fuel) p (a ∷ xs) (b ∷ ys) lt u v =
    shared_loop-round fuel p a xs (b ∷ ys) u.0 v ∙ elim (Bool-cases (str_eq a b)) [
      | inr other ↦ rw other (unfold common_prefix body in rw other (omega arith))
      | inl same ↦
          let q = p ++ (a ++ slash ∷ []) in
          let l : length p + suc (length a) ≡ length q =
            omega (arith, length-append p (a ++ slash ∷ []), length-append a (slash ∷ [])) in
          let e : p ++ body (b ∷ ys) ≡ q ++ body ys =
            regroup p b ys
            ∙ ap (λ t. (p ++ (t ++ slash ∷ [])) ++ body ys) (sym ((str_eq_iff a b).0 same)) in
          rw (same, l, regroup p a xs, e)
            (shared_loop-names fuel q xs ys (omega arith) u.1 v.1
              ∙ (unfold common_prefix body in
                  rw same (omega (arith, l, length-append a (slash ∷ body (common_prefix xs ys))))))
    ]

take-append_more : (a b c : CString) → take (length (a ++ b)) (a ++ c) ≡ a ++ take (length b) c
take-append_more [] b c = refl
take-append_more (x ∷ a) b c = ap (λ t. x ∷ t) (take-append_more a b c)

take-common :
    (xs ys : List CString)
    → take (length (body (common_prefix xs ys))) (body xs) ≡ body (common_prefix xs ys)
unfolding common_prefix body
take-common [] ys = refl
take-common (a ∷ xs) [] = refl
take-common (a ∷ xs) (b ∷ ys) = elim (Bool-cases (str_eq a b)) [
  | inr other ↦ rw other
  | inl same ↦ rw same (
      take-append_more a (slash ∷ body (common_prefix xs ys)) (slash ∷ body xs)
      ∙ ap (λ t. a ++ slash ∷ t) (take-common xs ys))
]

length-le-body : (xs : List CString) → length xs ≤ length (body xs)
unfolding body
length-le-body [] = omega arith
length-le-body (a ∷ xs) = omega (arith, length-append a (slash ∷ body xs), length-le-body xs)

-- On two paths of valid names, `make_shared_path` returns the path of the names that both begin
-- with; where there is none, this is the root.
pub make_shared_path-render :
    (xs ys : List CString)
    → All IsName xs
    → All IsName ys
    → make_shared_path (render xs) (render ys) ≡ render (common_prefix xs ys)
unfolding make_shared_path render
make_shared_path-render xs ys u v =
    let n =
      shared_loop-names (suc (length (render xs))) (slash ∷ []) xs ys
        (omega (arith, length-le-body xs)) u v in
    let m : 1 + length (body (common_prefix xs ys)) ≡ suc (length (body (common_prefix xs ys))) =
      omega arith in
    rw (n, m) (ap (λ t. slash ∷ t) (take-common xs ys))
