-- ===== src/Tree/Refusals.antt =====
-- The calls that Zaliczeniowe_2/Tree.c refuses by their paths alone.
use mimuw_pw_tasks.Prelude.{
  ℕ, ◌≡◌, ◌≤◌, length-append, refl, ap, Bool-cases, inl, inr, Bool, true, false, none, List, [],
  ◌∷◌, ◌++◌, length, arith,
}
use mimuw_pw_tasks.CString.{CString, str_eq}
use mimuw_pw_tasks.CString.Laws.{str_eq_iff, str_eq_refl, strncmp-append}
use mimuw_pw_tasks.Paths.{slash, is_path_valid}
use mimuw_pw_tasks.Paths.Names.{IsPath, body, render}
use mimuw_pw_tasks.Paths.Split.{body-append}
use mimuw_pw_tasks.Paths.Valid.{is_path_valid_iff}
use mimuw_pw_tasks.Store.{Ptr, Heap, done}
use mimuw_pw_tasks.Tree.{
  einval, ebusy, eexist, ebadmove, root_path, is_root, tree_list, tree_create, tree_remove,
}
use mimuw_pw_tasks.Tree.Move.{tree_move}

is_false : (b : Bool) → ¬ (b ≡ true) → b ≡ false
is_false true bad = elim (bad refl) [ ]
is_false false bad = refl

valid_of_IsPath : {path : CString} → IsPath path → is_path_valid path ≡ true
valid_of_IsPath {path} g = (is_path_valid_iff path).1 g

invalid_of_not_IsPath : {path : CString} → ¬ IsPath path → is_path_valid path ≡ false
invalid_of_not_IsPath {path} bad = is_false _ (λ t. bad ((is_path_valid_iff path).0 t))

-- A call with a path that path_utils.h does not allow returns EINVAL, or the null pointer from
-- `tree_list`, and leaves memory as it was; the other path of `tree_move` may be any string.
pub calls_invalid :
    (depth : ℕ) (root : Ptr) (path other : CString) (h : Heap)
    → ¬ IsPath path
    → (tree_list depth root path h ≡ done none h)
      × (tree_create depth root path h ≡ done einval h)
      × (tree_remove depth root path h ≡ done einval h)
      × (tree_move depth root path other h ≡ done einval h)
      × (tree_move depth root other path h ≡ done einval h)
unfolding tree_list tree_create tree_remove tree_move
calls_invalid depth root path other h bad =
    let e = invalid_of_not_IsPath bad in
    (
      rw e refl,
      rw e refl,
      rw e refl,
      rw e refl,
      elim (Bool-cases (is_path_valid other)) [ inl t ↦ rw (t, e) refl | inr u ↦ rw u refl ],
    )

body_long : (x : CString) (xs : List CString) → 1 ≤ length (body (x ∷ xs))
unfolding body
body_long x xs = omega (arith, length-append x (slash ∷ body xs))

str_eq-append : (a b : CString) → 1 ≤ length b → str_eq a (a ++ b) ≡ false
str_eq-append a b long =
    is_false _
      (λ t. let e = ap length ((str_eq_iff a (a ++ b)).0 t) in omega (arith, length-append a b))

is_root-render : (x : CString) (xs : List CString) → is_root (render (x ∷ xs)) ≡ false
unfolding render
is_root-render x xs = is_false _ (λ t.
    let e = ap length ((str_eq_iff (slash ∷ body (x ∷ xs)) root_path).0 t) in
    omega (arith, body_long x xs))

pub is_root-append :
    (xs : List CString) (y : CString) (ys : List CString) → is_root (render (xs ++ y ∷ ys)) ≡ false
is_root-append [] y ys = is_root-render y ys
is_root-append (x ∷ xs) y ys = is_root-render x (xs ++ y ∷ ys)

root_IsPath : IsPath (render [])
unfolding render body
root_IsPath = record { names = []; valid = tt; rendered = refl; bounded = omega arith }

is_root_root : is_root (render []) ≡ true
unfolding render body
is_root_root = str_eq_refl root_path

-- A move of a folder below itself returns EBADMOVE, and a move of the root EBUSY, and a move to the
-- root EEXIST; memory is left as it was. The paths are valid, and the names of the folder, and those
-- below it, are at least one.
pub tree_move-below :
    (depth : ℕ) (root : Ptr) (x : CString) (xs : List CString) (y : CString) (ys : List CString)
    (h : Heap)
    → IsPath (render (x ∷ xs))
    → IsPath (render ((x ∷ xs) ++ y ∷ ys))
    → (tree_move depth root (render (x ∷ xs)) (render ((x ∷ xs) ++ y ∷ ys)) h ≡ done ebadmove h)
      × (tree_move depth root (render []) (render (x ∷ xs)) h ≡ done ebusy h)
      × (tree_move depth root (render (x ∷ xs)) (render []) h ≡ done eexist h)
unfolding tree_move
tree_move-below depth root x xs y ys h g g' =
    let p = render (x ∷ xs) in
    let q = body (y ∷ ys) in
    let e : render ((x ∷ xs) ++ y ∷ ys) ≡ p ++ q =
      unfold render in ap (λ l. slash ∷ l) (body-append (x ∷ xs) (y ∷ ys)) in
    let a = valid_of_IsPath g in
    let b = valid_of_IsPath g' in
    let c = strncmp-append p q in
    let d = str_eq-append p q (body_long y ys) in
    let r : is_root (render ((x ∷ xs) ++ y ∷ ys)) ≡ false = is_root-render x (xs ++ y ∷ ys) in
    (
      rw (a, b, is_root-render x xs, r, e, c, d) refl,
      rw (a, valid_of_IsPath root_IsPath, is_root_root) refl,
      rw (a, valid_of_IsPath root_IsPath, is_root-render x xs, is_root_root) refl,
    )
