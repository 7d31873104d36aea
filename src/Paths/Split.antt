-- ===== src/Paths/Split.antt =====
-- `split_path` and `make_path_to_parent` on the path of a list of names.
use mathlib.Core.List.{append_assoc}
use mimuw_pw_tasks.Prelude.{
  ℕ, zero, suc, ◌+◌, ◌-◌, ◌≤◌, ◌<◌, ◌≡◌, ◌≢◌, refl, sym, ap, ◌∙◌, false, some, List, [], ◌∷◌, ◌++◌,
  arith, ◌==◌, length, length-append, get_or,
}
use mimuw_pw_tasks.CString.{CString, strchr}
use mimuw_pw_tasks.Paths.{
  slash, byte_at, PathResult, checked, split_path, last_slash, make_path_to_parent,
}
use mimuw_pw_tasks.Paths.Names.{All, IsLower, IsName, body, render}
use mimuw_pw_tasks.Paths.Chars.{take-append, drop-append, strchr-body}
use mimuw_pw_tasks.Paths.Valid.{get_or-append, last-body}

checked-IsName : (p c : CString) → IsName c → checked p c ≡ PathResult.found p c
checked-IsName p c v = ground (arith, v.non_empty, v.short)

-- the first name of a path and the path of the others
abbrev pub split_names : List CString → PathResult
split_names [] = PathResult.null
split_names (c ∷ cs) = PathResult.found (render cs) c

-- On the path of a list of valid names, `split_path` returns the first name and the path of the
-- others, and a null pointer for the root; its assertion does not fail.
pub split_path-render :
    (cs : List CString) → All IsName cs → split_path (render cs) ≡ split_names cs
unfolding split_path render
split_path-render [] v = unfold body strchr in refl
split_path-render (c ∷ cs) v =
    let e : length (body (c ∷ cs)) - length (slash ∷ body cs) ≡ length c =
      unfold body in omega (arith, length-append c (slash ∷ body cs)) in
    rw (strchr-body c cs v.0, split_path, e)
      (ap (checked (slash ∷ body cs)) (unfold body in take-append c (slash ∷ body cs))
        ∙ checked-IsName _ c v.0)

last_slash-here : (s : CString) (i : ℕ) → byte_at s i ≡ slash → last_slash s i ≡ some i
unfolding last_slash
last_slash-here s zero h = ground arith
last_slash-here s (suc i) h = ground arith

last_slash-before :
    (s : CString) (i : ℕ) → byte_at s (suc i) ≢ slash → last_slash s (suc i) ≡ last_slash s i
unfolding last_slash
last_slash-before s i h = ground arith

lower-ne-slash :
    (c r : CString) (i : ℕ) → All IsLower c → i < length c → get_or (c ++ r) i 0 ≢ slash
lower-ne-slash [] r i v h = elim h [ ]
lower-ne-slash (x ∷ c) r zero v h = omega arith
lower-ne-slash (x ∷ c) r (suc i) v h = lower-ne-slash c r i v.1 (omega arith)

-- the scan back over the last name, from any of its bytes
last_slash-name :
    (p c r : CString) (n i : ℕ)
    → length p ≡ suc n
    → get_or (p ++ (c ++ r)) n 0 ≡ slash
    → All IsLower c
    → i ≤ length c
    → last_slash (p ++ (c ++ r)) (n + i) ≡ some n
last_slash-name p c r n zero l at v h =
    let e : n + 0 ≡ n = omega arith in rw e (last_slash-here (p ++ (c ++ r)) n at)
last_slash-name p c r n (suc i) l at v h =
    let e : n + suc i ≡ suc (n + i) = omega arith in
    let m : suc (n + i) ≡ length p + i = omega arith in
    rw e (
      last_slash-before (p ++ (c ++ r)) (n + i) (λ q.
        lower-ne-slash c r i v (omega arith)
          (sym (get_or-append p (c ++ r) i) ∙ ap (λ j. get_or (p ++ (c ++ r)) j 0) (sym m) ∙ q))
      ∙ last_slash-name p c r n i l at v (omega arith))

pub body-append : (xs ys : List CString) → body (xs ++ ys) ≡ body xs ++ body ys
unfolding body
body-append [] ys = refl
body-append (c ∷ xs) ys =
    ap (λ t. c ++ slash ∷ t) (body-append xs ys) ∙ sym (append_assoc c (slash ∷ body xs) (body ys))

make_path_to_parent-parts :
    (p c : CString) (n : ℕ)
    → length p ≡ suc n
    → byte_at (p ++ (c ++ slash ∷ [])) n ≡ slash
    → IsName c
    → make_path_to_parent (p ++ (c ++ slash ∷ [])) ≡ PathResult.found p c
unfolding make_path_to_parent
make_path_to_parent-parts p c n l at v =
    let s = p ++ (c ++ slash ∷ []) in
    let whole : length s ≡ length p + length c + 1 =
      omega (arith, length-append p (c ++ slash ∷ []), length-append c (slash ∷ [])) in
    let start : length s - 2 ≡ n + length c = omega arith in
    let found : last_slash s (length s - 2) ≡ some n =
      rw start (last_slash-name p c (slash ∷ []) n (length c) l at v.lower (omega arith)) in
    let two : (length s == 1) ≡ false = ground (arith, v.non_empty) in
    let left : n + 1 ≡ length p = omega arith in
    let right : length s - length p - 1 ≡ length c = omega arith in
    rw
      (
        found,
        two,
        make_path_to_parent,
        left,
        right,
        take-append p (c ++ slash ∷ []),
        drop-append p (c ++ slash ∷ []),
        take-append c (slash ∷ []),
      )
      (checked-IsName p c v)

-- `make_path_to_parent` undoes the appending of a name: on the path of the names `cs` and a last
-- valid name `c` it returns the path of `cs` and the component `c`, with no failed assertion and no
-- read before the string; on the root it returns a null pointer.
pub make_path_to_parent-render :
    (cs : List CString) (c : CString)
    → IsName c
    → (make_path_to_parent (render (cs ++ c ∷ [])) ≡ PathResult.found (render cs) c)
      × (make_path_to_parent (render []) ≡ PathResult.null)
unfolding render
make_path_to_parent-render cs c v =
    let e : slash ∷ body (cs ++ c ∷ []) ≡ (slash ∷ body cs) ++ (c ++ slash ∷ []) =
      ap (λ t. slash ∷ t) (body-append cs (c ∷ [])) ∙ (unfold body in refl) in
    let at : byte_at ((slash ∷ body cs) ++ (c ++ slash ∷ [])) (length (body cs)) ≡ slash =
      before_end (slash ∷ body cs) (c ++ slash ∷ []) (length (body cs)) (omega arith)
      ∙ last-body cs in
    (
      rw e (make_path_to_parent-parts (slash ∷ body cs) c (length (body cs)) refl at v),
      unfold make_path_to_parent body in refl,
    )
  where
    before_end : (a b : CString) (i : ℕ) → i < length a → get_or (a ++ b) i 0 ≡ get_or a i 0
    before_end [] b i h = elim h [ ]
    before_end (x ∷ a) b zero h = refl
    before_end (x ∷ a) b (suc i) h = before_end a b i (omega arith)
