-- ===== src/Paths/Valid.antt =====
-- `is_path_valid` and its loops against lists of names.
use mimuw_pw_tasks.Prelude.{
  ℕ, zero, suc, ◌+◌, ◌-◌, ◌≤◌, ◌<◌, ◌≡◌, refl, sym, ap, ◌∙◌, ◌↔◌, inl, inr, true, some, List, [],
  ◌∷◌, ◌++◌, arith, Option-cases, length, length-append, get_or,
}
use mathlib.Core.Path.{subst}
use native.Mathlib.Nat.{zero-add}
use mimuw_pw_tasks.CString.{CString, strchr}
use mimuw_pw_tasks.Paths.{
  slash, after, max_path_length, lower_case, component_valid, components_valid, is_path_valid,
}
use mimuw_pw_tasks.Paths.Names.{All, IsLower, IsName, body, render, IsPath}
use mimuw_pw_tasks.Paths.Chars.{strchr-Found, strchr-body}

lower_case_sound : (n e : CString) → lower_case (length n) (n ++ e) ≡ true → All IsLower n
unfolding lower_case
lower_case_sound [] e h = tt
lower_case_sound (x ∷ n) e h = ((ground arith, ground arith), lower_case_sound n e (ground arith))

lower_case_complete : (n e : CString) → All IsLower n → lower_case (length n) (n ++ e) ≡ true
unfolding lower_case
lower_case_complete [] e h = refl
lower_case_complete (x ∷ n) e h = ground (arith, lower_case_complete n e)

module _ (n e : CString) where
  name_length : length (n ++ e) - length e ≡ length n
  name_length = omega (arith, length-append n e)

  component_valid_sound : component_valid (n ++ e) e ≡ true → IsName n
  unfolding component_valid
  component_valid_sound h =
      let l : length (n ++ e) - length e ≡ length n = name_length in
      let g = rw l at h in
      record {
        lower = lower_case_sound n e (ground arith);
        non_empty = ground arith;
        short = ground arith;
      }

  component_valid_complete : IsName n → component_valid (n ++ e) e ≡ true
  unfolding component_valid
  component_valid_complete v =
      rw (name_length) (ground (arith, lower_case_complete n e v.lower, v.non_empty, v.short))

component_valid-IsName : (s n e : CString) → s ≡ n ++ e → component_valid s e ≡ true → IsName n
component_valid-IsName s n e w h =
    component_valid_sound n e (subst (λ x. component_valid x e ≡ true) w h)

components_valid_sound :
    (fuel : ℕ) (s : CString)
    → components_valid fuel s ≡ true
    → (cs : List CString) × All IsName cs × (s ≡ body cs)
unfolding components_valid body
components_valid_sound zero s h = cc
components_valid_sound (suc fuel) [] h = ([], tt, refl)
components_valid_sound (suc fuel) (c ∷ s) h = elim (Option-cases (strchr (c ∷ s) slash)) [
  | inl e ↦ absurd (ground arith)
  | inr (e, f) ↦
      let t = strchr-Found (c ∷ s) slash e f in
      let good : (component_valid (c ∷ s) e ≡ true) × (components_valid fuel (after e) ≡ true) =
        ground arith in
      let (cs, valid, rest) = components_valid_sound fuel (after e) good.1 in
      let tail : t.behind ≡ body cs = sym (ap after t.at) ∙ rest in
      (
        t.before ∷ cs,
        (component_valid-IsName (c ∷ s) t.before e t.whole good.0, valid),
        t.whole ∙ ap (λ x. t.before ++ x) (t.at ∙ ap (λ x. slash ∷ x) tail),
      )
]

components_valid-step :
    (fuel : ℕ) (s e : CString)
    → strchr s slash ≡ some e
    → component_valid s e ≡ true
    → components_valid (suc fuel) s ≡ components_valid fuel (after e)
unfolding components_valid strchr
components_valid-step fuel [] e f v = cc
components_valid-step fuel (c ∷ s) e f v = ground arith

components_valid_complete :
    (cs : List CString) (fuel : ℕ)
    → All IsName cs
    → length (body cs) < fuel
    → components_valid fuel (body cs) ≡ true
unfolding body
components_valid_complete cs zero v lt = absurd (omega arith)
components_valid_complete [] (suc fuel) v lt = unfold components_valid in refl
components_valid_complete (n ∷ cs) (suc fuel) v lt =
    components_valid-step fuel (body (n ∷ cs)) (slash ∷ body cs) (strchr-body n cs v.0)
      (component_valid_complete n (slash ∷ body cs) v.0)
    ∙ components_valid_complete cs fuel v.1 (omega (arith, length-append n (slash ∷ body cs)))

pub get_or-append : (a b : CString) (i : ℕ) → get_or (a ++ b) (length a + i) 0 ≡ get_or b i 0
get_or-append [] b i = rw (zero-add)
get_or-append (x ∷ a) b i =
    rw (let e : suc (length a) + i ≡ suc (length a + i) = omega arith in e) (get_or-append a b i)

pub last-body : (cs : List CString) → get_or (slash ∷ body cs) (length (body cs)) 0 ≡ slash
unfolding body
last-body [] = refl
last-body (c ∷ cs) =
    ap (λ i. get_or (slash ∷ c ++ slash ∷ body cs) i 0)
      (let e : length (c ++ slash ∷ body cs) ≡ length (slash ∷ c) + length (body cs) =
          omega (arith, length-append c (slash ∷ body cs)) in
        e)
    ∙ get_or-append (slash ∷ c) (slash ∷ body cs) (length (body cs))
    ∙ last-body cs

is_path_valid_sound : (path : CString) → is_path_valid path ≡ true → IsPath path
unfolding is_path_valid render
is_path_valid_sound [] h = absurd (ground arith)
is_path_valid_sound (c ∷ s) h =
    let ok : (components_valid (suc (length (c ∷ s))) s ≡ true) = ground arith in
    let (cs, valid, rest) = components_valid_sound (suc (length (c ∷ s))) s ok in
    let first : c ≡ slash = ground arith in
    record { names = cs; valid = valid; rendered = rw (first, rest); bounded = ground arith }

is_path_valid_complete :
    (cs : List CString)
    → All IsName cs
    → length (render cs) ≤ max_path_length
    → is_path_valid (render cs) ≡ true
unfolding is_path_valid render
is_path_valid_complete cs v h =
    ground (arith, last-body cs, components_valid_complete cs (suc (length (render cs))) v)

-- `is_path_valid` returns true exactly on the paths that path_utils.h describes: the names of
-- a list, each of 1 to 255 letters from a to z, with a slash before, between and behind them, in
-- at most 4095 bytes.
pub is_path_valid_iff : (path : CString) → (is_path_valid path ≡ true) ↔ IsPath path
is_path_valid_iff path = (
  is_path_valid_sound path,
  λ p. rw p.rendered (is_path_valid_complete p.names p.valid (rw p.rendered at p.bounded)),
)
