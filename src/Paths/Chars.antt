-- ===== src/Paths/Chars.antt =====
-- The first slash of a string, and the strings before and behind it.
use mimuw_pw_tasks.Prelude.{
  ℕ, ◌≡◌, refl, ap, ◌≢◌, inl, inr, none, some, List, [], ◌∷◌, ◌++◌, arith, ◌==◌, Bool-cases, length,
  take, drop,
}
use mimuw_pw_tasks.CString.{CString, strchr}
use mimuw_pw_tasks.Paths.{slash}
use mimuw_pw_tasks.Paths.Names.{All, IsLower, IsName, body}

module _ {ℓ} {A : Type ℓ} where
  pub take-append : (xs ys : List A) → take (length xs) (xs ++ ys) ≡ xs
  take-append [] ys = refl
  take-append (x ∷ xs) ys = rw (take-append xs ys)

  pub drop-append : (xs ys : List A) → drop (length xs) (xs ++ ys) ≡ ys
  drop-append [] ys = refl
  drop-append (x ∷ xs) ys = drop-append xs ys

-- `c` does not occur
abbrev pub Lacks : ℕ → CString → Type 0
Lacks c = All (λ x. x ≢ c)

pub Lacks-of_lower : (n : CString) → All IsLower n → Lacks slash n
Lacks-of_lower [] h = tt
Lacks-of_lower (x ∷ n) h = (omega arith, Lacks-of_lower n h.1)

pub strchr-Lacks : (n r : CString) (c : ℕ) → Lacks c n → strchr (n ++ c ∷ r) c ≡ some (c ∷ r)
unfolding strchr
strchr-Lacks [] r c h = ground arith
strchr-Lacks (x ∷ n) r c h = ground (arith, strchr-Lacks n r c)

pub strchr-none_of_Lacks : (n : CString) (c : ℕ) → Lacks c n → strchr n c ≡ none
unfolding strchr
strchr-none_of_Lacks [] c h = refl
strchr-none_of_Lacks (x ∷ n) c h = ground (arith, strchr-none_of_Lacks n c)

-- where a byte is found, the string splits there
pub record Found (s : CString) (c : ℕ) (e : CString) : Type 0 where
  pub before : CString
  pub behind : CString
  pub at : e ≡ c ∷ behind
  pub whole : s ≡ before ++ e
  pub lacks : Lacks c before

pub strchr-Found : (s : CString) (c : ℕ) (e : CString) → strchr s c ≡ some e → Found s c e
unfolding strchr
strchr-Found [] c e h = cc
strchr-Found (x ∷ s) c e h = elim (Bool-cases (x == c)) [
  | inl same ↦ record {
    before = [];
    behind = s;
    at = ground arith;
    whole = ground arith;
    lacks = tt;
  }
  | inr other ↦
      let f = strchr-Found s c e (ground arith) in
      record {
        before = x ∷ f.before;
        behind = f.behind;
        at = f.at;
        whole = ap (λ t. x ∷ t) f.whole;
        lacks = (ground arith, f.lacks);
      }
]

pub strchr-body :
    (n : CString) (cs : List CString)
    → IsName n
    → strchr (body (n ∷ cs)) slash ≡ some (slash ∷ body cs)
unfolding body
strchr-body n cs v = strchr-Lacks n (body cs) slash (Lacks-of_lower n v.lower)
