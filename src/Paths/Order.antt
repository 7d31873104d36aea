-- ===== src/Paths/Order.antt =====
-- `compare_paths` against a comparison byte after byte.
use mimuw_pw_tasks.Prelude.{
  ℕ, ◌<◌, compare, Ordering, ◌≡◌, refl, sym, ◌∙◌, ◌↔◌, List, [], ◌∷◌, ◌++◌, arith, if◌then◌else◌,
  length,
}
use mimuw_pw_tasks.CString.{CString, strcmp, strncmp, is_zero}
use mimuw_pw_tasks.Paths.{slash, compare_paths}
use mimuw_pw_tasks.Paths.Names.{body, render}
use mimuw_pw_tasks.Paths.Split.{body-append}

-- byte after byte, where the end of a string comes behind every byte
unfoldable pub leftist : CString → CString → Ordering
leftist [] [] = Ordering.eq
leftist [] (y ∷ ys) = Ordering.gt
leftist (x ∷ xs) [] = Ordering.lt
leftist (x ∷ xs) (y ∷ ys) = elim (compare x y) [
  | Ordering.lt ↦ Ordering.lt
  | Ordering.gt ↦ Ordering.gt
  | _ ↦ leftist xs ys
]

-- By the length of the shorter string, `strncmp` tells a prefix, where `leftist` says which string
-- ended; elsewhere `strcmp` and `leftist` meet the same first difference.
leftist-longer :
    (a b : CString)
    → length b < length a
    → (if is_zero (strncmp a b (length b)) then Ordering.lt else strcmp a b) ≡ leftist a b
unfolding strcmp strncmp leftist
leftist-longer [] b h = elim h [ ]
leftist-longer (x ∷ a) [] h = refl
leftist-longer (x ∷ a) (y ∷ b) h = ground (arith, leftist-longer a b)

leftist-shorter :
    (a b : CString)
    → length a < length b
    → (if is_zero (strncmp a b (length a)) then Ordering.gt else strcmp a b) ≡ leftist a b
unfolding strcmp strncmp leftist
leftist-shorter a [] h = elim h [ ]
leftist-shorter [] (y ∷ b) h = refl
leftist-shorter (x ∷ a) (y ∷ b) h = ground (arith, leftist-shorter a b)

leftist-same : (a b : CString) → length a ≡ length b → strcmp a b ≡ leftist a b
unfolding strcmp leftist
leftist-same [] [] h = refl
leftist-same [] (y ∷ b) h = absurd (omega arith)
leftist-same (x ∷ a) [] h = absurd (omega arith)
leftist-same (x ∷ a) (y ∷ b) h = ground (arith, leftist-same a b)

-- The three comparisons by length agree with one comparison byte after byte in which the end of a
-- string comes behind every byte.
pub compare_paths-eq-leftist : (a b : CString) → compare_paths a b ≡ leftist a b
unfolding compare_paths
compare_paths-eq-leftist a b =
    ground (arith, leftist-longer a b, leftist-shorter a b, leftist-same a b)

abbrev pub opposite : Ordering → Ordering
opposite Ordering.lt = Ordering.gt
opposite Ordering.eq = Ordering.eq
opposite Ordering.gt = Ordering.lt

leftist-opposite : (a b : CString) → leftist b a ≡ opposite (leftist a b)
unfolding leftist
leftist-opposite [] [] = refl
leftist-opposite [] (y ∷ b) = refl
leftist-opposite (x ∷ a) [] = refl
leftist-opposite (x ∷ a) (y ∷ b) = ground (arith, leftist-opposite a b)

leftist-eq : (a b : CString) → leftist a b ≡ Ordering.eq → a ≡ b
unfolding leftist
leftist-eq [] [] h = refl
leftist-eq [] (y ∷ b) h = cc
leftist-eq (x ∷ a) [] h = cc
leftist-eq (x ∷ a) (y ∷ b) h = ground (arith, leftist-eq a b)

leftist_refl : (a : CString) → leftist a a ≡ Ordering.eq
unfolding leftist
leftist_refl [] = refl
leftist_refl (x ∷ a) = ground (arith, leftist_refl a)

leftist_trans :
    (a b c : CString)
    → leftist a b ≡ Ordering.lt
    → leftist b c ≡ Ordering.lt
    → leftist a c ≡ Ordering.lt
unfolding leftist
leftist_trans [] [] c h k = cc
leftist_trans [] (y ∷ b) c h k = cc
leftist_trans (x ∷ a) [] [] h k = cc
leftist_trans (x ∷ a) [] (z ∷ c) h k = cc
leftist_trans (x ∷ a) (y ∷ b) [] h k = refl
leftist_trans (x ∷ a) (y ∷ b) (z ∷ c) h k = ground (arith, leftist_trans a b c)

leftist-append : (a : CString) (x : ℕ) (b : CString) → leftist (a ++ x ∷ b) a ≡ Ordering.lt
unfolding leftist
leftist-append [] x b = refl
leftist-append (y ∷ a) x b = ground (arith, leftist-append a x b)

-- `compare_paths` is 0 exactly on equal strings, and exchanging the arguments changes its sign.
compare_paths_total :
    (a b : CString)
    → ((compare_paths a b ≡ Ordering.eq) ↔ (a ≡ b))
      × (compare_paths b a ≡ opposite (compare_paths a b))
compare_paths_total a b =
    rw (compare_paths-eq-leftist a b, compare_paths-eq-leftist b a)
      ((leftist-eq a b, λ e. rw e (leftist_refl b)), leftist-opposite a b)

-- What is left of a string that is left of a third is left of the third.
compare_paths_trans :
    (a b c : CString)
    → compare_paths a b ≡ Ordering.lt
    → compare_paths b c ≡ Ordering.lt
    → compare_paths a c ≡ Ordering.lt
compare_paths_trans a b c h k =
    compare_paths-eq-leftist a c
    ∙ leftist_trans a b c (sym (compare_paths-eq-leftist a b) ∙ h)
        (sym (compare_paths-eq-leftist b c) ∙ k)

-- `compare_paths` is a linear order: it is 0 exactly on equal strings, the swapped arguments give the
-- opposite answer, and what is left of a string that is left of a third is left of the third.
pub compare_paths_linear :
    (a b c : CString)
    → ((compare_paths a b ≡ Ordering.eq) ↔ (a ≡ b))
      × (compare_paths b a ≡ opposite (compare_paths a b))
      × (compare_paths a b ≡ Ordering.lt
          → compare_paths b c ≡ Ordering.lt
          → compare_paths a c ≡ Ordering.lt)
compare_paths_linear a b c =
    ((compare_paths_total a b).0, (compare_paths_total a b).1, compare_paths_trans a b c)

-- A folder comes behind every folder under it.
pub compare_paths-descendant :
    (xs ys : List CString) (x : CString)
    → compare_paths (render (xs ++ x ∷ ys)) (render xs) ≡ Ordering.lt
unfolding render
compare_paths-descendant xs ys x = rw (compare_paths-eq-leftist, body-append xs (x ∷ ys)) (below x)
  where
    below :
        (c : CString) → leftist (slash ∷ (body xs ++ body (c ∷ ys))) (slash ∷ body xs) ≡ Ordering.lt
    below [] = unfold body in leftist-append (slash ∷ body xs) slash (body ys)
    below (y ∷ c) = unfold body in leftist-append (slash ∷ body xs) y (c ++ slash ∷ body ys)
