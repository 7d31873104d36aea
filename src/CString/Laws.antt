-- ===== src/CString/Laws.antt =====
-- Lemmas on the comparisons of strings.
use mimuw_pw_tasks.Prelude.{◌≡◌, refl, ◌↔◌, true, [], ◌∷◌, ◌++◌, Ordering, arith, length}
use mimuw_pw_tasks.CString.{CString, strcmp, strncmp, str_eq}

pub strcmp_refl : (a : CString) → strcmp a a ≡ Ordering.eq
unfolding strcmp
strcmp_refl [] = refl
strcmp_refl (x ∷ xs) = ground (arith, strcmp_refl xs)

pub eq_of_strcmp : (a b : CString) → strcmp a b ≡ Ordering.eq → a ≡ b
unfolding strcmp
eq_of_strcmp [] [] h = refl
eq_of_strcmp [] (y ∷ ys) h = cc
eq_of_strcmp (x ∷ xs) [] h = cc
eq_of_strcmp (x ∷ xs) (y ∷ ys) h = ground (arith, eq_of_strcmp xs ys)

pub str_eq_iff : (a b : CString) → (str_eq a b ≡ true) ↔ (a ≡ b)
unfolding str_eq
str_eq_iff a b = (λ h. eq_of_strcmp a b (ground arith), λ e. rw (e, strcmp_refl b) refl)

pub str_eq_refl : (a : CString) → str_eq a a ≡ true
str_eq_refl a = (str_eq_iff a a).1 refl

-- `strncmp` over the whole length of the first string tests for a prefix.
pub strncmp-append : (a b : CString) → strncmp a (a ++ b) (length a) ≡ Ordering.eq
unfolding strncmp
strncmp-append [] b = refl
strncmp-append (x ∷ a) b = ground (arith, strncmp-append a b)

-- the sign with the arguments exchanged
pub strcmp-opposite : (a b : CString) → strcmp a b ≡ Ordering.gt → strcmp b a ≡ Ordering.lt
unfolding strcmp
strcmp-opposite [] [] h = cc
strcmp-opposite [] (y ∷ b) h = cc
strcmp-opposite (x ∷ a) [] h = refl
strcmp-opposite (x ∷ a) (y ∷ b) h = ground (arith, strcmp-opposite a b)

pub strcmp_trans :
    (a b c : CString)
    → strcmp a b ≡ Ordering.lt
    → strcmp b c ≡ Ordering.lt
    → strcmp a c ≡ Ordering.lt
unfolding strcmp
strcmp_trans [] [] [] h k = cc
strcmp_trans [] (y ∷ b) [] h k = cc
strcmp_trans [] b (z ∷ c) h k = refl
strcmp_trans (x ∷ a) [] c h k = cc
strcmp_trans (x ∷ a) (y ∷ b) [] h k = cc
strcmp_trans (x ∷ a) (y ∷ b) (z ∷ c) h k = ground (arith, strcmp_trans a b c)
