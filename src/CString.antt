-- ===== src/CString.antt =====
-- C strings, and the functions of <string.h> that the sources call. A string is the list of its
-- bytes without the terminating null character; a pointer into it is the rest that begins there.
pub mod Laws
use mimuw_pw_tasks.Prelude.{
  ℕ, zero, suc, ◌≡◌, Bool, true, false, Option, none, some, List, [], ◌∷◌, compare, Ordering, ◌==◌,
  if◌then◌else◌,
}

abbrev pub CString : Type 0
CString = List ℕ

-- The sign of `strcmp(a, b)`: bytes are compared unsigned, and a proper prefix comes first.
unfoldable pub strcmp : CString → CString → Ordering
strcmp [] [] = Ordering.eq
strcmp [] (y ∷ ys) = Ordering.lt
strcmp (x ∷ xs) [] = Ordering.gt
strcmp (x ∷ xs) (y ∷ ys) = elim (compare x y) [
  | Ordering.lt ↦ Ordering.lt
  | Ordering.gt ↦ Ordering.gt
  | _ ↦ strcmp xs ys
]

-- The sign of `strncmp(a, b, n)`: at most `n` bytes are compared.
unfoldable pub strncmp : CString → CString → ℕ → Ordering
strncmp xs ys zero = Ordering.eq
strncmp [] [] (suc n) = Ordering.eq
strncmp [] (y ∷ ys) (suc n) = Ordering.lt
strncmp (x ∷ xs) [] (suc n) = Ordering.gt
strncmp (x ∷ xs) (y ∷ ys) (suc n) = elim (compare x y) [
  | Ordering.lt ↦ Ordering.lt
  | Ordering.gt ↦ Ordering.gt
  | _ ↦ strncmp xs ys n
]

-- `… == 0` on the result of a comparison
abbrev pub is_zero : Ordering → Bool
is_zero Ordering.eq = true
is_zero Ordering.lt = false
is_zero Ordering.gt = false

-- `strcmp(a, b) == 0`
unfoldable pub str_eq : CString → CString → Bool
str_eq a b = is_zero (strcmp a b)

-- `strchr(s, c)` for a byte other than the null character
unfoldable pub strchr : CString → ℕ → Option CString
strchr [] c = none
strchr (x ∷ xs) c = if x == c then some (x ∷ xs) else strchr xs c
