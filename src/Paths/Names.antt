-- ===== src/Paths/Names.antt =====
-- What the strings of folders stand for: a list of names. `/a/b/` is the list of `a` and `b`.
use mimuw_pw_tasks.Prelude.{ℕ, ◌≤◌, ◌≡◌, List, [], ◌∷◌, ◌++◌, length}
use mimuw_pw_tasks.CString.{CString}
use mimuw_pw_tasks.Paths.{slash, max_folder_name_length, max_path_length}

abbrev pub All {ℓ κ} : {A : Type ℓ} → (A → Type κ) → List A → Type κ
All P [] = Unit
All P (x ∷ xs) = P x × All P xs

abbrev pub IsLower : ℕ → Type 0
IsLower c = (b'a' ≤ c) × (c ≤ b'z')

-- a valid folder name
pub record IsName (name : CString) : Type 0 where
  pub lower : All IsLower name
  pub non_empty : 1 ≤ length name
  pub short : length name ≤ max_folder_name_length

-- the names, each with a slash behind it
unfoldable pub body : List CString → CString
body [] = []
body (c ∷ cs) = c ++ slash ∷ body cs

-- the path of a list of names
unfoldable pub render : List CString → CString
unfolding body
render cs = slash ∷ body cs

-- a valid path, as path_utils.h describes it
pub record IsPath (path : CString) : Type 0 where
  pub names : List CString
  pub valid : All IsName names
  pub rendered : path ≡ render names
  pub bounded : length path ≤ max_path_length
