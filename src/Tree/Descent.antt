-- ===== src/Tree/Descent.antt =====
-- The nodes of a path in memory, from a folder down, that no thread is at.
use mimuw_pw_tasks.Prelude.{
  ℕ, suc, ◌≡◌, refl, ap, ◌∙◌, Bool, true, false, ◌||◌, Bool-cases, inl, inr, ==_iff, Option, some,
  List, [], ◌∷◌, ◌==◌, if◌then◌else◌, arith,
}
use mimuw_pw_tasks.Prelude.Ints.{decrement}
use mimuw_pw_tasks.CString.{CString}
use mimuw_pw_tasks.HashMap.{HashMap, hmap_get}
use mimuw_pw_tasks.SafeHashMap.{change_writers}
use mimuw_pw_tasks.Store.{Ptr, null, Node, Heap, store}
use mimuw_pw_tasks.Node.{notified, notify_parent_nodes}
use mimuw_pw_tasks.Node.Writes.{put, load_lem}
use mimuw_pw_tasks.Node.Quiet.{quiet, counted}

-- Is the address in the list?
unfoldable pub on : List Ptr → Ptr → Bool
on [] x = false
on (p ∷ ps) x = (x == p) || on ps x

-- The nodes `ps` from one under `parent` down to `q`, by the names `keys`; `m` has the children of
-- `q`, and `gets` is the count of lookups of the first node. The counts of the others are 0.
pub data Descent (f : Ptr → Option Node) (q : Ptr) (m : HashMap Ptr)
    : Ptr → Ptr → ℕ → List CString → List Ptr → Type 0 where
  here :
      {parent : Ptr} {gets : ℕ} (name : CString) (b c : Bool)
      → f q ≡ some (quiet parent name m b c 0 0 gets)
      → (q == null) ≡ false
      → Descent f q m parent q gets [] (q ∷ [])
  below :
      {parent p child : Ptr} {gets : ℕ} {key : CString} {keys : List CString} {ps : List Ptr}
      (name : CString) (n : HashMap Ptr) (b c : Bool)
      → f p ≡ some (quiet parent name n b c 0 0 gets)
      → (p == null) ≡ false
      → hmap_get n key ≡ some child
      → on ps p ≡ false
      → Descent f q m p child 0 keys ps
      → Descent f q m parent p gets (key ∷ keys) (p ∷ ps)

-- a node that threads have left again
unfoldable pub settle : Node → Node
unfolding quiet
settle n = quiet n.parent n.name n.children.map change_writers change_writers 0 0 0

pub on_ne : (ps : List Ptr) (x p : Ptr) → on ps x ≡ true → on ps p ≡ false → (x == p) ≡ false
on_ne ps x p h new = elim (Bool-cases (x == p)) [
  | inl t ↦ let e : x ≡ p = (==_iff x p).0 t in cc
  | inr u ↦ u
]

module _ {f : Ptr → Option Node} {q : Ptr} {m : HashMap Ptr} where
  pub first_on :
      {parent p : Ptr} {g : ℕ} {keys : List CString} {ps : List Ptr}
      → Descent f q m parent p g keys ps
      → on ps p ≡ true
  unfolding on
  first_on (here name b c e z) = ground arith
  first_on (below name n b c e z hit new d) = ground arith

  pub first-null :
      {parent p : Ptr} {g : ℕ} {keys : List CString} {ps : List Ptr}
      → Descent f q m parent p g keys ps
      → (p == null) ≡ false
  first-null (here name b c e z) = z
  first-null (below name n b c e z hit new d) = z

  pub first_node :
      {parent p : Ptr} {g : ℕ} {keys : List CString} {ps : List Ptr}
      → Descent f q m parent p g keys ps
      → (name : CString) × (n : HashMap Ptr) × (b c : Bool) × (f p
          ≡ some (quiet parent name n b c 0 0 g))
  first_node (here name b c e z) = (name, m, b, c, e)
  first_node (below name n b c e z hit new d) = (name, n, b, c, e)

  -- the same nodes in another heap
  pub Descent-same :
      {k : Ptr → Option Node} {parent p : Ptr} {g : ℕ} {keys : List CString} {ps : List Ptr}
      → ((x : Ptr) → on ps x ≡ true → k x ≡ f x)
      → Descent f q m parent p g keys ps
      → Descent k q m parent p g keys ps
  unfolding on
  Descent-same same (here name b c e z) = here name b c (same q (ground arith) ∙ e) z
  Descent-same same (below {p = p} name n b c e z hit new d) =
      below name n b c (same p (ground arith) ∙ e) z hit new
        (Descent-same (λ x h. same x (ground arith)) d)

  -- the same nodes, with a lookup of the first one
  pub Descent-counted :
      {k : Ptr → Option Node} {parent p : Ptr} {keys : List CString} {ps : List Ptr}
      → ((x : Ptr) → on ps x ≡ true → (x == p) ≡ false → k x ≡ f x)
      → ((n : Node) → f p ≡ some n → k p ≡ some (counted n))
      → Descent f q m parent p 0 keys ps
      → Descent k q m parent p 1 keys ps
  unfolding on counted quiet
  Descent-counted keep count (here name b c e z) = here name b c (count _ e) z
  Descent-counted keep count (below {p = p} {ps = ps} name n b c e z hit new d) =
      below name n b c (count _ e) z hit new
        (Descent-same (λ x h. keep x (ground arith) (on_ne ps x p h new)) d)

-- The nodes of the list are settled, and the others are as they were.
pub record Settled (ps : List Ptr) (h h' : Heap) : Type 0 where
  pub inside :
      (x : Ptr) (n : Node) → on ps x ≡ true → h.node x ≡ some n → h'.node x ≡ some (settle n)
  pub outside : (x : Ptr) → on ps x ≡ false → h'.node x ≡ h.node x
  pub same_next : h'.next ≡ h.next

-- one round of `notify_parent_nodes`
pub notify_step :
    (rounds : ℕ) (p : Ptr) (h : Heap) (n : Node)
    → h.node p ≡ some n
    → (p == null) ≡ false
    → notify_parent_nodes (suc rounds) p null h
      ≡ notify_parent_nodes rounds n.parent null (put h p (notified n))
unfolding notify_parent_nodes put
notify_step rounds p h n e z = rw (z, load_lem h p e, store) refl

-- the last thread below a node leaves
pub notified_lem :
    (parent : Ptr) (name : CString) (m : HashMap Ptr) (b c : Bool) (g : ℕ)
    → (if parent == null then g else decrement g) ≡ 0
    → notified (quiet parent name m b c 0 1 g) ≡ quiet parent name m b c 0 0 0
unfolding quiet
notified_lem parent name m b c g e = ap (λ x. quiet parent name m b c 0 0 x) e

pub notify_quiet :
    (r : ℕ) (h : Heap) (p parent : Ptr) (name : CString) (m : HashMap Ptr) (b c : Bool) (g : ℕ)
    → h.node p ≡ some (quiet parent name m b c 0 1 g)
    → (p == null) ≡ false
    → (if parent == null then g else decrement g) ≡ 0
    → notify_parent_nodes (suc r) p null h
      ≡ notify_parent_nodes r parent null (put h p (quiet parent name m b c 0 0 0))
unfolding quiet
notify_quiet r h p parent name m b c g e z even =
    notify_step r p h _ e z
    ∙ ap (λ n. notify_parent_nodes r parent null (put h p n))
        (notified_lem parent name m b c g even)
