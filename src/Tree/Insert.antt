-- ===== src/Tree/Insert.antt =====
-- The insertion of a new node by `tree_create` of Zaliczeniowe_2/Tree.c, and the way back from it.
use mathlib.Core.List.{flatten}
use mimuw_pw_tasks.Prelude.{
  ℕ, suc, ◌+◌, ◌≡◌, refl, sym, ap, ◌∙◌, Bool, true, false, Option, none, some, List, ◌==◌,
  Bool-cases, ==_iff, inl, inr, if◌then◌else◌,
}
use mimuw_pw_tasks.CString.{CString}
use mimuw_pw_tasks.HashMap.{HashMap, hmap_new, hmap_size, hmap_insert, hmap_iterator, visit}
use mimuw_pw_tasks.HashMap.Laws.{Models, update, hmap_insert-Models}
use mimuw_pw_tasks.HashMap.Methods.{found, first}
use mimuw_pw_tasks.SafeHashMap.{change_readers, change_writers, safe_hmap_new}
use mimuw_pw_tasks.Store.{Ptr, null, Node, Heap, done, write, free}
use mimuw_pw_tasks.Node.{notify_parent_nodes, node_free, new_node}
use mimuw_pw_tasks.Node.Writes.{put, eq_refl, node-put, node-put_other, put-put, load_lem}
use mimuw_pw_tasks.Node.Quiet.{quiet, enter_reader, leave_reader, insert_quiet}
use mimuw_pw_tasks.Tree.{success, eexist, create_under}
use mimuw_pw_tasks.Tree.Descent.{on, on_ne, settle}
use mimuw_pw_tasks.Tree.Returned.{Returned}
use mimuw_pw_tasks.Tree.Way.{Way}

-- the heap with a new node
unfoldable pub grown : Heap → Node → Heap
grown h n = record { node = write h.node h.next (some n); next = h.next + 1 }

-- the heap without a node
unfoldable pub dropped : Heap → Ptr → Heap
dropped h p = record h { node = write h.node p none }

node_free_new :
    (height : ℕ) (h : Heap) (p parent : Ptr) (name : CString)
    → h.node p ≡ some (new_node parent name)
    → node_free (suc height) p h ≡ done tt (dropped h p)
unfolding node_free free new_node safe_hmap_new dropped visit hmap_size hmap_new flatten
    hmap_iterator
node_free_new height h p parent name e = rw (load_lem h p e) (rw (load_lem h p e) refl)

-- the folder `q` behind the insertion, with a thread below it
module _ (depth : ℕ) (h : Heap) (q parent : Ptr) (own name : CString) (m : HashMap Ptr) (b c : Bool)
    (g : ℕ) where
  abbrev pub inserted : HashMap Ptr × Bool
  inserted = hmap_insert m name (some h.next)

  abbrev pub written : Heap
  written =
      put (grown h (new_node q name)) q
        (quiet parent own inserted.0 change_writers change_readers 0 1 g)

  pub create_under_lem :
      (after : Heap)
      → h.node q ≡ some (quiet parent own m b c 0 0 g)
      → (q == h.next) ≡ false
      → notify_parent_nodes (suc depth) q null written ≡ done tt after
      → after.node h.next ≡ some (new_node q name)
      → create_under (suc depth) q name h
        ≡ (if inserted.1 then done success after else done eexist (dropped after h.next))
  unfolding create_under grown
  create_under_lem after e apart back there =
      let h0 = grown h (new_node q name) in
      let e0 : h0.node q ≡ some (quiet parent own m b c 0 0 g) = unfold grown in rw apart e in
      let h1 = put h0 q (quiet parent own m b c 1 1 g) in
      let h2 = put h1 q (quiet parent own inserted.0 b change_readers 1 1 g) in
      let h3 = put h2 q (quiet parent own inserted.0 change_writers change_readers 0 1 g) in
      let over : h3 ≡ written = put-put h1 q _ _ ∙ put-put h0 q _ _ in
      let freed = node_free_new depth after h.next q name there in
      rw
        (
          enter_reader h0 q parent own m b c 0 g e0,
          insert_quiet h1 q parent own m b c 1 g name h.next (node-put h0 q _),
          leave_reader h2 q parent own inserted.0 b change_readers 1 g (node-put h1 q _),
          over,
          back,
        )
        (elim (Bool-cases inserted.1) [ inl t ↦ rw t refl | inr u ↦ rw (u, freed) refl ])

pub grown_other :
    (h : Heap) (n : Node) (x : Ptr) → (x == h.next) ≡ false → (grown h n).node x ≡ h.node x
unfolding grown
grown_other h n x d = rw d refl

pub grown_new : (h : Heap) (n : Node) → (grown h n).node h.next ≡ some n
unfolding grown
grown_new h n = rw (eq_refl h.next) refl

pub dropped_other : (h : Heap) (p x : Ptr) → (x == p) ≡ false → (dropped h p).node x ≡ h.node x
unfolding dropped
dropped_other h p x d = rw d refl

pub dropped_there : (h : Heap) (p : Ptr) → (dropped h p).node p ≡ none
unfolding dropped
dropped_there h p = rw (eq_refl p) refl

-- Behind `tree_create`: the children of `q` were the partial function `f`, and have `name` now; the
-- nodes of `ps` above are settled, and the others are as they were. Where the name was there, the
-- new node is freed.
pub record Created (f : CString → Option Ptr) (ps : List Ptr) (q : Ptr) (name : CString)
    (h h' : Heap) : Type 0 where
  pub at_new : h'.node h.next ≡ (if found (f name) then none else some (new_node q name))
  pub folder :
      (n : Node)
      → h.node q ≡ some n
      → (m : HashMap Ptr) × (h'.node q
          ≡ some (quiet n.parent n.name m change_writers change_readers 0 0 0))
        × Models (update f name (first (f name) (some h.next))) m
  pub above :
      (x : Ptr) (n : Node)
      → on ps x ≡ true
      → (x == q) ≡ false
      → h.node x ≡ some n
      → h'.node x ≡ some (settle n)
  pub outside : (x : Ptr) → on ps x ≡ false → (x == h.next) ≡ false → h'.node x ≡ h.node x
  pub same_next : h'.next ≡ h.next + 1

module _ {depth rounds rest : ℕ} {last root q : Ptr} {m : HashMap Ptr} {keys : List CString}
    {ps : List Ptr} {h : Heap} (w : Way depth rounds rest last h null root q m keys ps)
    (name : CString) where
  abbrev pub put_there : Heap
  put_there = written depth w.at_end q w.end_parent w.end_name name m w.b w.c w.gets

  abbrev pub map_there : HashMap Ptr
  map_there = (hmap_insert m name (some w.at_end.next)).0

  pub Returned-Created :
      (f : CString → Option Ptr) (after h' : Heap)
      → Models f m
      → on ps q ≡ true
      → on ps h.next ≡ false
      → Returned h put_there after ps q
          (quiet w.end_parent w.end_name map_there change_writers change_readers 0 0 0)
      → ((x : Ptr) → (x == h.next) ≡ false → h'.node x ≡ after.node x)
      → h'.next ≡ after.next
      → h'.node h.next ≡ (if found (f name) then none else some (new_node q name))
      → Created f ps q name h h'
  unfolding settle quiet
  Returned-Created f after h' g there fresh r keep next at_new = record {
    at_new = at_new;
    folder = λ n e. (
      map_there,
      keep q (on_ne ps q h.next there fresh)
          ∙ r.at
          ∙ (let same = w.end_was n e in rw (ap (λ k. k.parent) same, ap (λ k. k.name) same) refl),
      rw (sym w.same_next) (hmap_insert-Models f m name (some w.at_end.next) g).1,
    );
    above = λ x n i not_q e. keep x (on_ne ps x h.next i fresh) ∙ r.above x n i not_q e;
    outside = λ x off new.
        keep x new
        ∙ r.off x off
        ∙ node-put_other (grown w.at_end (new_node q name)) q x _ (not_there x off)
        ∙ grown_other w.at_end (new_node q name) x (rw w.same_next new)
        ∙ w.off x off;
    same_next = next ∙ r.same_next ∙ (unfold put grown in ap (λ k. k + 1) w.same_next);
  }
    where
      not_there : (x : Ptr) → on ps x ≡ false → (x == q) ≡ false
      not_there x off = elim (Bool-cases (x == q)) [
        | inl t ↦ let e : x ≡ q = (==_iff x q).0 t in cc
        | inr u ↦ u
      ]
