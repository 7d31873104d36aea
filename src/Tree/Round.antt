-- ===== src/Tree/Round.antt =====
-- A round of `process_path` of Zaliczeniowe_2/Tree.c at a node that no other thread is at.
use mimuw_pw_tasks.Prelude.{ℕ, ◌≡◌, ap, ◌∙◌, false, Bool, none, some, ◌==◌}
use mimuw_pw_tasks.Prelude.Ints.{increment}
use mimuw_pw_tasks.CString.{CString}
use mimuw_pw_tasks.HashMap.{HashMap, hmap_get}
use mimuw_pw_tasks.SafeHashMap.{change_writers}
use mimuw_pw_tasks.Store.{Ptr, null, Node, Heap, done}
use mimuw_pw_tasks.Node.Writes.{put, node-put, node-put_other, put-put, put_again}
use mimuw_pw_tasks.Node.Quiet.{quiet, counted, enter_reader, leave_reader, get_absent, get_child}
use mimuw_pw_tasks.Tree.{look_up}

module _ (depth : ℕ) (h : Heap) (p parent : Ptr) (name : CString) (m : HashMap Ptr) (b c : Bool)
    (t g : ℕ) (key : CString) where
  -- the node behind a round
  abbrev pub passed : Node
  passed = quiet parent name m change_writers change_writers 0 (increment t) g

  pub look_up-absent :
      h.node p ≡ some (quiet parent name m b c 0 t g)
      → hmap_get m key ≡ none
      → look_up depth false p key h ≡ done (some null) (put h p passed)
  unfolding look_up
  look_up-absent e miss =
      let h1 = put h p (quiet parent name m b c 1 (increment t) g) in
      let h2 = put h1 p (quiet parent name m b change_writers 1 (increment t) g) in
      rw
        (
          enter_reader h p parent name m b c t g e,
          get_absent h1 p parent name m b c 1 (increment t) g key (node-put h p _) miss,
          leave_reader h2 p parent name m b change_writers (increment t) g (node-put h1 p _),
        )
        (ap (done (some null)) (put-put h1 p _ _ ∙ put-put h p _ _))

  pub look_up-child :
      (child : Ptr) (n : Node)
      → h.node p ≡ some (quiet parent name m b c 0 t g)
      → hmap_get m key ≡ some child
      → (child == p) ≡ false
      → h.node child ≡ some n
      → look_up depth false p key h ≡ done (some child) (put (put h child (counted n)) p passed)
  unfolding look_up
  look_up-child child n e hit d f =
      let h1 = put h p (quiet parent name m b c 1 (increment t) g) in
      let h2 =
        put (put h1 child (counted n)) p (quiet parent name m b change_writers 1 (increment t) g) in
      rw
        (
          enter_reader h p parent name m b c t g e,
          get_child h1 p parent name m b c 1 (increment t) g key child n (node-put h p _) hit d
              (node-put_other h p child _ d ∙ f),
          leave_reader h2 p parent name m b change_writers (increment t) g
              (node-put (put h1 child (counted n)) p _),
        )
        (ap (done (some child))
          (put-put (put h1 child (counted n)) p _ _ ∙ put_again h p child _ _ _ d))
