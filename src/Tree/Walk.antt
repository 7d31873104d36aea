-- ===== src/Tree/Walk.antt =====
-- `process_path` of Zaliczeniowe_2/Tree.c down nodes that no other thread is at, and the way back.
use mathlib.Core.List.{append-nil}
use mimuw_pw_tasks.Prelude.{
  ℕ, zero, suc, ◌+◌, ◌≡◌, refl, ap, ◌∙◌, Bool, true, false, Bool-cases, inl, inr, ==_iff, some,
  List, [], ◌∷◌, ◌++◌, ◌==◌, if◌then◌else◌, length, arith,
}
use mimuw_pw_tasks.Prelude.Ints.{decrement}
use mimuw_pw_tasks.CString.{CString}
use mimuw_pw_tasks.HashMap.{HashMap}
use mimuw_pw_tasks.SafeHashMap.{change_writers}
use mimuw_pw_tasks.Paths.{split_path}
use mimuw_pw_tasks.Paths.Names.{All, IsName, render}
use mimuw_pw_tasks.Paths.Split.{split_path-render}
use mimuw_pw_tasks.Store.{Ptr, null, Node, Heap, done}
use mimuw_pw_tasks.Node.{notify_parent_nodes}
use mimuw_pw_tasks.Node.Writes.{put, eq_refl, eq_other, node-put, node-put_other, put-put}
use mimuw_pw_tasks.Node.Quiet.{quiet, counted}
use mimuw_pw_tasks.Tree.{success, process_loop}
use mimuw_pw_tasks.Tree.Round.{look_up-child}
use mimuw_pw_tasks.Tree.Descent.{
  on, Descent, here, below, settle, first_on, first-null, first_node, Descent-counted, on_ne,
  Settled, notify_quiet,
}

-- the way down `ps` by `keys`, and what the notification of the way back up leaves of it
pub record Walked (depth rounds rest : ℕ) (last : Ptr) (h : Heap) (parent p q : Ptr)
    (m : HashMap Ptr) (keys more : List CString) (ps : List Ptr) : Type 0 where
  pub at_end : Heap
  pub end_parent : Ptr
  pub end_name : CString
  pub b : Bool
  pub c : Bool
  pub gets : ℕ
  pub after : Heap
  pub found :
      process_loop depth rounds last p (split_path (render (keys ++ more))) false h
      ≡ process_loop depth (suc rest) last q (split_path (render more)) false at_end
  pub end_node : at_end.node q ≡ some (quiet end_parent end_name m b c 0 0 gets)
  pub back :
      (r s : ℕ)
      → s ≡ length ps + r
      → notify_parent_nodes s q null
          (put at_end q (quiet end_parent end_name m change_writers change_writers 0 1 gets))
        ≡ notify_parent_nodes r parent null after
  pub settled : Settled ps h after

pub settle-quiet :
    (h : Heap) (x p parent : Ptr) (name : CString) (m : HashMap Ptr) (b c : Bool) (t g : ℕ)
    (n : Node)
    → x ≡ p
    → h.node p ≡ some (quiet parent name m b c 0 t g)
    → h.node x ≡ some n
    → quiet parent name m change_writers change_writers 0 0 0 ≡ settle n
unfolding settle quiet
settle-quiet h x p parent name m b c t g n same e f =
    let k : n ≡ quiet parent name m b c 0 t g = cc in rw k refl

put-Settled :
    (h : Heap) (q : Ptr) (parent : Ptr) (name : CString) (m : HashMap Ptr) (b c : Bool) (t g : ℕ)
    → h.node q ≡ some (quiet parent name m b c 0 t g)
    → Settled (q ∷ []) h (put h q (quiet parent name m change_writers change_writers 0 0 0))
unfolding on put
put-Settled h q parent name m b c t g e = record {
  inside = λ x n u f.
      let i : x ≡ q = ground arith in
      rw (i, eq_refl q) (ap some (settle-quiet h x q parent name m b c t g n i e f));
  outside = λ x u. ground arith;
  same_next = refl;
}

-- a folder above settled ones, which a round has passed
above-Settled :
    (h after : Heap) (p parent child : Ptr) (name : CString) (m : HashMap Ptr) (b c : Bool)
    (t g : ℕ) (cn gone : Node) (ps : List Ptr)
    → h.node p ≡ some (quiet parent name m b c 0 t g)
    → h.node child ≡ some cn
    → on ps child ≡ true
    → Settled ps (put (put h child (counted cn)) p gone) after
    → Settled (p ∷ ps) h (put after p (quiet parent name m change_writers change_writers 0 0 0))
unfolding on
above-Settled h after p parent child name m b c t g cn gone ps e f there s =
    let l = quiet parent name m change_writers change_writers 0 0 0 in
    let h1 = put (put h child (counted cn)) p gone in
    record {
      inside = λ x n u k. elim (Bool-cases (x == p)) [
        | inl i ↦
            let same : x ≡ p = (==_iff x p).0 i in
            rw same
              (node-put after p l ∙ ap some (settle-quiet h x p parent name m b c t g n same e k))
        | inr w ↦ node-put_other after p x l w ∙ elim (Bool-cases (x == child)) [
          | inl i ↦
              let same : x ≡ child = (==_iff x child).0 i in
              let k1 : n ≡ cn = cc in
              let at : h1.node x ≡ some (counted n) =
                node-put_other (put h child (counted cn)) p x gone w
                ∙ rw (same, k1) (node-put h child (counted cn)) in
              s.inside x (counted n) (ground arith) at ∙ (unfold settle counted in refl)
          | inr o ↦ s.inside x n (ground arith) (
              node-put_other (put h child (counted cn)) p x gone w
              ∙ node-put_other h child x (counted cn) o
              ∙ k)
        ]
      ];
      outside = λ x u.
          let w : (x == p) ≡ false = ground arith in
          let v : on ps x ≡ false = ground arith in
          let o = eq_other x child (on_ne ps child x there v) in
          node-put_other after p x l w
          ∙ s.outside x v
          ∙ node-put_other (put h child (counted cn)) p x gone w
          ∙ node-put_other h child x (counted cn) o;
      same_next = unfold put in s.same_next;
    }

not_zero : (rest n : ℕ) → ¬ (zero ≡ n + suc rest)
not_zero rest n e = omega arith

module _ (depth : ℕ) (last : Ptr) {q : Ptr} {m : HashMap Ptr} where
  pub walk :
      {parent p : Ptr} {g : ℕ} {keys : List CString} {ps : List Ptr} (rounds rest : ℕ)
      (more : List CString) (h : Heap)
      → Descent h.node q m parent p g keys ps
      → All IsName (keys ++ more)
      → rounds ≡ length keys + suc rest
      → (if parent == null then g else decrement g) ≡ 0
      → Walked depth rounds rest last h parent p q m keys more ps
  unfolding process_loop
  walk {keys = keys} zero rest more h d v few even = elim (not_zero rest (length keys) few) [ ]
  walk {parent} {p} {g} (suc rounds) rest more h (here name b c e z) v few even = record {
    at_end = h;
    end_parent = parent;
    end_name = name;
    b = b;
    c = c;
    gets = g;
    after = put h q (quiet parent name m change_writers change_writers 0 0 0);
    found =
        let same : suc rounds ≡ suc rest = omega arith in
        ap (λ k. process_loop depth k last p (split_path (render more)) false h) same;
    end_node = e;
    back = λ r s eq.
        let n = quiet parent name m change_writers change_writers 0 1 g in
        let one : s ≡ suc r = omega arith in
        rw one (
          notify_quiet r (put h q n) q parent name m change_writers change_writers g
            (node-put h q n) z even
          ∙ ap (notify_parent_nodes r parent null) (put-put h q n _));
    settled = put-Settled h q parent name m b c 0 g e;
  }
  walk {parent} {p} {g} (suc rounds) rest more h
        (below {child = child} {key = key} {keys = keys} name n b c e z hit new d) v few even =
      let child_node = first_node d in
      let cn = quiet p child_node.0 child_node.1 child_node.2 child_node.3 0 0 0 in
      let apart : (child == p) ≡ false = on_ne _ child p (first_on d) new in
      let gone = quiet parent name n change_writers change_writers 0 1 g in
      let h1 = put (put h child (counted cn)) p gone in
      let there = first_on d in
      let d1 : Descent h1.node q m p child 1 _ _ =
        Descent-counted
          (λ x u w.
            node-put_other (put h child (counted cn)) p x gone (on_ne _ x p u new)
            ∙ node-put_other h child x (counted cn) w)
          (λ k k_at.
            let same : k ≡ cn = cc in
            node-put_other (put h child (counted cn)) p child gone apart
            ∙ rw same (node-put h child (counted cn)))
          d in
      let w = walk rounds rest more h1 d1 v.1 (omega arith) (rw z refl) in
      record {
        at_end = w.at_end;
        end_parent = w.end_parent;
        end_name = w.end_name;
        b = w.b;
        c = w.c;
        gets = w.gets;
        after = put w.after p (quiet parent name n change_writers change_writers 0 0 0);
        found =
            rw
              (
                split_path-render (key ∷ keys ++ more) v,
                look_up-child depth h p parent name n b c 0 g key child cn e hit apart child_node.4,
                first-null d,
              )
              w.found;
        end_node = w.end_node;
        back = λ r s eq.
            w.back (suc r) s (omega arith)
            ∙ notify_quiet r w.after p parent name n change_writers change_writers g
                (w.settled.outside p new ∙ node-put (put h child (counted cn)) p gone) z even;
        settled =
            above-Settled h w.after p parent child name n b c 0 g cn gone _ e child_node.4 there
              w.settled;
      }

  -- the way to a path's end
  pub walk_to :
      {parent p : Ptr} {g : ℕ} {keys : List CString} {ps : List Ptr} (rounds rest : ℕ) (h : Heap)
      → Descent h.node q m parent p g keys ps
      → All IsName keys
      → rounds ≡ length keys + suc rest
      → (if parent == null then g else decrement g) ≡ 0
      → (w : Walked depth rounds rest last h parent p q m keys [] ps) × (process_loop depth rounds
            last p
            (split_path (render keys))
            false
            h
          ≡ done (success, q) w.at_end)
  unfolding process_loop
  walk_to {keys = keys} rounds rest h d v few even =
      let w = walk rounds rest [] h d (rw (append-nil keys) v) few even in
      let f = rw (append-nil keys) at w.found in (w, f ∙ (rw (split_path-render [] tt) refl))
