-- ===== src/Tree/Way.antt =====
-- `process_path` of Zaliczeniowe_2/Tree.c down nodes that no other thread is at, and the way back after
-- other writes.
use mimuw_pw_tasks.Prelude.{
  ℕ, zero, suc, ◌+◌, ◌≡◌, refl, sym, ap, ◌∙◌, Bool, true, false, Bool-cases, inl, inr, ==_iff, some,
  List, [], ◌∷◌, ◌==◌, if◌then◌else◌, length, arith,
}
use mimuw_pw_tasks.Prelude.Ints.{decrement}
use mimuw_pw_tasks.CString.{CString}
use mimuw_pw_tasks.HashMap.{HashMap}
use mimuw_pw_tasks.SafeHashMap.{change_writers}
use mimuw_pw_tasks.Paths.{split_path}
use mimuw_pw_tasks.Paths.Names.{All, IsName, render}
use mimuw_pw_tasks.Paths.Split.{split_path-render}
use mimuw_pw_tasks.Store.{Ptr, null, Node, Heap}
use mimuw_pw_tasks.Node.{notify_parent_nodes}
use mimuw_pw_tasks.Node.Writes.{put, eq_refl, eq_other, node-put, node-put_other}
use mimuw_pw_tasks.Node.Quiet.{quiet, counted}
use mimuw_pw_tasks.Tree.{process_loop}
use mimuw_pw_tasks.Tree.Round.{look_up-child}
use mimuw_pw_tasks.Tree.Walk.{settle-quiet}
use mimuw_pw_tasks.Tree.Descent.{
  on, Descent, here, below, settle, first_on, first-null, first_node, Descent-counted, on_ne,
  notify_quiet,
}
use mimuw_pw_tasks.Tree.Returned.{Returned, last_on, above-Returned}

-- the way down `ps` by `keys`, and back
pub record Way (depth rounds rest : ℕ) (last : Ptr) (h : Heap) (parent p q : Ptr) (m : HashMap Ptr)
    (keys : List CString) (ps : List Ptr) : Type 0 where
  pub at_end : Heap
  pub end_parent : Ptr
  pub end_name : CString
  pub b : Bool
  pub c : Bool
  pub gets : ℕ
  pub found :
      process_loop depth rounds last p (split_path (render keys)) false h
      ≡ process_loop depth (suc rest) last q (split_path (render [])) false at_end
  pub end_node : at_end.node q ≡ some (quiet end_parent end_name m b c 0 0 gets)
  pub end_was :
      (n : Node)
      → h.node q ≡ some n
      → settle n ≡ quiet end_parent end_name m change_writers change_writers 0 0 0
  pub off : (x : Ptr) → on ps x ≡ false → at_end.node x ≡ h.node x
  pub same_next : at_end.next ≡ h.next
  pub back :
      (k : Heap) (m' : HashMap Ptr) (c' : Bool)
      → ((x : Ptr) → on ps x ≡ true → (x == q) ≡ false → k.node x ≡ at_end.node x)
      → k.node q ≡ some (quiet end_parent end_name m' change_writers c' 0 1 gets)
      → (r s : ℕ) → s ≡ length ps + r
      → (after : Heap) × (notify_parent_nodes s q null k ≡ notify_parent_nodes r parent null after)
        × Returned h k after ps q (quiet end_parent end_name m' change_writers c' 0 0 0)

not_zero : (rest n : ℕ) → ¬ (zero ≡ n + suc rest)
not_zero rest n e = omega arith

settle-counted : (n : Node) → settle n ≡ settle (counted n)
unfolding settle counted
settle-counted n = refl

module _ (depth : ℕ) (last : Ptr) {q : Ptr} {m : HashMap Ptr} where
  pub way :
      {parent p : Ptr} {g : ℕ} {keys : List CString} {ps : List Ptr} (rounds rest : ℕ) (h : Heap)
      → Descent h.node q m parent p g keys ps
      → All IsName keys
      → rounds ≡ length keys + suc rest
      → (if parent == null then g else decrement g) ≡ 0
      → Way depth rounds rest last h parent p q m keys ps
  unfolding process_loop on
  way {keys = keys} zero rest h d v few even = elim (not_zero rest (length keys) few) [ ]
  way {parent} {p} {g} (suc rounds) rest h (here name b c e z) v few even = record {
    at_end = h;
    end_parent = parent;
    end_name = name;
    b = b;
    c = c;
    gets = g;
    found =
        let same : suc rounds ≡ suc rest = omega arith in
        ap (λ k. process_loop depth k last p (split_path (render [])) false h) same;
    end_node = e;
    end_was = λ n at. sym (settle-quiet h q q parent name m b c 0 g n refl e at);
    off = λ x u. refl;
    same_next = refl;
    back = λ k m' c' same at r s eq.
        let one : s ≡ suc r = omega arith in
        let after = put k q (quiet parent name m' change_writers c' 0 0 0) in
        (
          after,
          rw one (notify_quiet r k q parent name m' change_writers c' g at z even),
          record {
            above = λ x n u not_q f. absurd (ground arith);
            at = node-put k q _;
            off = λ x u. node-put_other k q x _ (ground arith);
            same_next = unfold put in refl;
          },
        );
  }
  way {parent} {p} {g} (suc rounds) rest h
        (below {child = child} {key = key} {keys = keys} {ps = ps} name n b c e z hit new d) v few
        even =
      let child_node = first_node d in
      let cn = quiet p child_node.0 child_node.1 child_node.2 child_node.3 0 0 0 in
      let apart : (child == p) ≡ false = on_ne ps child p (first_on d) new in
      let not_last : (p == q) ≡ false = eq_other p q (on_ne ps q p (last_on d) new) in
      let gone = quiet parent name n change_writers change_writers 0 1 g in
      let h1 = put (put h child (counted cn)) p gone in
      let there = first_on d in
      let d1 : Descent h1.node q m p child 1 keys ps =
        Descent-counted
          (λ x u w.
            node-put_other (put h child (counted cn)) p x gone (on_ne ps x p u new)
            ∙ node-put_other h child x (counted cn) w)
          (λ k k_at.
            let same : k ≡ cn = cc in
            node-put_other (put h child (counted cn)) p child gone apart
            ∙ rw same (node-put h child (counted cn)))
          d in
      let w = way rounds rest h1 d1 v.1 (omega arith) (rw z refl) in
      record {
        at_end = w.at_end;
        end_parent = w.end_parent;
        end_name = w.end_name;
        b = w.b;
        c = w.c;
        gets = w.gets;
        found =
            rw
              (
                split_path-render (key ∷ keys) v,
                look_up-child depth h p parent name n b c 0 g key child cn e hit apart child_node.4,
                first-null d,
              )
              w.found;
        end_node = w.end_node;
        end_was = λ k at. elim (Bool-cases (q == child)) [
          | inl i ↦
              let same : q ≡ child = (==_iff q child).0 i in
              let k1 : k ≡ cn = cc in
              let at1 : h1.node q ≡ some (counted k) =
                node-put_other (put h child (counted cn)) p q gone (eq_other q p not_last)
                ∙ rw (same, k1) (node-put h child (counted cn)) in
              settle-counted k ∙ w.end_was (counted k) at1
          | inr o ↦ w.end_was k (
              node-put_other (put h child (counted cn)) p q gone (eq_other q p not_last)
              ∙ node-put_other h child q (counted cn) o
              ∙ at)
        ];
        off = λ x u.
            let v : on ps x ≡ false = ground arith in
            w.off x v
            ∙ node-put_other (put h child (counted cn)) p x gone (ground arith)
            ∙ node-put_other h child x (counted cn) (eq_other x child (on_ne ps child x there v));
        same_next = w.same_next ∙ (unfold put in refl);
        back = λ k m' c' same at r s eq.
            let up =
              w.back k m' c' (λ x u not_q. same x (ground arith) not_q) at (suc r) s
                (omega arith) in
            let gone_at : up.0.node p ≡ some gone =
              up.2.off p new
              ∙ same p (ground (arith, eq_refl p)) not_last
              ∙ w.off p new
              ∙ node-put (put h child (counted cn)) p gone in
            (
              put up.0 p (quiet parent name n change_writers change_writers 0 0 0),
              up.1
                  ∙ notify_quiet r up.0 p parent name n change_writers change_writers g gone_at z
                      even,
              above-Returned h k up.0 p parent child q name n b c 0 g cn gone _ ps e child_node.4
                  there new not_last up.2,
            );
      }
