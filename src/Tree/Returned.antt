-- ===== src/Tree/Returned.antt =====
-- The way back up nodes that no other thread is at, for Zaliczeniowe_2/Tree.c.
use mimuw_pw_tasks.Prelude.{
  ℕ, ◌≡◌, refl, ap, ◌∙◌, Bool, true, false, Bool-cases, inl, inr, ==_iff, Option, some, List, ◌∷◌,
  ◌==◌, arith,
}
use mimuw_pw_tasks.CString.{CString}
use mimuw_pw_tasks.HashMap.{HashMap}
use mimuw_pw_tasks.SafeHashMap.{change_writers}
use mimuw_pw_tasks.Store.{Ptr, Node, Heap}
use mimuw_pw_tasks.Node.Writes.{put, eq_other, node-put, node-put_other}
use mimuw_pw_tasks.Node.Quiet.{quiet, counted}
use mimuw_pw_tasks.Tree.Walk.{settle-quiet}
use mimuw_pw_tasks.Tree.Descent.{on, Descent, here, below, settle}

-- Behind the notification of the nodes from `q` up: those above are settled, and `q` keeps what was
-- written to it.
pub record Returned (h k after : Heap) (ps : List Ptr) (q : Ptr) (last : Node) : Type 0 where
  pub above :
      (x : Ptr) (n : Node)
      → on ps x ≡ true
      → (x == q) ≡ false
      → h.node x ≡ some n
      → after.node x ≡ some (settle n)
  pub at : after.node q ≡ some last
  pub off : (x : Ptr) → on ps x ≡ false → after.node x ≡ k.node x
  pub same_next : after.next ≡ k.next

pub last_on :
    {f : Ptr → Option Node} {q : Ptr} {m : HashMap Ptr} {parent p : Ptr} {g : ℕ}
    {keys : List CString} {ps : List Ptr}
    → Descent f q m parent p g keys ps
    → on ps q ≡ true
unfolding on
last_on (here name b c e z) = ground arith
last_on (below name n b c e z hit new d) = let i = last_on d in ground arith

-- one round further up
pub above-Returned :
    (h k after : Heap) (p parent child q : Ptr) (name : CString) (m : HashMap Ptr) (b c : Bool)
    (t g : ℕ) (cn gone last : Node) (ps : List Ptr)
    → h.node p ≡ some (quiet parent name m b c 0 t g)
    → h.node child ≡ some cn
    → on ps child ≡ true
    → on ps p ≡ false
    → (p == q) ≡ false
    → Returned (put (put h child (counted cn)) p gone) k after ps q last
    → Returned h k
        (put after p (quiet parent name m change_writers change_writers 0 0 0))
        (p ∷ ps)
        q
        last
unfolding on
above-Returned h k after p parent child q name m b c t g cn gone last ps e f there new apart s =
    let l = quiet parent name m change_writers change_writers 0 0 0 in
    let h1 = put (put h child (counted cn)) p gone in
    record {
      above = λ x n u not_q at. elim (Bool-cases (x == p)) [
        | inl i ↦
            let same : x ≡ p = (==_iff x p).0 i in
            rw same
              (node-put after p l ∙ ap some (settle-quiet h x p parent name m b c t g n same e at))
        | inr w ↦ node-put_other after p x l w ∙ elim (Bool-cases (x == child)) [
          | inl i ↦
              let same : x ≡ child = (==_iff x child).0 i in
              let k1 : n ≡ cn = cc in
              let at1 : h1.node x ≡ some (counted n) =
                node-put_other (put h child (counted cn)) p x gone w
                ∙ rw (same, k1) (node-put h child (counted cn)) in
              s.above x (counted n) (ground arith) not_q at1 ∙ (unfold settle counted in refl)
          | inr o ↦ s.above x n (ground arith) not_q (
              node-put_other (put h child (counted cn)) p x gone w
              ∙ node-put_other h child x (counted cn) o
              ∙ at)
        ]
      ];
      at = node-put_other after p q l (eq_other q p apart) ∙ s.at;
      off = λ x u.
          let w : (x == p) ≡ false = ground arith in
          node-put_other after p x l w ∙ s.off x (ground arith);
      same_next = unfold put in s.same_next;
    }
