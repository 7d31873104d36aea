-- ===== src/Node/Writes.antt =====
-- Writes to the heap of Node.c, and the commands on one node as writes.
use mimuw_pw_tasks.Prelude.{
  ℕ, ◌≡◌, refl, ap, ◌∙◌, true, false, some, ◌==◌, Bool-cases, inl, inr, arith,
}
use mimuw_pw_tasks.Store.{Ptr, Node, Heap, done, write, load}

-- the heap with another node at an address
unfoldable pub put : Heap → Ptr → Node → Heap
put h p n = record h { node = write h.node p (some n) }

pub eq_refl : (p : ℕ) → (p == p) ≡ true
eq_refl p = ground arith

pub load_lem : (h : Heap) (p : Ptr) {n : Node} → h.node p ≡ some n → load p h ≡ done n h
unfolding load
load_lem h p e = rw (load, e) refl

pub node-put : (h : Heap) (p : Ptr) (n : Node) → (put h p n).node p ≡ some n
unfolding put
node-put h p n = rw (eq_refl p) refl

pub load-put : (h : Heap) (p : Ptr) (n : Node) → load p (put h p n) ≡ done n (put h p n)
unfolding load put
load-put h p n = load_lem (put h p n) p (node-put h p n)

pub node-put_other :
    (h : Heap) (p q : Ptr) (n : Node) → (q == p) ≡ false → (put h p n).node q ≡ h.node q
unfolding put
node-put_other h p q n d = rw d refl

pub put-put : (h : Heap) (p : Ptr) (a b : Node) → put (put h p a) p b ≡ put h p b
unfolding put
put-put h p a b i = record h { node = λ q. same q i }
  where
    same : (q : Ptr) → write (write h.node p (some a)) p (some b) q ≡ write h.node p (some b) q
    same q = elim (Bool-cases (q == p)) [ inl t ↦ rw t refl | inr u ↦ rw u refl ]

pub put_comm :
    (h : Heap) (p q : Ptr) (a b : Node)
    → (q == p) ≡ false
    → put (put h p a) q b ≡ put (put h q b) p a
unfolding put
put_comm h p q a b d i = record h { node = λ r. same r i }
  where
    same :
        (r : Ptr)
        → write (write h.node p (some a)) q (some b) r
          ≡ write (write h.node q (some b)) p (some a) r
    same r = ground arith

pub eq_other : (p q : ℕ) → (q == p) ≡ false → (p == q) ≡ false
eq_other p q d = ground arith

-- a write to `p` behind a write to another node, and one before both
pub put_again :
    (h : Heap) (p q : Ptr) (a c b : Node)
    → (q == p) ≡ false
    → put (put (put h p a) q c) p b ≡ put (put h q c) p b
put_again h p q a c b d = ap (λ k. put k p b) (put_comm h p q a c d) ∙ put-put (put h q c) p a b
