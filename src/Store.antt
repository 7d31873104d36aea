-- ===== src/Store.antt =====
-- The nodes of the tree in memory, and the commands of one thread that runs alone.
use mimuw_pw_tasks.Prelude.{ℕ, ◌+◌, Bool, Option, none, some, ◌==◌, if◌then◌else◌}
use mimuw_pw_tasks.CString.{CString}
use mimuw_pw_tasks.SafeHashMap.{SafeHashMap}

abbrev pub Ptr : Type 0
Ptr = ℕ

abbrev pub null : Ptr
null = 0

-- `struct Node` of Zaliczeniowe_2/Node.h, less its mutexes and condition variables. The map in
-- `children` belongs to its node, so the node's address stands for the map's.
pub record Node : Type 0 where
  pub parent : Ptr
  pub name : CString
  pub children : SafeHashMap Ptr
  pub readers_inside : ℕ
  pub writers_inside : ℕ
  pub readers_waiting : ℕ
  pub writers_waiting : ℕ
  pub subtree_threads : ℕ
  pub safe_hmap_get_count : ℕ
  pub change : Bool
  pub emergency_pass : Bool

-- `next` is the address that the next allocation returns.
pub record Heap : Type 0 where
  pub node : Ptr → Option Node
  pub next : Ptr

-- A command returns, or waits on a condition variable that nobody is there to signal, or uses a
-- pointer with no node behind it.
pub data Run (A : Type 0) : Type 0 where
  done : A → Heap → Run A
  waiting : Run A
  fault : Run A

abbrev pub Cmd : Type 0 → Type 0
Cmd A = Heap → Run A

abbrev pub pure : {A : Type 0} → A → Cmd A
pure a h = done a h

module _ {A B : Type 0} where
  abbrev pub and_then : Run A → (A → Cmd B) → Run B
  and_then (done a h) k = k a h
  and_then waiting k = waiting
  and_then fault k = fault

  infixl 5 ◌>>=◌ ◌>>◌
  abbrev pub ◌>>=◌ : Cmd A → (A → Cmd B) → Cmd B
  ◌>>=◌ m k h = and_then (m h) k

  abbrev pub ◌>>◌ : Cmd A → Cmd B → Cmd B
  m >> k = m >>= λ _. k

abbrev pub wait : {A : Type 0} → Cmd A
wait h = waiting

abbrev pub crash : {A : Type 0} → Cmd A
crash h = fault

abbrev pub write : (Ptr → Option Node) → Ptr → Option Node → Ptr → Option Node
write f p n q = if q == p then n else f q

unfoldable pub load : Ptr → Cmd Node
load p h = elim (h.node p) [ none ↦ fault | some n ↦ done n h ]

-- the write to a node that is there
unfoldable pub store : Ptr → Node → Cmd (Unit {0})
store p n h = done tt (record h { node = write h.node p (some n) })

-- a change of the node at an address
unfoldable pub modify : Ptr → (Node → Node) → Cmd (Unit {0})
unfolding load store
modify p f = do n ← load p; store p (f n)

-- `malloc`, which succeeds
unfoldable pub allocate : Node → Cmd Ptr
allocate n h = done h.next (record { node = write h.node h.next (some n); next = h.next + 1 })

unfoldable pub free : Ptr → Cmd (Unit {0})
unfolding load
free p = do _ ← load p; λ h. done tt (record h { node = write h.node p none })
