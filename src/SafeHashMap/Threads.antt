-- ===== src/SafeHashMap/Threads.antt =====
-- Threads that call the functions of one SafeHashMap, interleaved in any order.
use mimuw_pw_tasks.Prelude.{
  ℕ, ◌≡◌, Bool, true, false, some, List, [], ◌∷◌, not, if◌then◌else◌, get_elem?, set, replicate,
}
use mimuw_pw_tasks.HashMap.{HashMap}
use mimuw_pw_tasks.SafeHashMap.{
  SafeHashMap, Signal, nobody, readers, writers, waits, enters, safe_hmap_new, Request, Answer,
  is_writer, perform, preliminary_protocol, after_wait, final_protocol,
}

module _ {ℓ} (V : Type ℓ) where
  -- Where a thread stands: in no call, blocked in `pthread_cond_wait`, woken and about to take the
  -- mutex again, or between its two protocols: before the call on the map, in it with the map that it
  -- has read, and behind it.
  pub data Pc : Type ℓ where
    idle : Pc
    blocked : Request V → Pc
    woken : Request V → Pc
    inside : Request V → Pc
    working : Request V → HashMap V → Pc
    finished : Request V → Answer V → Pc

  pub record System : Type ℓ where
    pub shared : SafeHashMap V
    pub pcs : List Pc
    -- the calls on the map so far, the last one first
    pub log : List (Request V × Answer V)

module _ {ℓ} {V : Type ℓ} where
  -- does a thread with this request wait on the condition variable
  abbrev pub waits_on : Signal → Request V → Bool
  waits_on nobody r = false
  waits_on readers r = not (is_writer r)
  waits_on writers r = is_writer r

  -- `pthread_cond_signal`: one of the threads blocked on the variable is woken, if there is one.
  pub data Wakes (sig : Signal) (ps : List (Pc V)) : List (Pc V) → Type ℓ where
    one :
        (i : ℕ) (r : Request V)
        → get_elem? ps i ≡ some (blocked r)
        → waits_on sig r ≡ true
        → Wakes sig ps (set ps i (woken r))
    none_blocked :
        ((i : ℕ) (r : Request V) → get_elem? ps i ≡ some (blocked r) → waits_on sig r ≡ false)
        → Wakes sig ps ps

  -- One step of thread `i`. A call on the map is two steps, so that other threads may come between
  -- what it reads and what it writes; a reader writes nothing. A thread may wake with no signal, as POSIX allows.
  pub data Step (s : System V) : System V → Type ℓ where
    arrive_waiting :
        (i : ℕ) (r : Request V) {m : SafeHashMap V}
        → get_elem? s.pcs i ≡ some idle
        → preliminary_protocol r s.shared ≡ (m, waits)
        → Step s (record s { shared = m; pcs = set s.pcs i (blocked r) })
    arrive_entering :
        (i : ℕ) (r : Request V) {m : SafeHashMap V} {sig : Signal} {ps : List (Pc V)}
        → get_elem? s.pcs i ≡ some idle
        → preliminary_protocol r s.shared ≡ (m, enters sig)
        → Wakes sig (set s.pcs i (inside r)) ps
        → Step s (record s { shared = m; pcs = ps })
    wake :
        (i : ℕ) (r : Request V)
        → get_elem? s.pcs i ≡ some (blocked r)
        → Step s (record s { pcs = set s.pcs i (woken r) })
    wait_again :
        (i : ℕ) (r : Request V) {m : SafeHashMap V}
        → get_elem? s.pcs i ≡ some (woken r)
        → after_wait r s.shared ≡ (m, waits)
        → Step s (record s { shared = m; pcs = set s.pcs i (blocked r) })
    enter_late :
        (i : ℕ) (r : Request V) {m : SafeHashMap V} {sig : Signal} {ps : List (Pc V)}
        → get_elem? s.pcs i ≡ some (woken r)
        → after_wait r s.shared ≡ (m, enters sig)
        → Wakes sig (set s.pcs i (inside r)) ps
        → Step s (record s { shared = m; pcs = ps })
    -- the call on the map: it reads the map, and later writes what it has made of it
    load :
        (i : ℕ) (r : Request V)
        → get_elem? s.pcs i ≡ some (inside r)
        → Step s (record s { pcs = set s.pcs i (working r s.shared.map) })
    store :
        (i : ℕ) (r : Request V) (seen : HashMap V) {m : HashMap V} {a : Answer V}
        → get_elem? s.pcs i ≡ some (working r seen)
        → perform seen r ≡ (m, a)
        → Step s (record s {
          shared = record (s.shared) { map = if is_writer r then m else s.shared.map };
          pcs = set s.pcs i (finished r a);
          log = (r, a) ∷ s.log;
        })
    leave :
        (i : ℕ) (r : Request V) (a : Answer V) {m : SafeHashMap V} {sig : Signal} {ps : List (Pc V)}
        → get_elem? s.pcs i ≡ some (finished r a)
        → final_protocol r s.shared ≡ (m, sig)
        → Wakes sig (set s.pcs i idle) ps
        → Step s (record s { shared = m; pcs = ps })

  -- a new map and `n` threads in no call
  abbrev pub start : ℕ → System V
  start n = record { shared = safe_hmap_new; pcs = replicate n idle; log = [] }

  pub data Reach (n : ℕ) : System V → Type ℓ where
    begin : Reach n (start n)
    next : {s t : System V} → Reach n s → Step s t → Reach n t
