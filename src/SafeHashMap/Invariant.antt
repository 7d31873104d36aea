-- ===== src/SafeHashMap/Invariant.antt =====
-- The counters of a SafeHashMap against the threads, and who is to be woken.
use mimuw_pw_tasks.Prelude.{◌+◌, ◌≤◌, ◌<◌, ◌≡◌, true, false, arith, ◌⊎◌}
use mimuw_pw_tasks.SafeHashMap.{
  SafeHashMap, Signal, readers, waits, enters, Request, Answer, preliminary_protocol, after_wait,
  final_protocol, map_reader_preliminary_protocol, map_reader_after_wait, map_reader_final_protocol,
  map_writer_preliminary_protocol, map_writer_after_wait, map_writer_final_protocol,
}
use mimuw_pw_tasks.HashMap.{HashMap}
use mimuw_pw_tasks.SafeHashMap.Threads.{idle, blocked, woken, inside, working, finished}
use mimuw_pw_tasks.SafeHashMap.Census.{Census, IsSmall, share, Moved, Signalled}

module _ {ℓ} {V : Type ℓ} where
  pub record Exact (m : SafeHashMap V) (c : Census) : Type 0 where
    -- the counters are the numbers of threads
    pub readers_in : m.readers_inside ≡ c.reading
    pub writers_in : m.writers_inside ≡ c.writing
    pub readers_wait : m.readers_waiting ≡ c.readers_blocked + c.readers_woken
    pub writers_wait : m.writers_waiting ≡ c.writers_blocked + c.writers_woken
    -- one writer, or readers
    pub single : c.writing ≤ 1
    pub apart : 0 < c.writing → c.reading ≡ 0

  pub record Inv (m : SafeHashMap V) (c : Census) : Type 0 where
    pub exact : Exact m c
    -- while readers are inside, a blocked reader has a woken one or a waiting writer before it
    pub chain : 0 < c.reading → 0 < c.readers_blocked → 0 < c.readers_woken + m.writers_waiting
    -- while nobody is inside, who has the turn has a woken thread
    pub writers_turn :
        c.reading + c.writing ≡ 0 → 0 < c.writers_blocked → m.change ≡ true → 0 < c.writers_woken
    pub readers_turn :
        c.reading + c.writing ≡ 0 → 0 < c.readers_blocked → m.change ≡ false → 0 < c.readers_woken
    -- somebody will go on
    pub active :
        0 < c.readers_blocked + c.writers_blocked
        → 0 < c.reading + c.writing + c.readers_woken + c.writers_woken

  -- what holds when a thread has gone inside, before its signal
  record Entered (m : SafeHashMap V) (sig : Signal) (c : Census) : Type 0 where
    exact : Exact m c
    somebody : 0 < c.reading + c.writing
    passed_on : 0 < c.reading → 0 < m.writers_waiting ⊎ (sig ≡ readers)

  Entered-Inv :
      {m : SafeHashMap V} {sig : Signal} {c c' : Census}
      → Entered m sig c
      → Signalled sig c c'
      → Inv m c'
  Entered-Inv e g = ground arith

  pub wake-Inv :
      (r : Request V) {m : SafeHashMap V} {c c' : Census}
      → Inv m c
      → Moved c (share (blocked r)) (share (woken r)) c'
      → Inv m c'
  wake-Inv r inv v = ground arith

  pub load-Inv :
      (r : Request V) (seen : HashMap V) {m : SafeHashMap V} {c c' : Census}
      → Inv m c
      → Moved c (share (inside r)) (share (working r seen)) c'
      → Inv m c'
  load-Inv r seen inv v = ground arith

  pub store-Inv :
      (r : Request V) (seen : HashMap V) (a : Answer V) {m : SafeHashMap V} {map : HashMap V}
      {c c' : Census}
      → Inv m c
      → Moved c (share (working r seen)) (share (finished r a)) c'
      → Inv (record m { map = map }) c'
  store-Inv r seen a inv v = ground arith

  module _ (r : Request V) {m m' : SafeHashMap V} {sig : Signal} {c c' : Census} (exact : Exact m c)
      (small : IsSmall c) where
    arrive_entering-Entered :
        preliminary_protocol r m ≡ (m', enters sig)
        → Moved c (share {V = V} idle) (share (inside r)) c'
        → Entered m' sig c'
    unfolding map_reader_preliminary_protocol map_writer_preliminary_protocol
    arrive_entering-Entered e v = ground arith

    enter_late-Entered :
        after_wait r m ≡ (m', enters sig)
        → Moved c (share (woken r)) (share (inside r)) c'
        → Entered m' sig c'
    unfolding map_reader_after_wait map_writer_after_wait
    enter_late-Entered e v = ground arith

  module _ (r : Request V) {m m' : SafeHashMap V} {c c' : Census} (inv : Inv m c)
      (small : IsSmall c) where
    pub arrive_waiting-Inv :
        preliminary_protocol r m ≡ (m', waits)
        → Moved c (share {V = V} idle) (share (blocked r)) c'
        → Inv m' c'
    unfolding map_reader_preliminary_protocol map_writer_preliminary_protocol
    arrive_waiting-Inv e v = ground arith

    pub arrive_entering-Inv :
        {sig : Signal} {c'' : Census}
        → preliminary_protocol r m ≡ (m', enters sig)
        → Moved c (share {V = V} idle) (share (inside r)) c'
        → Signalled sig c' c''
        → Inv m' c''
    arrive_entering-Inv e v g = Entered-Inv (arrive_entering-Entered r inv.exact small e v) g

    pub wait_again-Inv :
        after_wait r m ≡ (m', waits) → Moved c (share (woken r)) (share (blocked r)) c' → Inv m' c'
    unfolding map_reader_after_wait map_writer_after_wait
    wait_again-Inv e v = ground arith

    pub enter_late-Inv :
        {sig : Signal} {c'' : Census}
        → after_wait r m ≡ (m', enters sig)
        → Moved c (share (woken r)) (share (inside r)) c'
        → Signalled sig c' c''
        → Inv m' c''
    enter_late-Inv e v g = Entered-Inv (enter_late-Entered r inv.exact small e v) g

    pub leave-Inv :
        (a : Answer V) {sig : Signal} {c'' : Census}
        → final_protocol r m ≡ (m', sig)
        → Moved c (share (finished r a)) (share {V = V} idle) c'
        → Signalled sig c' c''
        → Inv m' c''
    unfolding map_reader_final_protocol map_writer_final_protocol
    leave-Inv a e v g = ground arith
