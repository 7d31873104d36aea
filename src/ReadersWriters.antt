-- ===== src/ReadersWriters.antt =====
-- Lab_9/readers-writers-template.c: readers and writers of a library. A stretch under the mutex is one
-- function, which says where its thread then stands. Any waiting thread may wake up at any time, with a
-- signal or without one, so that which signal is sent makes no difference here; and a thread may start a
-- new round forever. Printing, sleeping and the contents of the book are not modelled.
mod Tests
use mimuw_pw_tasks.Prelude.{
  ℕ, zero, suc, ◌+◌, ◌≤◌, ◌≡◌, refl, Bool, true, false, ◌&&◌, ◌||◌, ◌==◌, if◌then◌else◌, arith,
  some, List, [], ◌∷◌, ◌++◌, get_elem?, set, replicate,
}
use mimuw_pw_tasks.Prelude.Counting.{total, total-set, le-total}
use mimuw_pw_tasks.Prelude.Ints.{int_add, increment, decrement, positive}

abbrev pub readers : ℕ
readers = 3

abbrev pub writers : ℕ
writers = 2

pub record Library : Type 0 where
  pub rcount : ℕ
  pub wcount : ℕ
  pub rwait : ℕ
  pub wwait : ℕ
  pub change : ℕ

-- `init`; `change` is 0 as part of a global variable
abbrev pub init : Library
init = record { rcount = 0; wcount = 0; rwait = 0; wwait = 0; change = 0 }

-- Where a thread stands: outside its critical sections, in `pthread_cond_wait`, or between its two
-- critical sections.
pub data Thread : Type 0 where
  reader_out reader_waiting reader_inside : Thread
  writer_out writer_waiting writer_inside : Thread

-- the test of the reader's `while`
abbrev pub reader_must_wait : Library → Bool
reader_must_wait l = positive (int_add l.wcount l.wwait) && l.change == 1

-- from that test to the wait or to the end of the critical section
abbrev pub reader_enters : Library → Library × Thread
reader_enters l =
    if reader_must_wait l
    then (record l { rwait = increment l.rwait }, reader_waiting)
    else (record l { rcount = increment l.rcount }, reader_inside)

abbrev pub reader_after_wait : Library → Library × Thread
reader_after_wait l = reader_enters (record l { rwait = decrement l.rwait })

abbrev pub reader_leaves : Library → Library
reader_leaves l = record l { rcount = decrement l.rcount; change = 1 }

-- the test of the writer's `while`
abbrev pub writer_must_wait : Library → Bool
writer_must_wait l = positive (int_add l.wcount l.rcount) || (positive l.rwait && l.change == 0)

abbrev pub writer_enters : Library → Library × Thread
writer_enters l =
    if writer_must_wait l
    then (record l { wwait = increment l.wwait }, writer_waiting)
    else (record l { wcount = increment l.wcount }, writer_inside)

abbrev pub writer_after_wait : Library → Library × Thread
writer_after_wait l = writer_enters (record l { wwait = decrement l.wwait })

abbrev pub writer_leaves : Library → Library
writer_leaves l = record l { wcount = decrement l.wcount; change = 0 }

pub record State : Type 0 where
  pub library : Library
  pub threads : List Thread

-- `main`: the readers, then the writers
abbrev pub start : State
start = record {
  library = init;
  threads = replicate readers reader_out ++ replicate writers writer_out;
}

-- one stretch of one thread
pub data Stretch (l : Library) : Thread → Library → Thread → Type 0 where
  reader_comes : {m : Library} {p : Thread} → reader_enters l ≡ (m, p) → Stretch l reader_out m p
  reader_wakes :
      {m : Library} {p : Thread} → reader_after_wait l ≡ (m, p) → Stretch l reader_waiting m p
  reader_goes : Stretch l reader_inside (reader_leaves l) reader_out
  writer_comes : {m : Library} {p : Thread} → writer_enters l ≡ (m, p) → Stretch l writer_out m p
  writer_wakes :
      {m : Library} {p : Thread} → writer_after_wait l ≡ (m, p) → Stretch l writer_waiting m p
  writer_goes : Stretch l writer_inside (writer_leaves l) writer_out

pub data Round (s : State) : State → Type 0 where
  thread :
      {m : Library} {p q : Thread} (i : ℕ)
      → get_elem? s.threads i ≡ some p
      → Stretch s.library p m q
      → Round s (record { library = m; threads = set s.threads i q })

pub data Reached : State → Type 0 where
  begin : Reached start
  next : {s t : State} → Reached s → Round s t → Reached t

-- how many threads stand where
pub record Census : Type 0 where
  pub reading : ℕ
  pub writing : ℕ
  pub readers_wait : ℕ
  pub writers_wait : ℕ
  pub any : ℕ

-- one thread's share
abbrev pub share : Thread → Census
share reader_out = record { reading = 0; writing = 0; readers_wait = 0; writers_wait = 0; any = 1 }
share reader_waiting = record {
  reading = 0;
  writing = 0;
  readers_wait = 1;
  writers_wait = 0;
  any = 1;
}
share reader_inside = record {
  reading = 1;
  writing = 0;
  readers_wait = 0;
  writers_wait = 0;
  any = 1;
}
share writer_out = record { reading = 0; writing = 0; readers_wait = 0; writers_wait = 0; any = 1 }
share writer_waiting = record {
  reading = 0;
  writing = 0;
  readers_wait = 0;
  writers_wait = 1;
  any = 1;
}
share writer_inside = record {
  reading = 0;
  writing = 1;
  readers_wait = 0;
  writers_wait = 0;
  any = 1;
}

unfoldable pub census : List Thread → Census
census ts = record {
  reading = total (λ t. (share t).reading) ts;
  writing = total (λ t. (share t).writing) ts;
  readers_wait = total (λ t. (share t).readers_wait) ts;
  writers_wait = total (λ t. (share t).writers_wait) ts;
  any = total (λ t. (share t).any) ts;
}

-- Two censuses that differ by one thread, which had the share `p` and has `q`.
record Moved (c p q c' : Census) : Type 0 where
  reading : (p.reading ≤ c.reading) × (c'.reading + p.reading ≡ c.reading + q.reading)
  writing : (p.writing ≤ c.writing) × (c'.writing + p.writing ≡ c.writing + q.writing)
  readers_wait :
      (p.readers_wait ≤ c.readers_wait)
      × (c'.readers_wait + p.readers_wait ≡ c.readers_wait + q.readers_wait)
  writers_wait :
      (p.writers_wait ≤ c.writers_wait)
      × (c'.writers_wait + p.writers_wait ≡ c.writers_wait + q.writers_wait)
  any : c'.any + p.any ≡ c.any + q.any

set-Moved :
    (ts : List Thread) (i : ℕ) (p q : Thread)
    → get_elem? ts i ≡ some p
    → Moved (census ts) (share p) (share q) (census (set ts i q))
unfolding census
set-Moved ts i p q h =
    let at = λ (w : Thread → ℕ). le-total w ts i p h in
    let moved = λ (w : Thread → ℕ). total-set w ts i p q h in
    record {
      reading = (at (λ t. (share t).reading), moved (λ t. (share t).reading));
      writing = (at (λ t. (share t).writing), moved (λ t. (share t).writing));
      readers_wait = (at (λ t. (share t).readers_wait), moved (λ t. (share t).readers_wait));
      writers_wait = (at (λ t. (share t).writers_wait), moved (λ t. (share t).writers_wait));
      any = moved (λ t. (share t).any);
    }

-- no thread counts twice
record IsSmall (c : Census) : Type 0 where
  places : c.reading + c.writing + c.readers_wait + c.writers_wait ≤ c.any

census-IsSmall : (ts : List Thread) → IsSmall (census ts)
unfolding census total
census-IsSmall [] = omega arith
census-IsSmall (reader_out ∷ ts) = omega (arith, census-IsSmall ts)
census-IsSmall (reader_waiting ∷ ts) = omega (arith, census-IsSmall ts)
census-IsSmall (reader_inside ∷ ts) = omega (arith, census-IsSmall ts)
census-IsSmall (writer_out ∷ ts) = omega (arith, census-IsSmall ts)
census-IsSmall (writer_waiting ∷ ts) = omega (arith, census-IsSmall ts)
census-IsSmall (writer_inside ∷ ts) = omega (arith, census-IsSmall ts)

-- the counters and the threads
pub record IsCounted (l : Library) (c : Census) : Type 0 where
  pub readers_in : l.rcount ≡ c.reading
  pub writers_in : l.wcount ≡ c.writing
  pub readers_waiting : l.rwait ≡ c.readers_wait
  pub writers_waiting : l.wwait ≡ c.writers_wait
  pub all_threads : c.any ≡ readers + writers
  pub one_writer : c.writing ≤ 1

Stretch-IsCounted :
    {l m : Library} {p q : Thread} {c c' : Census}
    → Stretch l p m q
    → IsSmall c
    → IsCounted l c
    → Moved c (share p) (share q) c'
    → IsCounted m c'
Stretch-IsCounted (reader_comes e) few g v = ground arith
Stretch-IsCounted (reader_wakes e) few g v = ground arith
Stretch-IsCounted reader_goes few g v = ground arith
Stretch-IsCounted (writer_comes e) few g v = ground arith
Stretch-IsCounted (writer_wakes e) few g v = ground arith
Stretch-IsCounted writer_goes few g v = ground arith

-- In every state that the three readers and two writers reach, each counter is the number of the threads
-- that stand at its place, as readers or as writers, inside or waiting, and at most one writer is inside.
pub Reached-IsCounted : {s : State} → Reached s → IsCounted s.library (census s.threads)
unfolding census total
Reached-IsCounted begin = omega arith
Reached-IsCounted (next {s} r (thread {p} {q} i at stretch)) =
    Stretch-IsCounted stretch (census-IsSmall s.threads) (Reached-IsCounted r)
      (set-Moved s.threads i p q at)

abbrev beside : ℕ → List Thread → State
beside k ts = record {
  library = record { rcount = k; wcount = 1; rwait = 0; wwait = 0; change = 0 };
  threads = ts;
}

abbrev writer_first : State
writer_first = beside 0 (reader_out ∷ reader_out ∷ reader_out ∷ writer_inside ∷ writer_out ∷ [])

abbrev one_beside : State
one_beside = beside 1 (reader_inside ∷ reader_out ∷ reader_out ∷ writer_inside ∷ writer_out ∷ [])

abbrev two_beside : State
two_beside = beside 2 (reader_inside ∷ reader_inside ∷ reader_out ∷ writer_inside ∷ writer_out ∷ [])

writer_first-Reached : Reached writer_first
writer_first-Reached = next begin (thread 3 refl (writer_comes refl))

one_beside-Reached : Reached one_beside
one_beside-Reached = next writer_first-Reached (thread 0 refl (reader_comes refl))

two_beside-Reached : Reached two_beside
two_beside-Reached = next one_beside-Reached (thread 1 refl (reader_comes refl))

too_many : (k : ℕ) → ¬ (suc (suc (suc (suc k))) ≤ readers)
too_many k few = omega arith

-- A writer does not keep readers out: any number of the three readers can be inside together with a
-- writer.
pub writer_not_alone :
    (k : ℕ)
    → k ≤ readers
    → (s : State) × Reached s
      × (s.library.wcount ≡ 1)
      × (s.library.rcount ≡ k)
      × ((census s.threads).writing ≡ 1)
      × ((census s.threads).reading ≡ k)
unfolding census total
writer_not_alone zero few = (_, writer_first-Reached, refl, refl, refl, refl)
writer_not_alone (suc zero) few = (_, one_beside-Reached, refl, refl, refl, refl)
writer_not_alone (suc (suc zero)) few = (_, two_beside-Reached, refl, refl, refl, refl)
writer_not_alone (suc (suc (suc zero))) few =
    (_, next two_beside-Reached (thread 2 refl (reader_comes refl)), refl, refl, refl, refl)
writer_not_alone (suc (suc (suc (suc k)))) few = elim (too_many k few) [ ]
