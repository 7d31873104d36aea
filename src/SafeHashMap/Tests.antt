-- ===== src/SafeHashMap/Tests.antt =====
-- A run of two threads on one SafeHashMap, and the theorems at its states.
use mimuw_pw_tasks.Prelude.{ℕ, ◌≡◌, refl, true, some, [], ◌∷◌, arith, get_elem?}
use mimuw_pw_tasks.CString.{CString}
use mimuw_pw_tasks.HashMap.{HashMap, hmap_new, hmap_insert, find_pair, get_hash}
use mimuw_pw_tasks.SafeHashMap.{
  SafeHashMap, safe_hmap_new, Request, safe_hmap_get, safe_hmap_insert, success, perform,
  map_reader_preliminary_protocol, map_writer_preliminary_protocol, map_writer_final_protocol,
  change_writers, change_readers,
}
use mimuw_pw_tasks.SafeHashMap.Threads.{
  Pc, idle, blocked, woken, inside, working, finished, System, none_blocked, one, arrive_waiting,
  arrive_entering, load, store, leave, Reach, begin, next,
}
use mimuw_pw_tasks.SafeHashMap.Census.{census}
use mimuw_pw_tasks.SafeHashMap.Invariant.{Exact}
use mimuw_pw_tasks.SafeHashMap.Safety.{mutual_exclusion, counters-Exact, no_deadlock, IsMoving}
use mimuw_pw_tasks.SafeHashMap.Sequential.{IsExplained, Reach-IsExplained}

abbrev key : CString
key = b'a' ∷ []

abbrev insertion : Request ℕ
insertion = safe_hmap_insert key 7

abbrev reading : Request ℕ
reading = safe_hmap_get key

abbrev map_after : HashMap ℕ
map_after = (hmap_insert hmap_new key (some 7)).0

-- the first thread is inside as a writer
abbrev one_writer : SafeHashMap ℕ
one_writer = record {
  map = hmap_new;
  readers_inside = 0;
  writers_inside = 1;
  readers_waiting = 0;
  writers_waiting = 0;
  change = change_writers;
}

abbrev entered : System ℕ
entered = record { shared = one_writer; pcs = inside insertion ∷ idle ∷ []; log = [] }

-- and the second waits as a reader
abbrev contended : System ℕ
contended = record {
  shared = record one_writer { readers_waiting = 1 };
  pcs = inside insertion ∷ blocked reading ∷ [];
  log = [];
}

abbrev loaded : System ℕ
loaded = record contended { pcs = working insertion hmap_new ∷ blocked reading ∷ [] }

abbrev stored : System ℕ
stored = record {
  shared = record one_writer { readers_waiting = 1; map = map_after };
  pcs = finished insertion (success true) ∷ blocked reading ∷ [];
  log = (insertion, success true) ∷ [];
}

abbrev handed_over : System ℕ
handed_over = record {
  shared = record {
    map = map_after;
    readers_inside = 0;
    writers_inside = 0;
    readers_waiting = 1;
    writers_waiting = 0;
    change = change_readers;
  };
  pcs = idle ∷ woken reading ∷ [];
  log = (insertion, success true) ∷ [];
}

entered-Reach : Reach 2 entered
unfolding safe_hmap_new map_writer_preliminary_protocol
entered-Reach = next begin (arrive_entering 0 insertion refl refl (none_blocked (λ i r h. refl)))

contended-Reach : Reach 2 contended
unfolding map_reader_preliminary_protocol
contended-Reach = next entered-Reach (arrive_waiting 1 reading refl refl)

stored-Reach : Reach 2 stored
unfolding perform hmap_insert hmap_new find_pair get_hash
stored-Reach =
    let r : Reach 2 loaded = next contended-Reach (load 0 insertion refl) in
    next r (store 0 insertion hmap_new refl refl)

-- The writer's end wakes the reader.
handed_over-Reach : Reach 2 handed_over
unfolding map_writer_final_protocol
handed_over-Reach =
    next stored-Reach (leave 0 insertion (success true) refl refl (one 1 reading refl refl))

mutual_exclusion_example : ◌≡◌ {A = ℕ} 0 0
mutual_exclusion_example =
    mutual_exclusion 0 0 (inside insertion) (inside insertion) insertion insertion (omega arith)
      contended-Reach refl refl refl refl refl

counters-Exact_example : Exact contended.shared (census contended.pcs)
counters-Exact_example = counters-Exact (omega arith) contended-Reach

no_deadlock_example : (j : ℕ) × (p : Pc ℕ) × (get_elem? contended.pcs j ≡ some p) × IsMoving p
no_deadlock_example = no_deadlock 1 reading (omega arith) contended-Reach refl

Reach-IsExplained_example : IsExplained handed_over
Reach-IsExplained_example = Reach-IsExplained (omega arith) handed_over-Reach
