-- ===== src/SafeHashMap.antt =====
-- Zaliczeniowe_2/SafeHashMap.c and the state in SafeHashMap.h: a map behind a readers-writers
-- protocol. The mutex `lock` is held from the start of each protocol function to its end or to a
-- `pthread_cond_wait`, and nothing else reads or writes the counters; so each such stretch is one
-- function here, and the threads interleave between them (SafeHashMap/Threads.antt).
pub mod Threads
pub mod Census
pub mod Invariant
pub mod Safety
pub mod Sequential
mod Tests
use mimuw_pw_tasks.Prelude.{
  ℕ, ◌+◌, Bool, true, false, ◌&&◌, ◌||◌, not, Option, none, some, ◌==◌, if◌then◌else◌,
}
use mimuw_pw_tasks.Prelude.Ints.{int_add, increment, decrement, positive}
use mimuw_pw_tasks.CString.{CString}
use mimuw_pw_tasks.HashMap.{HashMap, hmap_new, hmap_get, hmap_insert, hmap_remove, hmap_size}
use mimuw_pw_tasks.Paths.{make_map_contents_string}

abbrev pub change_readers : Bool
change_readers = false

abbrev pub change_writers : Bool
change_writers = true

module _ {ℓ} (V : Type ℓ) where
  pub record SafeHashMap : Type ℓ where
    pub map : HashMap V
    pub readers_inside : ℕ
    pub writers_inside : ℕ
    pub readers_waiting : ℕ
    pub writers_waiting : ℕ
    pub change : Bool

-- The condition variable that a stretch of a protocol signals.
pub data Signal : Type 0 where
  nobody : Signal
  readers : Signal
  writers : Signal

-- How a stretch of a preliminary protocol ends: in `pthread_cond_wait`, or by a return.
pub data Entry : Type 0 where
  waits : Entry
  enters : Signal → Entry

module _ {ℓ} {V : Type ℓ} where
  unfoldable pub safe_hmap_new : SafeHashMap V
  safe_hmap_new = record {
    map = hmap_new;
    readers_inside = 0;
    writers_inside = 0;
    readers_waiting = 0;
    writers_waiting = 0;
    change = change_writers;
  }

  -- the test of the reader's `while`
  abbrev pub reader_must_wait : SafeHashMap V → Bool
  reader_must_wait m = positive m.writers_inside || (positive m.writers_waiting && m.change)

  -- From the test of the `while` to the wait or to the return.
  unfoldable pub map_reader_preliminary_protocol : SafeHashMap V → SafeHashMap V × Entry
  map_reader_preliminary_protocol m =
      if reader_must_wait m
      then (record m { readers_waiting = increment m.readers_waiting }, Entry.waits)
      else (
        record m { readers_inside = increment m.readers_inside },
        Entry.enters (if m.writers_waiting == 0 then Signal.readers else Signal.nobody),
      )

  -- `readers_waiting--` behind the wait, and the `while` again
  unfoldable pub map_reader_after_wait : SafeHashMap V → SafeHashMap V × Entry
  unfolding map_reader_preliminary_protocol
  map_reader_after_wait m =
      map_reader_preliminary_protocol (record m { readers_waiting = decrement m.readers_waiting })

  unfoldable pub map_reader_final_protocol : SafeHashMap V → SafeHashMap V × Signal
  map_reader_final_protocol m = (
    record m { readers_inside = decrement m.readers_inside; change = change_writers },
    if decrement m.readers_inside == 0 then Signal.writers else Signal.nobody,
  )

  -- the test of the writer's `while`
  abbrev pub writer_must_wait : SafeHashMap V → Bool
  writer_must_wait m =
      positive (int_add m.writers_inside m.readers_inside)
      || (positive m.readers_waiting && not m.change)

  unfoldable pub map_writer_preliminary_protocol : SafeHashMap V → SafeHashMap V × Entry
  map_writer_preliminary_protocol m =
      if writer_must_wait m
      then (record m { writers_waiting = increment m.writers_waiting }, Entry.waits)
      else (record m { writers_inside = increment m.writers_inside }, Entry.enters Signal.nobody)

  -- `writers_waiting--` behind the wait, and the `while` again
  unfoldable pub map_writer_after_wait : SafeHashMap V → SafeHashMap V × Entry
  unfolding map_writer_preliminary_protocol
  map_writer_after_wait m =
      map_writer_preliminary_protocol (record m { writers_waiting = decrement m.writers_waiting })

  unfoldable pub map_writer_final_protocol : SafeHashMap V → SafeHashMap V × Signal
  map_writer_final_protocol m = (
    record m { writers_inside = decrement m.writers_inside; change = change_readers },
    if m.readers_waiting == 0 then Signal.writers else Signal.readers,
  )

-- A call of one of the five functions that take the protocols.
module _ {ℓ} (V : Type ℓ) where
  pub data Request : Type ℓ where
    safe_hmap_get : CString → Request
    safe_hmap_insert : CString → V → Request
    safe_hmap_remove : CString → Request
    safe_hmap_size : Request
    safe_make_map_contents_string : Request

  pub data Answer : Type ℓ where
    value : Option V → Answer
    success : Bool → Answer
    number : ℕ → Answer
    text : Option CString → Answer

module _ {ℓ} {V : Type ℓ} where
  -- which protocol the function takes
  abbrev pub is_writer : Request V → Bool
  is_writer (safe_hmap_get _) = false
  is_writer (safe_hmap_insert _ _) = true
  is_writer (safe_hmap_remove _) = true
  is_writer safe_hmap_size = false
  is_writer safe_make_map_contents_string = false

  -- the call between the two protocols; the iteration has a round for each entry and one more
  unfoldable pub perform : HashMap V → Request V → HashMap V × Answer V
  perform m (safe_hmap_get key) = (m, value (hmap_get m key))
  perform m (safe_hmap_insert key v) = let (m', b) = hmap_insert m key (some v) in (m', success b)
  perform m (safe_hmap_remove key) = let (m', b) = hmap_remove m key in (m', success b)
  perform m safe_hmap_size = (m, number (hmap_size m))
  perform m safe_make_map_contents_string = (m, text (make_map_contents_string (hmap_size m + 1) m))

  abbrev pub preliminary_protocol : Request V → SafeHashMap V → SafeHashMap V × Entry
  preliminary_protocol r m =
      if is_writer r then map_writer_preliminary_protocol m else map_reader_preliminary_protocol m

  abbrev pub after_wait : Request V → SafeHashMap V → SafeHashMap V × Entry
  after_wait r m = if is_writer r then map_writer_after_wait m else map_reader_after_wait m

  abbrev pub final_protocol : Request V → SafeHashMap V → SafeHashMap V × Signal
  final_protocol r m =
      if is_writer r then map_writer_final_protocol m else map_reader_final_protocol m
