-- ===== src/Gifts.antt =====
-- Lab_10/gifts.c: elves put gifts into a circular buffer, reindeers take them out. The processes share
-- the buffer, and three semaphores guard it. Each call of `sem_wait` or `sem_post` is a step, each
-- stretch under `mutex` is one, and a process that would wait takes no step. The semaphores are their
-- values. The naps and the printed lines change nothing.
pub mod Ring
mod Census
mod Invariant
pub mod Order
mod Stuck
pub mod Ends
mod Tests
use mimuw_pw_tasks.Prelude.{
  ℕ, zero, suc, ◌+◌, ◌*◌, ◌%◌, ◌<◌, ◌≤◌, ◌≡◌, ◌⊎◌, Bool, true, false, Option, none, some, List, [],
  ◌∷◌, ◌++◌, ltb, get_elem?, set, replicate,
}

-- the macros
pub record Macros : Type 0 where
  pub no_reindeers : ℕ
  pub no_elfs : ℕ
  pub no_gifts : ℕ
  pub buffsize : ℕ
  pub loops : ℕ

abbrev pub macros : Macros
macros = record { no_reindeers = 3; no_elfs = 4; no_gifts = 5; buffsize = 3; loops = 5 }

-- `NO_ELFS * LOOPS`
unfoldable pub all_gifts : Macros → ℕ
all_gifts m = m.no_elfs * m.loops

pub record Storage : Type 0 where
  pub buffer : List ℕ
  pub take : ℕ
  pub put : ℕ
  pub total_collected : ℕ
  pub gifts : ℕ
  pub free_space : ℕ
  pub mutex : ℕ

-- `init`, over the zeros of the mapped memory
unfoldable pub init : Macros → Storage
init m = record {
  buffer = replicate m.buffsize 0;
  take = 0;
  put = 0;
  total_collected = 0;
  gifts = 0;
  free_space = m.buffsize;
  mutex = 1;
}

unfoldable pub insert : Macros → Storage → ℕ → Storage
insert m s gift = record s { buffer = set s.buffer s.put gift; put = (s.put + 1) % m.buffsize }

-- `none` where it would read behind the buffer
unfoldable pub collect : Macros → Storage → Option (ℕ × Storage)
collect m s = elim (get_elem? s.buffer s.take) [
  | none ↦ none
  | some gift ↦
      some (
        gift,
        record s { take = (s.take + 1) % m.buffsize; total_collected = s.total_collected + 1 },
      )
]

-- `none` where the process waits
abbrev pub sem_wait : ℕ → Option ℕ
sem_wait zero = none
sem_wait (suc n) = some n

abbrev pub sem_post : ℕ → ℕ
sem_post n = suc n

-- `rand() % NO_GIFTS`, for the number that `rand` returns
abbrev pub produce : Macros → ℕ → ℕ
produce m r = r % m.no_gifts

-- the test after `collect`, `total_collected > NO_ELFS * LOOPS - NO_REINDEERS` between signed numbers
abbrev pub near_end : Macros → Storage → Bool
near_end m s = ltb (all_gifts m) (s.total_collected + m.no_reindeers)

-- Where an elf stands in `elf`: at the test of its loop, with the gift `g` of the round `i` before the
-- waits for `free_space` and `mutex`, under `mutex`, and before the posts of `mutex` and `gifts`.
pub data Elf : Type 0 where
  making inserted unlocked : (i : ℕ) → Elf
  made spaced locked : (i g : ℕ) → Elf
  done : Elf

-- Where a reindeer stands in `reindeer`, with its `id`, and with `g` and `end` behind `collect`.
pub data Reindeer : Type 0 where
  starting : (id : ℕ) → Reindeer
  waiting claiming entered ended returned : Reindeer
  collected posted delivering : (g : ℕ) (end : Bool) → Reindeer

-- The lists of all gifts inserted and collected are those of the printed lines.
pub record System : Type 0 where
  pub storage : Storage
  pub elves : List Elf
  pub reindeers : List Reindeer
  pub inserted_gifts : List ℕ
  pub collected_gifts : List ℕ

-- One step of one elf, with the gift that it inserts.
pub data ElfStep (m : Macros) (s : Storage) : Elf → Storage → List ℕ → Elf → Type 0 where
  make : {i : ℕ} (r : ℕ) → i < m.loops → ElfStep m s (making i) s [] (made i (produce m r))
  finish : {i : ℕ} → m.loops ≤ i → ElfStep m s (making i) s [] done
  wait_space :
      {i g n : ℕ}
      → sem_wait s.free_space ≡ some n
      → ElfStep m s (made i g) (record s { free_space = n }) [] (spaced i g)
  wait_mutex :
      {i g n : ℕ}
      → sem_wait s.mutex ≡ some n
      → ElfStep m s (spaced i g) (record s { mutex = n }) [] (locked i g)
  insert_gift : {i g : ℕ} → ElfStep m s (locked i g) (insert m s g) (g ∷ []) (inserted i)
  post_mutex :
      {i : ℕ} → ElfStep m s (inserted i) (record s { mutex = sem_post s.mutex }) [] (unlocked i)
  post_gifts :
      {i : ℕ} → ElfStep m s (unlocked i) (record s { gifts = sem_post s.gifts }) [] (making (suc i))

-- One step of one reindeer, with the gift that it collects.
pub data ReindeerStep (m : Macros) (s : Storage)
    : Reindeer → Storage → List ℕ → Reindeer → Type 0 where
  return_early : {id : ℕ} → all_gifts m ≤ id → ReindeerStep m s (starting id) s [] returned
  start : {id : ℕ} → id < all_gifts m → ReindeerStep m s (starting id) s [] waiting
  wait_gifts :
      {n : ℕ}
      → sem_wait s.gifts ≡ some n
      → ReindeerStep m s waiting (record s { gifts = n }) [] claiming
  wait_mutex :
      {n : ℕ}
      → sem_wait s.mutex ≡ some n
      → ReindeerStep m s claiming (record s { mutex = n }) [] entered
  collect_gift :
      {g : ℕ} {t : Storage}
      → collect m s ≡ some (g, t)
      → ReindeerStep m s entered t (g ∷ []) (collected g (near_end m t))
  post_mutex :
      {g : ℕ} {end : Bool}
      → ReindeerStep m s (collected g end) (record s { mutex = sem_post s.mutex }) [] (posted g end)
  post_space :
      {g : ℕ} {end : Bool}
      → ReindeerStep m s
          (posted g end)
          (record s { free_space = sem_post s.free_space })
          []
          (delivering g end)
  deliver_last : {g : ℕ} → ReindeerStep m s (delivering g true) s [] ended
  deliver : {g : ℕ} → ReindeerStep m s (delivering g false) s [] waiting

pub data Step (m : Macros) (s : System) : System → Type 0 where
  elf :
      {e f : Elf} {t : Storage} {gifts : List ℕ} (k : ℕ)
      → get_elem? s.elves k ≡ some e
      → ElfStep m s.storage e t gifts f
      → Step m s (record s {
        storage = t;
        elves = set s.elves k f;
        inserted_gifts = s.inserted_gifts ++ gifts;
      })
  reindeer :
      {r q : Reindeer} {t : Storage} {gifts : List ℕ} (k : ℕ)
      → get_elem? s.reindeers k ≡ some r
      → ReindeerStep m s.storage r t gifts q
      → Step m s (record s {
        storage = t;
        reindeers = set s.reindeers k q;
        collected_gifts = s.collected_gifts ++ gifts;
      })

unfoldable pub reindeers_from : ℕ → ℕ → List Reindeer
reindeers_from id zero = []
reindeers_from id (suc n) = starting id ∷ reindeers_from (suc id) n

-- behind the `fork`s of `main`
abbrev pub main : Macros → System
main m = record {
  storage = init m;
  elves = replicate m.no_elfs (making 0);
  reindeers = reindeers_from 0 m.no_reindeers;
  inserted_gifts = [];
  collected_gifts = [];
}

-- what `n` steps reach
pub data Reach (m : Macros) : ℕ → System → Type 0 where
  begin : Reach m 0 (main m)
  next : {n : ℕ} {s t : System} → Reach m n s → Step m s t → Reach m (suc n) t

-- All processes have returned.
pub record HasEnded (s : System) : Type 0 where
  pub elves_done : (k : ℕ) (e : Elf) → get_elem? s.elves k ≡ some e → e ≡ done
  pub reindeers_ended :
      (k : ℕ) (r : Reindeer) → get_elem? s.reindeers k ≡ some r → (r ≡ ended) ⊎ (r ≡ returned)
