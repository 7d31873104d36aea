-- ===== src/Gifts/Invariant.antt =====
-- What holds of the semaphores of Lab_10/gifts.c and of the processes, after any steps.
use mimuw_pw_tasks.Prelude.{
  ℕ, zero, suc, ◌+◌, ◌-◌, ◌*◌, ◌≤◌, ◌≡◌, some, List, ◌++◌, arith, length, length-append,
}
use mathlib.Core.List.{append-nil}
use mimuw_pw_tasks.Gifts.{
  Macros, all_gifts, Storage, init, insert, sem_wait, Elf, Reindeer, System, main, ElfStep, make,
  finish, wait_space, insert_gift, post_gifts, ReindeerStep, return_early, start, wait_gifts,
  collect_gift, post_space, deliver_last, deliver, Step, elf, reindeer, Reach, begin, next,
}
use mimuw_pw_tasks.Gifts.Ring.{
  IsQueue, init-IsQueue, insert-IsQueue, collect-IsQueue, posted-IsQueue, taken, collect-taken,
}
use mimuw_pw_tasks.Gifts.Census.{
  Elves, elf_share, elves_of, ElfMoved, set-ElfMoved, Reindeers, reindeer_share, reindeers_of,
  ReindeerMoved, set-ReindeerMoved, making-ElvesStart, starting-ReindeersStart,
}

-- the most steps that a run takes
abbrev pub most_steps : Macros → ℕ
most_steps m = 12 * all_gifts m + m.no_elfs + 4 * m.no_reindeers

-- `n` steps on, with so many gifts inserted and collected
pub record Counts (m : Macros) (n : ℕ) (s : Storage) (ins col : ℕ) (e : Elves) (r : Reindeers)
    : Type 0 where
  pub space : s.free_space + e.spacing + r.freeing + ins ≡ m.buffsize + col
  pub gifts : s.gifts + e.posting + r.claims + col ≡ ins
  pub mutex : s.mutex + e.locking + r.locking ≡ 1
  pub to_insert : ins + e.left ≡ all_gifts m
  pub closed : r.closed ≡ col - (all_gifts m - m.no_reindeers)
  pub needed : r.active + r.closed + (all_gifts m - m.no_reindeers) ≡ all_gifts m
  pub steps : n + e.steps + r.steps + 6 * (all_gifts m - col) ≤ most_steps m

sem_wait_lem : (k n : ℕ) → sem_wait k ≡ some n → k ≡ suc n
sem_wait_lem zero n h = cc
sem_wait_lem (suc k) n h = cc

ElfStep-Counts :
    {m : Macros} {n : ℕ} {s t : Storage} {ins col : ℕ} {e f : Elf} {gifts : List ℕ} {c c' : Elves}
    {r : Reindeers}
    → Counts m n s ins col c r
    → ElfStep m s e t gifts f
    → ElfMoved c (elf_share m.loops e) (elf_share m.loops f) c'
    → Counts m (suc n) t (ins + length gifts) col c' r
unfolding insert
ElfStep-Counts k (make x p) h = omega arith
ElfStep-Counts k (finish p) h = omega arith
ElfStep-Counts {s} k (wait_space {n = v} p) h = omega (arith, sem_wait_lem s.free_space v p)
ElfStep-Counts {s} k (ElfStep.wait_mutex {n = v} p) h = omega (arith, sem_wait_lem s.mutex v p)
ElfStep-Counts k insert_gift h = omega arith
ElfStep-Counts k ElfStep.post_mutex h = omega arith
ElfStep-Counts k post_gifts h = omega arith

ReindeerStep-Counts :
    {m : Macros} {n : ℕ} {s t : Storage} {ins col : ℕ} {r q : Reindeer} {gifts : List ℕ} {e : Elves}
    {c c' : Reindeers}
    → s.total_collected ≡ col
    → Counts m n s ins col e c
    → ReindeerStep m s r t gifts q
    → ReindeerMoved c (reindeer_share (all_gifts m) r) (reindeer_share (all_gifts m) q) c'
    → Counts m (suc n) t ins (col + length gifts) e c'
ReindeerStep-Counts same k (return_early p) h = ground arith
ReindeerStep-Counts same k (start p) h = ground arith
ReindeerStep-Counts {s} same k (wait_gifts {n = v} p) h = omega (arith, sem_wait_lem s.gifts v p)
ReindeerStep-Counts {s} same k (ReindeerStep.wait_mutex {n = v} p) h =
    omega (arith, sem_wait_lem s.mutex v p)
ReindeerStep-Counts {m} {s} same k (collect_gift {g} {t} p) h =
    ground (arith, collect-taken m s t g p)
ReindeerStep-Counts same k (ReindeerStep.post_mutex {end}) h = ground arith
ReindeerStep-Counts same k (post_space {end}) h = ground arith
ReindeerStep-Counts same k deliver_last h = omega arith
ReindeerStep-Counts same k deliver h = omega arith

ElfStep-IsQueue :
    {m : Macros} {n : ℕ} {s t : Storage} {ins col : List ℕ} {e f : Elf} {gifts : List ℕ}
    {c c' : Elves} {r : Reindeers}
    → IsQueue m s ins col
    → Counts m n s (length ins) (length col) c r
    → ElfStep m s e t gifts f
    → ElfMoved c (elf_share m.loops e) (elf_share m.loops f) c'
    → IsQueue m t (ins ++ gifts) col
ElfStep-IsQueue {ins} q k (make x p) h = rw (append-nil ins) q
ElfStep-IsQueue {ins} q k (finish p) h = rw (append-nil ins) q
ElfStep-IsQueue {s} {ins} q k (wait_space {n = v} p) h =
    rw (append-nil ins) (posted-IsQueue q s.gifts v s.mutex)
ElfStep-IsQueue {s} {ins} q k (ElfStep.wait_mutex {n = v} p) h =
    rw (append-nil ins) (posted-IsQueue q s.gifts s.free_space v)
ElfStep-IsQueue q k (insert_gift {g}) h = insert-IsQueue q g (omega arith)
ElfStep-IsQueue {s} {ins} q k ElfStep.post_mutex h =
    rw (append-nil ins) (posted-IsQueue q s.gifts s.free_space (suc (s.mutex)))
ElfStep-IsQueue {s} {ins} q k post_gifts h =
    rw (append-nil ins) (posted-IsQueue q (suc (s.gifts)) s.free_space s.mutex)

ReindeerStep-IsQueue :
    {m : Macros} {n : ℕ} {s t : Storage} {ins col : List ℕ} {r f : Reindeer} {gifts : List ℕ}
    {e : Elves} {c c' : Reindeers}
    → IsQueue m s ins col
    → Counts m n s (length ins) (length col) e c
    → ReindeerStep m s r t gifts f
    → ReindeerMoved c (reindeer_share (all_gifts m) r) (reindeer_share (all_gifts m) f) c'
    → IsQueue m t ins (col ++ gifts)
ReindeerStep-IsQueue {col} q k (return_early p) h = rw (append-nil col) q
ReindeerStep-IsQueue {col} q k (start p) h = rw (append-nil col) q
ReindeerStep-IsQueue {s} {col} q k (wait_gifts {n = v} p) h =
    rw (append-nil col) (posted-IsQueue q v s.free_space s.mutex)
ReindeerStep-IsQueue {s} {col} q k (ReindeerStep.wait_mutex {n = v} p) h =
    rw (append-nil col) (posted-IsQueue q s.gifts s.free_space v)
ReindeerStep-IsQueue {m} {s} {col} q k (collect_gift {g} {t} p) h =
    let (x, found, after) = collect-IsQueue q (omega arith) in
    let a : t ≡ taken m s = cc in let b : g ≡ x = cc in rw (a, b) after
ReindeerStep-IsQueue {s} {col} q k ReindeerStep.post_mutex h =
    rw (append-nil col) (posted-IsQueue q s.gifts s.free_space (suc (s.mutex)))
ReindeerStep-IsQueue {s} {col} q k post_space h =
    rw (append-nil col) (posted-IsQueue q s.gifts (suc (s.free_space)) s.mutex)
ReindeerStep-IsQueue {col} q k deliver_last h = rw (append-nil col) q
ReindeerStep-IsQueue {col} q k deliver h = rw (append-nil col) q

pub record Inv (m : Macros) (n : ℕ) (s : System) : Type 0 where
  pub queue : IsQueue m s.storage s.inserted_gifts s.collected_gifts
  pub counts :
      Counts m n s.storage
        (length s.inserted_gifts)
        (length s.collected_gifts)
        (elves_of m.loops s.elves)
        (reindeers_of (all_gifts m) s.reindeers)

Step-Inv : {m : Macros} {n : ℕ} {s t : System} → Inv m n s → Step m s t → Inv m (suc n) t
Step-Inv {m} {s} v (elf {e} {f} {gifts} k at p) =
    let h = set-ElfMoved m.loops s.elves k e f at in
    record {
      queue = ElfStep-IsQueue v.queue v.counts p h;
      counts = rw (length-append s.inserted_gifts gifts) (ElfStep-Counts v.counts p h);
    }
Step-Inv {m} {s} v (reindeer {r} {q} {gifts} k at p) =
    let h = set-ReindeerMoved (all_gifts m) s.reindeers k r q at in
    record {
      queue = ReindeerStep-IsQueue v.queue v.counts p h;
      counts =
          rw (length-append s.collected_gifts gifts)
            (ReindeerStep-Counts v.queue.counts v.counts p h);
    }

main-Counts :
    (m : Macros)
    → Counts m 0
        (init m)
        0
        0
        (elves_of m.loops (main m).elves)
        (reindeers_of (all_gifts m) (main m).reindeers)
unfolding init
main-Counts m =
    omega (arith, making-ElvesStart m, starting-ReindeersStart (all_gifts m) 0 m.no_reindeers)

pub Reach-Inv : {m : Macros} {n : ℕ} {s : System} → Reach m n s → Inv m n s
Reach-Inv {m} begin = record { queue = init-IsQueue m; counts = main-Counts m }
Reach-Inv (next before p) = Step-Inv (Reach-Inv before) p
