-- ===== src/Gifts/Tests.antt =====
-- A run of one elf and one reindeer of Lab_10/gifts.c.
use mimuw_pw_tasks.Prelude.{
  ℕ, suc, ◌+◌, ◌*◌, ◌≤◌, ◌≡◌, ◌⊎◌, inl, refl, [], ◌∷◌, arith, zero, length, some, get_elem?,
}
use mimuw_pw_tasks.Gifts.{
  Macros, all_gifts, init, insert, collect, System, Step, Reach, begin, next, HasEnded, Elf, done,
  Reindeer, ended, elf, reindeer, make, finish, wait_space, insert_gift, post_gifts, start,
  wait_gifts, collect_gift, post_space, deliver_last, ElfStep, ReindeerStep, reindeers_from,
}
use mimuw_pw_tasks.Gifts.Ring.{IsQueue}
use mimuw_pw_tasks.Gifts.Order.{OneInside, Reach-OneInside, Reach-IsQueue}
use mimuw_pw_tasks.Gifts.Ends.{IsDelivered, goes_on, ended-IsDelivered}

abbrev one_each : Macros
one_each = record { no_reindeers = 1; no_elfs = 1; no_gifts = 5; buffsize = 1; loops = 1 }

-- The elf has inserted its gift, and the reindeer waits for it.
inserted_run : (s : System) × Reach one_each 5 s
unfolding init insert all_gifts reindeers_from
inserted_run =
    let first : Reach one_each 0 _ = begin in
    let r1 = next first (elf 0 refl (make 7 (omega arith))) in
    let r2 = next r1 (elf 0 refl (wait_space refl)) in
    let r3 = next r2 (elf 0 refl (ElfStep.wait_mutex refl)) in
    let r4 = next r3 (reindeer 0 refl (start (omega arith))) in
    let r5 = next r4 (elf 0 refl insert_gift) in (_, r5)

-- Both have ended.
ended_run : (s : System) × Reach one_each 14 s
unfolding inserted_run init insert collect all_gifts reindeers_from
ended_run =
    let r6 = next (inserted_run.1) (elf 0 refl ElfStep.post_mutex) in
    let r7 = next r6 (elf 0 refl post_gifts) in
    let r8 = next r7 (reindeer 0 refl (wait_gifts refl)) in
    let r9 = next r8 (reindeer 0 refl (ReindeerStep.wait_mutex refl)) in
    let r10 = next r9 (reindeer 0 refl (collect_gift refl)) in
    let r11 = next r10 (reindeer 0 refl ReindeerStep.post_mutex) in
    let r12 = next r11 (reindeer 0 refl post_space) in
    let r13 = next r12 (reindeer 0 refl deliver_last) in
    let r14 = next r13 (elf 0 refl (finish (omega arith))) in (_, r14)

ended_run-HasEnded : HasEnded (ended_run.0)
unfolding ended_run inserted_run init insert collect all_gifts reindeers_from
ended_run-HasEnded = record {
  elves_done = λ k e at. elf_done k e at;
  reindeers_ended = λ k r at. inl (reindeer_ended k r at);
}
  where
    elf_done : (k : ℕ) (e : Elf) → get_elem? (done ∷ []) k ≡ some e → e ≡ done
    elf_done zero e at = cc
    elf_done (suc k) e at = cc

    reindeer_ended : (k : ℕ) (r : Reindeer) → get_elem? (ended ∷ []) k ≡ some r → r ≡ ended
    reindeer_ended zero r at = cc
    reindeer_ended (suc k) r at = cc

Reach-IsQueue_example :
    IsQueue one_each
      (inserted_run.0.storage)
      (inserted_run.0.inserted_gifts)
      (inserted_run.0.collected_gifts)
    × (length (inserted_run.0.inserted_gifts) ≤ length (inserted_run.0.collected_gifts) + 1)
Reach-IsQueue_example = Reach-IsQueue (inserted_run.1)

goes_on_example :
    (14 ≤ 12 * all_gifts one_each + 1 + 4 * 1)
    × (((t : System) × Step one_each (ended_run.0) t) ⊎ HasEnded (ended_run.0))
goes_on_example = goes_on (ended_run.1) (omega arith) (omega arith)

ended-IsDelivered_example : IsDelivered one_each (ended_run.0)
ended-IsDelivered_example = ended-IsDelivered (ended_run.1) (omega arith) ended_run-HasEnded

Reach-OneInside_example : OneInside (inserted_run.0)
Reach-OneInside_example = Reach-OneInside (inserted_run.1)
