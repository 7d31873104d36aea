-- ===== src/Gifts/Ends.antt =====
-- How Lab_10/gifts.c ends.
use mimuw_pw_tasks.Prelude.{
  ℕ, ◌+◌, ◌*◌, ◌≤◌, ◌<◌, ◌≡◌, ◌⊎◌, inl, inr, refl, ap, sym, ◌∙◌, arith, length, take, take-length,
  get_elem?, some,
}
use mimuw_pw_tasks.Prelude.Counting.{total-zero}
use mimuw_pw_tasks.Gifts.{
  Macros, all_gifts, Elf, done, Reindeer, ended, returned, System, Step, Reach, HasEnded,
}
use mimuw_pw_tasks.Gifts.Census.{elf_share, elves_of, reindeer_share, reindeers_of}
use mimuw_pw_tasks.Gifts.Invariant.{Reach-Inv}
use mimuw_pw_tasks.Gifts.Stuck.{Step-cases, stuck-HasEnded}

-- what a run leaves
pub record IsDelivered (m : Macros) (s : System) : Type 0 where
  pub all_inserted : length s.inserted_gifts ≡ all_gifts m
  pub all_collected : s.collected_gifts ≡ s.inserted_gifts
  pub counted : s.storage.total_collected ≡ all_gifts m
  pub no_gifts : s.storage.gifts ≡ 0
  pub free : s.storage.free_space ≡ m.buffsize
  pub unlocked : s.storage.mutex ≡ 1

ended_share :
    (needed : ℕ) (r : Reindeer)
    → (r ≡ ended) ⊎ (r ≡ returned)
    → ((reindeer_share needed r).claims ≡ 0)
      × ((reindeer_share needed r).locking ≡ 0)
      × ((reindeer_share needed r).freeing ≡ 0)
      × ((reindeer_share needed r).active ≡ 0)
ended_share needed r (inl e) = rw e (refl, refl, refl, refl)
ended_share needed r (inr e) = rw e (refl, refl, refl, refl)

module _ {m : Macros} {n : ℕ} {s : System} (r : Reach m n s) where
  -- Each run ends, and never in a deadlock: it takes at most 12 steps for each gift of NO_ELFS * LOOPS,
  -- one for each elf and four for each reindeer, and some process can take a step until all have
  -- returned, with a place in the buffer and a reindeer.
  pub goes_on :
      0 < m.buffsize
      → 0 < m.no_reindeers
      → (n ≤ 12 * all_gifts m + m.no_elfs + 4 * m.no_reindeers)
        × (((t : System) × Step m s t) ⊎ HasEnded s)
  goes_on room some_reindeers =
      let v = Reach-Inv r in
      (
        omega (arith, v.counts.steps),
        elim (Step-cases v) [
          | inl p ↦ inl p
          | inr stuck ↦ inr (stuck-HasEnded room some_reindeers v stuck)
        ],
      )

  -- When all processes have returned, the elves have inserted NO_ELFS * LOOPS gifts, the reindeers have
  -- collected all of them, in their order, and the semaphores are as at the start, if there is a
  -- reindeer.
  pub ended-IsDelivered : 0 < m.no_reindeers → HasEnded s → IsDelivered m s
  unfolding elves_of reindeers_of
  ended-IsDelivered some_reindeers h =
      let v = Reach-Inv r in
      let x = λ (k : ℕ) (r : Reindeer) (at : get_elem? s.reindeers k ≡ some r).
        ended_share (all_gifts m) r (h.reindeers_ended k r at) in
      let y = λ (w : Elf → ℕ) (e : w done ≡ 0).
        total-zero w s.elves (λ k f at. ap w (h.elves_done k f at) ∙ e) in
      let spacing = y (λ e. (elf_share m.loops e).spacing) refl in
      let locking = y (λ e. (elf_share m.loops e).locking) refl in
      let posting = y (λ e. (elf_share m.loops e).posting) refl in
      let left = y (λ e. (elf_share m.loops e).left) refl in
      let claims =
        total-zero (λ q. (reindeer_share (all_gifts m) q).claims) s.reindeers
          (λ k q at. (x k q at).0) in
      let locked =
        total-zero (λ q. (reindeer_share (all_gifts m) q).locking) s.reindeers
          (λ k q at. (x k q at).1) in
      let freeing =
        total-zero (λ q. (reindeer_share (all_gifts m) q).freeing) s.reindeers
          (λ k q at. (x k q at).2) in
      let active =
        total-zero (λ q. (reindeer_share (all_gifts m) q).active) s.reindeers
          (λ k q at. (x k q at).3) in
      let same : length s.collected_gifts ≡ length s.inserted_gifts =
        omega (arith, v.counts, v.queue.behind) in
      record {
        all_inserted = omega (arith, v.counts);
        all_collected =
            sym v.queue.order
            ∙ ap (λ k. take k s.inserted_gifts) same
            ∙ take-length s.inserted_gifts;
        counted = omega (arith, v.counts, v.queue.counts);
        no_gifts = omega (arith, v.counts);
        free = omega (arith, v.counts);
        unlocked = omega (arith, v.counts);
      }
