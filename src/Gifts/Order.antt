-- ===== src/Gifts/Order.antt =====
-- What the processes of Lab_10/gifts.c do to the buffer, at any time.
use mimuw_pw_tasks.Prelude.{
  ℕ, ◌+◌, ◌≤◌, ◌≡◌, Bool, true, false, arith, length, get_elem?, some, ℕ_discrete, Bool-cases, inl,
  inr,
}
use mimuw_pw_tasks.Prelude.Counting.{le-total, le-total_two}
use mimuw_pw_tasks.Gifts.{
  Macros, all_gifts, Elf, locked, inserted, Reindeer, entered, collected, System, Reach,
}
use mimuw_pw_tasks.Gifts.Ring.{IsQueue}
use mimuw_pw_tasks.Gifts.Census.{elf_share, elves_of, reindeer_share, reindeers_of}
use mimuw_pw_tasks.Gifts.Invariant.{Reach-Inv}

-- between the wait for `mutex` and the post of it
abbrev pub elf_inside : Elf → Bool
elf_inside (locked i g) = true
elf_inside (inserted i) = true
elf_inside _ = false

abbrev pub reindeer_inside : Reindeer → Bool
reindeer_inside entered = true
reindeer_inside (collected g end) = true
reindeer_inside _ = false

elf_inside_lem : (loops : ℕ) (e : Elf) → elf_inside e ≡ true → (elf_share loops e).locking ≡ 1
elf_inside_lem loops (locked i g) h = omega arith
elf_inside_lem loops (inserted i) h = omega arith
elf_inside_lem loops e h = cc

reindeer_inside_lem :
    (needed : ℕ) (r : Reindeer) → reindeer_inside r ≡ true → (reindeer_share needed r).locking ≡ 1
reindeer_inside_lem needed entered h = omega arith
reindeer_inside_lem needed (collected g true) h = omega arith
reindeer_inside_lem needed (collected g false) h = omega arith
reindeer_inside_lem needed r h = cc

-- No two processes are between their waits for `mutex` and their posts of it.
pub record OneInside (s : System) : Type 0 where
  pub one_elf :
      (k l : ℕ) (e f : Elf)
      → get_elem? s.elves k ≡ some e
      → get_elem? s.elves l ≡ some f
      → elf_inside e ≡ true
      → elf_inside f ≡ true
      → k ≡ l
  pub one_reindeer :
      (k l : ℕ) (p q : Reindeer)
      → get_elem? s.reindeers k ≡ some p
      → get_elem? s.reindeers l ≡ some q
      → reindeer_inside p ≡ true
      → reindeer_inside q ≡ true
      → k ≡ l
  pub not_both :
      (k l : ℕ) (e : Elf) (q : Reindeer)
      → get_elem? s.elves k ≡ some e
      → get_elem? s.reindeers l ≡ some q
      → elf_inside e ≡ true
      → reindeer_inside q ≡ false

module _ {m : Macros} {n : ℕ} {s : System} (r : Reach m n s) where
  -- The reindeers have collected the first of the inserted gifts, in their order, and the buffer has
  -- the others from `take` to `put`: none is overwritten, since there are at most BUFFSIZE.
  pub Reach-IsQueue :
      IsQueue m s.storage s.inserted_gifts s.collected_gifts
      × (length s.inserted_gifts ≤ length s.collected_gifts + m.buffsize)
  Reach-IsQueue = let v = Reach-Inv r in (v.queue, omega (arith, v.counts))

  -- No two processes are between their waits for `mutex` and their posts of it.
  pub Reach-OneInside : OneInside s
  unfolding elves_of reindeers_of
  Reach-OneInside =
      let c = (Reach-Inv r).counts in
      let elves = λ (e : Elf). (elf_share m.loops e).locking in
      let reindeers = λ (q : Reindeer). (reindeer_share (all_gifts m) q).locking in
      record {
        one_elf = (λ k l e f at_k at_l in_k in_l. elim (ℕ_discrete k l) [
          | yes p ↦ p
          | no d ↦ absurd (
              omega (
                arith,
                c.mutex,
                le-total_two elves s.elves k l e f at_k at_l d,
                elf_inside_lem m.loops e in_k,
                elf_inside_lem m.loops f in_l,
              ))
        ]);
        one_reindeer = (λ k l p q at_k at_l in_k in_l. elim (ℕ_discrete k l) [
          | yes e ↦ e
          | no d ↦ absurd (
              omega (
                arith,
                c.mutex,
                le-total_two reindeers s.reindeers k l p q at_k at_l d,
                reindeer_inside_lem (all_gifts m) p in_k,
                reindeer_inside_lem (all_gifts m) q in_l,
              ))
        ]);
        not_both = (λ k l e q at_k at_l in_k. elim (Bool-cases (reindeer_inside q)) [
          | inl in_l ↦ absurd (
              omega (
                arith,
                c.mutex,
                le-total elves s.elves k e at_k,
                le-total reindeers s.reindeers l q at_l,
                elf_inside_lem m.loops e in_k,
                reindeer_inside_lem (all_gifts m) q in_l,
              ))
          | inr out ↦ out
        ]);
      }
