-- ===== src/Gifts/Stuck.antt =====
-- When no process of Lab_10/gifts.c can take a step.
use mimuw_pw_tasks.Prelude.{
  ℕ, zero, suc, ◌<◌, ◌≡◌, ◌⊎◌, inl, inr, refl, ap, true, false, some, List, arith, dec_lt,
  get_elem?, find_or_all,
}
use mimuw_pw_tasks.Prelude.Counting.{total-zero, le-total}
use mimuw_pw_tasks.Gifts.{
  Macros, all_gifts, sem_wait, Storage, collect, Elf, making, inserted, unlocked, made, spaced,
  locked, done, Reindeer, starting, waiting, claiming, entered, ended, returned, collected, posted,
  delivering, System, ElfStep, make, finish, wait_space, insert_gift, post_gifts, ReindeerStep,
  return_early, start, wait_gifts, collect_gift, post_space, deliver_last, deliver, Step, elf,
  reindeer, HasEnded,
}
use mimuw_pw_tasks.Gifts.Ring.{collect-IsQueue}
use mimuw_pw_tasks.Gifts.Census.{elf_share, elves_of, reindeer_share, reindeers_of}
use mimuw_pw_tasks.Gifts.Invariant.{Inv}

-- an elf that can take no step
pub data ElfStuck (s : Storage) : Elf → Type 0 where
  is_done : ElfStuck s done
  no_space : {i g : ℕ} → s.free_space ≡ 0 → ElfStuck s (made i g)
  no_mutex : {i g : ℕ} → s.mutex ≡ 0 → ElfStuck s (spaced i g)

pub data ReindeerStuck (s : Storage) : Reindeer → Type 0 where
  has_ended : ReindeerStuck s ended
  has_returned : ReindeerStuck s returned
  no_gifts : s.gifts ≡ 0 → ReindeerStuck s waiting
  no_mutex : s.mutex ≡ 0 → ReindeerStuck s claiming

ℕ-cases : (n : ℕ) → (n ≡ 0) ⊎ ((k : ℕ) × (n ≡ suc k))
ℕ-cases zero = inl refl
ℕ-cases (suc k) = inr (k, refl)

abbrev ElfMoves : Macros → Storage → Elf → Type 0
ElfMoves m s e = (t : Storage) × (gifts : List ℕ) × (f : Elf) × ElfStep m s e t gifts f

abbrev ReindeerMoves : Macros → Storage → Reindeer → Type 0
ReindeerMoves m s r =
    (t : Storage) × (gifts : List ℕ) × (q : Reindeer) × ReindeerStep m s r t gifts q

ElfStep-cases : (m : Macros) (s : Storage) (e : Elf) → ElfMoves m s e ⊎ ElfStuck s e
ElfStep-cases m s (making i) = elim (dec_lt i m.loops) [
  | yes p ↦ inl (_, _, _, make 0 p)
  | no p ↦ inl (_, _, _, finish (omega arith))
]
ElfStep-cases m s (made i g) = elim (ℕ-cases s.free_space) [
  | inl e ↦ inr (no_space e)
  | inr (k, e) ↦ inl (_, _, _, wait_space (ap sem_wait e))
]
ElfStep-cases m s (spaced i g) = elim (ℕ-cases s.mutex) [
  | inl e ↦ inr (ElfStuck.no_mutex e)
  | inr (k, e) ↦ inl (_, _, _, ElfStep.wait_mutex (ap sem_wait e))
]
ElfStep-cases m s (locked i g) = inl (_, _, _, insert_gift)
ElfStep-cases m s (inserted i) = inl (_, _, _, ElfStep.post_mutex)
ElfStep-cases m s (unlocked i) = inl (_, _, _, post_gifts)
ElfStep-cases m s done = inr is_done

ReindeerStep-cases :
    (m : Macros) (s : Storage) (r : Reindeer)
    → (r ≡ entered → (g : ℕ) × (t : Storage) × (collect m s ≡ some (g, t)))
    → ReindeerMoves m s r ⊎ ReindeerStuck s r
ReindeerStep-cases m s (starting id) c = elim (dec_lt id (all_gifts m)) [
  | yes p ↦ inl (_, _, _, start p)
  | no p ↦ inl (_, _, _, return_early (omega arith))
]
ReindeerStep-cases m s waiting c = elim (ℕ-cases s.gifts) [
  | inl e ↦ inr (no_gifts e)
  | inr (k, e) ↦ inl (_, _, _, wait_gifts (ap sem_wait e))
]
ReindeerStep-cases m s claiming c = elim (ℕ-cases s.mutex) [
  | inl e ↦ inr (ReindeerStuck.no_mutex e)
  | inr (k, e) ↦ inl (_, _, _, ReindeerStep.wait_mutex (ap sem_wait e))
]
ReindeerStep-cases m s entered c = let (g, t, e) = c refl in inl (_, _, _, collect_gift e)
ReindeerStep-cases m s (collected g end) c = inl (_, _, _, ReindeerStep.post_mutex)
ReindeerStep-cases m s (posted g end) c = inl (_, _, _, post_space)
ReindeerStep-cases m s (delivering g true) c = inl (_, _, _, deliver_last)
ReindeerStep-cases m s (delivering g false) c = inl (_, _, _, deliver)
ReindeerStep-cases m s ended c = inr has_ended
ReindeerStep-cases m s returned c = inr has_returned

-- No process can take a step.
pub record IsStuck (s : System) : Type 0 where
  pub elves : (k : ℕ) (e : Elf) → get_elem? s.elves k ≡ some e → ElfStuck s.storage e
  pub reindeers :
      (k : ℕ) (r : Reindeer) → get_elem? s.reindeers k ≡ some r → ReindeerStuck s.storage r

collects :
    {m : Macros} {n : ℕ} {s : System} (k : ℕ) (r : Reindeer)
    → Inv m n s
    → get_elem? s.reindeers k ≡ some r
    → r ≡ entered
    → (g : ℕ) × (t : Storage) × (collect m s.storage ≡ some (g, t))
unfolding reindeers_of
collects {m} {s} k r v at e =
    let one : (reindeer_share (all_gifts m) r).claims ≡ 1 =
      ap (λ q. (reindeer_share (all_gifts m) q).claims) e in
    let here = le-total (λ q. (reindeer_share (all_gifts m) q).claims) s.reindeers k r at in
    let (g, f, _) = collect-IsQueue v.queue (omega (arith, v.counts.gifts)) in (g, _, f)

pub Step-cases :
    {m : Macros} {n : ℕ} {s : System} → Inv m n s → ((t : System) × Step m s t) ⊎ IsStuck s
Step-cases {m} {s} v =
    elim (find_or_all (ElfMoves m s.storage) (ElfStuck s.storage) s.elves
      (λ k e at. ElfStep-cases m s.storage e)) [
        | inl (k, e, at, (t, gifts, f, p)) ↦ inl (_, elf k at p)
        | inr elves ↦
            elim (find_or_all (ReindeerMoves m s.storage) (ReindeerStuck s.storage) s.reindeers
              (λ k r at. ReindeerStep-cases m s.storage r (collects k r v at))) [
                | inl (k, r, at, (t, gifts, q, p)) ↦ inl (_, reindeer k at p)
                | inr reindeers ↦ inr (record { elves = elves; reindeers = reindeers })
              ]
      ]

-- shares of stuck processes
elf_stuck :
    {s : Storage} {e : Elf} (loops : ℕ)
    → ElfStuck s e
    → ((elf_share loops e).locking ≡ 0)
      × ((elf_share loops e).posting ≡ 0)
      × (0 < s.mutex → (elf_share loops e).spacing ≡ 0)
      × (0 < s.mutex → 0 < s.free_space → e ≡ done)
elf_stuck loops is_done = (refl, refl, (λ h. refl), (λ h k. refl))
elf_stuck loops (no_space p) = (refl, refl, (λ h. refl), (λ h k. absurd (omega arith)))
elf_stuck loops (ElfStuck.no_mutex p) =
    (refl, refl, (λ h. absurd (omega arith)), (λ h k. absurd (omega arith)))

reindeer_stuck :
    {s : Storage} {r : Reindeer} (needed : ℕ)
    → ReindeerStuck s r
    → ((reindeer_share needed r).locking ≡ 0)
      × ((reindeer_share needed r).freeing ≡ 0)
      × (0 < s.mutex → (reindeer_share needed r).claims ≡ 0)
      × (0 < s.mutex → 0 < s.gifts → (reindeer_share needed r).active ≡ 0)
      × (0 < s.mutex → (reindeer_share needed r).active ≡ 0 → (r ≡ ended) ⊎ (r ≡ returned))
reindeer_stuck needed has_ended = (refl, refl, (λ h. refl), (λ h k. refl), (λ h k. inl refl))
reindeer_stuck needed has_returned = (refl, refl, (λ h. refl), (λ h k. refl), (λ h k. inr refl))
reindeer_stuck needed (no_gifts p) =
    (refl, refl, (λ h. refl), (λ h k. absurd (omega arith)), (λ h k. absurd (omega arith)))
reindeer_stuck needed (ReindeerStuck.no_mutex p) = (
  refl,
  refl,
  (λ h. absurd (omega arith)),
  (λ h k. absurd (omega arith)),
  (λ h k. absurd (omega arith)),
)

-- where nobody can take a step, nobody is on the way
record IsCalm (m : Macros) (s : System) : Type 0 where
  mutex : 0 < s.storage.mutex
  spacing : (elves_of m.loops s.elves).spacing ≡ 0
  posting : (elves_of m.loops s.elves).posting ≡ 0
  claims : (reindeers_of (all_gifts m) s.reindeers).claims ≡ 0
  freeing : (reindeers_of (all_gifts m) s.reindeers).freeing ≡ 0
  no_more : 0 < s.storage.free_space → (elves_of m.loops s.elves).left ≡ 0
  all_closed : 0 < s.storage.gifts → (reindeers_of (all_gifts m) s.reindeers).active ≡ 0

stuck-IsCalm : {m : Macros} {n : ℕ} {s : System} → Inv m n s → IsStuck s → IsCalm m s
unfolding elves_of reindeers_of
stuck-IsCalm {m} {s} v h =
    let x =
      λ (k : ℕ) (e : Elf) (at : get_elem? s.elves k ≡ some e). elf_stuck m.loops (h.elves k e at) in
    let y = λ (k : ℕ) (r : Reindeer) (at : get_elem? s.reindeers k ≡ some r).
      reindeer_stuck (all_gifts m) (h.reindeers k r at) in
    let a = total-zero (λ e. (elf_share m.loops e).locking) s.elves (λ k e at. (x k e at).0) in
    let b =
      total-zero (λ r. (reindeer_share (all_gifts m) r).locking) s.reindeers
        (λ k r at. (y k r at).0) in
    let unlocked : 0 < s.storage.mutex = omega (arith, v.counts.mutex) in
    record {
      mutex = unlocked;
      spacing =
          total-zero (λ e. (elf_share m.loops e).spacing) s.elves (λ k e at. (x k e at).2 unlocked);
      posting = total-zero (λ e. (elf_share m.loops e).posting) s.elves (λ k e at. (x k e at).1);
      claims =
          total-zero (λ r. (reindeer_share (all_gifts m) r).claims) s.reindeers
            (λ k r at. (y k r at).2 unlocked);
      freeing =
          total-zero (λ r. (reindeer_share (all_gifts m) r).freeing) s.reindeers
            (λ k r at. (y k r at).1);
      no_more = λ free.
          total-zero (λ e. (elf_share m.loops e).left) s.elves
            (λ k e at. ap (λ f. (elf_share m.loops f).left) ((x k e at).3 unlocked free));
      all_closed = λ left.
          total-zero (λ r. (reindeer_share (all_gifts m) r).active) s.reindeers
            (λ k r at. (y k r at).3 unlocked left);
    }

-- the elves have room and the reindeers have ended
calm_end :
    {m : Macros} {n : ℕ} {s : System}
    → 0 < m.buffsize
    → 0 < m.no_reindeers
    → Inv m n s
    → IsCalm m s
    → (0 < s.storage.free_space) × ((reindeers_of (all_gifts m) s.reindeers).active ≡ 0)
calm_end {m} {s} room some_reindeers v c = elim (dec_lt 0 s.storage.free_space) [
  | yes free ↦ elim (dec_lt 0 s.storage.gifts) [
    | yes left ↦ (free, c.all_closed left)
    | no none_left ↦ let e = c.no_more free in (free, omega (arith, c.claims, c.posting, v.counts))
  ]
  | no full ↦ elim (dec_lt 0 s.storage.gifts) [
    | yes left ↦ let e = c.all_closed left in absurd (omega (arith, v.counts, c.claims, c.posting))
    | no none_left ↦ absurd (omega (arith, v.counts, c))
  ]
]

pub stuck-HasEnded :
    {m : Macros} {n : ℕ} {s : System}
    → 0 < m.buffsize
    → 0 < m.no_reindeers
    → Inv m n s
    → IsStuck s
    → HasEnded s
unfolding reindeers_of
stuck-HasEnded {m} {s} room some_reindeers v h =
    let c = stuck-IsCalm v h in
    let (free, none_active) = calm_end room some_reindeers v c in
    record {
      elves_done = λ k e at. (elf_stuck m.loops (h.elves k e at)).3 c.mutex free;
      reindeers_ended = λ k r at.
          let here = le-total (λ q. (reindeer_share (all_gifts m) q).active) s.reindeers k r at in
          (reindeer_stuck (all_gifts m) (h.reindeers k r at)).4 c.mutex (omega arith);
    }
