-- ===== src/Gifts/Census.antt =====
-- How many elves and reindeers of Lab_10/gifts.c stand where.
use mimuw_pw_tasks.Prelude.{
  ℕ, zero, suc, ◌+◌, ◌-◌, ◌*◌, ◌≤◌, ◌≡◌, true, false, List, arith, some, get_elem?, set, replicate,
  ltb, if◌then◌else◌,
}
use mimuw_pw_tasks.Prelude.Counting.{total, total-set, le-total}
use mimuw_pw_tasks.Gifts.{
  Macros, all_gifts, Elf, making, inserted, unlocked, made, spaced, locked, done, Reindeer,
  starting, waiting, claiming, entered, ended, returned, collected, posted, delivering,
  reindeers_from,
}

-- The elves between their wait for `free_space` and their `insert`, those that hold `mutex`, those
-- between `insert` and the post of `gifts`, the gifts still to insert, and the steps still to take.
pub record Elves : Type 0 where
  pub spacing : ℕ
  pub locking : ℕ
  pub posting : ℕ
  pub left : ℕ
  pub steps : ℕ

abbrev pub no_elf : Elves
no_elf = record { spacing = 0; locking = 0; posting = 0; left = 0; steps = 0 }

-- one elf's share, for so many rounds
abbrev pub elf_share : ℕ → Elf → Elves
elf_share loops (making i) = record no_elf { left = loops - i; steps = 6 * (loops - i) + 1 }
elf_share loops (made i g) = record no_elf {
  left = suc (loops - suc i);
  steps = 6 * (loops - suc i) + 6;
}
elf_share loops (spaced i g) = record no_elf {
  spacing = 1;
  left = suc (loops - suc i);
  steps = 6 * (loops - suc i) + 5;
}
elf_share loops (locked i g) = record no_elf {
  spacing = 1;
  locking = 1;
  left = suc (loops - suc i);
  steps = 6 * (loops - suc i) + 4;
}
elf_share loops (inserted i) = record no_elf {
  locking = 1;
  posting = 1;
  left = loops - suc i;
  steps = 6 * (loops - suc i) + 3;
}
elf_share loops (unlocked i) = record no_elf {
  posting = 1;
  left = loops - suc i;
  steps = 6 * (loops - suc i) + 2;
}
elf_share loops done = no_elf

-- The reindeers between their wait for `gifts` and their `collect`, those that hold `mutex`, those
-- between `collect` and the post of `free_space`, those that have not ended and will collect again,
-- those that have set `end`, and the steps still to take, but for six with each gift.
pub record Reindeers : Type 0 where
  pub claims : ℕ
  pub locking : ℕ
  pub freeing : ℕ
  pub active : ℕ
  pub closed : ℕ
  pub steps : ℕ

abbrev pub no_reindeer : Reindeers
no_reindeer = record { claims = 0; locking = 0; freeing = 0; active = 0; closed = 0; steps = 0 }

-- one reindeer's share, where so many gifts are needed
abbrev pub reindeer_share : ℕ → Reindeer → Reindeers
reindeer_share needed (starting id) = record no_reindeer {
  active = if ltb id needed then 1 else 0;
  steps = 4;
}
reindeer_share needed waiting = record no_reindeer { active = 1; steps = 3 }
reindeer_share needed claiming = record no_reindeer { claims = 1; active = 1; steps = 2 }
reindeer_share needed entered = record no_reindeer {
  claims = 1;
  locking = 1;
  active = 1;
  steps = 1;
}
reindeer_share needed (collected g true) = record no_reindeer {
  locking = 1;
  freeing = 1;
  closed = 1;
  steps = 6;
}
reindeer_share needed (collected g false) = record no_reindeer {
  locking = 1;
  freeing = 1;
  active = 1;
  steps = 6;
}
reindeer_share needed (posted g true) = record no_reindeer { freeing = 1; closed = 1; steps = 5 }
reindeer_share needed (posted g false) = record no_reindeer { freeing = 1; active = 1; steps = 5 }
reindeer_share needed (delivering g true) = record no_reindeer { closed = 1; steps = 4 }
reindeer_share needed (delivering g false) = record no_reindeer { active = 1; steps = 4 }
reindeer_share needed ended = record no_reindeer { closed = 1 }
reindeer_share needed returned = no_reindeer

unfoldable pub elves_of : ℕ → List Elf → Elves
elves_of loops es = record {
  spacing = total (λ e. (elf_share loops e).spacing) es;
  locking = total (λ e. (elf_share loops e).locking) es;
  posting = total (λ e. (elf_share loops e).posting) es;
  left = total (λ e. (elf_share loops e).left) es;
  steps = total (λ e. (elf_share loops e).steps) es;
}

unfoldable pub reindeers_of : ℕ → List Reindeer → Reindeers
reindeers_of needed rs = record {
  claims = total (λ r. (reindeer_share needed r).claims) rs;
  locking = total (λ r. (reindeer_share needed r).locking) rs;
  freeing = total (λ r. (reindeer_share needed r).freeing) rs;
  active = total (λ r. (reindeer_share needed r).active) rs;
  closed = total (λ r. (reindeer_share needed r).closed) rs;
  steps = total (λ r. (reindeer_share needed r).steps) rs;
}

-- `c'` is `c` with one share `p` replaced by `q`
abbrev pub Replaced : ℕ → ℕ → ℕ → ℕ → Type 0
Replaced c p q c' = (p ≤ c) × (c' + p ≡ c + q)

pub record ElfMoved (c p q c' : Elves) : Type 0 where
  pub spacing : Replaced c.spacing p.spacing q.spacing c'.spacing
  pub locking : Replaced c.locking p.locking q.locking c'.locking
  pub posting : Replaced c.posting p.posting q.posting c'.posting
  pub left : Replaced c.left p.left q.left c'.left
  pub steps : Replaced c.steps p.steps q.steps c'.steps

pub record ReindeerMoved (c p q c' : Reindeers) : Type 0 where
  pub claims : Replaced c.claims p.claims q.claims c'.claims
  pub locking : Replaced c.locking p.locking q.locking c'.locking
  pub freeing : Replaced c.freeing p.freeing q.freeing c'.freeing
  pub active : Replaced c.active p.active q.active c'.active
  pub closed : Replaced c.closed p.closed q.closed c'.closed
  pub steps : Replaced c.steps p.steps q.steps c'.steps

replaced :
    {A : Type 0} (w : A → ℕ) (xs : List A) (i : ℕ) (x y : A)
    → get_elem? xs i ≡ some x
    → Replaced (total w xs) (w x) (w y) (total w (set xs i y))
replaced w xs i x y h = (le-total w xs i x h, total-set w xs i x y h)

pub set-ElfMoved :
    (loops : ℕ) (es : List Elf) (k : ℕ) (e f : Elf)
    → get_elem? es k ≡ some e
    → ElfMoved
        (elves_of loops es)
        (elf_share loops e)
        (elf_share loops f)
        (elves_of loops (set es k f))
unfolding elves_of
set-ElfMoved loops es k e f h = record {
  spacing = replaced (λ x. (elf_share loops x).spacing) es k e f h;
  locking = replaced (λ x. (elf_share loops x).locking) es k e f h;
  posting = replaced (λ x. (elf_share loops x).posting) es k e f h;
  left = replaced (λ x. (elf_share loops x).left) es k e f h;
  steps = replaced (λ x. (elf_share loops x).steps) es k e f h;
}

pub set-ReindeerMoved :
    (needed : ℕ) (rs : List Reindeer) (k : ℕ) (r q : Reindeer)
    → get_elem? rs k ≡ some r
    → ReindeerMoved
        (reindeers_of needed rs)
        (reindeer_share needed r)
        (reindeer_share needed q)
        (reindeers_of needed (set rs k q))
unfolding reindeers_of
set-ReindeerMoved needed rs k r q h = record {
  claims = replaced (λ x. (reindeer_share needed x).claims) rs k r q h;
  locking = replaced (λ x. (reindeer_share needed x).locking) rs k r q h;
  freeing = replaced (λ x. (reindeer_share needed x).freeing) rs k r q h;
  active = replaced (λ x. (reindeer_share needed x).active) rs k r q h;
  closed = replaced (λ x. (reindeer_share needed x).closed) rs k r q h;
  steps = replaced (λ x. (reindeer_share needed x).steps) rs k r q h;
}

-- The first elves have all the gifts to insert.
pub record ElvesStart (m : Macros) (c : Elves) : Type 0 where
  pub spacing : c.spacing ≡ 0
  pub locking : c.locking ≡ 0
  pub posting : c.posting ≡ 0
  pub left : c.left ≡ all_gifts m
  pub steps : c.steps ≡ 6 * all_gifts m + m.no_elfs

total-making :
    (loops n : ℕ)
    → ElvesStart
        (record { no_reindeers = 0; no_elfs = n; no_gifts = 0; buffsize = 0; loops = loops })
        (elves_of loops (replicate n (making 0)))
unfolding elves_of total all_gifts
total-making loops zero = omega arith
total-making loops (suc n) = omega (arith, total-making loops n)

pub making-ElvesStart :
    (m : Macros) → ElvesStart m (elves_of m.loops (replicate m.no_elfs (making 0)))
unfolding all_gifts
making-ElvesStart m = omega (arith, total-making m.loops m.no_elfs)

-- The first reindeers, from the number `id` on: those with a gift to collect are the first ones.
pub record ReindeersStart (needed id n : ℕ) (c : Reindeers) : Type 0 where
  pub claims : c.claims ≡ 0
  pub locking : c.locking ≡ 0
  pub freeing : c.freeing ≡ 0
  pub active : c.active + (needed - (id + n)) ≡ needed - id
  pub closed : c.closed ≡ 0
  pub steps : c.steps ≡ 4 * n

pub starting-ReindeersStart :
    (needed id n : ℕ) → ReindeersStart needed id n (reindeers_of needed (reindeers_from id n))
unfolding reindeers_of reindeers_from total
starting-ReindeersStart needed id zero = omega arith
starting-ReindeersStart needed id (suc n) =
    ground (arith, starting-ReindeersStart needed (suc id) n)
