-- ===== src/SafeHashMap/Census.antt =====
-- How many threads stand where.
use mimuw_pw_tasks.Prelude.{
  ℕ, ap, ◌∙◌, ◌+◌, ◌≤◌, ◌<◌, ◌^◌, ◌≡◌, refl, Bool, true, false, not, some, List, [], ◌∷◌, arith,
  get_elem?, set, length,
}
use mimuw_pw_tasks.Prelude.Counting.{total, total-set, total-zero}
use mimuw_pw_tasks.SafeHashMap.{Signal, nobody, readers, writers, Request, is_writer}
use mimuw_pw_tasks.SafeHashMap.Threads.{
  Pc, idle, blocked, woken, inside, working, finished, Wakes, one, none_blocked,
}

-- the numbers of threads that read, write, and are blocked or woken as readers and as writers
pub record Census : Type 0 where
  pub reading : ℕ
  pub writing : ℕ
  pub readers_blocked : ℕ
  pub readers_woken : ℕ
  pub writers_blocked : ℕ
  pub writers_woken : ℕ

abbrev pub bit : Bool → ℕ
bit true = 1
bit false = 0

module _ {ℓ} {V : Type ℓ} where
  -- one thread's share
  abbrev pub share : Pc V → Census
  share idle = record {
    reading = 0;
    writing = 0;
    readers_blocked = 0;
    readers_woken = 0;
    writers_blocked = 0;
    writers_woken = 0;
  }
  share (blocked r) = record {
    reading = 0;
    writing = 0;
    readers_blocked = bit (not (is_writer r));
    readers_woken = 0;
    writers_blocked = bit (is_writer r);
    writers_woken = 0;
  }
  share (woken r) = record {
    reading = 0;
    writing = 0;
    readers_blocked = 0;
    readers_woken = bit (not (is_writer r));
    writers_blocked = 0;
    writers_woken = bit (is_writer r);
  }
  share (inside r) = record {
    reading = bit (not (is_writer r));
    writing = bit (is_writer r);
    readers_blocked = 0;
    readers_woken = 0;
    writers_blocked = 0;
    writers_woken = 0;
  }
  share (working r m) = record {
    reading = bit (not (is_writer r));
    writing = bit (is_writer r);
    readers_blocked = 0;
    readers_woken = 0;
    writers_blocked = 0;
    writers_woken = 0;
  }
  share (finished r a) = record {
    reading = bit (not (is_writer r));
    writing = bit (is_writer r);
    readers_blocked = 0;
    readers_woken = 0;
    writers_blocked = 0;
    writers_woken = 0;
  }

  unfoldable pub census : List (Pc V) → Census
  census ps = record {
    reading = total (λ p. (share p).reading) ps;
    writing = total (λ p. (share p).writing) ps;
    readers_blocked = total (λ p. (share p).readers_blocked) ps;
    readers_woken = total (λ p. (share p).readers_woken) ps;
    writers_blocked = total (λ p. (share p).writers_blocked) ps;
    writers_woken = total (λ p. (share p).writers_woken) ps;
  }

-- Two censuses that differ by one thread, which had the share `p` and has `q`.
pub record Moved (c p q c' : Census) : Type 0 where
  pub reading : c'.reading + p.reading ≡ c.reading + q.reading
  pub writing : c'.writing + p.writing ≡ c.writing + q.writing
  pub readers_blocked :
      c'.readers_blocked + p.readers_blocked ≡ c.readers_blocked + q.readers_blocked
  pub readers_woken : c'.readers_woken + p.readers_woken ≡ c.readers_woken + q.readers_woken
  pub writers_blocked :
      c'.writers_blocked + p.writers_blocked ≡ c.writers_blocked + q.writers_blocked
  pub writers_woken : c'.writers_woken + p.writers_woken ≡ c.writers_woken + q.writers_woken

-- Two censuses around a signal.
pub record Signalled (sig : Signal) (c c' : Census) : Type 0 where
  pub reading : c'.reading ≡ c.reading
  pub writing : c'.writing ≡ c.writing
  pub readers_all : c'.readers_blocked + c'.readers_woken ≡ c.readers_blocked + c.readers_woken
  pub writers_all : c'.writers_blocked + c'.writers_woken ≡ c.writers_blocked + c.writers_woken
  pub readers_more : c.readers_woken ≤ c'.readers_woken
  pub writers_more : c.writers_woken ≤ c'.writers_woken
  pub wakes_reader : sig ≡ readers → 0 < c.readers_blocked → 0 < c'.readers_woken
  pub wakes_writer : sig ≡ writers → 0 < c.writers_blocked → 0 < c'.writers_woken

-- fewer threads than an `int` counts
abbrev pub IsSmall : Census → Type 0
IsSmall c =
    c.reading + c.writing + c.readers_blocked + c.readers_woken + c.writers_blocked
      + c.writers_woken
    < 2 ^ 31

module _ {ℓ} {V : Type ℓ} where
  pub set-Moved :
      (ps : List (Pc V)) (i : ℕ) (p q : Pc V)
      → get_elem? ps i ≡ some p
      → Moved (census ps) (share p) (share q) (census (set ps i q))
  unfolding census
  set-Moved ps i p q h = record {
    reading = total-set (λ p. (share p).reading) ps i p q h;
    writing = total-set (λ p. (share p).writing) ps i p q h;
    readers_blocked = total-set (λ p. (share p).readers_blocked) ps i p q h;
    readers_woken = total-set (λ p. (share p).readers_woken) ps i p q h;
    writers_blocked = total-set (λ p. (share p).writers_blocked) ps i p q h;
    writers_woken = total-set (λ p. (share p).writers_woken) ps i p q h;
  }

  no_reader_blocked :
      (p : Pc V)
      → ((r : Request V) → p ≡ blocked r → not (is_writer r) ≡ false)
      → (share p).readers_blocked ≡ 0
  no_reader_blocked (blocked r) h = ap bit (h r refl)
  no_reader_blocked p h = refl

  no_writer_blocked :
      (p : Pc V)
      → ((r : Request V) → p ≡ blocked r → is_writer r ≡ false)
      → (share p).writers_blocked ≡ 0
  no_writer_blocked (blocked r) h = ap bit (h r refl)
  no_writer_blocked p h = refl

  pub Wakes-Signalled :
      {sig : Signal} {ps qs : List (Pc V)} → Wakes sig ps qs → Signalled sig (census ps) (census qs)
  Wakes-Signalled {sig = nobody} {ps} (one i r h on) = cc
  Wakes-Signalled {sig = readers} {ps} (one i r h on) =
      ground (arith, set-Moved ps i (blocked r) (woken r) h)
  Wakes-Signalled {sig = writers} {ps} (one i r h on) =
      ground (arith, set-Moved ps i (blocked r) (woken r) h)
  Wakes-Signalled {sig = nobody} {ps} (none_blocked h) = ground arith
  Wakes-Signalled {sig = readers} {ps} (none_blocked h) =
      let z =
        total-zero (λ p. (share p).readers_blocked) ps
          (λ i p e. no_reader_blocked p (λ r f. h i r (e ∙ ap some f))) in
      unfold census in ground (arith, z)
  Wakes-Signalled {sig = writers} {ps} (none_blocked h) =
      let z =
        total-zero (λ p. (share p).writers_blocked) ps
          (λ i p e. no_writer_blocked p (λ r f. h i r (e ∙ ap some f))) in
      unfold census in ground (arith, z)

  all_of : Pc V → ℕ
  all_of p =
      (share p).reading
      + (share p).writing
      + (share p).readers_blocked
      + (share p).readers_woken
      + (share p).writers_blocked
      + (share p).writers_woken

  all_of-le : (p : Pc V) → all_of p ≤ 1
  unfolding all_of
  all_of-le idle = omega arith
  all_of-le (blocked r) = ground arith
  all_of-le (woken r) = ground arith
  all_of-le (inside r) = ground arith
  all_of-le (working r m) = ground arith
  all_of-le (finished r a) = ground arith

  census-le :
      (ps : List (Pc V))
      → (census ps).reading
          + (census ps).writing
          + (census ps).readers_blocked
          + (census ps).readers_woken
          + (census ps).writers_blocked
          + (census ps).writers_woken
        ≤ length ps
  unfolding census total all_of
  census-le [] = omega arith
  census-le (p ∷ ps) = omega (arith, census-le ps, all_of-le p)

  pub census-IsSmall : (ps : List (Pc V)) → length ps < 2 ^ 31 → IsSmall (census ps)
  census-IsSmall ps h = omega (arith, census-le ps)
