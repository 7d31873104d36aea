-- ===== src/Node/Visits/Signals.antt =====
-- The threads that wait at a node, and what signals change.
use mimuw_pw_tasks.Prelude.{
  ℕ, ◌+◌, ◌≤◌, ◌<◌, ◌≡◌, refl, ◌∙◌, Bool, true, false, none, some, List, [], ◌∷◌, arith, get_elem?,
  set, length, length-set, ◌⊎◌, inl, inr,
}
use mimuw_pw_tasks.Prelude.Counting.{total, total-set, total-zero, le-total}
use mimuw_pw_tasks.Node.Visits.{
  Visit, away, reader_blocked, reader_woken, writer_blocked, writer_woken, writer_waiting,
  writer_asleep, discarding, discarder_asleep, Signal, readers, writers, private_access, stirred,
  one, none_blocked, AllWake, no_signals, signals,
}
use mimuw_pw_tasks.Node.Visits.Census.{share, census}
use mimuw_pw_tasks.Node.Visits.Shares.{census-same, Replaced}

-- The threads blocked as readers and as writers, and those woken and about to look again; the writers
-- asleep in the second loop, the remover asleep in `node_discard_waiting`, and the threads on their way.
pub record Sleepers : Type 0 where
  pub readers_blocked : ℕ
  pub readers_woken : ℕ
  pub writers_blocked : ℕ
  pub writers_woken : ℕ
  pub asleep : ℕ
  pub discarder : ℕ
  pub moving : ℕ

abbrev pub nobody_rests : Sleepers
nobody_rests = record {
  readers_blocked = 0;
  readers_woken = 0;
  writers_blocked = 0;
  writers_woken = 0;
  asleep = 0;
  discarder = 0;
  moving = 0;
}

-- one thread's share
abbrev pub rest : Visit → Sleepers
rest away = nobody_rests
rest reader_blocked = record nobody_rests { readers_blocked = 1 }
rest reader_woken = record nobody_rests { readers_woken = 1; moving = 1 }
rest writer_blocked = record nobody_rests { writers_blocked = 1 }
rest writer_woken = record nobody_rests { writers_woken = 1; moving = 1 }
rest writer_asleep = record nobody_rests { asleep = 1 }
rest discarder_asleep = record nobody_rests { discarder = 1 }
rest _ = record nobody_rests { moving = 1 }

unfoldable pub sleepers : List Visit → Sleepers
sleepers vs = record {
  readers_blocked = total (λ v. (rest v).readers_blocked) vs;
  readers_woken = total (λ v. (rest v).readers_woken) vs;
  writers_blocked = total (λ v. (rest v).writers_blocked) vs;
  writers_woken = total (λ v. (rest v).writers_woken) vs;
  asleep = total (λ v. (rest v).asleep) vs;
  discarder = total (λ v. (rest v).discarder) vs;
  moving = total (λ v. (rest v).moving) vs;
}

-- Two censuses that differ by one thread, which had the share `p` and has `q`.
pub record Shifted (c p q c' : Sleepers) : Type 0 where
  pub readers_blocked :
      Replaced c.readers_blocked p.readers_blocked q.readers_blocked c'.readers_blocked
  pub readers_woken : Replaced c.readers_woken p.readers_woken q.readers_woken c'.readers_woken
  pub writers_blocked :
      Replaced c.writers_blocked p.writers_blocked q.writers_blocked c'.writers_blocked
  pub writers_woken : Replaced c.writers_woken p.writers_woken q.writers_woken c'.writers_woken
  pub asleep : Replaced c.asleep p.asleep q.asleep c'.asleep
  pub discarder : Replaced c.discarder p.discarder q.discarder c'.discarder
  pub moving : Replaced c.moving p.moving q.moving c'.moving

replaced :
    (f : Sleepers → ℕ) (vs : List Visit) (i : ℕ) (v w : Visit)
    → get_elem? vs i ≡ some v
    → Replaced
        (total (λ u. f (rest u)) vs)
        (f (rest v))
        (f (rest w))
        (total (λ u. f (rest u)) (set vs i w))
replaced f vs i v w h =
    (le-total (λ u. f (rest u)) vs i v h, total-set (λ u. f (rest u)) vs i v w h)

pub set-Shifted :
    (vs : List Visit) (i : ℕ) (v w : Visit)
    → get_elem? vs i ≡ some v
    → Shifted (sleepers vs) (rest v) (rest w) (sleepers (set vs i w))
unfolding sleepers
set-Shifted vs i v w h = record {
  readers_blocked = replaced (λ c. c.readers_blocked) vs i v w h;
  readers_woken = replaced (λ c. c.readers_woken) vs i v w h;
  writers_blocked = replaced (λ c. c.writers_blocked) vs i v w h;
  writers_woken = replaced (λ c. c.writers_woken) vs i v w h;
  asleep = replaced (λ c. c.asleep) vs i v w h;
  discarder = replaced (λ c. c.discarder) vs i v w h;
  moving = replaced (λ c. c.moving) vs i v w h;
}

abbrev pub to_readers : List Signal → Bool
to_readers [] = false
to_readers (readers ∷ sigs) = true
to_readers (writers ∷ sigs) = to_readers sigs
to_readers (private_access ∷ sigs) = to_readers sigs

abbrev pub to_writers : List Signal → Bool
to_writers [] = false
to_writers (readers ∷ sigs) = to_writers sigs
to_writers (writers ∷ sigs) = true
to_writers (private_access ∷ sigs) = to_writers sigs

abbrev pub to_private : List Signal → Bool
to_private [] = false
to_private (readers ∷ sigs) = to_private sigs
to_private (writers ∷ sigs) = to_private sigs
to_private (private_access ∷ sigs) = true

-- what signals change
pub record Stirs (sigs : List Signal) (z z' : Sleepers) : Type 0 where
  pub all_readers : z'.readers_blocked + z'.readers_woken ≡ z.readers_blocked + z.readers_woken
  pub all_writers : z'.writers_blocked + z'.writers_woken ≡ z.writers_blocked + z.writers_woken
  pub more_readers : z.readers_woken ≤ z'.readers_woken
  pub more_writers : z.writers_woken ≤ z'.writers_woken
  pub fewer_asleep : z'.asleep ≤ z.asleep
  pub fewer_discarders : z'.discarder ≤ z.discarder
  pub wakes_reader : to_readers sigs ≡ true → 0 < z.readers_blocked → 0 < z'.readers_woken
  pub wakes_writer : to_writers sigs ≡ true → 0 < z.writers_blocked → 0 < z'.writers_woken
  pub wakes_private :
      to_private sigs ≡ true
      → 0 < z.asleep + z.discarder
      → z'.asleep + z'.discarder < z.asleep + z.discarder

none_of :
    (sig : Signal) (vs : List Visit) (f : Visit → ℕ)
    → ((v : Visit) → stirred sig v ≡ none → f v ≡ 0)
    → ((i : ℕ) (v : Visit) → get_elem? vs i ≡ some v → stirred sig v ≡ none)
    → total f vs ≡ 0
none_of sig vs f e h = total-zero f vs (λ i v at. e v (h i v at))

stirred_rest :
    (sig : Signal) (v w : Visit)
    → stirred sig v ≡ some w
    → ((sig ≡ readers) × (v ≡ reader_blocked) × (w ≡ reader_woken))
      ⊎ (((sig ≡ writers) × (v ≡ writer_blocked) × (w ≡ writer_woken))
          ⊎ (((sig ≡ private_access) × (v ≡ writer_asleep) × (w ≡ writer_waiting))
              ⊎ ((sig ≡ private_access) × (v ≡ discarder_asleep) × (w ≡ discarding))))
stirred_rest readers reader_blocked w h = inl (refl, refl, cc)
stirred_rest readers v w h = cc
stirred_rest writers writer_blocked w h = inr (inl (refl, refl, cc))
stirred_rest writers v w h = cc
stirred_rest private_access writer_asleep w h = inr (inr (inl (refl, refl, cc)))
stirred_rest private_access discarder_asleep w h = inr (inr (inr (refl, refl, cc)))
stirred_rest private_access v w h = cc

stirred-share : (sig : Signal) (v w : Visit) → stirred sig v ≡ some w → share w ≡ share v
stirred-share sig v w h = elim (stirred_rest sig v w h) [
  | inl (_, e, f) ↦ rw (e, f) refl
  | inr (inl (_, e, f)) ↦ rw (e, f) refl
  | inr (inr (inl (_, e, f))) ↦ rw (e, f) refl
  | inr (inr (inr (_, e, f))) ↦ rw (e, f) refl
]

no_reader : (v : Visit) → stirred readers v ≡ none → (rest v).readers_blocked ≡ 0
no_reader reader_blocked h = cc
no_reader v h = refl

no_writer : (v : Visit) → stirred writers v ≡ none → (rest v).writers_blocked ≡ 0
no_writer writer_blocked h = cc
no_writer v h = refl

nobody_asleep :
    (v : Visit) → stirred private_access v ≡ none → (rest v).asleep + (rest v).discarder ≡ 0
nobody_asleep writer_asleep h = cc
nobody_asleep discarder_asleep h = cc
nobody_asleep v h = omega arith

total-two :
    (f g : Visit → ℕ) (vs : List Visit) → total (λ v. f v + g v) vs ≡ total f vs + total g vs
unfolding total
total-two f g [] = omega arith
total-two f g (v ∷ vs) = omega (arith, total-two f g vs)

one-Stirs :
    (sig : Signal) (vs : List Visit) (i : ℕ) (v w : Visit)
    → get_elem? vs i ≡ some v
    → stirred sig v ≡ some w
    → Stirs (sig ∷ []) (sleepers vs) (sleepers (set vs i w))
one-Stirs sig vs i v w at h =
    let m = set-Shifted vs i v w at in
    elim (stirred_rest sig v w h) [
      | inl (s, e, f) ↦ ground arith
      | inr (inl (s, e, f)) ↦ ground arith
      | inr (inr (inl (s, e, f))) ↦ ground arith
      | inr (inr (inr (s, e, f))) ↦ ground arith
    ]

none-Stirs :
    (sig : Signal) (vs : List Visit)
    → ((i : ℕ) (v : Visit) → get_elem? vs i ≡ some v → stirred sig v ≡ none)
    → Stirs (sig ∷ []) (sleepers vs) (sleepers vs)
unfolding sleepers
none-Stirs readers vs h =
    let z = none_of readers vs (λ v. (rest v).readers_blocked) no_reader h in ground arith
none-Stirs writers vs h =
    let z = none_of writers vs (λ v. (rest v).writers_blocked) no_writer h in ground arith
none-Stirs private_access vs h =
    let z = none_of private_access vs (λ v. (rest v).asleep + (rest v).discarder) nobody_asleep h in
    let two = total-two (λ v. (rest v).asleep) (λ v. (rest v).discarder) vs in ground arith

Stirs-append :
    (sig : Signal) (sigs : List Signal) (a b c : Sleepers)
    → Stirs (sig ∷ []) a b
    → Stirs sigs b c
    → Stirs (sig ∷ sigs) a c
Stirs-append readers sigs a b c p q = ground arith
Stirs-append writers sigs a b c p q = ground arith
Stirs-append private_access sigs a b c p q = ground arith

pub AllWake-Stirs :
    {sigs : List Signal} {vs ws : List Visit}
    → AllWake sigs vs ws
    → Stirs sigs (sleepers vs) (sleepers ws)
AllWake-Stirs no_signals = ground arith
AllWake-Stirs {sigs = sig ∷ sigs} {vs} {ws} (signals {ws = us} (one {v} {w} i at h) more) =
    Stirs-append sig sigs (sleepers vs) (sleepers us) (sleepers ws) (one-Stirs sig vs i v w at h)
      (AllWake-Stirs more)
AllWake-Stirs {sigs = sig ∷ sigs} {vs} {ws} (signals (none_blocked h) more) =
    Stirs-append sig sigs (sleepers vs) (sleepers vs) (sleepers ws) (none-Stirs sig vs h)
      (AllWake-Stirs more)

pub AllWake-census :
    {sigs : List Signal} {vs ws : List Visit} → AllWake sigs vs ws → census ws ≡ census vs
AllWake-census no_signals = refl
AllWake-census {sigs = sig ∷ sigs} {vs} (signals (one {v} {w} i at h) more) =
    AllWake-census more ∙ census-same vs i v w at (stirred-share sig v w h)
AllWake-census (signals (none_blocked h) more) = AllWake-census more

pub length-AllWake :
    {sigs : List Signal} {vs ws : List Visit} → AllWake sigs vs ws → length ws ≡ length vs
length-AllWake no_signals = refl
length-AllWake {vs} (signals (one {w} i at h) more) = length-AllWake more ∙ length-set vs i w
length-AllWake (signals (none_blocked h) more) = length-AllWake more
