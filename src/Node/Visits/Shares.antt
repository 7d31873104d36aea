-- ===== src/Node/Visits/Shares.antt =====
-- What a step of one thread changes in the numbers of threads at a node.
use mimuw_pw_tasks.Prelude.{
  ℕ, ◌+◌, ◌≤◌, ◌≡◌, ap, List, [], ◌∷◌, arith, some, get_elem?, set, length,
}
use mimuw_pw_tasks.Prelude.Counting.{total, total-set, le-total}
use mimuw_pw_tasks.Node.Visits.{
  Visit, away, reader_arrived, reader_blocked, reader_woken, reader_entered, reader_counted,
  reader_refused, reader_inside, below, turned_back, writer_arrived, writer_blocked, writer_woken,
  writer_entered, writer_waiting, writer_asleep, writer_passed, writer_refused, writer_inside,
  unlinked, discarding, discarder_asleep, released, discarded, removed, freeing, renaming,
}
use mimuw_pw_tasks.Node.Visits.Census.{Census, share, census}

-- `c'` is `c` with one share `p` replaced by `q`
abbrev pub Replaced : ℕ → ℕ → ℕ → ℕ → Type 0
Replaced c p q c' = (p ≤ c) × (c' + p ≡ c + q)

-- Two censuses that differ by one thread, which had the share `p` and has `q`.
pub record Moved (c p q c' : Census) : Type 0 where
  pub holding : Replaced c.holding p.holding q.holding c'.holding
  pub staying : Replaced c.staying p.staying q.staying c'.staying
  pub reading : Replaced c.reading p.reading q.reading c'.reading
  pub writing : Replaced c.writing p.writing q.writing c'.writing
  pub counted : Replaced c.counted p.counted q.counted c'.counted
  pub at_work : Replaced c.at_work p.at_work q.at_work c'.at_work
  pub not_alone : Replaced c.not_alone p.not_alone q.not_alone c'.not_alone
  pub alone : Replaced c.alone p.alone q.alone c'.alone
  pub accompanied : Replaced c.accompanied p.accompanied q.accompanied c'.accompanied
  pub unlinking : Replaced c.unlinking p.unlinking q.unlinking c'.unlinking
  pub discards : Replaced c.discards p.discards q.discards c'.discards
  pub releases : Replaced c.releases p.releases q.releases c'.releases
  pub ends : Replaced c.ends p.ends q.ends c'.ends
  pub frees : Replaced c.frees p.frees q.frees c'.frees

replaced :
    (f : Census → ℕ) (vs : List Visit) (i : ℕ) (v w : Visit)
    → get_elem? vs i ≡ some v
    → Replaced
        (total (λ u. f (share u)) vs)
        (f (share v))
        (f (share w))
        (total (λ u. f (share u)) (set vs i w))
replaced f vs i v w h =
    (le-total (λ u. f (share u)) vs i v h, total-set (λ u. f (share u)) vs i v w h)

pub set-Moved :
    (vs : List Visit) (i : ℕ) (v w : Visit)
    → get_elem? vs i ≡ some v
    → Moved (census vs) (share v) (share w) (census (set vs i w))
unfolding census
set-Moved vs i v w h = record {
  holding = replaced (λ c. c.holding) vs i v w h;
  staying = replaced (λ c. c.staying) vs i v w h;
  reading = replaced (λ c. c.reading) vs i v w h;
  writing = replaced (λ c. c.writing) vs i v w h;
  counted = replaced (λ c. c.counted) vs i v w h;
  at_work = replaced (λ c. c.at_work) vs i v w h;
  not_alone = replaced (λ c. c.not_alone) vs i v w h;
  alone = replaced (λ c. c.alone) vs i v w h;
  accompanied = replaced (λ c. c.accompanied) vs i v w h;
  unlinking = replaced (λ c. c.unlinking) vs i v w h;
  discards = replaced (λ c. c.discards) vs i v w h;
  releases = replaced (λ c. c.releases) vs i v w h;
  ends = replaced (λ c. c.ends) vs i v w h;
  frees = replaced (λ c. c.frees) vs i v w h;
}

-- what holds of any census of so many threads
pub record IsCensus (threads : ℕ) (c : Census) : Type 0 where
  pub few : c.holding ≤ threads
  pub holding_all : c.holding ≡ c.staying + c.releases + c.ends
  pub counted_hold : c.counted ≤ c.holding
  pub readers_hold : c.reading ≤ c.holding
  pub writers_hold : c.writing ≤ c.holding
  pub work_counted : c.at_work + c.unlinking + c.discards + c.releases + c.ends ≤ c.counted
  pub counted_all : c.counted ≡ c.alone + c.accompanied
  pub writing_all : c.writing ≡ c.alone + c.not_alone
  pub ends_hold : c.ends ≤ c.holding

share-IsCensus : (v : Visit) → IsCensus 1 (share v)
share-IsCensus away = omega arith
share-IsCensus reader_arrived = omega arith
share-IsCensus reader_blocked = omega arith
share-IsCensus reader_woken = omega arith
share-IsCensus reader_entered = omega arith
share-IsCensus reader_counted = omega arith
share-IsCensus reader_refused = omega arith
share-IsCensus reader_inside = omega arith
share-IsCensus below = omega arith
share-IsCensus turned_back = omega arith
share-IsCensus writer_arrived = omega arith
share-IsCensus writer_blocked = omega arith
share-IsCensus writer_woken = omega arith
share-IsCensus writer_entered = omega arith
share-IsCensus writer_waiting = omega arith
share-IsCensus writer_asleep = omega arith
share-IsCensus writer_passed = omega arith
share-IsCensus writer_refused = omega arith
share-IsCensus writer_inside = omega arith
share-IsCensus unlinked = omega arith
share-IsCensus discarding = omega arith
share-IsCensus discarder_asleep = omega arith
share-IsCensus released = omega arith
share-IsCensus discarded = omega arith
share-IsCensus removed = omega arith
share-IsCensus freeing = omega arith
share-IsCensus renaming = omega arith

pub census-IsCensus : (vs : List Visit) → IsCensus (length vs) (census vs)
unfolding census total
census-IsCensus [] = omega arith
census-IsCensus (v ∷ vs) = omega (arith, census-IsCensus vs, share-IsCensus v)

total-same :
    (f : Census → ℕ) (vs : List Visit) (i : ℕ) (v w : Visit)
    → get_elem? vs i ≡ some v
    → share w ≡ share v
    → total (λ u. f (share u)) (set vs i w) ≡ total (λ u. f (share u)) vs
total-same f vs i v w h e = omega (arith, total-set (λ u. f (share u)) vs i v w h, ap f e)

-- A thread that moves within its share changes nothing.
pub census-same :
    (vs : List Visit) (i : ℕ) (v w : Visit)
    → get_elem? vs i ≡ some v
    → share w ≡ share v
    → census (set vs i w) ≡ census vs
unfolding census
census-same vs i v w h e = λ k. record {
  holding = total-same (λ c. c.holding) vs i v w h e k;
  staying = total-same (λ c. c.staying) vs i v w h e k;
  reading = total-same (λ c. c.reading) vs i v w h e k;
  writing = total-same (λ c. c.writing) vs i v w h e k;
  counted = total-same (λ c. c.counted) vs i v w h e k;
  at_work = total-same (λ c. c.at_work) vs i v w h e k;
  not_alone = total-same (λ c. c.not_alone) vs i v w h e k;
  alone = total-same (λ c. c.alone) vs i v w h e k;
  accompanied = total-same (λ c. c.accompanied) vs i v w h e k;
  unlinking = total-same (λ c. c.unlinking) vs i v w h e k;
  discards = total-same (λ c. c.discards) vs i v w h e k;
  releases = total-same (λ c. c.releases) vs i v w h e k;
  ends = total-same (λ c. c.ends) vs i v w h e k;
  frees = total-same (λ c. c.frees) vs i v w h e k;
}
