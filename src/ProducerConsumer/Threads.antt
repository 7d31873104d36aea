-- ===== src/ProducerConsumer/Threads.antt =====
-- The producer and the consumer, interleaved.
use mathlib.Core.List.{append_assoc}
use mimuw_pw_tasks.Prelude.{
  ℕ, zero, suc, ◌<◌, ◌≤◌, ◌≡◌, inl, inr, refl, sym, ap, ◌∙◌, Bool, true, false, Bool-cases, none,
  ◌+◌, ◌==◌, get_elem?, dec_lt, some, List, [], ◌∷◌, ◌++◌, arith, length, length-append,
  get_elem?-append, get_elem?-append_here, ltb, if◌then◌else◌,
}
use mimuw_pw_tasks.ProducerConsumer.{Prodcons, Signal, notempty, notfull, init, over, put, get}
use mimuw_pw_tasks.ProducerConsumer.Queue.{
  contents, IsValid, init-IsValid, init-empty, put-queue, get-queue,
}

-- what a producer of `n` integers puts in its round `i`: `i`, and OVER behind the last
abbrev pub nth_item : ℕ → ℕ → ℕ
nth_item n i = if ltb i n then i else over

-- the items of the first `k` rounds
unfoldable pub sent : ℕ → ℕ → List ℕ
sent n zero = []
sent n (suc k) = sent n k ++ nth_item n k ∷ []

pub record System : Type 0 where
  pub buffer : Prodcons
  pub rounds : ℕ  -- of the producer
  pub received : List ℕ  -- by the consumer
  pub finished : Bool  -- has the consumer left its loop
  -- is the thread asleep in `pthread_cond_wait`, for `notfull` and for `notempty`
  pub producer_asleep : Bool
  pub consumer_asleep : Bool

-- `pthread_cond_signal`: only the producer waits for `notfull`, and only the consumer for `notempty`.
abbrev pub signal : Signal → System → System
signal notempty s = record s { consumer_asleep = false }
signal notfull s = record s { producer_asleep = false }

-- A stretch of either thread; a thread that is asleep takes none.
pub data Step (n : ℕ) (s : System) : System → Type 0 where
  -- the loop of `producer`, and the `put` of OVER behind it
  produce :
      {b : Prodcons} {sig : Signal}
      → s.producer_asleep ≡ false
      → s.rounds ≤ n
      → put s.buffer (nth_item n s.rounds) ≡ some (b, sig)
      → Step n s (signal sig (record s { buffer = b; rounds = suc (s.rounds) }))
  produce_waits :
      s.producer_asleep ≡ false
      → s.rounds ≤ n
      → put s.buffer (nth_item n s.rounds) ≡ none
      → Step n s (record s { producer_asleep = true })
  -- the loop of `consumer`
  consume :
      {item : ℕ} {b : Prodcons} {sig : Signal}
      → s.consumer_asleep ≡ false
      → s.finished ≡ false
      → get s.buffer ≡ some (item, b, sig)
      → Step n s (
          signal sig
            (record s { buffer = b; received = s.received ++ item ∷ []; finished = item == over }))
  consume_waits :
      s.consumer_asleep ≡ false
      → s.finished ≡ false
      → get s.buffer ≡ none
      → Step n s (record s { consumer_asleep = true })

-- A thread wakes with no signal, as POSIX allows.
pub data Stir (s : System) : System → Type 0 where
  producer_stirs : Stir s (record s { producer_asleep = false })
  consumer_stirs : Stir s (record s { consumer_asleep = false })

abbrev pub start : System
start = record {
  buffer = init;
  rounds = 0;
  received = [];
  finished = false;
  producer_asleep = false;
  consumer_asleep = false;
}

pub data Reach (n : ℕ) : System → Type 0 where
  begin : Reach n start
  next : {s t : System} → Reach n s → Step n s t → Reach n t
  stir : {s t : System} → Reach n s → Stir s t → Reach n t

pub record IsInOrder (n : ℕ) (s : System) : Type 0 where
  pub valid : IsValid s.buffer
  pub order : s.received ++ contents s.buffer ≡ sent n s.rounds
  pub at_most : s.rounds ≤ suc n
  pub going : s.finished ≡ false → length s.received ≤ n
  pub gone : s.finished ≡ true → length s.received ≡ suc n
  -- who is asleep would wait again
  pub asleep_full : s.producer_asleep ≡ true → length (contents s.buffer) ≡ 15
  pub asleep_empty : s.consumer_asleep ≡ true → contents s.buffer ≡ []

length-sent : (n k : ℕ) → length (sent n k) ≡ k
unfolding sent
length-sent n zero = refl
length-sent n (suc k) = omega (arith, length-append (sent n k) (nth_item n k ∷ []), length-sent n k)

get_elem?-sent : (n k i : ℕ) → i < k → get_elem? (sent n k) i ≡ some (nth_item n i)
unfolding sent
get_elem?-sent n zero i h = elim h [ ]
get_elem?-sent n (suc k) i h = elim (dec_lt i k) [
  | yes p ↦
      get_elem?-append (sent n k) (nth_item n k ∷ []) i (omega (arith, length-sent n k))
      ∙ get_elem?-sent n k i p
  | no q ↦
      let e : i ≡ length (sent n k) = omega (arith, length-sent n k) in
      let f : k ≡ i = omega (arith, length-sent n k) in
      ap (get_elem? (sent n k ++ nth_item n k ∷ [])) e
      ∙ get_elem?-append_here (sent n k) (nth_item n k) []
      ∙ ap (λ j. some (nth_item n j)) f
]

Step-IsInOrder : {n : ℕ} {s t : System} → n < over → Step n s t → IsInOrder n s → IsInOrder n t
Step-IsInOrder {n} {s} small (produce {b} {sig} awake more e) g =
    elim (put-queue s.buffer g.valid (nth_item n s.rounds)) [
      | inl (n, _) ↦ cc
      | inr (b', p, _, c, v) ↦
          let same : b ≡ b' = cc in
          let which : sig ≡ notempty = cc in
          rw (same, which)
            (record {
              valid = v;
              order =
                  ap (λ l. s.received ++ l) c
                  ∙ sym (append_assoc s.received (contents s.buffer) (nth_item n s.rounds ∷ []))
                  ∙ ap (λ l. l ++ nth_item n s.rounds ∷ []) g.order
                  ∙ (unfold sent in refl);
              at_most = omega arith;
              going = g.going;
              gone = g.gone;
              asleep_full = λ h. cc;
              asleep_empty = λ h. cc;
            })
    ]
Step-IsInOrder {n} {s} small (produce_waits awake more e) g =
    elim (put-queue s.buffer g.valid (nth_item n s.rounds)) [
      | inl (_, full) ↦ record {
        valid = g.valid;
        order = g.order;
        at_most = g.at_most;
        going = g.going;
        gone = g.gone;
        asleep_full = λ h. full;
        asleep_empty = g.asleep_empty;
      }
      | inr (b', p, _, _, _) ↦ cc
    ]
Step-IsInOrder {n} {s} small (consume_waits awake open_loop e) g =
    elim (get-queue s.buffer g.valid) [
      | inl (_, empty) ↦ record {
        valid = g.valid;
        order = g.order;
        at_most = g.at_most;
        going = g.going;
        gone = g.gone;
        asleep_full = g.asleep_full;
        asleep_empty = λ h. empty;
      }
      | inr (item', b', p, _, _) ↦ cc
    ]
Step-IsInOrder {n} {s} small (consume {item} {b} {sig} awake open_loop e) g =
    elim (get-queue s.buffer g.valid) [
      | inl (n, _) ↦ cc
      | inr (item', b', p, c, v) ↦
          let same : b ≡ b' = cc in
          let took : item ≡ item' = cc in
          let which_signal : sig ≡ notfull = cc in
          let whole : s.received ++ item' ∷ contents b' ≡ sent n s.rounds =
            ap (λ l. s.received ++ l) (sym c) ∙ g.order in
          let room : length s.received < s.rounds = omega (
            arith,
            ap length whole,
            length-append s.received (item' ∷ contents b'),
            length-sent n s.rounds,
          ) in
          let which : item' ≡ nth_item n (length s.received) =
            let both : some item' ≡ some (nth_item n (length s.received)) =
              sym (get_elem?-append_here s.received item' (contents b'))
              ∙ ap (λ l. get_elem? l (length s.received)) whole
              ∙ get_elem?-sent n s.rounds (length s.received) room in
            cc in
          let longer : length (s.received ++ item' ∷ []) ≡ suc (length s.received) =
            omega (arith, length-append s.received (item' ∷ [])) in
          rw (same, took, which_signal)
            (record {
              valid = v;
              order = append_assoc s.received (item' ∷ []) (contents b') ∙ whole;
              at_most = g.at_most;
              going = λ h. ground (arith, longer, which, g.going open_loop);
              gone = λ h. ground (arith, longer, which, g.going open_loop);
              asleep_full = λ h. cc;
              asleep_empty = λ h. cc;
            })
    ]

Stir-IsInOrder : {n : ℕ} {s t : System} → Stir s t → IsInOrder n s → IsInOrder n t
Stir-IsInOrder producer_stirs g = record {
  valid = g.valid;
  order = g.order;
  at_most = g.at_most;
  going = g.going;
  gone = g.gone;
  asleep_full = λ h. cc;
  asleep_empty = g.asleep_empty;
}
Stir-IsInOrder consumer_stirs g = record {
  valid = g.valid;
  order = g.order;
  at_most = g.at_most;
  going = g.going;
  gone = g.gone;
  asleep_full = g.asleep_full;
  asleep_empty = λ h. cc;
}

-- In every state of a producer of `n` integers, `n` below OVER as a bit pattern (10000 in the
-- program), what the consumer has received and behind it what the buffer holds is what the producer
-- has sent, in order, none lost and none twice. The consumer has received at most `n` items while it
-- is in its loop, and `n` + 1 when it has left it.
pub Reach-IsInOrder : {n : ℕ} {s : System} → n < over → Reach n s → IsInOrder n s
Reach-IsInOrder small begin = record {
  valid = init-IsValid;
  order = init-empty ∙ (unfold sent in refl);
  at_most = omega arith;
  going = λ h. omega arith;
  gone = λ h. cc;
  asleep_full = λ h. cc;
  asleep_empty = λ h. cc;
}
Reach-IsInOrder small (next r st) = Step-IsInOrder small st (Reach-IsInOrder small r)
Reach-IsInOrder small (stir r st) = Stir-IsInOrder st (Reach-IsInOrder small r)

-- As long as the consumer has not left its loop, one of the two threads is awake and can put or get an
-- item, with no further signal: they never wait for each other, and no signal is lost. The number of
-- integers is below OVER as a bit pattern.
pub Reach-goes_on :
    {n : ℕ} {s : System}
    → n < over
    → Reach n s
    → s.finished ≡ false
    → (t : System) × Step n s t
      × (t.rounds + length t.received ≡ suc (s.rounds + length s.received))
Reach-goes_on {n} {s} small r more =
    let g = Reach-IsInOrder small r in
    elim (get-queue s.buffer g.valid) [
      | inr (item, b, e, took, _) ↦
          let awake : s.consumer_asleep ≡ false = elim (Bool-cases s.consumer_asleep) [
            | inl h ↦ cc (g.asleep_empty h)
            | inr h ↦ h
          ] in
          (_, consume awake more e, omega (arith, length-append s.received (item ∷ [])))
      | inl (_, empty) ↦ elim (put-queue s.buffer g.valid (nth_item n s.rounds)) [
        | inl (_, full) ↦ absurd (omega (arith, ap length empty))
        | inr (b, e, _, _, _) ↦
            let awake : s.producer_asleep ≡ false = elim (Bool-cases s.producer_asleep) [
              | inl h ↦ absurd (omega (arith, g.asleep_full h, ap length empty))
              | inr h ↦ h
            ] in
            (
              _,
              produce awake
                  (omega (
                    arith,
                    g.going more,
                    ap length g.order,
                    ap length empty,
                    length-sent n s.rounds,
                    length-append s.received (contents s.buffer),
                  ))
                  e,
              omega arith,
            )
      ]
    ]
