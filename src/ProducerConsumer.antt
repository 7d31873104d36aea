-- ===== src/ProducerConsumer.antt =====
-- Lab_9/producer-consumer.c: a circular buffer between a producer and a consumer. The mutex is held
-- from the start of `put` and of `get` to the end or to a wait, so each stretch is one function, with
-- its signal. A thread sleeps in its wait until the signal, and may wake with no signal.
pub mod Queue
pub mod Threads
mod Tests
use mimuw_pw_tasks.Prelude.{
  ℕ, ◌+◌, ◌-◌, ◌%◌, ◌^◌, Bool, Option, none, some, List, [], ◌∷◌, leb, ◌==◌, if◌then◌else◌, get_or,
  set, replicate,
}

abbrev pub buffer_size : ℕ
buffer_size = 16

-- `OVER`, which is -1, as a bit pattern
abbrev pub over : ℕ
over = 2 ^ 32 - 1

pub record Prodcons : Type 0 where
  pub buffer : List ℕ
  pub readpos : ℕ
  pub writepos : ℕ

-- `init`, over the zeros of a static variable
unfoldable pub init : Prodcons
init = record { buffer = replicate buffer_size 0; readpos = 0; writepos = 0 }

-- `pos++; if (pos >= BUFFER_SIZE) pos = 0;`
abbrev pub advance : ℕ → ℕ
advance pos = if leb buffer_size (pos + 1) then 0 else pos + 1

-- the condition variables
pub data Signal : Type 0 where
  notempty notfull : Signal

-- `put` from the test of its loop on, with its signal; `none` where it waits for `notfull`
unfoldable pub put : Prodcons → ℕ → Option (Prodcons × Signal)
put b item =
    if (b.writepos + 1) % buffer_size == b.readpos
    then none
    else some (
      record b { buffer = set b.buffer b.writepos item; writepos = advance b.writepos },
      notempty,
    )

-- `get` from the test of its loop on, with its signal; `none` where it waits for `notempty`
unfoldable pub get : Prodcons → Option (ℕ × Prodcons × Signal)
get b =
    if b.writepos == b.readpos
    then none
    else some (get_or b.buffer b.readpos 0, record b { readpos = advance b.readpos }, notfull)
