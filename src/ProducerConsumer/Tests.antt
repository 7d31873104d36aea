-- ===== src/ProducerConsumer/Tests.antt =====
-- The theorems on the circular buffer where the consumer has come first, and after one item.
use mimuw_pw_tasks.Prelude.{◌+◌, ◌≡◌, length, refl, true, false, [], ◌∷◌, arith, replicate}
use mimuw_pw_tasks.ProducerConsumer.{init, put, get, over}
use mimuw_pw_tasks.ProducerConsumer.Threads.{
  System, Step, produce, consume, consume_waits, start, Reach, begin, next, IsInOrder,
  Reach-IsInOrder, Reach-goes_on,
}

abbrev produced : System
produced = record {
  buffer = record init { writepos = 1 };
  rounds = 1;
  received = [];
  finished = false;
  producer_asleep = false;
  consumer_asleep = false;
}

produced-Reach : Reach 1 produced
unfolding put get init
produced-Reach =
    let asleep : Reach 1 (record start { consumer_asleep = true }) =
      next begin (consume_waits refl refl refl) in
    next asleep (produce refl (omega arith) refl)

abbrev consumed : System
consumed = record {
  buffer = record init { readpos = 1; writepos = 1 };
  rounds = 1;
  received = 0 ∷ [];
  finished = false;
  producer_asleep = false;
  consumer_asleep = false;
}

consumed-Reach : Reach 1 consumed
unfolding get init
consumed-Reach = next produced-Reach (consume refl refl refl)

Reach-IsInOrder_example : IsInOrder 1 consumed
Reach-IsInOrder_example = Reach-IsInOrder (omega arith) consumed-Reach

Reach-goes_on_example : (t : System) × Step 1 consumed t × (t.rounds + length t.received ≡ 3)
Reach-goes_on_example = Reach-goes_on (omega arith) consumed-Reach refl

-- the whole run of a producer of one integer
abbrev ended : System
ended = record {
  buffer = record { buffer = 0 ∷ over ∷ replicate 14 0; readpos = 2; writepos = 2 };
  rounds = 2;
  received = 0 ∷ over ∷ [];
  finished = true;
  producer_asleep = false;
  consumer_asleep = false;
}
