-- ===== src/ReadersWriters/Tests.antt =====
-- The readers and writers of Lab_9/readers-writers-template.c at concrete states.
use mimuw_pw_tasks.Prelude.{◌≡◌, refl, arith, [], ◌∷◌}
use mimuw_pw_tasks.ReadersWriters.{
  State, reader_inside, reader_out, writer_waiting, writer_out, thread, reader_comes, writer_comes,
  Reached, begin, next, census, IsCounted, Reached-IsCounted, writer_not_alone,
}

-- one reader is inside, and a writer waits
abbrev contended : State
contended = record {
  library = record { rcount = 1; wcount = 0; rwait = 0; wwait = 1; change = 0 };
  threads = reader_inside ∷ reader_out ∷ reader_out ∷ writer_waiting ∷ writer_out ∷ [];
}

contended-Reached : Reached contended
contended-Reached =
    next (next begin (thread 0 refl (reader_comes refl))) (thread 3 refl (writer_comes refl))

Reached-IsCounted_example : IsCounted contended.library (census contended.threads)
Reached-IsCounted_example = Reached-IsCounted contended-Reached

writer_not_alone_example :
    (s : State) × Reached s
    × (s.library.wcount ≡ 1)
    × (s.library.rcount ≡ 3)
    × ((census s.threads).writing ≡ 1)
    × ((census s.threads).reading ≡ 3)
writer_not_alone_example = writer_not_alone 3 (omega arith)
