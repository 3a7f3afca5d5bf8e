-- ===== src/Probes/Tests.antt =====
-- A writer whose second insert fails, and a probe of a host that takes writes.
use hyperiondb.Prelude.{◌+◌, ◌≡◌, refl, true, false, not, some, [], ◌∷◌, leb, ◌==◌, le→leb}
use hyperiondb.Prelude.Text.{Text, codes}
use hyperiondb.Probes.{
  Faults, ended, writer_start, look, try_connect, try_insert, write_ids, Session,
}
use hyperiondb.Probes.Chaos.{write_ids-ends}

-- The look 2 finds a lost connection, and the file is there from look 6 on.
abbrev faulty : Faults
faulty = record { stop_file = λ k. leb 6 k; connects = λ k. true; acks = λ k id. not (k == 2) }

three_printed : (write_ids faulty 8 writer_start).printed ≡ 1 ∷ 3 ∷ 4 ∷ []
unfolding write_ids look try_connect try_insert writer_start
three_printed = refl

write_ids-ends_example : (write_ids faulty (6 + 2) writer_start).phase ≡ ended
write_ids-ends_example = write_ids-ends faulty 6 (λ k le. le→leb 6 k le)

abbrev host : Session
host = record { row = some (5432, false, codes "2"); insert = λ t. true }
