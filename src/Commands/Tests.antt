-- ===== src/Commands/Tests.antt =====
-- Tests of src/apply.rs and src/state.rs.
use hyperiondb.Prelude.{ℕ, ◌≤◌, ◌≡◌, ◌⊎◌, refl, true, false, Option, none, some, [], arith}
use hyperiondb.Prelude.Text.{Text, codes}
use hyperiondb.Store.{Read, not_found}
use hyperiondb.Commands.{
  Child, alive, Output, Ended, Command, poll_loop, output_with_timeout, gone, not_started,
}
use hyperiondb.Commands.Deadline.{EndsAt, output_with_timeout-ends}

-- A process that never exits, whose polls take no time.
abbrev stuck : Child
stuck = record { spawns = true; try_wait = λ k. alive; passes = λ k. 0; wait_with_output = none }

output_with_timeout-ends_example :
    (e : Ended) × (output_with_timeout stuck 0 60 4 ≡ some e)
    × (((true ≡ false) × (e ≡ not_started)) ⊎ ((j : ℕ) × (j ≤ 3) × EndsAt stuck j e))
output_with_timeout-ends_example = output_with_timeout-ends stuck 0 60 3 (omega arith)

killed_at_deadline : output_with_timeout stuck 0 60 4 ≡ some (gone 4)
unfolding output_with_timeout poll_loop
killed_at_deadline = refl

-- `psql` prints a number with a line break.
abbrev prints : Command → ℕ → Option Output
prints cmd timeout = some (record { success = true; stdout = codes "41"; stderr = [] })

abbrev empty_disk : ℕ → Read
empty_disk p = not_found

abbrev line : Text
line = codes "leader term=1 "
