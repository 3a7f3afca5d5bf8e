-- ===== src/Probes.antt =====
-- The programs that test a cluster from outside: packages/chaos-writer/src/main.rs, which writes one id
-- after another while faults are injected, and packages/failover-probe/src/main.rs, which asks where
-- writes go. `tokio_postgres` and the file system are parameters.
mod Chaos
mod Routing
mod Tests
use hyperiondb.Prelude.{
  ℕ, zero, suc, ◌+◌, Bool, true, false, Option, none, some, List, [], ◌∷◌, ◌++◌, if◌then◌else◌,
  ◌>>=◌,
}
use hyperiondb.Prelude.Words.{add64}
use hyperiondb.Prelude.Text.{Text, codes}

-- What the writer sees: whether the file that stops it exists at its k-th look, whether a connect
-- succeeds then, and whether `execute` then returns `Ok`. An insert
-- whose `execute` fails may have been committed all the same.
pub record Faults : Type 0 where
  pub stop_file : ℕ → Bool
  pub connects : ℕ → Bool
  pub acks : ℕ → ℕ → Bool

-- Where the writer is: before a connect, with an open connection, or at its end.
pub data Phase : Type 0 where
  connecting : Phase
  inserting : Phase
  ended : Phase

-- `id` is an `i64`, as its 64 bits. The inserts that were tried, each with whether it was acknowledged, and
-- the ids that were printed.
pub record Writer : Type 0 where
  pub phase : Phase
  pub looks : ℕ
  pub id : ℕ
  pub tried : List (ℕ × Bool)
  pub printed : List ℕ

unfoldable pub writer_start : Writer
writer_start = record { phase = connecting; looks = 0; id = 0; tried = []; printed = [] }

module _ (f : Faults) where
  -- The rest of a round of the outer loop, when the file is not there.
  unfoldable pub try_connect : Writer → Writer
  try_connect w =
      if f.connects w.looks
      then record w { phase = inserting; looks = w.looks + 1 }
      else record w { looks = w.looks + 1 }

  -- The rest of a round of the inner loop, when the file is not there.
  unfoldable pub try_insert : Writer → Writer
  try_insert w =
      let id = add64 w.id 1 in
      if f.acks w.looks id
      then record w {
        looks = w.looks + 1;
        id = id;
        tried = w.tried ++ (id, true) ∷ [];
        printed = w.printed ++ id ∷ [];
      }
      else record w {
        phase = connecting;
        looks = w.looks + 1;
        id = id;
        tried = w.tried ++ (id, false) ∷ [];
      }

  -- One look for the file, and what follows it.
  unfoldable pub look : Phase → Writer → Writer
  look connecting w =
      if f.stop_file w.looks then record w { phase = ended; looks = w.looks + 1 } else try_connect w
  look inserting w =
      if f.stop_file w.looks
      then record w { phase = connecting; looks = w.looks + 1 }
      else try_insert w
  look ended w = w

  -- The program, on fuel: a unit for each look.
  unfoldable pub write_ids : ℕ → Writer → Writer
  write_ids zero w = w
  write_ids (suc fuel) w = write_ids fuel (look w.phase w)

-- The arguments, after the name of the program: what they are read as, or none where it panics; and the
-- program on them, on fuel.
module _ {C : Type 0} (from_str : Text → Option C) where
  unfoldable pub writer_args : List Text → Option (C × Text)
  writer_args [] = none
  writer_args (conninfo ∷ []) = none
  writer_args (conninfo ∷ stop_file ∷ more) = do
    config ← from_str conninfo
    some (config, stop_file)

  pub chaos_writer : (C × Text → Faults) → List Text → ℕ → Option Writer
  chaos_writer faults args fuel = do
    a ← writer_args args
    some (write_ids (faults a) fuel writer_start)

-- A session with the node that takes writes: where it is, or none where the query fails or its row is of
-- other types, and whether `execute` of an insert returns `Ok`.
pub record Session : Type 0 where
  pub row : Option (ℕ × Bool × Text)
  pub insert : Text → Bool

-- What the probe prints, whether to standard output or to the error output.
pub data Output : Type 0 where
  bad_conninfo : Output
  no_rw_host : Output
  ok_line : (node : Text) (port : ℕ) (in_recovery : Bool) → Output

-- The inserts that were acknowledged, what was printed, and the exit code; a panic has 101.
pub record ProbeEnd : Type 0 where
  pub inserted : List Text
  pub output : List Output
  pub code : ℕ

abbrev pub ends_with : List Text → List Output → ℕ → ProbeEnd
ends_with inserted output code = record { inserted = inserted; output = output; code = code }

-- `Config::from_str` and `connect` are the parameters.
module _ {C : Type 0} (from_str : Text → Option C) (connect : C → Option Session) where
  unfoldable pub write_through : Session → Text → ProbeEnd
  write_through s label = elim s.row [
    | none ↦ ends_with [] [] 101
    | some (port, in_recovery, node) ↦
        if s.insert (codes "routed-" ++ label)
        then ends_with ((codes "routed-" ++ label) ∷ []) (ok_line node port in_recovery ∷ []) 0
        else ends_with [] [] 101
  ]

  unfoldable pub probe_host : Text → Text → ProbeEnd
  probe_host conninfo label = elim (from_str conninfo) [
    | none ↦ ends_with [] (bad_conninfo ∷ []) 2
    | some config ↦ elim (connect config) [
      | none ↦ ends_with [] (no_rw_host ∷ []) 1
      | some s ↦ write_through s label
    ]
  ]

  -- The program, on its arguments; the label is `x` if it is not given.
  unfoldable pub failover_probe : List Text → ProbeEnd
  failover_probe [] = ends_with [] [] 101
  failover_probe (conninfo ∷ []) = probe_host conninfo (codes "x")
  failover_probe (conninfo ∷ label ∷ more) = probe_host conninfo label
