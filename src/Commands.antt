-- ===== src/Commands.antt =====
-- src/apply.rs: commands that run with a deadline, the statements that go through `psql`, and the
-- heartbeat file; and the status file of src/state.rs.
-- What processes do is a parameter: the answers in `Child`, and `run` for a command as a whole.
mod Deadline
mod Answers
mod Files
mod Tests
use Prim.Native.String.{String}
use hyperiondb.Prelude.{
  ℕ, zero, suc, ◌+◌, Bool, true, false, not, Option, none, some, List, [], ◌∷◌, ◌++◌, ◌⊎◌, inl, inr,
  leb, if◌then◌else◌, ◌>>=◌,
}
use hyperiondb.Prelude.Text.{Text, codes, is_empty, trim}
use hyperiondb.Prelude.Text.Decimal.{parse_i64_max0, show}
use hyperiondb.Config.{Values, Caches, apply_user, apply_db, passfile}
use hyperiondb.Store.{Fs, Read, content, not_found, failed, and_then}

-- `std::process::Output`
pub record Output : Type 0 where
  pub success : Bool
  pub stdout : List ℕ
  pub stderr : List ℕ

-- `try_wait`: `Ok(Some(_))`, `Ok(None)` and `Err(_)`
pub data Poll : Type 0 where
  exited : Poll
  alive : Poll
  broken : Poll

-- Whether the command starts, the answer at each poll and the time that passes at it before the clock is
-- read, and what `wait_with_output` gives.
pub record Child : Type 0 where
  pub spawns : Bool
  pub try_wait : ℕ → Poll
  pub passes : ℕ → ℕ
  pub wait_with_output : Option Output

-- The calls that end the process or wait for it.
pub data Call : Type 0 where
  kill : Call
  wait : Call
  wait_for_output : Call

-- How a command ended: what is returned, how often it was polled, and the calls behind the polls.
pub record Ended : Type 0 where
  pub output : Option Output
  pub polls : ℕ
  pub calls : List Call

abbrev pub gone : ℕ → Ended
gone k = record { output = none; polls = k; calls = kill ∷ wait ∷ [] }

abbrev pub finished : Child → ℕ → Ended
finished c k = record { output = c.wait_with_output; polls = k; calls = wait_for_output ∷ [] }

abbrev pub not_started : Ended
not_started = record { output = none; polls = 0; calls = [] }

-- The milliseconds between two polls.
abbrev pub poll_sleep : ℕ
poll_sleep = 20

-- The loop, on fuel, from the k-th poll at the time `t`: none where the fuel runs out.
unfoldable pub poll_loop : Child → (deadline fuel k t : ℕ) → Option Ended
poll_loop c deadline zero k t = none
poll_loop c deadline (suc fuel) k t =
    let now = t + c.passes k in
    let again = poll_loop c deadline fuel (suc k) (now + poll_sleep) in
    elim (c.try_wait k) [
      | exited ↦ some (finished c (suc k))
      | alive ↦ if leb deadline now then some (gone (suc k)) else again
      | broken ↦ some (gone (suc k))
    ]

-- `now` is the clock when the command has started. One that does not start ends at once.
unfoldable pub output_with_timeout : Child → (now timeout fuel : ℕ) → Option Ended
output_with_timeout c now timeout fuel =
    let polled = poll_loop c (now + timeout) fuel 0 now in
    if c.spawns then polled else some not_started

-- A program, its arguments and what is added to its environment.
pub record Command : Type 0 where
  pub program : Text
  pub args : List Text
  pub env : List (Text × Text)

unfoldable pub sql_command : Text → Text → Text → Text → Values → Caches → Command
sql_command psql host port sql v c =
    let (user, c₁) = apply_user v c in
    let (db, c₂) = apply_db v c₁ in
    let (pass, _) = passfile v c₂ in
    record {
      program = psql;
      args =
          codes "-h"
          ∷ host
          ∷ codes "-p"
          ∷ port
          ∷ codes "-U"
          ∷ user
          ∷ codes "-d"
          ∷ db
          ∷ codes "-w"
          ∷ codes "-v"
          ∷ codes "ON_ERROR_STOP=1"
          ∷ codes "-tAc"
          ∷ sql
          ∷ [];
      env =
          (codes "PGCONNECT_TIMEOUT", codes "2")
          ∷ (codes "PGOPTIONS", codes "-c statement_timeout=5000")
          ∷ (if is_empty pass then [] else (codes "PGPASSFILE", pass) ∷ []);
    }

abbrev pub sql_timeout : ℕ
sql_timeout = 10000

abbrev pub probe_timeout : ℕ
probe_timeout = 1200

unfoldable pub probe_command : Text → Text → Text → Command
probe_command psql host port = record {
  program = psql;
  args =
      codes "-h"
      ∷ host
      ∷ codes "-p"
      ∷ port
      ∷ codes "-U"
      ∷ codes "replicator"
      ∷ codes "-d"
      ∷ codes "postgres"
      ∷ codes "-w"
      ∷ codes "-tAc"
      ∷ codes "SELECT pg_wal_lsn_diff(COALESCE(pg_last_wal_receive_lsn(), '0/0'), '0/0')::bigint"
      ∷ [];
  env = (codes "PGCONNECT_TIMEOUT", codes "1") ∷ [];
}

-- `value.trim().parse::<i64>().ok().map(|value| value.max(0) as u64).unwrap_or(0)` of a result
unfoldable pub lsn_of : Text ⊎ Text → ℕ
lsn_of (inl e) = 0
lsn_of (inr value) = elim (parse_i64_max0 (trim value)) [ none ↦ 0 | some n ↦ n ]

-- `run` is what `output_with_timeout` returns of a command, and `lossy` is `String::from_utf8_lossy`.
module _ (run : Command → ℕ → Option Output) (lossy : List ℕ → Text) where
  -- What `psql` printed, or the text of the error.
  unfoldable pub run_command : Command → ℕ → Text ⊎ Text
  run_command cmd timeout = elim (run cmd timeout) [
    | none ↦ inl (codes "psql failed to spawn or timed out")
    | some out ↦
        if out.success then inr (trim (lossy out.stdout)) else inl (trim (lossy out.stderr))
  ]

  unfoldable pub run_sql : Text → Text → Text → Text → Values → Caches → Text ⊎ Text
  run_sql psql host port sql v c = run_command (sql_command psql host port sql v c) sql_timeout

  unfoldable pub wal_lsn : Text → Text → Text → Bool → Values → Caches → ℕ
  wal_lsn psql host port in_recovery v c = lsn_of (
      run_command
        (sql_command psql host port
          (if in_recovery
            then codes
                "SELECT pg_wal_lsn_diff(COALESCE(pg_last_wal_receive_lsn(), '0/0'), '0/0')::bigint"
            else codes "SELECT pg_wal_lsn_diff(pg_current_wal_lsn(), '0/0')::bigint")
          v c)
        probe_timeout)

  unfoldable pub peer_wal_lsn : Text → Text → Text → Option ℕ
  peer_wal_lsn psql host port = do
    out ← run (probe_command psql host port) probe_timeout
    if out.success then parse_i64_max0 (trim (lossy out.stdout)) else none

-- The helpers that run detached, with the arguments that they get.
unfoldable pub detached : Text → List Text → Command
detached script args = record {
  program = codes "setsid";
  args = codes "bash" ∷ script ∷ args;
  env = [];
}

unfoldable pub rejoin_command : Text → Text → Text → Text → Text → ℕ → Text → Text → Command
rejoin_command script pgbin datadir leader_host leader_port node pass conninfo =
    detached script (pgbin ∷ datadir ∷ leader_host ∷ leader_port ∷ show node ∷ pass ∷ conninfo ∷ [])

unfoldable pub watchdog_command : Text → Text → Text → Text → Text → ℕ → Text → Command
watchdog_command script psql host port heartbeat node user =
    detached script (psql ∷ host ∷ port ∷ heartbeat ∷ show node ∷ user ∷ [])

-- A file replaced through a temporary one, whose failures are ignored.
module _ (fs : Fs) (tmp_of : fs.FilePath → fs.FilePath) where
  unfoldable pub replace_file : fs.FilePath → List ℕ → fs.Disk → fs.Disk
  replace_file path bytes d =
      let tmp = tmp_of path in
      (and_then (fs.create tmp d)
        (λ d₁. and_then (fs.write_all tmp bytes d₁) (λ d₂. fs.rename tmp path d₂))).0

  -- `millis` is the time since the epoch.
  unfoldable pub write_heartbeat : (Text → List ℕ) → fs.FilePath → ℕ → fs.Disk → fs.Disk
  write_heartbeat bytes_of path millis d = replace_file path (bytes_of (show millis)) d

  unfoldable pub write : (Text → List ℕ) → fs.FilePath → Text → fs.Disk → fs.Disk
  write bytes_of path line d = replace_file path (bytes_of line) d

  -- `read_to_string`, which refuses bytes that are no UTF-8.
  unfoldable pub read_status : (List ℕ → Option Text) → fs.FilePath → fs.Disk → Option Text
  read_status utf8 path d = elim (fs.read path d) [
    | content bytes ↦ (do s ← utf8 bytes; some (trim s))
    | not_found ↦ none
    | failed ↦ none
  ]
