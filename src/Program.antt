-- ===== src/Program.antt =====
-- src/lib.rs: the whole of `pg_replica_supervisor_main`, from its start over the rounds of the loop to the
-- shutdown, and the registration of the worker in `_PG_init`.
mod Authority
mod Reports
mod Tests
use hyperiondb.Prelude.{
  ℕ, ◌+◌, Bool, true, false, not, Option, none, some, List, [], ◌∷◌, ◌++◌, if◌then◌else◌,
}
use hyperiondb.Prelude.Text.{Text, codes}
use hyperiondb.Failover.{Decision}
use hyperiondb.Config.{Values, Caches, Guc, init}
use hyperiondb.Startup.{Boot, Start, not_configured, misconfigured, raft_failed, running, start}
use hyperiondb.Supervisor.World.{Supervisor, World, Effect, watchdog, gossiped, proposed}
use hyperiondb.Supervisor.Leader.{Probes}
use hyperiondb.Supervisor.Round.{Inputs, round, initial}
use hyperiondb.Supervisor.Round.Safety.{quorum}
use hyperiondb.Node.{
  Metrics, RaftHandle, start_handle, bootstrap, is_leader, current_decision, propose_decision,
  gossip_broadcast, shutdown, status_line, report,
}

-- The worker that is registered: its start again after a crash in seconds.
pub record Worker : Type 0 where
  pub name : Text
  pub function : Text
  pub library : Text
  pub restart_secs : Option ℕ
  pub at_consistent_state : Bool

-- What `_PG_init` registers, if the library is preloaded.
unfoldable pub pg_init : (preloading : Bool) → Option (List Guc × Worker)
pg_init preloading =
    if not preloading
    then none
    else some (
      init,
      record {
        name = codes "pg_replica supervisor";
        function = codes "pg_replica_supervisor_main";
        library = codes "pg_replica";
        restart_secs = some 5;
        at_consistent_state = true;
      },
    )

-- The positions are those that Postgres has replayed and written.
unfoldable pub local_wal_lsn : (in_recovery : Bool) (replayed written : ℕ) → ℕ
local_wal_lsn in_recovery replayed written = if in_recovery then replayed else written

-- What the outside shows in one round: what Raft shows, the gossip that came in, Postgres, and what the
-- probes return.
pub record Tick : Type 0 where
  pub metrics : Metrics
  pub decision : Option Decision
  pub gossip : List (ℕ × List ℕ)
  pub in_recovery : Bool
  pub replayed : ℕ
  pub written : ℕ
  pub probes : Probes

-- The variables of the loop, the outside, the line to compare with, and the lines that were written to
-- the status file.
pub record Progress : Type 0 where
  pub loop : Supervisor
  pub world : World
  pub last : Text
  pub statuses : List Text

unfoldable pub handle_at : RaftHandle → Tick → RaftHandle
handle_at h t = record h { metrics = t.metrics; decision = t.decision; gossip_in = t.gossip }

-- What the round reads through the handle and of Postgres.
unfoldable pub inputs_of : RaftHandle → Tick → Inputs
inputs_of h t = record {
  gossip = h.gossip_in;
  decision = current_decision h;
  in_recovery = t.in_recovery;
  wal_lsn = local_wal_lsn t.in_recovery t.replayed t.written;
  is_leader = is_leader h;
  probes = t.probes;
}

abbrev pub written_now : Option Text → List Text
written_now none = []
written_now (some line) = line ∷ []

-- A round, and the status line behind it.
unfoldable pub turn : Boot → RaftHandle → Tick → Progress → Progress
turn b h₀ t p =
    let h = handle_at h₀ t in
    let i = inputs_of h t in
    let (_, s, w) = round b.settings i p.loop p.world in
    let line = status_line b h s (quorum b.settings i p.loop p.world) t.in_recovery in
    let (out, last) = report line p.last in
    record { loop = s; world = w; last = last; statuses = p.statuses ++ written_now out }

-- The loop, for the rounds until the latch tells it to stop.
unfoldable pub turns : Boot → RaftHandle → List Tick → Progress → Progress
turns b h [] p = p
turns b h (t ∷ ts) p = turns b h ts (turn b h t p)

-- What the loop did through the handle: the newest effect stands first.
unfoldable pub hand_over : (node_id : ℕ) → List Effect → RaftHandle → RaftHandle
hand_over node_id [] h = h
hand_over node_id (e ∷ es) h =
    let before = hand_over node_id es h in
    elim e as (λ _. RaftHandle) [
      | gossiped payload ↦ gossip_broadcast node_id payload before
      | proposed d ↦ propose_decision d before
      | _ ↦ before
    ]

pub record Ended : Type 0 where
  pub handle : Option RaftHandle
  pub statuses : List Text
  pub world : World

abbrev pub watched : {A : Type 0} → Option A → World → World
watched none w = w
watched (some command) w = record w { trace = watchdog ∷ w.trace }

-- The variables before the first round.
abbrev pub at_start : RaftHandle → World → Progress
at_start h w = record {
  loop = initial (current_decision h) (w.clock w.at);
  world = record w { at = w.at + 1 };
  last = [];
  statuses = [];
}

-- The loop of a program that starts, on an outside that has done nothing yet.
unfoldable pub run_loop : Boot → Metrics → Option Decision → List Tick → World → Ended
run_loop b metrics decision ts w₀ =
    let w = watched b.watchdog w₀ in
    let h = bootstrap (start_handle b.settings.node_id b.raft_peers metrics decision) in
    let p = turns b h ts (at_start h w) in
    record {
      handle = some (shutdown (hand_over b.settings.node_id p.world.trace h));
      statuses = p.statuses ++ codes "stopped" ∷ [];
      world = p.world;
    }

-- `raft_starts` is whether `RaftHandle::start` succeeds, and `metrics` and `decision` are what Raft shows
-- then. Without a valid configuration the program idles.
unfoldable pub supervisor_main :
    Values → Caches → (raft_starts : Bool) → Metrics → Option Decision → List Tick → World → Ended
supervisor_main v c raft_starts metrics decision ts w = elim (start v c raft_starts).0 [
  | not_configured ↦ record { handle = none; statuses = []; world = w }
  | misconfigured es ↦ record { handle = none; statuses = []; world = w }
  | raft_failed command ↦ record { handle = none; statuses = []; world = watched command w }
  | running b ↦ run_loop b metrics decision ts w
]
