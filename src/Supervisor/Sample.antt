-- ===== src/Supervisor/Sample.antt =====
-- A node of three in src/lib.rs, its state and a calm outside, for the tests.
use hyperiondb.Prelude.{ℕ, true, false, none, some, [], ◌∷◌}
use hyperiondb.Prelude.Text.{codes}
use hyperiondb.Supervisor.World.{Settings, Supervisor, World}

abbrev pub node_1 : Settings
node_1 = record {
  node_id = 1;
  pg_members = (1, (codes "a:5432")) ∷ (2, (codes "b:5432")) ∷ (3, (codes "c:5432")) ∷ [];
  majority = 2;
  sync_target = (codes "ANY 1 (node2, node3)");
  synchronous = true;
  has_rejoin_script = true;
  has_watchdog_script = false;
  conninfo = (codes "host=b,c");
}

-- Node `p` is the decided primary, and authority was first seen at time 1000.
abbrev pub decided_for : ℕ → Supervisor
decided_for p = record {
  peers_lsn =
      (1, record { lsn = 10; recovery = false; seen = 4000 })
      ∷ (2, record { lsn = 8; recovery = true; seen = 4000 })
      ∷ [];
  last_heard = (2, 4000) ∷ [];
  peers_reconfirm = [];
  peers_seq = (2, 3) ∷ [];
  reconfirm_pending = false;
  decided = some (record { seq = 3; primary = p });
  last_proposed = (0, 0);
  last_proposed_tick = 0;
  promoted = false;
  promote_tick = 0;
  rejoining = false;
  applied_primary = 0;
  slots_ensured = true;
  applied_read_only = some true;
  applied_sync = none;
  authorized_since = some 1000;
  datadir = some (codes "/data");
  cluster_marker = true;
  ticks = 7;
  last_loop = 4000;
}

-- Every statement succeeds, and the clock stands at 4000.
abbrev pub calm : World
calm = record {
  clock = λ k. 4000;
  reply = λ k q. some [];
  marker_exists = λ k. true;
  marker_write = λ k. true;
  at = 0;
  trace = [];
}
