-- ===== src/Config/Tests.antt =====
-- Settings that are not set, and what they fall back on.
use hyperiondb.Prelude.{◌≡◌, refl, true, false, none, some, []}
use hyperiondb.Prelude.Text.{codes}
use hyperiondb.Config.{
  Values, Caches, init, takes, apply_user, apply_db, psql_path, get_or_init, fallback,
}

abbrev unset : Values
unset = record {
  synchronous = true;
  node_id = 2;
  raft_port = 7400;
  compact_threshold = 64;
  peers = none;
  pg_addrs = none;
  psql = some [];
  rejoin_script = none;
  watchdog_script = none;
  passfile = none;
  raft_dir = none;
  apply_user = some [];
  apply_db = none;
  postgres_user = some (codes "admin");
  postgres_db = none;
}

abbrev cold : Caches
cold = record { user = none; db = none; pass = none }

from_environment : (apply_user unset cold).0 ≡ codes "admin"
unfolding apply_user get_or_init fallback
from_environment = refl

from_nowhere : (apply_db unset cold).0 ≡ codes "postgres"
unfolding apply_db get_or_init fallback
from_nowhere = refl

on_path : psql_path unset ≡ codes "psql"
unfolding psql_path
on_path = refl

port_zero_refused : takes (codes "pg_replica.raft_port") 0 init ≡ false
unfolding takes init
port_zero_refused = refl
