-- ===== src/Startup/Sample.antt =====
-- A cluster of three nodes that starts.
use hyperiondb.Prelude.{◌≡◌, refl, true, none, some}
use hyperiondb.Prelude.Text.{codes, is_white}
use hyperiondb.Prelude.Text.Decimal.{parse_u64, scan, scan_all}
use hyperiondb.Peers.{parse_peers, peer_of, parse_entry}
use hyperiondb.Config.{Values, Caches, passfile, get_or_init, apply_user, apply_db, fallback}
use hyperiondb.Startup.{Boot, running, boot, check, start, config_errors, duplicates}
use hyperiondb.Startup.Quorum.{peers_of, members_of}

abbrev pub three_nodes : Values
three_nodes = record {
  synchronous = true;
  node_id = 2;
  raft_port = 7400;
  compact_threshold = 64;
  peers = some (codes "1@a:7400,2@b:7400,3@c:7400");
  pg_addrs = some (codes "1@a:5432,2@b:5432,3@c");
  psql = none;
  rejoin_script = none;
  watchdog_script = some (codes "/w");
  passfile = some (codes "/p");
  raft_dir = some (codes "/r");
  apply_user = none;
  apply_db = none;
  postgres_user = none;
  postgres_db = none;
}

abbrev pub cold : Caches
cold = record { user = none; db = none; pass = none }

abbrev pub booted : Boot
booted =
    boot 2 (peers_of three_nodes) (members_of three_nodes) (codes "/p") (codes "postgres")
      three_nodes

pub three_start : (start three_nodes cold true).0 ≡ running booted
unfolding start check config_errors duplicates parse_peers peer_of parse_entry parse_u64 scan
    scan_all is_white passfile get_or_init apply_user apply_db fallback
three_start = refl
