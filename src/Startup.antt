-- ===== src/Startup.antt =====
-- src/lib.rs: what `pg_replica_supervisor_main` does before its loop: it reads the settings, checks
-- them, derives the quorum and the names of the synchronous standbys, and starts Raft.
pub mod Checks
pub mod Quorum
pub mod Sample
mod Tests
use hyperiondb.Prelude.{
  ℕ, ◌+◌, ◌-◌, ◌/◌, ◌%◌, ◌^◌, Bool, true, false, not, ◌||◌, Option, none, some, List, [], ◌∷◌, ◌++◌,
  map, ◌==◌, leb, if◌then◌else◌, any, find, filter, length, push_if,
}
use hyperiondb.Prelude.Words.{u64_mod}
use hyperiondb.Prelude.Text.{Text, codes, is_empty, join}
use hyperiondb.Prelude.Text.Decimal.{show}
use hyperiondb.Peers.{Peer, parse_peers, split_host_port, parent_dir}
use hyperiondb.Config.{
  Values, Caches, peers_spec, addrs_spec, rejoin_path, watchdog_path, raft_path, psql_path,
  passfile, apply_user, apply_db,
}
use hyperiondb.Commands.{Command, watchdog_command}
use hyperiondb.Supervisor.World.{Settings}

pub data ConfigError : Type 0 where
  duplicate_peer : ℕ → ConfigError
  duplicate_addr : ℕ → ConfigError
  no_peer : ℕ → ConfigError
  no_addr : ℕ → ConfigError
  no_raft_dir : ConfigError

abbrev pub contains : ℕ → List ℕ → Bool
contains a xs = any (λ x. x == a) xs

abbrev pub is_none : List ℕ → Bool
is_none [] = true
is_none (x ∷ xs) = false

-- The loop over a `HashSet` of what was seen.
unfoldable pub duplicates : (ℕ → ConfigError) → List ℕ → List ℕ → List ConfigError
duplicates error seen [] = []
duplicates error seen (x ∷ xs) =
    let rest = duplicates error (x ∷ seen) xs in if contains x seen then error x ∷ rest else rest

abbrev pub ids : List Peer → List ℕ
ids ps = map (λ p. p.0) ps

unfoldable pub config_errors : ℕ → List ℕ → List Peer → Text → List ConfigError
config_errors node voters members raft_dir =
    duplicates duplicate_peer [] voters
    ++ (duplicates duplicate_addr [] (ids members)
        ++ (push_if (not (contains node voters)) (no_peer node)
            ++ (push_if (not (contains node (ids members))) (no_addr node)
                ++ push_if (is_empty raft_dir) no_raft_dir)))

unfoldable pub majority : List ℕ → ℕ
majority voters = length voters / 2 + 1

abbrev pub sync_quorum : List ℕ → ℕ
sync_quorum voters = majority voters - 1

-- The standbys of which the primary waits for some.
unfoldable pub standby_names : ℕ → List ℕ → List Text
standby_names node voters = map (λ v. codes "node" ++ show v) (filter (λ v. not (v == node)) voters)

unfoldable pub sync_target : ℕ → List ℕ → Text
sync_target node voters =
    if leb 1 (sync_quorum voters)
    then codes "ANY "
      ++ show (sync_quorum voters)
      ++ codes " ("
      ++ join (codes ", ") (standby_names node voters)
      ++ codes ")"
    else []

-- The hosts and the ports of the other nodes.
unfoldable pub other_addrs : ℕ → List Peer → List Text × List Text
other_addrs node [] = ([], [])
other_addrs node (m ∷ ms) =
    let rest = other_addrs node ms in
    let addr = split_host_port m.1 in
    if m.0 == node then rest else (addr.0 ∷ rest.0, addr.1 ∷ rest.1)

unfoldable pub standby_conninfo : List Peer → Text → ℕ → Text
standby_conninfo members pass node =
    let addrs = other_addrs node members in
    codes "host="
    ++ join (codes ",") addrs.0
    ++ codes " port="
    ++ join (codes ",") addrs.1
    ++ codes " user=replicator"
    ++ (if is_empty pass then [] else codes " passfile=" ++ pass)
    ++ codes " target_session_attrs=read-write application_name=node"
    ++ show node

-- What the loop and Raft are started with, and the watchdog that is started before Raft.
pub record Boot : Type 0 where
  pub settings : Settings
  pub voters : List ℕ
  pub raft_peers : List Peer
  pub raft_port : ℕ
  pub compact_threshold : ℕ
  pub my_address : Text × Text
  pub pgbin : Text
  pub heartbeat_file : Text
  pub watchdog : Option Command

pub data Start : Type 0 where
  not_configured : Start
  misconfigured : List ConfigError → Start
  raft_failed : Option Command → Start
  running : Boot → Start

abbrev pub address_of : ℕ → List Peer → Text
address_of node members = elim (find (λ (p : Peer). p.0 == node) members) [
  | none ↦ []
  | some p ↦ p.1
]

abbrev pub heartbeat_path : ℕ → Values → Text
heartbeat_path node v = raft_path v ++ codes "/pg_replica_hb_" ++ show node

-- The watchdog, if there is a script for it.
unfoldable pub watchdog_for : ℕ → List Peer → Text → Values → Option Command
watchdog_for node members user v =
    let (host, port) = split_host_port (address_of node members) in
    if is_empty (watchdog_path v)
    then none
    else some (
        watchdog_command (watchdog_path v) (psql_path v) host port (heartbeat_path node v) node
          user)

unfoldable pub boot : ℕ → List Peer → List Peer → Text → Text → Values → Boot
boot node peers members pass user v = record {
  settings = record {
    node_id = node;
    pg_members = members;
    majority = majority (ids peers);
    sync_target = sync_target node (ids peers);
    synchronous = v.synchronous;
    has_rejoin_script = not (is_empty (rejoin_path v));
    has_watchdog_script = not (is_empty (watchdog_path v));
    conninfo = standby_conninfo members pass node;
  };
  voters = ids peers;
  raft_peers = peers;
  raft_port = v.raft_port % 2 ^ 16;
  compact_threshold = if leb 1 v.compact_threshold then v.compact_threshold else 1;
  my_address = split_host_port (address_of node members);
  pgbin = parent_dir (psql_path v);
  heartbeat_file = heartbeat_path node v;
  watchdog = watchdog_for node members user v;
}

unfoldable pub check : List ConfigError → Bool → Boot → Start
check [] raft_starts b = if raft_starts then running b else raft_failed b.watchdog
check (e ∷ es) raft_starts b = misconfigured (e ∷ es)

-- How the program starts, and the caches of the settings behind it. `raft_starts` is whether
-- `RaftHandle::start` succeeds.
unfoldable pub start : Values → Caches → Bool → Start × Caches
start v c raft_starts =
    let node = v.node_id % u64_mod in
    let peers = parse_peers (peers_spec v) in
    let members = parse_peers (addrs_spec v) in
    let (pass, c₁) = passfile v c in
    let (_, c₂) = apply_user v c₁ in
    let (_, c₃) = apply_db v c₂ in
    let (user, c₄) = apply_user v c₃ in
    if node == 0 || is_none (ids peers) then (not_configured, c₁) else (
      check (config_errors node (ids peers) members (raft_path v)) raft_starts
          (boot node peers members pass user v),
      c₄,
    )
