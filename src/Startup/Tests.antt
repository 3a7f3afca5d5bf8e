-- ===== src/Startup/Tests.antt =====
-- Tests of the start, at a cluster of three nodes.
use hyperiondb.Prelude.{◌⊎◌, ◌≤◌, ◌≡◌, ◌↔◌, refl, true, [], ◌∷◌, arith, length}
use hyperiondb.Prelude.Text.{codes, is_white}
use hyperiondb.Prelude.Text.Decimal.{parse_u64, scan, scan_all, digits}
use hyperiondb.Peers.{parent_dir, parse_peers, peer_of, parse_entry, split_host_port}
use hyperiondb.Config.{psql_path, passfile}
use hyperiondb.Durability.{State, Reach, no_acked_loss}
use hyperiondb.Startup.{
  boot, running, duplicate_peer, no_addr, no_raft_dir, boot, start, config_errors, duplicates,
  majority, standby_names, sync_target, standby_conninfo, other_addrs,
}
use hyperiondb.Startup.Sample.{three_nodes, cold, booted, three_start}
use hyperiondb.Startup.Quorum.{
  user_of, IsRunnable, start-running_iff, start-no_acked_loss_iff, cluster_of, peers_of, members_of,
  node_of,
}

three_sync : sync_target 2 (1 ∷ 2 ∷ 3 ∷ []) ≡ codes "ANY 1 (node1, node3)"
unfolding sync_target standby_names majority digits
three_sync = refl

three_conninfo :
    standby_conninfo (members_of three_nodes) (codes "/p") 2
    ≡ codes
        "host=a,c port=5432,5432 user=replicator passfile=/p target_session_attrs=read-write application_name=node2"
unfolding standby_conninfo other_addrs split_host_port parse_peers peer_of parse_entry parse_u64
    scan scan_all is_white digits
three_conninfo = refl

-- `psql` is found on the path, and has no directory.
bin_of_path : booted.pgbin ≡ codes "."
unfolding boot psql_path parent_dir
bin_of_path = refl

twice :
    config_errors 2 (1 ∷ 1 ∷ 2 ∷ []) ((1, []) ∷ []) []
    ≡ duplicate_peer 1 ∷ no_addr 2 ∷ no_raft_dir ∷ []
unfolding config_errors duplicates
twice = refl

start-running_iff_example : ((start three_nodes cold true).0 ≡ running booted) ↔ (
    IsRunnable three_nodes
    × (true ≡ true)
    × (boot
          (node_of three_nodes)
          (peers_of three_nodes)
          (members_of three_nodes)
          (passfile three_nodes cold).0
          (user_of three_nodes cold)
          three_nodes
        ≡ booted))
start-running_iff_example = start-running_iff three_nodes cold true booted

start-no_acked_loss_iff_example :
    ((s : State) → Reach (cluster_of booted 3 3) s → no_acked_loss s ≡ true)
    ↔ ((true ≡ true) ⊎ (length booted.voters ≤ 2))
unfolding boot parse_peers peer_of is_white parse_entry parse_u64 scan_all scan
start-no_acked_loss_iff_example =
    start-no_acked_loss_iff three_nodes cold true booted 3 3 three_start (omega arith) (omega arith)
      (omega arith) (omega arith) (omega arith)
