-- ===== src/Supervisor/Round.antt =====
-- src/lib.rs: one round of the supervisor loop, and the loop.
pub mod Frames
pub mod Safety
mod Authority
mod Liveness
mod Tests
use hyperiondb.Prelude.{
  ℕ, suc, ◌+◌, ◌-◌, Bool, true, false, not, ◌&&◌, Option, none, some, List, [], ◌∷◌, ltb, leb, ◌==◌,
  if◌then◌else◌, length, filter,
}
use hyperiondb.Failover.{Decision}
use hyperiondb.Supervisor.World.{
  Settings, Supervisor, World, M, ◌>>=◌, ◌>>◌, pure, get, modify, when, now, quorum_lease,
}
use hyperiondb.Supervisor.Receive.{
  begin_round, receive, adopt, send_gossip, learn_datadir, mark_cluster,
}
use hyperiondb.Supervisor.Leader.{Probes, leader_step}
use hyperiondb.Supervisor.Standby.{standby_step}
use hyperiondb.Supervisor.Primary.{primary_step}

-- What a round finds: the queue of gossip, the decision that Raft has applied, the state of
-- Postgres, whether the node leads, and what its probes return.
pub record Inputs : Type 0 where
  pub gossip : List (ℕ × List ℕ)
  pub decision : Option Decision
  pub in_recovery : Bool
  pub wal_lsn : ℕ
  pub is_leader : Bool
  pub probes : Probes

-- The node counts itself and the peers that it heard within the lease.
unfoldable pub has_quorum : Settings → ℕ → Supervisor → Bool
has_quorum c t s = leb c.majority (
    1
    + length
        (filter (λ (e : ℕ × ℕ). not (e.0 == c.node_id) && ltb (t - e.1) quorum_lease) s.last_heard))

unfoldable pub round : Settings → Inputs → M (Unit {0})
round c i = do
  begin_round c
  receive i.gossip
  modify (adopt i.decision)
  send_gossip c i.in_recovery i.wal_lsn
  learn_datadir
  mark_cluster
  when i.is_leader (leader_step c i.probes)
  t ← now
  s ← get
  if i.in_recovery then standby_step c else primary_step c (has_quorum c t s)

-- The variables before the first round: what Raft shows, and the clock.
unfoldable pub initial : Option Decision → ℕ → Supervisor
initial decision t = record {
  peers_lsn = [];
  last_heard = [];
  peers_reconfirm = [];
  peers_seq = [];
  reconfirm_pending = false;
  decided = decision;
  last_proposed = (0, 0);
  last_proposed_tick = 0;
  promoted = false;
  promote_tick = 0;
  rejoining = false;
  applied_primary = 0;
  slots_ensured = false;
  applied_read_only = none;
  applied_sync = none;
  authorized_since = none;
  datadir = none;
  cluster_marker = false;
  ticks = 0;
  last_loop = t;
}

-- The loop, for the rounds until the latch tells it to stop.
unfoldable pub rounds : Settings → List Inputs → M (Unit {0})
rounds c [] = pure tt
rounds c (i ∷ is) = do round c i; rounds c is
