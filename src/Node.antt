-- ===== src/Node.antt =====
-- src/raft_node.rs, the handle of Raft that the supervisor loop holds, and the line on the node's state
-- that src/lib.rs writes and `replica.status()` shows. What Raft does is openraft's.
mod Members
mod Tests
use hyperiondb.Prelude.{
  ℕ, Bool, true, false, Option, none, some, List, [], ◌∷◌, ◌++◌, map, ◌==◌, if◌then◌else◌, find,
  not, ◌⊎◌, inl, inr,
}
use hyperiondb.Prelude.Maps.{Map}
use hyperiondb.Prelude.BTree.{put}
use hyperiondb.Prelude.Text.{Text, codes, text_eq}
use hyperiondb.Prelude.Text.Decimal.{show}
use hyperiondb.Failover.{Decision}
use hyperiondb.Peers.{Peer}
use hyperiondb.Startup.{Boot}
use hyperiondb.Supervisor.World.{Supervisor, decided_primary, decided_seq, is_flag}
use hyperiondb.Transport.{broadcast}
use hyperiondb.Transport.Client.{gossip_targets}

-- openraft's `ServerState`, and what the handle reads of `RaftMetrics`.
pub data ServerState : Type 0 where
  leader : ServerState
  follower : ServerState
  candidate : ServerState
  learner : ServerState
  shut_down : ServerState

pub record Metrics : Type 0 where
  pub state : ServerState
  pub current_term : ℕ
  pub current_leader : Option ℕ

-- A task that the handle gives to its runtime: what it asks of Raft.
pub data Task : Type 0 where
  initialize : Map Text → Task
  client_write : Decision → ℕ → Task

-- What the handle does on its runtime. A task that is spawned runs beside the others, and when its request
-- reaches Raft is the runtime's; only for the shutdown the handle waits.
pub data RuntimeCall : Type 0 where
  spawn : Task → RuntimeCall
  block_on_shutdown : RuntimeCall

-- The queues: gossip that came in, and the frames for each peer's task; and the calls on the runtime, in
-- the order in which the loop's thread makes them.
pub record RaftHandle : Type 0 where
  pub metrics : Metrics
  pub decision : Option Decision
  pub gossip_in : List (ℕ × List ℕ)
  pub gossip_out : List (List (List ℕ))
  pub members : Map Text
  pub calls : List RuntimeCall

pub record RaftConfig : Type 0 where
  pub heartbeat_interval : ℕ
  pub election_timeout_min : ℕ
  pub election_timeout_max : ℕ
  pub logs_since_last : ℕ
  pub max_in_snapshot_log_to_keep : ℕ

unfoldable pub raft_config : ℕ → RaftConfig
raft_config compact_threshold = record {
  heartbeat_interval = 250;
  election_timeout_min = 1000;
  election_timeout_max = 2000;
  logs_since_last = compact_threshold;
  max_in_snapshot_log_to_keep = 0;
}

-- `collect` into a `BTreeMap`: a later entry replaces an earlier one.
unfoldable pub members_from : Map Text → List Peer → Map Text
members_from m [] = m
members_from m (p ∷ ps) = members_from (put p.0 p.1 m) ps

unfoldable pub start_handle : ℕ → List Peer → Metrics → Option Decision → RaftHandle
start_handle node_id peers metrics decision = record {
  metrics = metrics;
  decision = decision;
  gossip_in = [];
  gossip_out = map (λ p. []) (gossip_targets node_id peers);
  members = members_from [] peers;
  calls = [];
}

unfoldable pub bootstrap : RaftHandle → RaftHandle
bootstrap h = record h { calls = h.calls ++ spawn (initialize h.members) ∷ [] }

unfoldable pub is_leader : RaftHandle → Bool
is_leader h = elim h.metrics.state [ leader ↦ true | _ ↦ false ]

unfoldable pub term : RaftHandle → ℕ
term h = h.metrics.current_term

unfoldable pub leader_id : RaftHandle → ℕ
leader_id h = elim h.metrics.current_leader [ none ↦ 0 | some id ↦ id ]

unfoldable pub role_name : RaftHandle → Text
role_name h = elim h.metrics.state [
  | leader ↦ codes "leader"
  | follower ↦ codes "follower"
  | candidate ↦ codes "candidate"
  | learner ↦ codes "learner"
  | shut_down ↦ codes "shutdown"
]

unfoldable pub current_decision : RaftHandle → Option Decision
current_decision h = h.decision

-- The write is given up after 800 milliseconds.
unfoldable pub propose_decision : Decision → RaftHandle → RaftHandle
propose_decision d h = record h { calls = h.calls ++ spawn (client_write d 800) ∷ [] }

unfoldable pub gossip_broadcast : ℕ → List ℕ → RaftHandle → RaftHandle
gossip_broadcast from payload h = record h { gossip_out = broadcast from payload h.gossip_out }

unfoldable pub try_recv_gossip : RaftHandle → Option (ℕ × List ℕ) × RaftHandle
try_recv_gossip h = elim h.gossip_in [
  | [] ↦ (none, h)
  | ◌∷◌ g gs ↦ (some g, record h { gossip_in = gs })
]

unfoldable pub shutdown : RaftHandle → RaftHandle
shutdown h = record h { calls = h.calls ++ block_on_shutdown ∷ [] }

abbrev pub show_bool : Bool → Text
show_bool true = codes "true"
show_bool false = codes "false"

-- How the node replicates, in words.
unfoldable pub repl_text : ℕ → List Peer → Supervisor → Text
repl_text node members s =
    if decided_primary s == node
    then codes "primary"
    else if not (decided_primary s == 0)
    then elim (find (λ (p : Peer). p.0 == decided_primary s) members) [
      | none ↦ codes "standby<-?"
      | some p ↦ codes "standby<-" ++ p.1
    ]
    else codes "bootstrap"

unfoldable pub status_line : Boot → RaftHandle → Supervisor → Bool → Bool → Text
status_line b h s quorum_ok in_recovery =
    role_name h
    ++ codes " term="
    ++ show (term h)
    ++ codes " leader="
    ++ show (leader_id h)
    ++ codes " decided_primary="
    ++ show (decided_primary s)
    ++ codes " seq="
    ++ show (decided_seq s)
    ++ codes " quorum="
    ++ show_bool quorum_ok
    ++ codes " read_only="
    ++ show_bool (is_flag s.applied_read_only true)
    ++ codes " reconfirm="
    ++ show_bool s.reconfirm_pending
    ++ codes " | repl="
    ++ repl_text b.settings.node_id b.settings.pg_members s
    ++ codes " in_recovery="
    ++ show_bool in_recovery

-- The line is written when it changes: what is written, and the line to compare with next time.
unfoldable pub report : Text → Text → Option Text × Text
report line last = if text_eq line last then (none, last) else (some line, line)

unfoldable pub status : ℕ → ℕ → Text → Option Text → Text
status node_id raft_port peers live =
    codes "pg_replica node_id="
    ++ show node_id
    ++ codes " raft_port="
    ++ show raft_port
    ++ codes " peers=["
    ++ peers
    ++ codes "] | "
    ++ elim live [ none ↦ codes "consensus not started" | some line ↦ line ]
