-- ===== src/Lib.antt =====
-- HyperionDB's pg_replica: an extension of Postgres that replicates by streaming and fails over by
-- a decision in a Raft log. These modules model the parts that decide who may write.
--
-- The parts and how they interact.
-- * packages/consensus-model holds two models that the repository checks for 3 and 5 nodes with the
--   `stateright` library: durability (src/lib.rs there) and leadership (src/leadership.rs there).
--   `Durability` and `Leadership` have their states, actions and successors; `Explore` has what a
--   checker explores, as runs of offered actions within the boundary. `Checker` has the checks of
--   both and the program of src/main.rs there, for a search with its documented law (`IsExhaustive`).
--   `Durability.Threshold` and `Leadership.Threshold` say for which clusters the properties hold.
-- * src/failover.rs has the gossip payload, the decision that Raft replicates and the choice of a
--   primary: `Failover`, with proofs in `Failover.Payload` and `Failover.Choice`.
-- * src/lib.rs has the supervisor loop: `Supervisor.World` has the loop's variables (`Supervisor`),
--   its settings (`Settings`) and the outside (`World`); `Supervisor.Receive`, `.Leader`,
--   `.Standby` and `.Primary` are the parts of a round and `.Round` composes them, each definition
--   for a block of `pg_replica_supervisor_main`. The loop takes gossip in, adopts the decision that
--   Raft shows, proposes a decision if it leads, and then promotes, follows, fences or unfences its
--   Postgres. Each part has modules for its proofs, and `Supervisor.Round.Authority` is about many
--   rounds.
-- * src/store.rs has what Raft keeps on the disk: `Store` has the log store (`LogStoreState`,
--   `LogOp`, `run_log`), the state machine (`StateMachine`, `apply`, `build_snapshot`,
--   `install_snapshot`), the write of a file (`atomic_write`) and `open` (`open_store`). The
--   decision that the state machine shows is the one that the supervisor loop adopts. What
--   openraft, serde_json and the file system do is the records `Raft`, `Serde` and `Fs`, with the
--   laws `IsSerde` and `IsFs` of `Store.File`, which say also what a disk holds after the machine
--   stopped behind an operation; a crash within an operation is not among the outcomes.
-- * src/rpc.rs has the transport between the nodes: `Transport` has its frames, the frame of a
--   broadcast and the loop that serves a connection (`handle_conn`), whose gossip the supervisor
--   loop takes in; `Transport.Accept` has `spawn_server`, whose tasks have their turns in any order. Its fuel is the number of frames read; the length of the stream is enough.
--   `Transport.Client` has `Connection::call` with its one retry and the task that sends gossip;
--   `Transport.Calls` puts both ends together, and `Supervisor.Hearing` follows gossip from the
--   payload of one node to what the loop of another one knows. `Peers` has `parse_peers`.
-- * src/config.rs has the settings: `Config` has what is registered, and the reads with their
--   fallbacks and caches. `Startup` has what `pg_replica_supervisor_main` does before its loop with
--   them: the checks (`config_errors`), the quorum, the texts and the watchdog (`boot`), and how
--   the program starts (`start`). `Startup.Quorum` ties the quorum to the durability model.
-- * src/apply.rs has the commands: `Commands` has the wait with a deadline (`output_with_timeout`,
--   one unit of fuel for each poll), the arguments of `psql` and of the helpers, what is read from
--   `psql`, and the heartbeat; and the status file of src/state.rs. `split_host_port` and
--   `parent_dir` are in `Peers`.
-- * src/raft_node.rs has the handle of Raft: `Node` has its queues, its members, the tasks that it spawns for
--   Raft, and the status line of src/lib.rs.
-- * `Program` puts src/lib.rs together: from the start of `pg_replica_supervisor_main` over the rounds of
--   the loop, with what each reads through the handle of Raft and the status line behind it, to the
--   shutdown.
-- * packages/chaos-writer and packages/failover-probe test a cluster from outside: `Probes`. The writer
--   runs on fuel, a unit for each look for the file that stops it.
--
-- Conventions and bounds.
-- * `u64` arithmetic wraps (`add64`) and a `u32` shift takes its count modulo 32; `-` on numbers
--   stops at 0, as `saturating_sub` and `duration_since` do. Loops recur on lists, but for those
--   with fuel named above.
-- * An index out of range panics in the source; the model reads a default there, and the invariants
--   of both consensus models keep every index in range.
-- * A `HashMap` is an association list; the choice of a primary does not depend on the order.
-- * The clock, `psql` and the file system answer arbitrarily: each answer is a function of how many
--   questions were put. Theorems name what they assume of the answers.
-- * Statements are constructors of `Sql`, and effects stand in a trace, the newest first.
-- * Texts are lists of character codes (`Prelude.Text`); a number has at most 20 digits, which is
--   enough for a `u64`. White space is that of Unicode.
--
-- Not modelled: log lines and sleeps; processes and sockets, whose behaviour is a parameter (`Child`,
-- `Net`); openraft, tokio, serde_json, tokio_postgres and stateright, which are not the repository's;
-- the environment variable PGPASSFILE; and everything that is not Rust.
pub mod Prelude
pub mod Explore
pub mod Durability
pub mod Leadership
pub mod Checker
pub mod Failover
pub mod Peers
pub mod Config
pub mod Store
pub mod Commands
pub mod Transport
pub mod Supervisor
pub mod Startup
pub mod Node
pub mod Program
pub mod Probes
