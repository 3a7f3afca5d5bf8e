-- ===== src/Supervisor.antt =====
-- src/lib.rs: the supervisor loop of a node, `pg_replica_supervisor_main`.
-- `World` holds the state and what the loop sees and does; `Receive`, `Leader`, `Standby` and
-- `Primary` are the parts of one round, which `Round` puts together.
pub mod World
pub mod Receive
pub mod Leader
pub mod Standby
pub mod Primary
pub mod Round
mod Hearing
pub mod Sample
mod Tests
