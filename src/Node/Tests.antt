-- ===== src/Node/Tests.antt =====
-- Tests of the handle of src/raft_node.rs.
use hyperiondb.Prelude.{◌≡◌, refl, none}
use hyperiondb.Prelude.Text.{codes}
use hyperiondb.Prelude.Text.Decimal.{digits}
use hyperiondb.Node.{status}

without_consensus :
    status 2 7400 (codes "1@a:1") none
    ≡ codes "pg_replica node_id=2 raft_port=7400 peers=[1@a:1] | consensus not started"
unfolding status digits
without_consensus = refl
