-- ===== src/Program/Tests.antt =====
-- The program of src/lib.rs on a node of three, whose peers decided for node 3.
use hyperiondb.Prelude.{◌≡◌, inr, refl, arith, true, false, none, some, [], ◌∷◌}
use hyperiondb.Prelude.Text.{Text}
use hyperiondb.Startup.Sample.{three_nodes, cold, booted}
use hyperiondb.Supervisor.Sample.{calm}
use hyperiondb.Supervisor.Primary.Frames.{unfences}
use hyperiondb.Node.{Metrics, RaftHandle, follower, start_handle}
use hyperiondb.Program.{Tick, supervisor_main, pg_init}
use hyperiondb.Program.Authority.{supervisor_main-quiet}

abbrev follows_3 : Metrics
follows_3 = record { state = follower; current_term = 4; current_leader = some 3 }

abbrev other_primary : Tick
other_primary = record {
  metrics = follows_3;
  decision = some (record { seq = 2; primary = 3 });
  gossip = [];
  in_recovery = false;
  replayed = 0;
  written = 90;
  probes = record { own = 90; peer = λ k. none; joined = λ k. false };
}

not_preloaded : pg_init false ≡ none
unfolding pg_init
not_preloaded = refl

supervisor_main-quiet_example :
    unfences
      (supervisor_main three_nodes cold true follows_3 none
        (other_primary ∷ other_primary ∷ [])
        calm).world.trace
    ≡ unfences calm.trace
supervisor_main-quiet_example =
    supervisor_main-quiet three_nodes cold true follows_3 none (other_primary ∷ other_primary ∷ [])
      calm
      (inr (
        inr (
          (record { seq = 2; primary = 3 }, refl, omega arith),
          ((record { seq = 2; primary = 3 }, refl, omega arith), tt),
        )))

abbrev handle : RaftHandle
handle = start_handle 2 booted.raft_peers follows_3 none
