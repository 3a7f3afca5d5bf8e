-- ===== src/Program/Authority.antt =====
-- When the program of src/lib.rs, from its start to its shutdown, may make Postgres writable.
use hyperiondb.Prelude.{
  arith, ◌≡◌, ◌≢◌, ◌⊎◌, ℕ, inl, inr, refl, sym, ap, ◌∙◌, Bool, false, Option, none, some, List, [],
  ◌∷◌, All,
}
use hyperiondb.Failover.{Decision}
use hyperiondb.Config.{Values, Caches}
use hyperiondb.Startup.{
  Boot, Start, not_configured, misconfigured, raft_failed, running, boot, start,
}
use hyperiondb.Startup.Quorum.{node_of, IsRunnable, start-running_iff}
use hyperiondb.Supervisor.World.{World}
use hyperiondb.Supervisor.Primary.Frames.{unfences}
use hyperiondb.Supervisor.Round.{rounds}
use hyperiondb.Supervisor.Round.Safety.{deposed_never_writable}
use hyperiondb.Node.{Metrics, RaftHandle, current_decision}
use hyperiondb.Program.{
  Tick, Progress, Ended, handle_at, inputs_of, turn, turns, watched, run_loop, supervisor_main,
}

-- The decision that Raft shows in a round names another node.
abbrev pub ShowsOther : ℕ → Tick → Type 0
ShowsOther node t = (d : Decision) × (t.decision ≡ some d) × (d.primary ≢ node)

module _ (b : Boot) (h : RaftHandle) where
  turn-quiet :
      (t : Tick) (p : Progress)
      → ShowsOther b.settings.node_id t
      → unfences (turn b h t p).world.trace ≡ unfences p.world.trace
  unfolding turn rounds inputs_of handle_at current_decision
  turn-quiet t p other =
      deposed_never_writable b.settings (inputs_of (handle_at h t) t ∷ []) p.loop p.world
        (other, tt)

  turns-quiet :
      (ts : List Tick) (p : Progress)
      → All (ShowsOther b.settings.node_id) ts
      → unfences (turns b h ts p).world.trace ≡ unfences p.world.trace
  unfolding turns
  turns-quiet [] p all_other = refl
  turns-quiet (t ∷ ts) p (other, all_other) =
      turns-quiet ts (turn b h t p) all_other ∙ turn-quiet t p other

watched-quiet :
    {A : Type 0} (o : Option A) (w : World) → unfences (watched o w).trace ≡ unfences w.trace
watched-quiet none w = refl
watched-quiet (some a) w = omega arith

run_loop-quiet :
    (b : Boot) (m : Metrics) (d : Option Decision) (ts : List Tick) (w : World)
    → All (ShowsOther b.settings.node_id) ts
    → unfences (run_loop b m d ts w).world.trace ≡ unfences w.trace
unfolding run_loop
run_loop-quiet b m d ts w other = turns-quiet b _ ts _ other ∙ watched-quiet b.watchdog w

running-node :
    (v : Values) (c : Caches) (raft_starts : Bool) (b : Boot)
    → (start v c raft_starts).0 ≡ running b
    → b.settings.node_id ≡ node_of v
unfolding boot
running-node v c raft_starts b e =
    ap (λ (x : Boot). x.settings.node_id) (sym ((start-running_iff v c raft_starts b).0 e).2)

-- From its start to its shutdown, over any rounds, the program never asks Postgres to become writable if
-- the configuration cannot run, or Raft does not start, or the decision that Raft shows in each round
-- names another node.
pub supervisor_main-quiet :
    (v : Values) (c : Caches) (raft_starts : Bool) (m : Metrics) (d : Option Decision)
    (ts : List Tick) (w : World)
    → (¬ IsRunnable v) ⊎ ((raft_starts ≡ false) ⊎ All (ShowsOther (node_of v)) ts)
    → unfences (supervisor_main v c raft_starts m d ts w).world.trace ≡ unfences w.trace
unfolding supervisor_main
supervisor_main-quiet v c raft_starts m d ts w why = by_start (start v c raft_starts).0 refl
  where
    by_start :
        (s : Start)
        → (start v c raft_starts).0 ≡ s
        → unfences
            (elim s as (λ _. Ended) [
              | not_configured ↦ record { handle = none; statuses = []; world = w }
              | misconfigured es ↦ record { handle = none; statuses = []; world = w }
              | raft_failed command ↦ record {
                handle = none;
                statuses = [];
                world = watched command w;
              }
              | running b ↦ run_loop b m d ts w
            ]).world.trace
          ≡ unfences w.trace
    by_start not_configured e = refl
    by_start (misconfigured es) e = refl
    by_start (raft_failed command) e = watched-quiet command w
    by_start (running b) e = elim why [
      | inl invalid ↦ absurd (invalid ((start-running_iff v c raft_starts b).0 e).0)
      | inr (inl down) ↦
          absurd (ground (arith, down, ((start-running_iff v c raft_starts b).0 e).1))
      | inr (inr other) ↦ run_loop-quiet b m d ts w (rw (running-node v c raft_starts b e) other)
    ]
