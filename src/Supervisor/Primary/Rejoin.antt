-- ===== src/Supervisor/Primary/Rejoin.antt =====
-- The rejoin of a deposed primary in src/lib.rs.
use hyperiondb.Prelude.{
  ℕ, ◌+◌, ◌<◌, ◌≡◌, ◌≢◌, refl, ap, sym, ◌∙◌, Bool, true, false, Option, none, some, List, arith,
}
use hyperiondb.Failover.{Decision}
use hyperiondb.Supervisor.World.{
  Settings, Supervisor, World, Effect, run_sql, primary_of, decided_primary,
}
use hyperiondb.Supervisor.Primary.{wanted_sync, known_datadir, rejoin, primary_step}
use hyperiondb.Supervisor.Primary.Frames.{
  rejoins, ensure_slots-state, ensure_slots-world, authorize-state, authorize-world, fence-state,
  fence-world, configure_sync-state, configure_sync-world, unfence-state, unfence-world,
}
use hyperiondb.Supervisor.Primary.Sync.{fence-decided}
use hyperiondb.Supervisor.Primary.Fencing.{
  s₁, w₁, authorized, s₂, w₂, s₃, w₃, s₄, w₄, s₅, w₅, primary_step-parts,
}

module _ (c : Settings) where
  rejoin-count :
      (b : Bool) (s : Supervisor) (w : World)
      → rejoins w.trace < rejoins (rejoin c b s w).2.trace
      → (b ≡ false)
        × (decided_primary s ≢ 0)
        × (decided_primary s ≢ c.node_id)
        × (s.rejoining ≡ false)
        × ((rejoin c b s w).1.rejoining ≡ true)
        × (rejoins (rejoin c b s w).2.trace ≡ rejoins w.trace + 1)
  unfolding rejoin known_datadir run_sql
  rejoin-count b s w h = ground arith

  module _ (quorum_ok : Bool) (s : Supervisor) (w : World) where
    abbrev b : Bool
    b = authorized c quorum_ok s w

    rejoins-before : rejoins (w₅ c quorum_ok s w).trace ≡ rejoins w.trace
    rejoins-before =
        (unfence-world c b (s₄ c quorum_ok s w) (w₄ c quorum_ok s w)).1
        ∙ (configure_sync-world (wanted_sync c b (s₃ c quorum_ok s w)) (s₃ c quorum_ok s w)
            (w₃ c quorum_ok s w)).2
        ∙ (fence-world c b (s₂ c quorum_ok s w) (w₂ c quorum_ok s w)).2
        ∙ ap (λ (v : List Effect). rejoins v)
            (authorize-world c quorum_ok (s₁ c quorum_ok s w) (w₁ c quorum_ok s w)).1
        ∙ (ensure_slots-world c s w).3

    decided-before : (s₅ c quorum_ok s w).decided ≡ s.decided
    decided-before =
        ap (λ (t : Supervisor). t.decided)
          (unfence-state c b (s₄ c quorum_ok s w) (w₄ c quorum_ok s w))
        ∙ ap (λ (t : Supervisor). t.decided)
            (configure_sync-state (wanted_sync c b (s₃ c quorum_ok s w)) (s₃ c quorum_ok s w)
              (w₃ c quorum_ok s w))
        ∙ fence-decided c quorum_ok s w

    rejoining-before : (s₅ c quorum_ok s w).rejoining ≡ s.rejoining
    rejoining-before =
        ap (λ (t : Supervisor). t.rejoining)
          (unfence-state c b (s₄ c quorum_ok s w) (w₄ c quorum_ok s w))
        ∙ ap (λ (t : Supervisor). t.rejoining)
            (configure_sync-state (wanted_sync c b (s₃ c quorum_ok s w)) (s₃ c quorum_ok s w)
              (w₃ c quorum_ok s w))
        ∙ ap (λ (t : Supervisor). t.rejoining)
            (fence-state c b (s₂ c quorum_ok s w) (w₂ c quorum_ok s w))
        ∙ ap (λ (t : Supervisor). t.rejoining)
            (authorize-state c quorum_ok (s₁ c quorum_ok s w) (w₁ c quorum_ok s w))
        ∙ ap (λ (t : Supervisor). t.rejoining) (ensure_slots-state c s w)

    deposed :
        (o : Option Decision)
        → s.decided ≡ o
        → primary_of o ≢ 0
        → primary_of o ≢ c.node_id
        → (d : Decision) × (s.decided ≡ some d) × (d.primary ≢ 0) × (d.primary ≢ c.node_id)
    deposed none e h k = absurd (h refl)
    deposed (some d) e h k = (d, e, h, k)

    -- A round starts a rejoin only on a node that has no authority, for a decision that names
    -- another node and has had no rejoin yet; then it starts one, and notes it.
    pub rejoin_once :
        rejoins w.trace < rejoins (primary_step c quorum_ok s w).2.trace
        → ((d : Decision) × (s.decided ≡ some d) × (d.primary ≢ 0) × (d.primary ≢ c.node_id))
          × (s.rejoining ≡ false)
          × (authorized c quorum_ok s w ≡ false)
          × ((primary_step c quorum_ok s w).1.rejoining ≡ true)
          × (rejoins (primary_step c quorum_ok s w).2.trace ≡ rejoins w.trace + 1)
    rejoin_once h =
        let (unauthorized, ne, other, fresh, noted, once) =
          rejoin-count b (s₅ c quorum_ok s w) (w₅ c quorum_ok s w)
            (rw (rejoins-before) (rw primary_step-parts at h)) in
        (
          deposed s.decided refl (rw (ap primary_of decided-before) at ne)
              (rw (ap primary_of decided-before) at other),
          sym rejoining-before ∙ fresh,
          unauthorized,
          rw primary_step-parts noted,
          rw primary_step-parts (once ∙ ap (λ (n : ℕ). n + 1) rejoins-before),
        )
