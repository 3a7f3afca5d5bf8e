-- ===== src/Durability/Tests.antt =====
-- Runs of the durability model, and the theorems at concrete clusters.
use hyperiondb.Prelude.{ℕ, ◌+◌, ◌↔◌, ◌≤◌, ◌<◌, ◌≡◌, refl, true, false, [], ◌∷◌, some, arith}
use hyperiondb.Durability.{
  Cluster, State, write, crash, lsn_at, majority, insert_winner, by_lsn, try_mask, try_masks,
  possible_new_primaries, init_state, primary_actions, need_failover, actions, next_state,
  within_boundary, no_acked_loss, failover_after_ack, model, Reach,
}
use hyperiondb.Prelude.Words.{has_bit}
use hyperiondb.Explore.{Run, follow, follow-Run}
use hyperiondb.Durability.Invariant.{IsSafeCluster}
use hyperiondb.Durability.Threshold.{no_acked_loss_iff}
use hyperiondb.Durability.Safety.{no_acked_loss-always, acked_survives}

abbrev three : ℕ → Cluster
three quorum = record { n = 3; ack_quorum = quorum; max_lsn = 3; max_term = 3 }

three-IsSafeCluster : IsSafeCluster (three 2)
unfolding majority
three-IsSafeCluster = omega arith

actions_at_start :
    actions (three 2) (init_state (three 2)) ≡ write ∷ crash 0 ∷ crash 1 ∷ crash 2 ∷ []
unfolding actions init_state primary_actions need_failover
actions_at_start = refl

-- The negative control: at a quorum of one an acknowledged record is lost.
under_quorum_loses :
    (s : State) × Reach (three 1) s × (no_acked_loss s ≡ false) × (failover_after_ack s ≡ true)
unfolding follow actions primary_actions need_failover next_state within_boundary
    possible_new_primaries try_masks try_mask has_bit by_lsn insert_winner majority init_state
    no_acked_loss failover_after_ack
under_quorum_loses =
    let lost : State = record {
      lsn = 1 ∷ 0 ∷ 0 ∷ [];
      alive = false ∷ true ∷ true ∷ [];
      primary = some 1;
      acked = 1;
      term = 1;
    } in
    (
      lost,
      follow-Run (model (three 1)) (init_state (three 1)) (0 ∷ 1 ∷ 3 ∷ 2 ∷ []) lost refl,
      refl,
      refl,
    )

-- At a majority the record is replicated before the acknowledgement, and survives.
abbrev acked : State
acked = record {
  lsn = 1 ∷ 1 ∷ 0 ∷ [];
  alive = true ∷ true ∷ true ∷ [];
  primary = some 0;
  acked = 1;
  term = 0;
}

abbrev survived : State
survived = record {
  lsn = 1 ∷ 1 ∷ 0 ∷ [];
  alive = false ∷ true ∷ true ∷ [];
  primary = some 1;
  acked = 1;
  term = 1;
}

acked-Reach : Reach (three 2) acked
unfolding follow actions primary_actions need_failover next_state within_boundary
    possible_new_primaries try_masks try_mask has_bit by_lsn insert_winner majority init_state
acked-Reach = follow-Run (model (three 2)) (init_state (three 2)) (0 ∷ 1 ∷ 1 ∷ []) acked refl

acked-Run : Run (model (three 2)) acked survived
unfolding follow actions primary_actions need_failover next_state within_boundary
    possible_new_primaries try_masks try_mask has_bit by_lsn insert_winner majority
acked-Run = follow-Run (model (three 2)) acked (2 ∷ 2 ∷ []) survived refl

no_acked_loss-always_example : no_acked_loss acked ≡ true
no_acked_loss-always_example = no_acked_loss-always three-IsSafeCluster acked-Reach

acked_survives_example : acked.acked ≤ lsn_at survived 1
acked_survives_example = acked_survives three-IsSafeCluster acked-Reach acked-Run 1 refl

abbrev four : ℕ → Cluster
four quorum = record { n = 4; ack_quorum = quorum; max_lsn = 3; max_term = 3 }

-- At an even size half of the nodes are enough, and fewer are not.
no_acked_loss_iff_example :
    ((s : State) → Reach (four 2) s → no_acked_loss s ≡ true) ↔ (4 < majority (four 2) + 2)
no_acked_loss_iff_example =
    no_acked_loss_iff
      (record {
        few = omega arith;
        lsn_room = omega arith;
        term_room = omega arith;
        asks = omega arith;
      })
      (omega arith) (omega arith) (omega arith)
