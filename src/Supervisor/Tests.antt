-- ===== src/Supervisor/Tests.antt =====
-- Rounds of the supervisor at concrete states, and its theorems there.
use hyperiondb.Prelude.{
  ℕ, ◌≡◌, ◌≢◌, refl, inl, inr, List, In, All, true, false, Option, none, some, [], ◌∷◌, arith,
}
use hyperiondb.Prelude.Text.{Text, codes}
use hyperiondb.Failover.{Candidate, Decision, choose_primary, by_candidate}
use hyperiondb.Supervisor.World.{
  Sql, set_read_only, set_sync, reload_conf, ran, proposed, World, run_sql, apply_setting,
}
use hyperiondb.Supervisor.Sample.{node_1, decided_for, calm}
use hyperiondb.Supervisor.Leader.{
  Probes, live, is_live, in_flight, next_seq, leader_step, propose, candidate, primary_alive, probe,
  probe_one,
}
use hyperiondb.Failover.Choice.{NotAhead}
use hyperiondb.Supervisor.Leader.DeadPrimary.{heard, probed, failover_proposed}
use hyperiondb.Supervisor.Leader.Proposals.{Names}
use hyperiondb.Supervisor.Standby.{standby_step, clear_sync, promote_self}
use hyperiondb.Supervisor.Standby.Promotion.{promotions, FencedPromotion, promotion_is_fenced}
use hyperiondb.Supervisor.Primary.{
  ensure_slots, create_slots, raw_authority, confirm, authorize, wanted_sync, fence, configure_sync,
  unfence, known_datadir, rejoin, primary_step,
}
use hyperiondb.Supervisor.Primary.Frames.{unfences, rejoins}
use hyperiondb.Supervisor.Primary.Fencing.{
  HasAuthority, authorized, unfence_needs_authority, fenced_without_authority,
}
use hyperiondb.Supervisor.Primary.Sync.{synced_when_writable}
use hyperiondb.Supervisor.Primary.Faults.{writable_despite_sync_failure}
use hyperiondb.Supervisor.Primary.Rejoin.{rejoin_once}
use hyperiondb.Supervisor.Round.{Inputs, round, rounds}
use hyperiondb.Supervisor.Round.Safety.{stalled_round_stays_fenced, deposed_never_writable}

-- The statement for the standbys' names fails.
abbrev reply_but_sync : Sql → Option Text
reply_but_sync (set_sync names) = none
reply_but_sync _ = some []

abbrev faulty : World
faulty = record calm { reply = λ k q. reply_but_sync q }

-- Names before the unfence, newest effect first.
unfence_trace :
    (primary_step node_1 true (decided_for 1) calm).2.trace
    ≡ ran reload_conf true
      ∷ ran (set_read_only false) true
      ∷ ran reload_conf true
      ∷ ran (set_sync (codes "ANY 1 (node2, node3)")) true
      ∷ []
unfolding primary_step ensure_slots create_slots authorize confirm raw_authority fence wanted_sync
    configure_sync unfence rejoin known_datadir apply_setting run_sql
unfence_trace = refl

unfences_once : unfences (primary_step node_1 true (decided_for 1) calm).2.trace ≡ 1
unfolding primary_step ensure_slots create_slots authorize confirm raw_authority fence wanted_sync
    configure_sync unfence rejoin known_datadir apply_setting run_sql
unfences_once = refl

unfence_needs_authority_example : HasAuthority node_1 true (decided_for 1)
unfence_needs_authority_example =
    unfence_needs_authority node_1 true (decided_for 1) calm (omega (arith, unfences_once))

not_authorized : ¬ HasAuthority node_1 true (decided_for 2)
not_authorized h = ground arith

fenced_without_authority_example :
    ((primary_step node_1 true (decided_for 2) calm).1.applied_read_only ≡ some true)
    × (unfences (primary_step node_1 true (decided_for 2) calm).2.trace ≡ 0)
fenced_without_authority_example =
    fenced_without_authority node_1 true (decided_for 2) calm not_authorized (λ k q. refl)

writable_after : (primary_step node_1 true (decided_for 1) calm).1.applied_read_only ≡ some false
unfolding primary_step ensure_slots create_slots authorize confirm raw_authority fence wanted_sync
    configure_sync unfence rejoin known_datadir apply_setting run_sql
writable_after = refl

synced_when_writable_example :
    (primary_step node_1 true (decided_for 1) calm).1.applied_sync
    ≡ some (codes "ANY 1 (node2, node3)")
synced_when_writable_example =
    synced_when_writable node_1 true (decided_for 1) calm (record { seq = 3; primary = 1 }) refl
      refl (λ k q. refl) writable_after

writable_despite_sync_failure_example :
    ((primary_step node_1 true (decided_for 1) faulty).1.applied_read_only ≡ some false)
    × ((primary_step node_1 true (decided_for 1) faulty).1.applied_sync ≡ none)
writable_despite_sync_failure_example =
    writable_despite_sync_failure node_1 (decided_for 1) faulty (record { seq = 3; primary = 1 })
      1000 refl refl refl refl refl (λ k. omega arith) (λ k. refl) (λ k. refl) (λ k. refl)

rejoins_once : rejoins (primary_step node_1 true (decided_for 2) calm).2.trace ≡ 1
unfolding primary_step ensure_slots create_slots authorize confirm raw_authority fence wanted_sync
    configure_sync unfence rejoin known_datadir apply_setting run_sql
rejoins_once = refl

rejoin_once_example :
    ((d : Decision) × ((decided_for 2).decided ≡ some d) × (d.primary ≢ 0) × (d.primary ≢ 1))
    × ((decided_for 2).rejoining ≡ false)
    × (authorized node_1 true (decided_for 2) calm ≡ false)
    × ((primary_step node_1 true (decided_for 2) calm).1.rejoining ≡ true)
    × (rejoins (primary_step node_1 true (decided_for 2) calm).2.trace ≡ 1)
rejoin_once_example = rejoin_once node_1 true (decided_for 2) calm (omega (arith, rejoins_once))

abbrev silent : Probes
silent = record { own = 10; peer = λ k. none; joined = λ k. true }

-- The decided primary, node 3, is not among the live nodes.
propose_self :
    (leader_step node_1 silent (decided_for 3) calm).2.trace
    ≡ proposed (record { seq = 4; primary = 1 }) ∷ []
unfolding leader_step candidate primary_alive probe probe_one choose_primary by_candidate live
    is_live propose in_flight next_seq
propose_self = refl

-- The positions of the nodes 1 and 2, read again.
abbrev reached : List Candidate
reached = probed node_1 silent (heard node_1 silent 4000 (decided_for 3))

three_is_gone : ¬ Names 3 (heard node_1 silent 4000 (decided_for 3))
three_is_gone (m, inl h, e) = absurd (ground (arith, h, e))
three_is_gone (m, inr (inl h), e) = absurd (ground (arith, h, e))
three_is_gone (m, inr (inr h), e) = absurd h

failover_proposed_example :
    (x : Candidate) × In x reached
    × All (λ y. NotAhead y x) reached
    × ((leader_step node_1 silent (decided_for 3) calm).2.trace
        ≡ proposed (record { seq = 4; primary = x.0 }) ∷ [])
    × ((leader_step node_1 silent (decided_for 3) calm).1
        ≡ record (decided_for 3) { last_proposed = (4, x.0); last_proposed_tick = 7 })
failover_proposed_example =
    failover_proposed node_1 silent (decided_for 3) calm (record { seq = 3; primary = 3 })
      (1, 10, false) refl (omega arith) three_is_gone (omega arith) (inl refl) refl
      (inl (omega arith))

promotes_once : promotions (standby_step node_1 (decided_for 1) calm).2.trace ≡ 1
unfolding standby_step clear_sync promote_self apply_setting run_sql
promotes_once = refl

promotion_is_fenced_example :
    (◌≡◌ {A = ℕ} 1 1) × FencedPromotion calm (standby_step node_1 (decided_for 1) calm).2
promotion_is_fenced_example =
    promotion_is_fenced node_1 (decided_for 1) calm (omega (arith, promotes_once))

abbrev inputs_for : ℕ → Inputs
inputs_for p = record {
  gossip = (2, 1 ∷ 2 ∷ []) ∷ [];
  decision = some (record { seq = 3; primary = p });
  in_recovery = false;
  wal_lsn = 12;
  is_leader = true;
  probes = silent;
}

-- The loop was last seen 2500 ms ago.
stalled_round_stays_fenced_example :
    unfences
      (round node_1 (inputs_for 1) (record (decided_for 1) { last_loop = 1500 }) calm).2.trace
    ≡ 0
stalled_round_stays_fenced_example =
    stalled_round_stays_fenced node_1 (inputs_for 1) (record (decided_for 1) { last_loop = 1500 })
      calm (record { seq = 3; primary = 1 }) (omega arith) refl refl

deposed_never_writable_example :
    unfences (rounds node_1 (inputs_for 2 ∷ inputs_for 3 ∷ []) (decided_for 1) calm).2.trace ≡ 0
deposed_never_writable_example =
    deposed_never_writable node_1 (inputs_for 2 ∷ inputs_for 3 ∷ []) (decided_for 1) calm (
      (record { seq = 3; primary = 2 }, refl, λ e. omega arith),
      ((record { seq = 3; primary = 3 }, refl, λ e. omega arith), tt),
    )
