-- ===== src/Supervisor/Round/Tests.antt =====
-- A decided primary that becomes writable in its third round.
use hyperiondb.Prelude.{
  ℕ, ◌+◌, ◌-◌, ◌*◌, ◌≤◌, ◌≡◌, ◌⊎◌, refl, false, none, some, List, [], ◌∷◌, ◌++◌, arith,
}
use hyperiondb.Failover.{Decision, decode_gossip}
use hyperiondb.Supervisor.World.{Supervisor, World, run_sql, apply_setting, confirm_window}
use hyperiondb.Supervisor.Sample.{node_1, calm}
use hyperiondb.Supervisor.Receive.{
  begin_round, notice_stall, receive, receive_one, adopt, differs, same_decision, send_gossip,
  learn_datadir, mark_cluster,
}
use hyperiondb.Supervisor.Primary.{
  ensure_slots, create_slots, raw_authority, confirm, authorize, wanted_sync, fence, configure_sync,
  unfence, rejoin, primary_step,
}
use hyperiondb.Supervisor.Primary.Frames.{unfences}
use hyperiondb.Prelude.Maps.{insert}
use hyperiondb.Supervisor.Round.{Inputs, has_quorum, round, rounds, initial}
use hyperiondb.Supervisor.Primary.Since.{NotedFrom}
use hyperiondb.Supervisor.Round.Liveness.{AllCalm, writable_after_window}
use hyperiondb.Supervisor.Round.Authority.{after, acting, HeldSince, writable_after_held}

abbrev chosen : Decision
chosen = record { seq = 3; primary = 1 }

-- Node 2 is heard of in every round.
abbrev steady : Inputs
steady = record {
  gossip = (2, 1 ∷ 2 ∷ []) ∷ [];
  decision = some chosen;
  in_recovery = false;
  wal_lsn = 12;
  is_leader = false;
  probes = record { own = 0; peer = λ n. none; joined = λ n. false };
}

-- The clock moves by 150 ms from one question to the next.
abbrev moving : World
moving = record calm { clock = λ k. 150 * k }

not_yet :
    unfences (after node_1 (steady ∷ steady ∷ []) (initial (some chosen) 0) moving).2.trace ≡ 0
unfolding rounds round begin_round notice_stall receive receive_one decode_gossip adopt differs
    same_decision send_gossip learn_datadir mark_cluster has_quorum primary_step ensure_slots
    create_slots authorize confirm raw_authority fence wanted_sync configure_sync unfence rejoin
    apply_setting run_sql initial insert
not_yet = refl

now_writable :
    unfences
      (after node_1
        ((steady ∷ steady ∷ []) ++ steady ∷ [])
        (initial (some chosen) 0)
        moving).2.trace
    ≡ 1
unfolding rounds round begin_round notice_stall receive receive_one decode_gossip adopt differs
    same_decision send_gossip learn_datadir mark_cluster has_quorum primary_step ensure_slots
    create_slots authorize confirm raw_authority fence wanted_sync configure_sync unfence rejoin
    apply_setting run_sql initial insert
now_writable = refl

still_chosen :
    (acting node_1 (steady ∷ steady ∷ []) steady (some chosen) 0 moving).decided ≡ some chosen
unfolding rounds round begin_round notice_stall receive receive_one decode_gossip adopt differs
    same_decision send_gossip learn_datadir mark_cluster has_quorum primary_step ensure_slots
    create_slots authorize confirm raw_authority fence wanted_sync configure_sync unfence rejoin
    apply_setting run_sql initial insert
still_chosen = refl

writable_after_held_example :
    ((t : ℕ) × (k : ℕ) × HeldSince node_1 (steady ∷ steady ∷ []) (initial (some chosen) 0) moving t
      × (confirm_window
          ≤ (after node_1 (steady ∷ steady ∷ []) (initial (some chosen) 0) moving).2.clock k - t))
    ⊎ ((k : ℕ) × ((acting node_1
            (steady ∷ steady ∷ [])
            steady
            (some chosen)
            0
            moving).authorized_since
          ≡ none)
        × (confirm_window
            ≤ (after node_1 (steady ∷ steady ∷ []) (initial (some chosen) 0) moving).2.clock (k + 1)
              - (after node_1 (steady ∷ steady ∷ []) (initial (some chosen) 0) moving).2.clock k))
writable_after_held_example =
    writable_after_held node_1 (some chosen) 0 (steady ∷ steady ∷ []) steady moving chosen
      still_chosen (omega (arith, not_yet, now_writable))

abbrev at_first : Supervisor
at_first = initial (some chosen) 0

abbrev three_rounds : List Inputs
three_rounds = steady ∷ steady ∷ steady ∷ []

steady_rounds : AllCalm node_1 chosen (three_rounds ++ steady ∷ []) at_first moving
unfolding rounds round begin_round notice_stall receive receive_one decode_gossip adopt differs
    same_decision send_gossip learn_datadir mark_cluster has_quorum primary_step ensure_slots
    create_slots authorize confirm raw_authority fence wanted_sync configure_sync unfence rejoin
    apply_setting run_sql initial insert
steady_rounds = (
  record {
    out_of_recovery = refl;
    shown = refl;
    contact = refl;
    on_time = omega arith;
    succeeds = λ k q. refl;
  },
  (
    record {
      out_of_recovery = refl;
      shown = refl;
      contact = refl;
      on_time = omega arith;
      succeeds = λ k q. refl;
    },
    (
      record {
        out_of_recovery = refl;
        shown = refl;
        contact = refl;
        on_time = omega arith;
        succeeds = λ k q. refl;
      },
      (
        record {
          out_of_recovery = refl;
          shown = refl;
          contact = refl;
          on_time = omega arith;
          succeeds = λ k q. refl;
        },
        tt,
      ),
    ),
  ),
)

noted_first : (round node_1 steady at_first moving).1.authorized_since ≡ some 900
unfolding rounds round begin_round notice_stall receive receive_one decode_gossip adopt differs
    same_decision send_gossip learn_datadir mark_cluster has_quorum primary_step ensure_slots
    create_slots authorize confirm raw_authority fence wanted_sync configure_sync unfence rejoin
    apply_setting run_sql initial insert
noted_first = refl

three_rounds-at : (after node_1 three_rounds at_first moving).2.at ≡ 22
unfolding rounds round begin_round notice_stall receive receive_one decode_gossip adopt differs
    same_decision send_gossip learn_datadir mark_cluster has_quorum primary_step ensure_slots
    create_slots authorize confirm raw_authority fence wanted_sync configure_sync unfence rejoin
    apply_setting run_sql initial insert
three_rounds-at = refl

three_rounds-clock : (after node_1 three_rounds at_first moving).2.clock ≡ (λ k. 150 * k)
unfolding rounds round begin_round notice_stall receive receive_one decode_gossip adopt differs
    same_decision send_gossip learn_datadir mark_cluster has_quorum primary_step ensure_slots
    create_slots authorize confirm raw_authority fence wanted_sync configure_sync unfence rejoin
    apply_setting run_sql initial insert
three_rounds-clock = refl

a_window_later :
    (t k : ℕ)
    → (round node_1 steady at_first moving).1.authorized_since ≡ some t
    → (after node_1 three_rounds at_first moving).2.at ≤ k
    → t + confirm_window ≤ (after node_1 three_rounds at_first moving).2.clock k
a_window_later t k noted from =
    let same : t ≡ 900 = cc (noted_first, noted) in
    rw three_rounds-clock (omega (arith, same, from, three_rounds-at))

writable_after_window_example :
    ((t : ℕ) × ((round node_1 steady at_first moving).1.authorized_since ≡ some t)
      × NotedFrom at_first moving t)
    × ((after node_1 (three_rounds ++ steady ∷ []) at_first moving).1.applied_read_only
        ≡ some false)
unfolding initial
writable_after_window_example =
    writable_after_window node_1 chosen steady (steady ∷ steady ∷ []) steady at_first moving
      (record { decided_here = refl; is_primary = refl; confirmed = refl }) steady_rounds
      a_window_later
