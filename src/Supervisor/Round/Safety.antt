-- ===== src/Supervisor/Round/Safety.antt =====
-- Whole rounds of the loop of src/lib.rs: who is never made writable.
use hyperiondb.Prelude.{
  ◌+◌, ◌-◌, ◌<◌, ◌≡◌, ◌≢◌, refl, ap, ◌∙◌, Bool, true, false, Option, some, List, [], ◌∷◌, arith,
  if◌then◌else◌, All,
}
use hyperiondb.Failover.{Decision}
use hyperiondb.Supervisor.World.{Settings, Supervisor, World, M, when, stall_threshold}
use hyperiondb.Supervisor.Receive.{
  notice_stall, begin_round, receive, adopt, differs, same_decision, send_gossip, learn_datadir,
  mark_cluster,
}
use hyperiondb.Supervisor.Leader.{leader_step}
use hyperiondb.Supervisor.Standby.{standby_step}
use hyperiondb.Supervisor.Standby.Promotion.{standby_never_unfences}
use hyperiondb.Supervisor.Primary.{primary_step}
use hyperiondb.Supervisor.Primary.Frames.{unfences}
use hyperiondb.Supervisor.Primary.Fencing.{HasAuthority, unfences_without_authority}
use hyperiondb.Supervisor.Round.{Inputs, has_quorum, round, rounds}
use hyperiondb.Supervisor.Round.Frames.{
  Carries, Carries-trans, begin_round-decided, receive-Carries, send_gossip-Carries,
  learn_datadir-Carries, mark_cluster-Carries, leader-Carries,
}

adopt-decided : (d : Decision) (s : Supervisor) → (adopt (some d) s).decided ≡ some d
unfolding adopt differs same_decision
adopt-decided d s = ground arith

adopt-same : (d : Decision) (s : Supervisor) → s.decided ≡ some d → adopt (some d) s ≡ s
unfolding adopt differs same_decision
adopt-same d s e = ground arith

begin_round-stalled :
    (c : Settings) (s : Supervisor) (w : World)
    → stall_threshold < w.clock w.at - s.last_loop
    → (begin_round c s w).1.reconfirm_pending ≡ true
unfolding begin_round notice_stall
begin_round-stalled c s w h = ground arith

unauthorized_act :
    (c : Settings) (r q : Bool) (s : Supervisor) (w : World)
    → ¬ HasAuthority c q s
    → unfences (if r then standby_step c s w else primary_step c q s w).2.trace ≡ unfences w.trace
unauthorized_act c true q s w h = (standby_never_unfences c s w).0
unauthorized_act c false q s w h = unfences_without_authority c q s w h

not_authority_of_other :
    (c : Settings) (q : Bool) (s : Supervisor) (d : Decision)
    → s.decided ≡ some d
    → d.primary ≢ c.node_id
    → ¬ HasAuthority c q s
not_authority_of_other c q s d e other h = ground arith

not_authority_of_pending :
    (c : Settings) (q : Bool) (s : Supervisor) (d : Decision)
    → s.decided ≡ some d
    → s.reconfirm_pending ≡ true
    → ¬ HasAuthority c q s
not_authority_of_pending c q s d e p h = ground arith

if-apply :
    (b : Bool) (m n : M (Unit {0})) (s : Supervisor) (w : World)
    → (if b then m else n) s w ≡ (if b then m s w else n s w)
if-apply true m n s w = refl
if-apply false m n s w = refl

module _ (c : Settings) (i : Inputs) (s : Supervisor) (w : World) where
  abbrev pub begun : Unit {0} × Supervisor × World
  begun = begin_round c s w

  abbrev pub told : Unit {0} × Supervisor × World
  told = receive i.gossip begun.1 begun.2

  abbrev pub adopted : Supervisor
  adopted = adopt i.decision told.1

  abbrev sent : Unit {0} × Supervisor × World
  sent = send_gossip c i.in_recovery i.wal_lsn adopted told.2

  abbrev learnt : Unit {0} × Supervisor × World
  learnt = learn_datadir sent.1 sent.2

  abbrev noted : Unit {0} × Supervisor × World
  noted = mark_cluster learnt.1 learnt.2

  abbrev pub led : Unit {0} × Supervisor × World
  led = when i.is_leader (leader_step c i.probes) noted.1 noted.2

  abbrev pub led_world : World
  led_world = record (led.2) { at = led.2.at + 1 }

  abbrev pub quorum : Bool
  quorum = has_quorum c (led.2.clock led.2.at) led.1

  pub round-parts : round c i s w ≡ (
      if i.in_recovery
      then standby_step c led.1 led_world
      else primary_step c quorum led.1 led_world)
  unfolding round
  round-parts = if-apply i.in_recovery (standby_step c) (primary_step c quorum) led.1 led_world

  -- From the adoption to the point where the node acts.
  pub acts-Carries : Carries adopted led.1 told.2 led.2
  acts-Carries =
      Carries-trans adopted sent.1 led.1 told.2 sent.2 led.2
        (send_gossip-Carries adopted told.2 c i.in_recovery i.wal_lsn)
        (Carries-trans sent.1 learnt.1 led.1 sent.2 learnt.2 led.2
          (learn_datadir-Carries sent.1 sent.2)
          (Carries-trans learnt.1 noted.1 led.1 learnt.2 noted.2 led.2
            (mark_cluster-Carries learnt.1 learnt.2)
            (leader-Carries noted.1 noted.2 i.is_leader c i.probes)))

  -- A round changes the count only where the node acts, and only with authority there.
  round_quiet : ¬ HasAuthority c quorum led.1 → unfences (round c i s w).2.trace ≡ unfences w.trace
  round_quiet h = rw round-parts (
      unauthorized_act c i.in_recovery quorum led.1 led_world h
      ∙ acts-Carries.offs
      ∙ (receive-Carries i.gossip begun.1 begun.2).offs
      ∙ (begin_round-decided s w c).1)

  pub adopted-decision : (d : Decision) → i.decision ≡ some d → led.1.decided ≡ some d
  adopted-decision d e =
      acts-Carries.decided
      ∙ ap (λ (o : Option Decision). (adopt o told.1).decided) e
      ∙ adopt-decided d told.1

  pub told-Carries : Carries begun.1 told.1 begun.2 told.2
  told-Carries = receive-Carries i.gossip begun.1 begun.2

  pub kept-pending :
      (d : Decision)
      → s.decided ≡ some d
      → i.decision ≡ some d
      → led.1.reconfirm_pending ≡ begun.1.reconfirm_pending
  kept-pending d e f =
      acts-Carries.pending
      ∙ ap (λ (o : Option Decision). (adopt o told.1).reconfirm_pending) f
      ∙ ap (λ (t : Supervisor). t.reconfirm_pending)
          (adopt-same d told.1 (told-Carries.decided ∙ (begin_round-decided s w c).0 ∙ e))
      ∙ told-Carries.pending

  -- After a stall, a round in which the decision stays the same does not ask Postgres to become
  -- writable, whatever the quorum, the gossip and the answers of Postgres.
  pub stalled_round_stays_fenced :
      (d : Decision)
      → stall_threshold < w.clock w.at - s.last_loop
      → s.decided ≡ some d
      → i.decision ≡ some d
      → unfences (round c i s w).2.trace ≡ unfences w.trace
  stalled_round_stays_fenced d stall e f = round_quiet (
      not_authority_of_pending c quorum led.1 d (adopted-decision d f)
        (kept-pending d e f ∙ begin_round-stalled c s w stall))

  round_deposed :
      (d : Decision)
      → i.decision ≡ some d
      → d.primary ≢ c.node_id
      → unfences (round c i s w).2.trace ≡ unfences w.trace
  round_deposed d e other =
      round_quiet (not_authority_of_other c quorum led.1 d (adopted-decision d e) other)

-- The decision that Raft shows in a round names another node.
abbrev pub NamesOther : Settings → Inputs → Type 0
NamesOther c i = (d : Decision) × (i.decision ≡ some d) × (d.primary ≢ c.node_id)

-- Over any number of rounds in which the decision names other nodes, a node never asks Postgres to
-- become writable, whatever its state, its gossip and the answers of Postgres.
pub deposed_never_writable :
    (c : Settings) (is : List Inputs) (s : Supervisor) (w : World)
    → All (NamesOther c) is
    → unfences (rounds c is s w).2.trace ≡ unfences w.trace
unfolding rounds
deposed_never_writable c [] s w h = refl
deposed_never_writable c (i ∷ is) s w ((d, e, other), rest) =
    deposed_never_writable c is (round c i s w).1 (round c i s w).2 rest
    ∙ round_deposed c i s w d e other
