-- ===== src/Supervisor/Round/Frames.antt =====
-- What the parts of a round before the node acts leave alone, in src/lib.rs.
use hyperiondb.Prelude.{
  ℕ, ◌-◌, ◌≤◌, ◌≡◌, some, refl, ◌∙◌, inl, inr, Bool, List, [], ◌∷◌, arith, Option-cases,
}
use hyperiondb.Failover.{decode_gossip}
use hyperiondb.Supervisor.World.{Settings, Supervisor, World, when, run_sql, stall_threshold}
use hyperiondb.Supervisor.Receive.{
  notice_stall, begin_round, take_gossip, receive_one, receive, send_gossip, marker_exists,
  write_marker, learn_datadir, mark_cluster,
}
use hyperiondb.Supervisor.Leader.{Probes, live, candidate, propose, leader_step}
use hyperiondb.Supervisor.Primary.Frames.{unfences}

pub record Carries (s t : Supervisor) (w v : World) : Type 0 where
  pub decided : t.decided ≡ s.decided
  pub pending : t.reconfirm_pending ≡ s.reconfirm_pending
  pub since : t.authorized_since ≡ s.authorized_since
  pub flag : t.applied_read_only ≡ s.applied_read_only
  pub offs : unfences v.trace ≡ unfences w.trace
  pub clock : v.clock ≡ w.clock
  pub reply : v.reply ≡ w.reply
  pub later : w.at ≤ v.at

pub Carries-trans :
    (s t u : Supervisor) (w v x : World) → Carries s t w v → Carries t u v x → Carries s u w x
Carries-trans s t u w v x a b = record {
  decided = b.decided ∙ a.decided;
  pending = b.pending ∙ a.pending;
  since = b.since ∙ a.since;
  flag = b.flag ∙ a.flag;
  offs = b.offs ∙ a.offs;
  clock = b.clock ∙ a.clock;
  reply = b.reply ∙ a.reply;
  later = omega (arith, a.later, b.later);
}

module _ (s : Supervisor) (w : World) where
  receive_one-Carries :
      (from : ℕ) (payload : List ℕ)
      → Carries s (receive_one from payload s w).1 w (receive_one from payload s w).2
  unfolding receive_one take_gossip
  receive_one-Carries from payload = elim (Option-cases (decode_gossip payload)) [
    | inl e ↦ ground arith
    | inr (g, e) ↦ ground arith
  ]

  pub send_gossip-Carries :
      (c : Settings) (r : Bool) (l : ℕ)
      → Carries s (send_gossip c r l s w).1 w (send_gossip c r l s w).2
  unfolding send_gossip
  send_gossip-Carries c r l = ground arith

  pub learn_datadir-Carries : Carries s (learn_datadir s w).1 w (learn_datadir s w).2
  unfolding learn_datadir run_sql marker_exists
  learn_datadir-Carries = ground arith

  pub mark_cluster-Carries : Carries s (mark_cluster s w).1 w (mark_cluster s w).2
  unfolding mark_cluster write_marker
  mark_cluster-Carries = ground arith

  pub leader-Carries :
      (b : Bool) (c : Settings) (i : Probes)
      → Carries s (when b (leader_step c i) s w).1 w (when b (leader_step c i) s w).2
  unfolding leader_step propose
  leader-Carries b c i = elim (Option-cases (candidate c i s (live c (w.clock w.at) s))) [
    | inl e ↦ ground arith
    | inr (p, e) ↦ ground arith
  ]

  pub begin_round-decided :
      (c : Settings)
      → ((begin_round c s w).1.decided ≡ s.decided)
        × (unfences (begin_round c s w).2.trace ≡ unfences w.trace)
  unfolding begin_round notice_stall
  begin_round-decided c = ground arith

  -- A stall forgets since when authority was seen.
  pub begin_round-since :
      (c : Settings) (t : ℕ)
      → (begin_round c s w).1.authorized_since ≡ some t
      → s.authorized_since ≡ some t
  unfolding begin_round notice_stall
  begin_round-since c t h = ground arith

  -- Without a stall all that stays as it was.
  pub begin_round-calm :
      (c : Settings)
      → w.clock w.at - s.last_loop ≤ stall_threshold
      → ((begin_round c s w).1.reconfirm_pending ≡ s.reconfirm_pending)
        × ((begin_round c s w).1.authorized_since ≡ s.authorized_since)
        × ((begin_round c s w).1.applied_read_only ≡ s.applied_read_only)
        × ((begin_round c s w).2.reply ≡ w.reply)
  unfolding begin_round notice_stall
  begin_round-calm c h = ground (arith, h)

  pub begin_round-world :
      (c : Settings) → ((begin_round c s w).2.clock ≡ w.clock) × (w.at ≤ (begin_round c s w).2.at)
  unfolding begin_round notice_stall
  begin_round-world c = ground arith

pub receive-Carries :
    (q : List (ℕ × List ℕ)) (s : Supervisor) (w : World)
    → Carries s (receive q s w).1 w (receive q s w).2
unfolding receive
receive-Carries [] s w = record {
  decided = refl;
  pending = refl;
  since = refl;
  flag = refl;
  offs = refl;
  clock = refl;
  reply = refl;
  later = omega arith;
}
receive-Carries ((from, payload) ∷ q) s w =
    Carries-trans s (receive_one from payload s w).1 _ w (receive_one from payload s w).2 _
      (receive_one-Carries s w from payload)
      (receive-Carries q (receive_one from payload s w).1 (receive_one from payload s w).2)
