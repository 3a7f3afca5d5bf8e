-- ===== src/Durability/Threshold.antt =====
-- How many acknowledgements packages/consensus-model/src/lib.rs needs: exactly so many that they and a
-- majority are more than all nodes.
use hyperiondb.Prelude.{◌+◌, ◌≤◌, ◌<◌, ◌≡◌, ◌↔◌, true, false, arith, ltb, Bool-cases, inl, inr}
use hyperiondb.Prelude.Words.{u64_mod}
use hyperiondb.Durability.{Cluster, State, majority, no_acked_loss, failover_after_ack, Reach}
use hyperiondb.Durability.Safety.{no_acked_loss-always}
use hyperiondb.Durability.Stream.{IsRoomy, acked_by, crashed}
use hyperiondb.Durability.Takeover.{taken_over, taken_over-Reach, lsn-taken_over}

module _ {c : Cluster} (roomy : IsRoomy c) where
  -- With fewer acknowledgements a node without the record may take over.
  pub acked_loss-Reach :
      c.ack_quorum + majority c ≤ c.n → (s : State) × Reach c s × (no_acked_loss s ≡ false)
  unfolding majority no_acked_loss taken_over crashed acked_by
  acked_loss-Reach fits =
      let q = c.ack_quorum in
      (
        taken_over c q q,
        taken_over-Reach c roomy (omega arith) q roomy.asks fits,
        ground (arith, lsn-taken_over c roomy q q q),
      )

  -- Node 1 takes over after an acknowledgement, if the others are a majority: in a
  -- cluster of three nodes or more.
  pub failover_after_ack-Reach :
      c.ack_quorum ≤ c.n → 3 ≤ c.n → (s : State) × Reach c s × (failover_after_ack s ≡ true)
  unfolding majority failover_after_ack taken_over crashed acked_by
  failover_after_ack-Reach le fits =
      let q = c.ack_quorum in
      (taken_over c q 1, taken_over-Reach c roomy le 1 (omega arith) (omega arith), ground arith)

-- In a cluster of 1 to 31 nodes, with room for a record and a failover and bounds in 64 bits, that
-- acknowledges at a node or more: every reachable state meets the checked property if and only if the
-- nodes that an acknowledgement takes and a majority are together more than all nodes.
pub no_acked_loss_iff :
    {c : Cluster}
    → IsRoomy c
    → 0 < c.n
    → c.max_lsn < u64_mod
    → c.max_term < u64_mod
    → ((s : State) → Reach c s → no_acked_loss s ≡ true) ↔ (c.n < majority c + c.ack_quorum)
no_acked_loss_iff {c} roomy nonempty lsn_fits term_fits = (
  (λ safe. elim (Bool-cases (ltb c.n (majority c + c.ack_quorum))) [
    | inl e ↦ ground arith
    | inr e ↦
        let (s, r, lost) = acked_loss-Reach roomy (ground arith) in
        absurd (ground (arith, safe s r, lost))
  ]),
  (λ enough s r.
      no_acked_loss-always
        (record {
          nonempty = nonempty;
          lsn_fits = lsn_fits;
          term_fits = term_fits;
          quorum = enough;
        })
        r),
)
