-- ===== src/Durability/Offers.antt =====
-- That packages/consensus-model/src/lib.rs offers an action when its guard holds.
use hyperiondb.Prelude.{
  Bool, ℕ, ◌<◌, ◌≡◌, refl, true, not, ◌&&◌, inl, none, some, [], map, arith, ltb, leb, ◌==◌,
  if◌then◌else◌, filter, indices, push_if, In, filter-In, range_from-In, append-In_left,
  append-In_right, map-In,
}
use hyperiondb.Durability.{
  Cluster, State, Action, write, replicate_to, ack, crash, failover, lsn_at, alive_at, count,
  possible_new_primaries, primary_actions, need_failover, actions,
}

module _ (c : Cluster) (s : State) where
  pub offered_by_primary :
      (a : Action) (p : ℕ)
      → s.primary ≡ some p
      → alive_at s p ≡ true
      → In a (primary_actions c s p)
      → In a (actions c s)
  unfolding actions
  offered_by_primary a p e up m =
      let m₁ : In a (elim s.primary [
        | none ↦ []
        | some p ↦ if alive_at s p then primary_actions c s p else []
      ]) =
        rw (e, up) m in
      append-In_left a _ _ m₁

  unfoldable pub can_ack : ℕ → Bool
  can_ack p =
      ltb 0 (lsn_at s p)
      && (ltb s.acked (lsn_at s p)
          && leb c.ack_quorum (count c (λ i. alive_at s i && leb (lsn_at s p) (lsn_at s i))))

  unfoldable pub lags : ℕ → ℕ → Bool
  lags p i = not (i == p) && (alive_at s i && ltb (lsn_at s i) (lsn_at s p))

  pub offers_ack : (p : ℕ) → can_ack p ≡ true → In ack (primary_actions c s p)
  unfolding primary_actions can_ack
  offers_ack p h =
      let m : In ack (push_if (can_ack p) ack) = rw h (inl refl) in
      append-In_right ack (push_if (ltb (lsn_at s p) c.max_lsn) write) _
        (append-In_left ack (push_if (can_ack p) ack) _ m)

  pub offers_replicate :
      (p i : ℕ) → i < c.n → lags p i ≡ true → In (replicate_to i) (primary_actions c s p)
  unfolding primary_actions can_ack lags
  offers_replicate p i lt h =
      append-In_right (replicate_to i) (push_if (ltb (lsn_at s p) c.max_lsn) write) _ (
        append-In_right (replicate_to i) (push_if (can_ack p) ack) _ (
          map-In replicate_to i (filter (lags p) (indices c.n)) (
            filter-In (lags p) i (indices c.n) (range_from-In i 0 c.n (omega arith) (omega arith))
              h)))

  pub offered_crash : (i : ℕ) → i < c.n → alive_at s i ≡ true → In (crash i) (actions c s)
  unfolding actions
  offered_crash i h up = append-In_right (crash i) _ _ (
      append-In_left (crash i) _ _ (
        map-In crash i (filter (alive_at s) (indices c.n)) (
          filter-In (alive_at s) i (indices c.n) (range_from-In i 0 c.n (omega arith) (omega arith))
            up)))

  pub offered_failover :
      (w : ℕ)
      → need_failover s ≡ true
      → s.term < c.max_term
      → In w (possible_new_primaries c s)
      → In (failover w) (actions c s)
  unfolding actions
  offered_failover w need room m =
      let go : (need_failover s && ltb s.term c.max_term) ≡ true = ground arith in
      let m₁ : In (failover w) (
          if need_failover s && ltb s.term c.max_term
          then map failover (possible_new_primaries c s)
          else []) =
        rw go (map-In failover w (possible_new_primaries c s) m) in
      append-In_right (failover w)
        (elim s.primary [ none ↦ [] | some p ↦ if alive_at s p then primary_actions c s p else [] ])
        _ (append-In_right (failover w) (map crash (filter (alive_at s) (indices c.n))) _ m₁)
