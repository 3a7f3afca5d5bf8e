-- ===== src/Durability/Offered.antt =====
-- When the actions of packages/consensus-model/src/lib.rs are offered.
use hyperiondb.Prelude.{
  ℕ, ◌≤◌, ◌<◌, ◌≡◌, refl, true, ◌&&◌, Option, none, some, [], arith, ltb, leb, Bool-cases, map,
  if◌then◌else◌, All, All-append, All-mono, inl, inr, All-push_if, All-map, All-indices, ltb→lt,
}
use hyperiondb.Durability.{
  Cluster, State, Action, write, replicate_to, ack, crash, failover, lsn_at, alive_at, count,
  primary_actions, possible_new_primaries, need_failover, actions,
}
use hyperiondb.Durability.Winners.{IsElectable, possible_new_primaries-IsElectable}

-- The primary `p` is up and confirms an action of its own.
pub record IsPrimary (s : State) (p : ℕ) : Type 0 where
  pub chosen : s.primary ≡ some p
  pub up : alive_at s p ≡ true

abbrev pub CanAck : Cluster → State → ℕ → Type 0
CanAck c s p =
    (s.acked < lsn_at s p)
    × (c.ack_quorum ≤ count c (λ i. alive_at s i && leb (lsn_at s p) (lsn_at s i)))

abbrev pub Offered : Cluster → State → Action → Type 0
Offered c s write = (p : ℕ) × IsPrimary s p × (lsn_at s p < c.max_lsn)
Offered c s (replicate_to i) = (p : ℕ) × IsPrimary s p × (i < c.n) × (lsn_at s i < lsn_at s p)
Offered c s ack = (p : ℕ) × IsPrimary s p × CanAck c s p
Offered c s (crash i) = (i < c.n) × (alive_at s i ≡ true)
Offered c s (failover w) = IsElectable c s w × (need_failover s ≡ true) × (s.term < c.max_term)

module _ (c : Cluster) (s : State) where
  primary_actions-Offered : (p : ℕ) → IsPrimary s p → All (Offered c s) (primary_actions c s p)
  unfolding primary_actions
  primary_actions-Offered p is =
      All-append (Offered c s) _ _ (All-push_if (Offered c s) _ write (λ h. (p, is, ltb→lt _ _ h)))
        (All-append (Offered c s) _ _
          (All-push_if (Offered c s) _ ack (λ h. (p, is, (ground arith, ground arith))))
          (All-map (Offered c s) replicate_to _ (
            All-indices (λ i. Offered c s (replicate_to i)) _ c.n
              (λ i lt h. (p, is, lt, ground arith)))))

  from_primary :
      (o : Option ℕ)
      → s.primary ≡ o
      → All
          (Offered c s)
          (elim o [ none ↦ [] | some p ↦ if alive_at s p then primary_actions c s p else [] ])
  from_primary none e = tt
  from_primary (some p) e = elim (Bool-cases (alive_at s p)) [
    | inl up ↦ rw up (primary_actions-Offered p (record { chosen = e; up = up }))
    | inr down ↦ rw down tt
  ]

  failovers-Offered : All (Offered c s) (
      if need_failover s && ltb s.term c.max_term
      then map failover (possible_new_primaries c s)
      else [])
  failovers-Offered = elim (Bool-cases (need_failover s && ltb s.term c.max_term)) [
    | inl h ↦ rw h (
        All-map (Offered c s) failover _ (
          All-mono (IsElectable c s) (λ w. Offered c s (failover w)) _
            (λ w e. (e, ground arith, ground arith)) (possible_new_primaries-IsElectable c s)))
    | inr h ↦ rw h tt
  ]

  -- Every action in the list meets its guard.
  pub actions-Offered : All (Offered c s) (actions c s)
  unfolding actions
  actions-Offered = All-append (Offered c s) _ _ (from_primary s.primary refl) (
      All-append (Offered c s) _ _
        (All-map (Offered c s) crash _
          (All-indices (λ i. Offered c s (crash i)) (alive_at s) c.n (λ i lt h. (lt, h))))
        failovers-Offered)
