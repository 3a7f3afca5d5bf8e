-- ===== src/Durability/Safety.antt =====
-- What packages/consensus-model/src/lib.rs checks for clusters of 3 and 5 nodes, for every size.
use hyperiondb.Prelude.{
  ℕ, ◌+◌, ◌≤◌, ◌<◌, ◌≡◌, refl, true, none, some, Option, arith, leb, le→leb, length, In, All-In,
}
use hyperiondb.Explore.{Run, Run-induction}
use hyperiondb.Durability.{
  Cluster, State, Action, write, replicate_to, ack, crash, failover, lsn_at, alive_at, count,
  majority, possible_new_primaries, next_state, no_acked_loss, model, Reach,
}
use hyperiondb.Durability.Winners.{
  IsElectable, IsElectable-ahead, possible_new_primaries-IsElectable,
}
use hyperiondb.Durability.Offered.{Offered, actions-Offered}
use hyperiondb.Durability.Invariant.{IsSafeCluster, IsSound, Reach-IsSound, Run-IsSound}

-- In a cluster of any size in which the nodes that an acknowledgement takes and a majority are
-- together more than all nodes, as with a majority for both, every reachable state meets the checked
-- property: the primary holds what was acknowledged. (The cluster has a node, and its bounds fit in
-- 64 bits.)
pub no_acked_loss-always :
    {c : Cluster} {s : State} → IsSafeCluster c → Reach c s → no_acked_loss s ≡ true
unfolding no_acked_loss
no_acked_loss-always {c} {s} safe r = holds s.primary refl
  where
    sound : IsSound c s
    sound = Reach-IsSound c safe r

    holds :
        (o : Option ℕ)
        → s.primary ≡ o
        → (elim o [ none ↦ true | some p ↦ leb s.acked (lsn_at s p) ]) ≡ true
    holds none e = refl
    holds (some p) e = le→leb _ _ (sound.primary p e).1

-- In every reachable state of such a cluster no index leaves its array and no log position
-- overflows: both arrays have the cluster's length, the primary is one of the nodes, and positions
-- and term stay within the bounds.
pub indices_in_range :
    {c : Cluster} {s : State}
    → IsSafeCluster c
    → Reach c s
    → (length s.lsn ≡ c.n)
      × (length s.alive ≡ c.n)
      × ((p : ℕ) → s.primary ≡ some p → p < c.n)
      × ((i : ℕ) → lsn_at s i ≤ c.max_lsn)
      × (s.term ≤ c.max_term)
indices_in_range {c} safe r =
    let sound = Reach-IsSound c safe r in
    (sound.lsns, sound.alives, (λ p e. (sound.primary p e).0), sound.bounded, sound.terms)

-- Every candidate for a failover is a live node of the cluster that holds any record held by so many
-- nodes, dead or alive, that they and a majority are more than all nodes.
pub possible_new_primaries-ahead :
    (c : Cluster) (s : State) (w a : ℕ)
    → In w (possible_new_primaries c s)
    → c.n < majority c + count c (λ i. leb a (lsn_at s i))
    → (w < c.n) × (alive_at s w ≡ true) × (a ≤ lsn_at s w)
possible_new_primaries-ahead c s w a m q =
    IsElectable-ahead c s w a
      (All-In (IsElectable c s) (possible_new_primaries c s) w
        (possible_new_primaries-IsElectable c s) m)
      q

next_state-acked-le :
    (c : Cluster) (s : State) {t : State} (a : Action)
    → Offered c s a
    → next_state s a ≡ some t
    → s.acked ≤ t.acked
unfolding next_state
next_state-acked-le c s write (p, is, h) e = ground arith
next_state-acked-le c s (replicate_to i) (p, is, lt, h) e = ground arith
next_state-acked-le c s ack (p, is, h) e = ground arith
next_state-acked-le c s (crash i) h e = ground arith
next_state-acked-le c s (failover w) h e = ground arith

Run-acked-le : (c : Cluster) {s t : State} → Run (model c) s t → s.acked ≤ t.acked
Run-acked-le c {s} =
    Run-induction (model c) (Offered c) (actions-Offered c) (λ t. s.acked ≤ t.acked)
      (λ t u h a o e. omega (arith, next_state-acked-le c t a o e)) (omega arith)

-- What was acknowledged in a reachable state is held by every later primary, over any number of
-- crashes and failovers.
pub acked_survives :
    {c : Cluster} {s t : State}
    → IsSafeCluster c
    → Reach c s
    → Run (model c) s t
    → (p : ℕ) → t.primary ≡ some p
    → s.acked ≤ lsn_at t p
acked_survives {c} {s} {t} safe r run p e =
    let sound = Run-IsSound c safe (Reach-IsSound c safe r) run in
    omega (arith, Run-acked-le c run, sound.primary p e)
