-- ===== src/Startup/Quorum.antt =====
-- What src/lib.rs derives from a valid configuration: when the loop starts, how many nodes are a
-- quorum, and when that is enough for the durability model.
use mathlib.Core.Path.{subst}
use hyperiondb.Prelude.{
  ℕ, ◌+◌, ◌*◌, ◌/◌, ◌%◌, ◌≤◌, ◌<◌, ◌≡◌, ◌≢◌, ◌↔◌, ◌⊎◌, inl, inr, if◌then◌else◌, refl, sym, ◌∙◌, ap,
  Bool, true, false, not, ◌||◌, List, [], ◌∷◌, arith, ◌==◌, length, filter, In, Bool-cases,
  length-map,
}
use hyperiondb.Prelude.Words.{u64_mod}
use hyperiondb.Prelude.Quorum.{count_all}
use hyperiondb.Prelude.Text.{Text}
use hyperiondb.Peers.{Peer, parse_peers}
use hyperiondb.Config.{
  Values, Caches, peers_spec, addrs_spec, raft_path, passfile, apply_user, apply_db,
}
use hyperiondb.Durability
use hyperiondb.Durability.{Cluster, State, Reach, no_acked_loss}
use hyperiondb.Durability.Threshold.{no_acked_loss_iff}
use hyperiondb.Startup.{
  ConfigError, Boot, not_configured, running, ids, is_none, boot, check, start, config_errors,
  majority, sync_quorum, standby_names,
}
use hyperiondb.Startup.Checks.{Distinct, IsValid, config_errors-nil_iff}

abbrev pub node_of : Values → ℕ
node_of v = v.node_id % u64_mod

abbrev pub peers_of : Values → List Peer
peers_of v = parse_peers (peers_spec v)

abbrev pub members_of : Values → List Peer
members_of v = parse_peers (addrs_spec v)

-- The role of the third read, after the caches are filled.
abbrev pub user_of : Values → Caches → Text
user_of v c = (apply_user v (apply_db v (apply_user v (passfile v c).1).1).1).0

-- The configuration with which the loop can run.
abbrev pub IsRunnable : Values → Type 0
IsRunnable v = (node_of v ≢ 0) × IsValid (node_of v) (ids (peers_of v)) (members_of v) (raft_path v)

check-running_iff :
    (es : List ConfigError) (raft_starts : Bool) (b₀ b : Boot)
    → (check es raft_starts b₀ ≡ running b) ↔ ((es ≡ []) × (raft_starts ≡ true) × (b₀ ≡ b))
unfolding check
check-running_iff [] true b₀ b = ((λ e. (refl, refl, cc)), (λ r. ap running r.2))
check-running_iff [] false b₀ b = ((λ e. absurd cc), (λ r. absurd cc))
check-running_iff (x ∷ es) raft_starts b₀ b = ((λ e. absurd cc), (λ r. absurd cc))

is_none-In : (a : ℕ) (xs : List ℕ) → In a xs → is_none xs ≡ false
is_none-In a [] m = absurd m
is_none-In a (x ∷ xs) m = refl

start-idle :
    (v : Values) (c : Caches) (raft_starts : Bool)
    → (node_of v == 0 || is_none (ids (peers_of v))) ≡ true
    → (start v c raft_starts).0 ≡ not_configured
unfolding start
start-idle v c raft_starts e = rw (start, e) refl

start-checked :
    (v : Values) (c : Caches) (raft_starts : Bool)
    → (node_of v == 0 || is_none (ids (peers_of v))) ≡ false
    → (start v c raft_starts).0
      ≡ check
          (config_errors (node_of v) (ids (peers_of v)) (members_of v) (raft_path v))
          raft_starts
          (boot (node_of v) (peers_of v) (members_of v) (passfile v c).0 (user_of v c) v)
unfolding start
start-checked v c raft_starts e = rw (start, e) refl

-- The loop runs exactly with a valid configuration, a node id that is not 0 and a Raft that starts, and
-- then on what is derived from the configuration.
pub start-running_iff :
    (v : Values) (c : Caches) (raft_starts : Bool) (b : Boot)
    → ((start v c raft_starts).0 ≡ running b) ↔ (
        IsRunnable v
        × (raft_starts ≡ true)
        × (boot (node_of v) (peers_of v) (members_of v) (passfile v c).0 (user_of v c) v ≡ b))
start-running_iff v c raft_starts b =
    elim (Bool-cases (node_of v == 0 || is_none (ids (peers_of v)))) [
      | inl e ↦ (
        (λ h. absurd (cc (start-idle v c raft_starts e, h))),
        (λ ((nonzero, valid), _, _).
            absurd (
              ground
                (arith, e, nonzero, is_none-In (node_of v) (ids (peers_of v)) valid.is_voter))),
      )
      | inr e ↦
          let step = start-checked v c raft_starts e in
          let errors =
            config_errors-nil_iff (node_of v) (ids (peers_of v)) (members_of v) (raft_path v) in
          let (go, back) = check-running_iff _ raft_starts _ b in
          (
            (λ h.
                let (nil, starts, same) = go (sym step ∙ h) in
                (((λ z. ground (arith, e, z)), errors.0 nil), starts, same)),
            (λ ((nonzero, valid), starts, same). step ∙ back (errors.1 valid, starts, same)),
          )
    ]

others-all :
    (node : ℕ) (xs : List ℕ) → ¬ In node xs → length (filter (λ v. not (v == node)) xs) ≡ length xs
others-all node xs away =
    count_all (λ v. not (v == node)) xs
      λ i m. elim (Bool-cases (i == node)) [
        | inl e ↦ absurd (away (subst (λ (z : ℕ). In z xs) (ground (arith, e)) m))
        | inr e ↦ ground (arith, e)
      ]

length-others :
    (node : ℕ) (xs : List ℕ)
    → Distinct xs
    → In node xs
    → length (filter (λ v. not (v == node)) xs) + 1 ≡ length xs
length-others node [] d m = absurd m
length-others node (x ∷ xs) (unique, d) m = elim (Bool-cases (x == node)) [
  | inl e ↦
      let here : x ≡ node = ground (arith, e) in
      let rest = others-all node xs (subst (λ (z : ℕ). ¬ In z xs) here unique) in
      simp e (omega (arith, rest))
  | inr e ↦ elim m [
    | inl same ↦ absurd (ground (arith, e, same))
    | inr k ↦ simp e (omega (arith, length-others node xs d k))
  ]
]

length-standby_names :
    (node : ℕ) (voters : List ℕ)
    → length (standby_names node voters) ≡ length (filter (λ v. not (v == node)) voters)
unfolding standby_names
length-standby_names node voters = length-map _ (filter (λ v. not (v == node)) voters)

-- In a cluster that started, a majority is more than half of the nodes, the primary and the standbys that
-- a synchronous commit waits for are a majority, and at least as many standbys are named as it waits
-- for: all nodes but the node itself.
start-quorum :
    (v : Values) (c : Caches) (raft_starts : Bool) (b : Boot)
    → (start v c raft_starts).0 ≡ running b
    → let n = length b.voters in
      (n < 2 * b.settings.majority)
      × (sync_quorum b.voters + 1 ≡ b.settings.majority)
      × (sync_quorum b.voters ≤ length (standby_names b.settings.node_id b.voters))
      × (length (standby_names b.settings.node_id b.voters) + 1 ≡ n)
unfolding boot majority
start-quorum v c raft_starts b h =
    let ((_, valid), _, same) = (start-running_iff v c raft_starts b).0 h in
    let node = node_of v in
    let voters = ids (peers_of v) in
    let others = length-others node voters valid.voters_distinct valid.is_voter in
    let named = length-standby_names node voters in
    subst
      (λ (x : Boot).
        (length x.voters < 2 * x.settings.majority)
        × (sync_quorum x.voters + 1 ≡ x.settings.majority)
        × (sync_quorum x.voters ≤ length (standby_names x.settings.node_id x.voters))
        × (length (standby_names x.settings.node_id x.voters) + 1 ≡ length x.voters))
      same (omega arith, omega arith, omega (arith, others, named), omega (arith, others, named))

-- The durability model of the cluster that started, with the nodes that a commit waits for: the primary,
-- and the standbys if replication is synchronous.
abbrev pub cluster_of : Boot → ℕ → ℕ → Cluster
cluster_of b max_lsn max_term = record {
  n = length b.voters;
  ack_quorum = if b.settings.synchronous then sync_quorum b.voters + 1 else 1;
  max_lsn = max_lsn;
  max_term = max_term;
}

-- A cluster of fewer than 32 nodes that started, with room for a record and a failover and bounds that fit
-- in 64 bits: no reachable state of its durability model loses an acknowledged write if and only if
-- replication is synchronous or the cluster has at most two nodes.
pub start-no_acked_loss_iff :
    (v : Values) (c : Caches) (raft_starts : Bool) (b : Boot) (max_lsn max_term : ℕ)
    → (start v c raft_starts).0 ≡ running b
    → length b.voters < 32
    → 1 ≤ max_lsn
    → max_lsn < u64_mod
    → 1 ≤ max_term
    → max_term < u64_mod
    → ((s : State) → Reach (cluster_of b max_lsn max_term) s → no_acked_loss s ≡ true)
      ↔ ((v.synchronous ≡ true) ⊎ (length b.voters ≤ 2))
unfolding majority boot Durability.majority
start-no_acked_loss_iff v c raft_starts b max_lsn max_term h few lsn_room lsn_fits term_room
      term_fits =
    let (_, waits, _, all) = start-quorum v c raft_starts b h in
    let (_, _, same) = (start-running_iff v c raft_starts b).0 h in
    let asked : b.settings.synchronous ≡ v.synchronous =
      ap (λ (x : Boot). x.settings.synchronous) (sym same) in
    let half : b.settings.majority ≡ length b.voters / 2 + 1 =
      subst (λ (x : Boot). x.settings.majority ≡ length x.voters / 2 + 1) same (omega arith) in
    let (safe, meets) =
      no_acked_loss_iff {c = cluster_of b max_lsn max_term}
        (record { few = few; lsn_room = lsn_room; term_room = term_room; asks = ground arith })
        (omega (arith, all)) lsn_fits term_fits in
    elim (Bool-cases b.settings.synchronous) [
      | inl on ↦
          ((λ all_safe. inl (sym asked ∙ on)), (λ e. meets (ground (arith, on, waits, half))))
      | inr off ↦ (
        (λ all_safe. inr (ground (arith, off, safe all_safe))),
        (λ e. elim e [
          | inl on ↦ absurd (cc (asked, off, on))
          | inr small ↦ meets (ground (arith, off))
        ]),
      )
    ]
