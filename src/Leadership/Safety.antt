-- ===== src/Leadership/Safety.antt =====
-- What packages/consensus-model/src/leadership.rs checks for clusters of 3 and 5 nodes, for every
-- size.
use mathlib.Core.Path.{subst}
use mathlib.Core.Option.{some-injective}
use hyperiondb.Prelude.{
  ℕ, inl, inr, Bool-cases, ◌↔◌, ◌≤◌, ◌<◌, ◌≡◌, refl, true, none, some, arith, leb, leb→le, In,
  All-In,
}
use hyperiondb.Leadership.{
  Leadership, LState, commit, term_at, writable_at, majority, quorum_at_term, actions, next_state,
  no_split_brain, Reach,
}
use hyperiondb.Leadership.Offered.{Offered, actions-Offered}
use hyperiondb.Leadership.Invariant.{
  IsFenced, Reach-IsSafe, IsLeaseCommit, fenced_term, record_commit-IsLeaseCommit, let_through,
}

-- In a cluster of any size with fencing, no reachable state has recorded a split brain. (The cluster
-- has a node, and its bound on terms fits in 64 bits.)
pub no_split_brain-always :
    {c : Leadership} {s : LState} → IsFenced c → Reach c s → no_split_brain s ≡ true
unfolding no_split_brain
no_split_brain-always {c} {s} safe r = ground (arith, (Reach-IsSafe c safe r).quiet)

-- In every reachable state of such a cluster two writable nodes, dead or alive, are at different
-- terms.
pub one_writer_per_term :
    {c : Leadership} {s : LState}
    → IsFenced c
    → Reach c s
    → (i j : ℕ) → writable_at s i ≡ true
    → writable_at s j ≡ true
    → term_at s i ≡ term_at s j
    → i ≡ j
one_writer_per_term {c} safe r = (Reach-IsSafe c safe r).unique

-- A commit that a fenced cluster lets through, in a reachable state, is made at the newest
-- committed term or later; at that term only by the node that made the last commit; and it becomes
-- the last commit.
pub commit_is_newest :
    {c : Leadership} {s t : LState} {w : ℕ}
    → IsFenced c
    → Reach c s
    → In (commit w) (actions c s)
    → next_state c s (commit w) ≡ some t
    → (s.max_committed_term ≤ term_at s w)
      × ((p : ℕ) → s.committed_leader ≡ some p → term_at s w ≡ s.max_committed_term → w ≡ p)
      × (t.max_committed_term ≡ term_at s w)
      × (t.committed_leader ≡ some w)
commit_is_newest {c} {s} {t} {w} safe r here e =
    let inv = Reach-IsSafe c safe r in
    let (up, hw) = All-In (Offered c s) (actions c s) (commit w) (actions-Offered c s) here in
    let (h, f) = let_through c safe s inv w e in
    let k =
      subst (IsLeaseCommit s w) (some-injective _ _ f)
        (record_commit-IsLeaseCommit c safe s inv w hw h) in
    (fenced_term c safe s inv w h, (λ p g eq. inv.leader p w g hw eq), k.committed, k.maker)

-- A commit is refused in a fenced cluster exactly when fewer than a majority of the nodes are up at
-- the term of the writer.
pub commit_refused_iff :
    {c : Leadership} (s : LState) (w : ℕ)
    → IsFenced c
    → (next_state c s (commit w) ≡ none) ↔ (quorum_at_term c s (term_at s w) < majority c)
unfolding next_state
commit_refused_iff {c} s w safe =
    elim (Bool-cases (leb (majority c) (quorum_at_term c s (term_at s w)))) [
      | inl h ↦ simp (safe.fenced, h) ((λ e. cc), (λ lt. absurd (omega (arith, leb→le _ _ h))))
      | inr h ↦ simp (safe.fenced, h) ((λ e. ground arith), (λ lt. refl))
    ]
