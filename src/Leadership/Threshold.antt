-- ===== src/Leadership/Threshold.antt =====
-- That the fence of packages/consensus-model/src/leadership.rs is needed at every size, as well as
-- enough.
use hyperiondb.Prelude.{◌<◌, ◌≡◌, ◌↔◌, refl, true, false, some, arith, Bool-cases, inl, inr}
use hyperiondb.Prelude.Words.{u64_mod}
use hyperiondb.Explore.{take, later}
use hyperiondb.Leadership.{
  Leadership, LState, commit, record_commit, next_state, within_boundary, no_split_brain, Reach,
}
use hyperiondb.Leadership.Safety.{no_split_brain-always}
use hyperiondb.Leadership.Stale.{
  IsRoomy, offered_commit, stale, old_term, new_term, up-stale, writable-old, writable-new,
  inside-stale, committed-stale, stale-Reach,
}

module _ {c : Leadership} (roomy : IsRoomy c) (unfenced : c.fencing ≡ false) where
  open roomy use {many}

  -- Both leaders commit, the new one first.
  new_commit : LState
  new_commit = record (stale c roomy) { max_committed_term = 2; committed_leader = some 1 }

  split : LState
  split = record new_commit { split_brain = true }

  new-committed : next_state c (stale c roomy) (commit 1) ≡ some new_commit
  unfolding next_state record_commit new_commit
  new-committed = rw (unfenced, committed-stale c roomy, new_term c roomy) refl

  old-committed : next_state c new_commit (commit 0) ≡ some split
  unfolding next_state record_commit new_commit split
  old-committed = rw (unfenced, old_term c roomy) refl

  pub split_brain-Reach : (s : LState) × Reach c s × (no_split_brain s ≡ false)
  unfolding no_split_brain split new_commit within_boundary
  split_brain-Reach = (
    split,
    later
        (later (stale-Reach c roomy) (
          take (commit 1)
            (offered_commit c (stale c roomy) 1 (omega arith) (up-stale c roomy 1 (omega arith))
              (writable-new c roomy))
            new-committed (inside-stale c roomy)))
        (take (commit 0)
          (offered_commit c new_commit 0 (omega arith) (up-stale c roomy 0 (omega arith))
            (writable-old c roomy))
          old-committed (inside-stale c roomy)),
    refl,
  )

-- In a cluster of 3 to 31 nodes with room for one election and a bound on terms in 64 bits, every
-- reachable state is free of a split brain if and only if commits are fenced.
pub no_split_brain_iff :
    {c : Leadership}
    → IsRoomy c
    → c.max_term < u64_mod
    → ((s : LState) → Reach c s → no_split_brain s ≡ true) ↔ (c.fencing ≡ true)
no_split_brain_iff {c} roomy fits = (
  (λ safe. elim (Bool-cases c.fencing) [
    | inl e ↦ e
    | inr e ↦
        let (s, r, broken) = split_brain-Reach roomy e in absurd (ground (arith, safe s r, broken))
  ]),
  (λ fenced s r.
      no_split_brain-always
        (record { nonempty = omega (arith, roomy.many); term_fits = fits; fenced = fenced }) r),
)
