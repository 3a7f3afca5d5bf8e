-- ===== src/Leadership/Tests.antt =====
-- Runs of the leadership model, and the theorems at concrete clusters.
use hyperiondb.Explore.{follow, follow-Run}
use hyperiondb.Prelude.{
  ℕ, ◌↔◌, ◌≤◌, ◌≡◌, refl, Bool, true, false, [], ◌∷◌, some, none, arith, get_elem?-In,
}
use hyperiondb.Prelude.Words.{has_bit}
use hyperiondb.Leadership.{
  Leadership, LState, commit, term_at, majority, init_state, mask_elections, elections,
  crash_or_recover, actions, elect_node, elect_nodes, conflict, record_commit, quorum_at_term,
  next_state, within_boundary, no_split_brain, stale_writable_leader_present, model, Reach,
}
use hyperiondb.Leadership.Invariant.{IsFenced}
use hyperiondb.Leadership.Threshold.{no_split_brain_iff}
use hyperiondb.Leadership.Safety.{no_split_brain-always, commit_is_newest}

abbrev three : Bool → Leadership
three fencing = record { n = 3; max_term = 4; fencing = fencing }

three-IsFenced : IsFenced (three true)
three-IsFenced = record { nonempty = omega arith; term_fits = omega arith; fenced = refl }

-- Nodes 1 and 2 elect node 1; node 0 is a stale writable leader.
abbrev stale : Bool → LState
stale _ = record {
  cur_term = 1 ∷ 2 ∷ 2 ∷ [];
  writable = true ∷ true ∷ false ∷ [];
  alive = true ∷ true ∷ true ∷ [];
  max_committed_term = 0;
  committed_leader = none;
  split_brain = false;
}

stale-Reach : Reach (three true) (stale true)
unfolding follow actions elections mask_elections crash_or_recover next_state elect_nodes elect_node
    init_state within_boundary has_bit majority
stale-Reach = follow-Run (model (three true)) (init_state (three true)) (4 ∷ []) (stale true) refl

stale_present : stale_writable_leader_present (stale true) ≡ true
unfolding stale_writable_leader_present
stale_present = refl

-- The negative control: without fencing the stale leader commits behind the new one.
unfenced_split_brain : (s : LState) × Reach (three false) s × (no_split_brain s ≡ false)
unfolding follow actions elections mask_elections crash_or_recover next_state elect_nodes elect_node
    init_state within_boundary has_bit majority record_commit conflict no_split_brain
unfenced_split_brain =
    let split : LState = record (stale true) {
      max_committed_term = 2;
      committed_leader = some 1;
      split_brain = true;
    } in
    (
      split,
      follow-Run (model (three false)) (init_state (three false)) (4 ∷ 7 ∷ 6 ∷ []) split refl,
      refl,
    )

no_split_brain-always_example : no_split_brain (stale true) ≡ true
no_split_brain-always_example = no_split_brain-always three-IsFenced stale-Reach

abbrev committed : LState
committed = record (stale true) { max_committed_term = 2; committed_leader = some 1 }

commit_is_newest_example :
    (0 ≤ 2)
    × ((p : ℕ) → (stale true).committed_leader ≡ some p → term_at (stale true) 1 ≡ 0 → 1 ≡ p)
    × (committed.max_committed_term ≡ 2)
    × (committed.committed_leader ≡ some 1)
unfolding actions elections mask_elections crash_or_recover has_bit majority next_state
    quorum_at_term record_commit
commit_is_newest_example =
    commit_is_newest {t = committed} three-IsFenced stale-Reach
      (get_elem?-In (actions (three true) (stale true)) 7 (commit 1) refl) refl

no_split_brain_iff_example :
    ((s : LState) → Reach (three false) s → no_split_brain s ≡ true) ↔ (false ≡ true)
no_split_brain_iff_example =
    no_split_brain_iff {c = three false}
      (record { many = omega arith; few = omega arith; term_room = omega arith }) (omega arith)
