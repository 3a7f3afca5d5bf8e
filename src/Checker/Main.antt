-- ===== src/Checker/Main.antt =====
-- That the program of packages/consensus-model/src/main.rs passes.
use hyperiondb.Prelude.{
  ◌↔◌, ◌⊎◌, ℕ, ◌+◌, ◌≤◌, ◌<◌, ◌≡◌, refl, Bool, true, false, not, Option, none, some, [], ◌∷◌, arith,
  leb,
}
use hyperiondb.Prelude.Words.{u64_mod}
use hyperiondb.Prelude.Text.{Text, codes}
use hyperiondb.Durability.{Cluster, State, majority}
use hyperiondb.Durability as D
use hyperiondb.Leadership.{Leadership, LState}
use hyperiondb.Leadership as L
use hyperiondb.Checker.{
  Found, IsExhaustive, is_some, durability_properties, leadership_properties, check,
  check_split_brain, Summary, durability_heading, durability_line, durability_control,
  split_brain_heading, split_brain_line, split_brain_control, blank_line, pass_line, report, passes,
  check_sizes, check_durability, check_terms, check_leadership, main,
}
use hyperiondb.Checker.Exact.{check-exact, check_split_brain-exact}

abbrev pub cluster : (n ack_quorum max_term : ℕ) → Cluster
cluster n ack_quorum max_term = record {
  n = n;
  ack_quorum = ack_quorum;
  max_lsn = 3;
  max_term = max_term;
}

abbrev pub leadership : (n max_term : ℕ) → Bool → Leadership
leadership n max_term fencing = record { n = n; max_term = max_term; fencing = fencing }

-- The searches of a model are exhaustive.
abbrev pub Explores : (Cluster → Found State) → Cluster → Type 0
Explores explored c = IsExhaustive (D.model c) (D.init_state c) durability_properties (explored c)

abbrev pub ExploresL : (Leadership → Found LState) → Leadership → Type 0
ExploresL explored c = IsExhaustive (L.model c) (L.init_state c) leadership_properties (explored c)

abbrev pub summary : ℕ → Bool → Bool → Summary
summary states violated met = record {
  states = states;
  safety_violated = violated;
  sometimes_met = met;
}

module _ (cs : Cluster → Found State) where
  as_expected :
      (n ack_quorum max_term : ℕ)
      → Explores cs (cluster n ack_quorum max_term)
      → 3 ≤ n
      → n < 32
      → 1 ≤ ack_quorum
      → ack_quorum ≤ n
      → 1 ≤ max_term
      → max_term < u64_mod
      → check cs n ack_quorum 3 max_term
        ≡ summary
            (cs (cluster n ack_quorum max_term)).unique_state_count
            (leb (ack_quorum + majority (cluster n ack_quorum max_term)) n)
            true
  unfolding check
  as_expected n q t law many few asks le room fits =
      let (bad, met) =
        check-exact cs (cluster n q t) law
          (record { few = few; lsn_room = omega arith; term_room = room; asks = asks }) many le
          (omega arith) fits in
      rw (bad, met) refl

module _ (ls : Leadership → Found LState) where
  fenced_as_expected :
      (n max_term : ℕ) (fencing : Bool)
      → ExploresL ls (leadership n max_term fencing)
      → 3 ≤ n
      → n < 32
      → 2 ≤ max_term
      → max_term < u64_mod
      → check_split_brain ls n max_term fencing
        ≡ summary (ls (leadership n max_term fencing)).unique_state_count (not fencing) true
  unfolding check_split_brain
  fenced_as_expected n t fencing law many few room fits =
      let (bad, met) =
        check_split_brain-exact ls (leadership n t fencing) law
          (record { many = many; few = few; term_room = room }) fits in
      rw (bad, met) refl

-- If the searches of its six models are exhaustive, the program exits with 0: it reports no violation
-- and both examples where it expects so, and a violation for each of the two negative controls.
pub main-passes :
    (cs : Cluster → Found State) (ls : Leadership → Found LState)
    → Explores cs (cluster 3 2 3)
    → Explores cs (cluster 5 3 5)
    → Explores cs (cluster 3 1 3)
    → ExploresL ls (leadership 3 4 true)
    → ExploresL ls (leadership 5 3 true)
    → ExploresL ls (leadership 3 4 false)
    → main cs ls ≡ (
      durability_heading
          ∷ durability_line 3 2 (summary (cs (cluster 3 2 3)).unique_state_count false true)
          ∷ durability_line 5 3 (summary (cs (cluster 5 3 5)).unique_state_count false true)
          ∷ durability_control (summary (cs (cluster 3 1 3)).unique_state_count true true)
          ∷ split_brain_heading
          ∷ split_brain_line 3 (summary (ls (leadership 3 4 true)).unique_state_count false true)
          ∷ split_brain_line 5 (summary (ls (leadership 5 3 true)).unique_state_count false true)
          ∷ split_brain_control (summary (ls (leadership 3 4 false)).unique_state_count true true)
          ∷ blank_line
          ∷ pass_line
          ∷ [],
      0,
    )
unfolding main check_leadership check_terms check_durability check_sizes report passes majority
main-passes cs ls c₁ c₂ c₃ l₁ l₂ l₃ =
    rw
      (
        as_expected cs 3 2 3 c₁ (omega arith) (omega arith) (omega arith) (omega arith)
            (omega arith) (omega arith),
        as_expected cs 5 3 5 c₂ (omega arith) (omega arith) (omega arith) (omega arith)
            (omega arith) (omega arith),
        as_expected cs 3 1 3 c₃ (omega arith) (omega arith) (omega arith) (omega arith)
            (omega arith) (omega arith),
        fenced_as_expected ls 3 4 true l₁ (omega arith) (omega arith) (omega arith) (omega arith),
        fenced_as_expected ls 5 3 true l₂ (omega arith) (omega arith) (omega arith) (omega arith),
        fenced_as_expected ls 3 4 false l₃ (omega arith) (omega arith) (omega arith) (omega arith),
      )
      refl

-- A search found no counterexample to the property that holds always.
abbrev pub Clean : {S : Type 0} → Text → Found S → Type 0
Clean name found = found.discovery name ≡ none

-- A search found a state for the property.
abbrev pub Finds : {S : Type 0} → Text → Found S → Type 0
Finds {S} name found = (s : S) × (found.discovery name ≡ some s)

is_some_iff : {S : Type 0} (o : Option S) → (is_some o ≡ true) ↔ ((s : S) × (o ≡ some s))
is_some_iff none = ((λ e. absurd cc), (λ (s, e). absurd cc))
is_some_iff (some s) = ((λ e. (s, refl)), (λ e. refl))

is_none_iff : {S : Type 0} (o : Option S) → (is_some o ≡ false) ↔ (o ≡ none)
is_none_iff none = ((λ e. refl), (λ e. refl))
is_none_iff (some s) = ((λ e. absurd cc), (λ e. absurd cc))

-- The result of a pair of searches, by the names of the two properties.
abbrev pub Passes : {S : Type 0} → (always sometimes : Text) → Found S → Type 0
Passes always sometimes found = Clean always found × Finds sometimes found

passes_iff :
    {S : Type 0} (always sometimes : Text) (f : Found S)
    → (passes (
          summary f.unique_state_count
            (is_some (f.discovery always))
            (is_some (f.discovery sometimes)))
        ≡ true)
      ↔ Passes always sometimes f
unfolding passes
passes_iff always sometimes f =
    let (bad, bad₁) = is_none_iff (f.discovery always) in
    let (met, met₁) = is_some_iff (f.discovery sometimes) in
    (
      (λ e. (bad (ground (arith, e)), met (ground (arith, e)))),
      (λ (x, y). ground (arith, bad₁ x, met₁ y)),
    )

abbrev pub DurabilityPasses : Found State → Type 0
DurabilityPasses found = Passes (codes "no_acked_loss") (codes "failover_after_ack") found

abbrev pub LeadershipPasses : Found LState → Type 0
LeadershipPasses found =
    Passes (codes "no_split_brain") (codes "stale_writable_leader_present") found

exit_code :
    (cs : Cluster → Found State) (ls : Leadership → Found LState)
    → (((main cs ls).1 ≡ 0) ↔ (
        (passes (check cs 3 2 3 3) ≡ true)
        × (passes (check cs 5 3 3 5) ≡ true)
        × ((check cs 3 1 3 3).safety_violated ≡ true)
        × (passes (check_split_brain ls 3 4 true) ≡ true)
        × (passes (check_split_brain ls 5 3 true) ≡ true)
        × ((check_split_brain ls 3 4 false).safety_violated ≡ true)))
      × (((main cs ls).1 ≡ 0) ⊎ ((main cs ls).1 ≡ 1))
unfolding main check_leadership check_terms check_durability check_sizes report
exit_code cs ls = ground arith

-- Whatever the searches find, the program exits with 0 if and only if each of the four searches that it
-- expects to pass finds no counterexample to its safety property and finds its example, and each of the
-- two negative controls finds a counterexample; it exits with 1 otherwise.
pub main-exit_iff :
    (cs : Cluster → Found State) (ls : Leadership → Found LState)
    → (((main cs ls).1 ≡ 0) ↔ (
        DurabilityPasses (cs (cluster 3 2 3))
        × DurabilityPasses (cs (cluster 5 3 5))
        × Finds (codes "no_acked_loss") (cs (cluster 3 1 3))
        × LeadershipPasses (ls (leadership 3 4 true))
        × LeadershipPasses (ls (leadership 5 3 true))
        × Finds (codes "no_split_brain") (ls (leadership 3 4 false))))
      × (((main cs ls).1 ≡ 0) ⊎ ((main cs ls).1 ≡ 1))
unfolding check check_split_brain
main-exit_iff cs ls =
    let ((go, back), only) = exit_code cs ls in
    let durable =
      λ (c : Cluster). passes_iff (codes "no_acked_loss") (codes "failover_after_ack") (cs c) in
    let led = λ (c : Leadership).
      passes_iff (codes "no_split_brain") (codes "stale_writable_leader_present") (ls c) in
    let bad = λ (c : Cluster). is_some_iff ((cs c).discovery (codes "no_acked_loss")) in
    let split = λ (c : Leadership). is_some_iff ((ls c).discovery (codes "no_split_brain")) in
    (
      (
        (λ e.
            let (a, b, n, x, y, z) = go e in
            (
              (durable (cluster 3 2 3)).0 a,
              (durable (cluster 5 3 5)).0 b,
              (bad (cluster 3 1 3)).0 n,
              (led (leadership 3 4 true)).0 x,
              (led (leadership 5 3 true)).0 y,
              (split (leadership 3 4 false)).0 z,
            )),
        (λ (a, b, n, x, y, z). back (
          (durable (cluster 3 2 3)).1 a,
          (durable (cluster 5 3 5)).1 b,
          (bad (cluster 3 1 3)).1 n,
          (led (leadership 3 4 true)).1 x,
          (led (leadership 5 3 true)).1 y,
          (split (leadership 3 4 false)).1 z,
        )),
      ),
      only,
    )
