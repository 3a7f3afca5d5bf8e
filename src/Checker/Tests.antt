-- ===== src/Checker/Tests.antt =====
-- Searches whose results are known at any size, for the checks of packages/consensus-model.
use mathlib.Core.Path.{subst}
use mathlib.Core.Option.{some-injective}
use hyperiondb.Prelude.{
  ℕ, ◌≤◌, ◌<◌, ◌≡◌, ◌⊎◌, ◌↔◌, refl, Bool, true, false, not, Option, none, some, List, [], ◌∷◌,
  arith, ◌==◌, if◌then◌else◌, All-In,
}
use hyperiondb.Prelude.Text.{Text, codes, text_eq}
use hyperiondb.Explore.{Rules, Run}
use hyperiondb.Durability.{
  Cluster, State, majority, init_state, model, no_acked_loss, failover_after_ack,
}
use hyperiondb.Durability.Stream.{IsRoomy}
use hyperiondb.Durability.Threshold.{acked_loss-Reach, failover_after_ack-Reach}
use hyperiondb.Durability.Safety.{no_acked_loss-always}
use hyperiondb.Leadership.{Leadership, LState}
use hyperiondb.Leadership.Safety.{no_split_brain-always}
use hyperiondb.Leadership.Stale.{IsRoomy as IsRoomyL, stale, stale-Reach, stale-present}
use hyperiondb.Leadership.Threshold.{split_brain-Reach}
use hyperiondb.Checker.{
  always, sometimes, Property, Found, sought, IsExhaustive, main, durability_heading,
  durability_line, durability_control, split_brain_heading, split_brain_line, split_brain_control,
  blank_line, pass_line,
}
use hyperiondb.Checker.Main.{
  cluster, leadership, Explores, ExploresL, summary, Finds, DurabilityPasses, LeadershipPasses,
  main-passes, main-exit_iff,
}

-- A search of a model with an `always` property named `bad` and one more property.
abbrev found : {S : Type 0} → Text → Option S → S → Found S
found bad counterexample example = record {
  unique_state_count = 7;
  discovery = λ name. if text_eq name bad then counterexample else some example;
}

-- A state that decides a property, or the proof that there is none.
abbrev Decides : {S A : Type 0} → Rules S A → S → (S → Bool) → Option S → Type 0
Decides m init condition none = (s : _) → Run m init s → condition s ≡ true
Decides m init condition (some s) = Run m init s × (condition s ≡ false)

module _ {S A : Type 0} (m : Rules S A) (init : S) (bad good : Text) (safe met : S → Bool) where
  abbrev both : List (Property S)
  both =
      record { expectation = always; name = bad; condition = safe }
      ∷ record { expectation = sometimes; name = good; condition = met }
      ∷ []

  found-IsExhaustive :
      (o : Option S) (example : S)
      → text_eq bad bad ≡ true
      → text_eq good bad ≡ false
      → Decides m init safe o
      → Run m init example
      → met example ≡ true
      → IsExhaustive m init both (found bad o example)
  found-IsExhaustive none example e₁ e₂ d r h = record {
    discovered = λ p here s f.
        All-In
          (λ p.
            (s : S)
            → (found bad none example).discovery p.name ≡ some s
            → Run m init s × (p.condition s ≡ sought p.expectation))
          both p
          (
            (λ s f. absurd (ground (arith, e₁, f))),
            (
              (λ s f.
                  let same : example ≡ s = some-injective _ _ (rw e₂ at f) in
                  subst (λ s. Run m init s × (met s ≡ true)) same (r, h)),
              tt,
            ),
          )
          here s f;
    exhausted = λ p here f.
        All-In
          (λ p.
            (found bad none example).discovery p.name ≡ none
            → (s : S) → Run m init s
            → p.condition s ≡ not (sought p.expectation))
          both p ((λ f. d), ((λ f. absurd (ground (arith, e₂, f))), tt)) here f;
  }
  found-IsExhaustive (some bad_state) example e₁ e₂ d r h = record {
    discovered = λ p here s f.
        All-In
          (λ p.
            (s : S)
            → (found bad (some bad_state) example).discovery p.name ≡ some s
            → Run m init s × (p.condition s ≡ sought p.expectation))
          both p
          (
            (λ s f.
                let same : bad_state ≡ s = some-injective _ _ (rw e₁ at f) in
                subst (λ s. Run m init s × (safe s ≡ false)) same d),
            (
              (λ s f.
                  let same : example ≡ s = some-injective _ _ (rw e₂ at f) in
                  subst (λ s. Run m init s × (met s ≡ true)) same (r, h)),
              tt,
            ),
          )
          here s f;
    exhausted = λ p here f.
        All-In
          (λ p.
            (found bad (some bad_state) example).discovery p.name ≡ none
            → (s : S) → Run m init s
            → p.condition s ≡ not (sought p.expectation))
          both p
          ((λ f. absurd (ground (arith, e₁, f))), ((λ f. absurd (ground (arith, e₂, f))), tt)) here
          f;
  }

roomy : (n q t : ℕ) → n < 32 → 1 ≤ t → 1 ≤ q → IsRoomy (cluster n q t)
roomy n q t few room asks = record {
  few = few;
  lsn_room = omega arith;
  term_room = room;
  asks = asks;
}

example_3_2 :
    (s : State) × Run (model (cluster 3 2 3)) (init_state (cluster 3 2 3)) s
    × (failover_after_ack s ≡ true)
example_3_2 =
    failover_after_ack-Reach (roomy 3 2 3 (omega arith) (omega arith) (omega arith)) (omega arith)
      (omega arith)

example_5_3 :
    (s : State) × Run (model (cluster 5 3 5)) (init_state (cluster 5 3 5)) s
    × (failover_after_ack s ≡ true)
example_5_3 =
    failover_after_ack-Reach (roomy 5 3 5 (omega arith) (omega arith) (omega arith)) (omega arith)
      (omega arith)

example_3_1 :
    (s : State) × Run (model (cluster 3 1 3)) (init_state (cluster 3 1 3)) s
    × (failover_after_ack s ≡ true)
example_3_1 =
    failover_after_ack-Reach (roomy 3 1 3 (omega arith) (omega arith) (omega arith)) (omega arith)
      (omega arith)

loss_3_1 :
    (s : State) × Run (model (cluster 3 1 3)) (init_state (cluster 3 1 3)) s
    × (no_acked_loss s ≡ false)
unfolding majority
loss_3_1 = acked_loss-Reach (roomy 3 1 3 (omega arith) (omega arith) (omega arith)) (omega arith)

cs : Cluster → Found State
cs c =
    if c.ack_quorum == 1
    then found (codes "no_acked_loss") (some loss_3_1.0) example_3_1.0
    else if c.n == 3
    then found (codes "no_acked_loss") none example_3_2.0
    else found (codes "no_acked_loss") none example_5_3.0

cs_3_2 : Explores cs (cluster 3 2 3)
unfolding cs majority
cs_3_2 =
    found-IsExhaustive _ _ _ _ _ _ none example_3_2.0 refl refl
      (λ s r. no_acked_loss-always (omega arith) r) example_3_2.1 example_3_2.2

cs_5_3 : Explores cs (cluster 5 3 5)
unfolding cs majority
cs_5_3 =
    found-IsExhaustive _ _ _ _ _ _ none example_5_3.0 refl refl
      (λ s r. no_acked_loss-always (omega arith) r) example_5_3.1 example_5_3.2

cs_3_1 : Explores cs (cluster 3 1 3)
unfolding cs
cs_3_1 =
    found-IsExhaustive _ _ _ _ _ _ (some loss_3_1.0) example_3_1.0 refl refl
      (loss_3_1.1, loss_3_1.2) example_3_1.1 example_3_1.2

roomy_terms :
    (n t : ℕ) (fencing : Bool) → 3 ≤ n → n < 32 → 2 ≤ t → IsRoomyL (leadership n t fencing)
roomy_terms n t fencing many few room = record { many = many; few = few; term_room = room }

three : (fencing : Bool) → IsRoomyL (leadership 3 4 fencing)
three fencing = roomy_terms 3 4 fencing (omega arith) (omega arith) (omega arith)

five : IsRoomyL (leadership 5 3 true)
five = roomy_terms 5 3 true (omega arith) (omega arith) (omega arith)

ls : Leadership → Found LState
ls c =
    if c.n == 5
    then found (codes "no_split_brain") none (stale (leadership 5 3 true) five)
    else if c.fencing
    then found (codes "no_split_brain") none (stale (leadership 3 4 true) (three true))
    else found (codes "no_split_brain") (some (split_brain-Reach (three false) refl).0)
        (stale (leadership 3 4 false) (three false))

ls_3 : ExploresL ls (leadership 3 4 true)
unfolding ls
ls_3 =
    found-IsExhaustive _ _ _ _ _ _ none (stale (leadership 3 4 true) (three true)) refl refl
      (λ s r.
        no_split_brain-always
          (record { nonempty = omega arith; term_fits = omega arith; fenced = refl }) r)
      (stale-Reach _ (three true)) (stale-present _ (three true))

ls_5 : ExploresL ls (leadership 5 3 true)
unfolding ls
ls_5 =
    found-IsExhaustive _ _ _ _ _ _ none (stale (leadership 5 3 true) five) refl refl
      (λ s r.
        no_split_brain-always
          (record { nonempty = omega arith; term_fits = omega arith; fenced = refl }) r)
      (stale-Reach _ five) (stale-present _ five)

ls_unfenced : ExploresL ls (leadership 3 4 false)
unfolding ls
ls_unfenced =
    let (s, r, broken) = split_brain-Reach (three false) refl in
    found-IsExhaustive _ _ _ _ _ _ (some s) (stale (leadership 3 4 false) (three false)) refl refl
      (r, broken) (stale-Reach _ (three false)) (stale-present _ (three false))

main-passes_example : main cs ls ≡ (
  durability_heading
      ∷ durability_line 3 2 (summary 7 false true)
      ∷ durability_line 5 3 (summary 7 false true)
      ∷ durability_control (summary 7 true true)
      ∷ split_brain_heading
      ∷ split_brain_line 3 (summary 7 false true)
      ∷ split_brain_line 5 (summary 7 false true)
      ∷ split_brain_control (summary 7 true true)
      ∷ blank_line
      ∷ pass_line
      ∷ [],
  0,
)
unfolding cs ls
main-passes_example = main-passes cs ls cs_3_2 cs_5_3 cs_3_1 ls_3 ls_5 ls_unfenced

main-exit_iff_example :
    (((main cs ls).1 ≡ 0) ↔ (
      DurabilityPasses (cs (cluster 3 2 3))
      × DurabilityPasses (cs (cluster 5 3 5))
      × Finds (codes "no_acked_loss") (cs (cluster 3 1 3))
      × LeadershipPasses (ls (leadership 3 4 true))
      × LeadershipPasses (ls (leadership 5 3 true))
      × Finds (codes "no_split_brain") (ls (leadership 3 4 false))))
    × (((main cs ls).1 ≡ 0) ⊎ ((main cs ls).1 ≡ 1))
main-exit_iff_example = main-exit_iff cs ls
