-- ===== src/Checker.antt =====
-- packages/consensus-model: the checks of src/lib.rs and src/leadership.rs there, and the program of
-- src/main.rs that runs five of them.
-- The model checker `stateright` is a parameter: for each model what `checker().spawn_bfs().join()` finds.
pub mod Exact
mod Main
mod Tests
use hyperiondb.Prelude.{
  ℕ, ◌+◌, ◌/◌, ◌≡◌, Bool, true, false, not, ◌&&◌, Option, none, some, List, [], ◌∷◌, ◌++◌,
  if◌then◌else◌, In,
}
use hyperiondb.Prelude.Text.{Text, codes}
use hyperiondb.Explore.{Rules, Run}
use hyperiondb.Durability.{Cluster, State, no_acked_loss, failover_after_ack}
use hyperiondb.Leadership.{Leadership, LState, no_split_brain, stale_writable_leader_present}

pub data Expectation : Type 0 where
  always : Expectation
  sometimes : Expectation

-- `stateright::Property`
pub record Property (S : Type 0) : Type 0 where
  pub expectation : Expectation
  pub name : Text
  pub condition : S → Bool

-- What a search found: the number of states, and by the name of a property the last state of the path
-- that decides it.
pub record Found (S : Type 0) : Type 0 where
  pub unique_state_count : ℕ
  pub discovery : Text → Option S

abbrev pub is_some : {A : Type 0} → Option A → Bool
is_some none = false
is_some (some a) = true

-- A search looks for a counterexample, or for an example.
abbrev pub sought : Expectation → Bool
sought always = false
sought sometimes = true

-- What `stateright` documents of a search that has ended: a discovery is a reachable state that decides
-- its property, and where there is none no reachable state does.
pub record IsExhaustive {S A : Type 0} (m : Rules S A) (init : S) (properties : List (Property S))
    (found : Found S) : Type 0 where
  pub discovered :
      (p : Property S)
      → In p properties
      → (s : S) → found.discovery p.name ≡ some s
      → Run m init s × (p.condition s ≡ sought p.expectation)
  pub exhausted :
      (p : Property S)
      → In p properties
      → found.discovery p.name ≡ none
      → (s : S) → Run m init s
      → p.condition s ≡ not (sought p.expectation)

-- `properties` of both models
abbrev pub durability_properties : List (Property State)
durability_properties =
    record { expectation = always; name = codes "no_acked_loss"; condition = no_acked_loss }
    ∷ record {
      expectation = sometimes;
      name = codes "failover_after_ack";
      condition = failover_after_ack;
    }
    ∷ []

abbrev pub leadership_properties : List (Property LState)
leadership_properties =
    record { expectation = always; name = codes "no_split_brain"; condition = no_split_brain }
    ∷ record {
      expectation = sometimes;
      name = codes "stale_writable_leader_present";
      condition = stale_writable_leader_present;
    }
    ∷ []

pub record Summary : Type 0 where
  pub states : ℕ
  pub safety_violated : Bool
  pub sometimes_met : Bool

unfoldable pub check : (Cluster → Found State) → (n ack_quorum max_lsn max_term : ℕ) → Summary
check explored n ack_quorum max_lsn max_term =
    let found =
      explored
        (record { n = n; ack_quorum = ack_quorum; max_lsn = max_lsn; max_term = max_term }) in
    record {
      states = found.unique_state_count;
      safety_violated = is_some (found.discovery (codes "no_acked_loss"));
      sometimes_met = is_some (found.discovery (codes "failover_after_ack"));
    }

unfoldable pub check_split_brain :
    (Leadership → Found LState) → (n max_term : ℕ) (fencing : Bool) → Summary
check_split_brain explored n max_term fencing =
    let found = explored (record { n = n; max_term = max_term; fencing = fencing }) in
    record {
      states = found.unique_state_count;
      safety_violated = is_some (found.discovery (codes "no_split_brain"));
      sometimes_met = is_some (found.discovery (codes "stale_writable_leader_present"));
    }

-- The lines that the program prints, by the values in them.
pub data Line : Type 0 where
  durability_heading : Line
  durability_line : (n maj : ℕ) (s : Summary) → Line
  durability_control : Summary → Line
  split_brain_heading : Line
  split_brain_line : (n : ℕ) (s : Summary) → Line
  split_brain_control : Summary → Line
  blank_line : Line
  pass_line : Line
  fail_line : Line

-- What was printed so far, and `ok`.
pub record Report : Type 0 where
  pub lines : List Line
  pub ok : Bool

unfoldable pub report : Line → Bool → Report → Report
report line pass r = record { lines = r.lines ++ line ∷ []; ok = r.ok && pass }

unfoldable pub passes : Summary → Bool
passes s = not s.safety_violated && s.sometimes_met

module _ (explored : Cluster → Found State) where
  unfoldable pub check_sizes : List ℕ → Report → Report
  check_sizes [] r = r
  check_sizes (n ∷ ns) r =
      let maj = n / 2 + 1 in
      let s = check explored n maj 3 n in
      check_sizes ns (report (durability_line n maj s) (passes s) r)

  unfoldable pub check_durability : Report → Report
  check_durability r =
      let neg = check explored 3 1 3 3 in
      report (durability_control neg) neg.safety_violated
        (check_sizes (3 ∷ 5 ∷ []) (report durability_heading true r))

module _ (explored : Leadership → Found LState) where
  unfoldable pub check_terms : List (ℕ × ℕ) → Report → Report
  check_terms [] r = r
  check_terms ((n, max_term) ∷ more) r =
      let s = check_split_brain explored n max_term true in
      check_terms more (report (split_brain_line n s) (passes s) r)

  unfoldable pub check_leadership : Report → Report
  check_leadership r =
      let neg = check_split_brain explored 3 4 false in
      report (split_brain_control neg) neg.safety_violated
        (check_terms ((3, 4) ∷ (5, 3) ∷ []) (report split_brain_heading true r))

-- The program: what it prints, and its exit code.
unfoldable pub main : (Cluster → Found State) → (Leadership → Found LState) → List Line × ℕ
main clusters leaderships =
    let r =
      check_leadership leaderships (check_durability clusters (record { lines = []; ok = true })) in
    let verdict = if r.ok then pass_line else fail_line in
    (r.lines ++ blank_line ∷ verdict ∷ [], if r.ok then 0 else 1)
