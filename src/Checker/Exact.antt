-- ===== src/Checker/Exact.antt =====
-- What one check of packages/consensus-model reports, at any size.
use hyperiondb.Prelude.{
  ◌+◌, ◌≤◌, ◌<◌, ◌≡◌, refl, true, false, not, inl, inr, arith, leb, List, In, Option-cases,
  Bool-cases, ◌∙◌, sym, ap,
}
use hyperiondb.Prelude.Words.{u64_mod}
use hyperiondb.Explore.{Rules, Run}
use hyperiondb.Durability.{Cluster, State, majority, init_state, model}
use hyperiondb.Durability.Safety.{no_acked_loss-always}
use hyperiondb.Durability.Stream.{IsRoomy}
use hyperiondb.Durability.Threshold.{acked_loss-Reach, failover_after_ack-Reach}
use hyperiondb.Leadership.{Leadership, LState, init_state as start, model as rules}
use hyperiondb.Leadership.Safety.{no_split_brain-always}
use hyperiondb.Leadership.Stale.{IsRoomy as IsRoomyL, stale, stale-Reach, stale-present}
use hyperiondb.Leadership.Threshold.{split_brain-Reach}
use hyperiondb.Checker.{
  Property, Found, is_some, sought, IsExhaustive, durability_properties, leadership_properties,
  check, check_split_brain,
}

module _ {S A : Type 0} {m : Rules S A} {init : S} {properties : List (Property S)}
    {found : Found S} (law : IsExhaustive m init properties found) (p : Property S)
    (here : In p properties) where
  -- A reachable state decides the property.
  pub is_found :
      (s : S)
      → Run m init s
      → p.condition s ≡ sought p.expectation
      → is_some (found.discovery p.name) ≡ true
  is_found s r e = elim (Option-cases (found.discovery p.name)) [
    | inl o ↦ absurd (ground (arith, e, law.exhausted p here o s r))
    | inr (t, o) ↦ rw o refl
  ]

  pub is_not_found :
      ((s : S) → Run m init s → p.condition s ≡ not (sought p.expectation))
      → is_some (found.discovery p.name) ≡ false
  is_not_found h = elim (Option-cases (found.discovery p.name)) [
    | inl o ↦ rw o refl
    | inr (t, o) ↦ let (r, e) = law.discovered p here t o in absurd (ground (arith, e, h t r))
  ]

-- A durability check by an exhaustive search, of a cluster of 3 to 31 nodes with room for a record and
-- a failover, bounds in 64 bits and a quorum of 1 to all nodes: it reports a violation exactly if the
-- quorum and a majority are together at most all nodes, and it does reach a failover after an
-- acknowledgement.
pub check-exact :
    (explored : Cluster → Found State) (c : Cluster)
    → IsExhaustive (model c) (init_state c) durability_properties (explored c)
    → IsRoomy c
    → 3 ≤ c.n
    → c.ack_quorum ≤ c.n
    → c.max_lsn < u64_mod
    → c.max_term < u64_mod
    → ((check explored c.n c.ack_quorum c.max_lsn c.max_term).safety_violated
        ≡ leb (c.ack_quorum + majority c) c.n)
      × ((check explored c.n c.ack_quorum c.max_lsn c.max_term).sometimes_met ≡ true)
unfolding check
check-exact explored c law roomy many le lsn_fits term_fits = (
  elim (Bool-cases (leb (c.ack_quorum + majority c) c.n)) [
    | inl e ↦
        let (s, r, lost) = acked_loss-Reach roomy (ground arith) in
        rw e (is_found law _ (inl refl) s r lost)
    | inr e ↦ rw e (
        is_not_found law _ (inl refl) (λ s r.
          no_acked_loss-always
            (record {
              nonempty = omega arith;
              lsn_fits = lsn_fits;
              term_fits = term_fits;
              quorum = ground arith;
            })
            r))
  ],
  (let (s, r, met) = failover_after_ack-Reach roomy le many in
      is_found law _ (inr (inl refl)) s r met),
)

-- A leadership check by an exhaustive search, of a cluster of 3 to 31 nodes with room for one election
-- and a bound on terms in 64 bits: it reports a violation exactly if commits are not fenced, and it
-- does reach a stale writable leader.
pub check_split_brain-exact :
    (explored : Leadership → Found LState) (c : Leadership)
    → IsExhaustive (rules c) (start c) leadership_properties (explored c)
    → IsRoomyL c
    → c.max_term < u64_mod
    → ((check_split_brain explored c.n c.max_term c.fencing).safety_violated ≡ not c.fencing)
      × ((check_split_brain explored c.n c.max_term c.fencing).sometimes_met ≡ true)
unfolding check_split_brain
check_split_brain-exact explored c law roomy fits = (
  elim (Bool-cases c.fencing) [
    | inl e ↦
        is_not_found law _ (inl refl) (λ s r.
          no_split_brain-always
            (record { nonempty = omega (arith, roomy.many); term_fits = fits; fenced = e }) r)
        ∙ sym (ap not e)
    | inr e ↦
        let (s, r, broken) = split_brain-Reach roomy e in
        is_found law _ (inl refl) s r broken ∙ sym (ap not e)
  ],
  is_found law _ (inr (inl refl)) (stale c roomy) (stale-Reach c roomy) (stale-present c roomy),
)
