-- ===== src/Supervisor/Leader/Proposals.antt =====
-- What the Raft leader proposes in src/lib.rs, and when.
use hyperiondb.Prelude.{
  ℕ, ◌≤◌, ◌≡◌, ◌≢◌, refl, ap, sym, ◌∙◌, ◌⊎◌, inl, inr, Bool, true, false, not, none, some, List, [],
  ◌∷◌, map, arith, leb, leb→le, ◌==◌, ==_iff, if◌then◌else◌, length, filter, any, In, In-filter,
  Bool-cases, Option-cases,
}
use hyperiondb.Failover.{Candidate, Decision, choose_primary}
use hyperiondb.Failover.Choice.{choose_primary-best}
use hyperiondb.Supervisor.World.{Settings, Supervisor, proposed, World, succeeded, decided_primary}
use hyperiondb.Supervisor.Leader.{
  Probes, live, min_of, probe_one, probe, primary_alive, asks_reconfirm, needs_reconfirm, candidate,
  next_seq, in_flight, propose, leader_step,
}

-- `p` is the id of a member of the list.
abbrev pub Names : ℕ → List Candidate → Type 0
Names p ms = (m : Candidate) × In m ms × (m.0 ≡ p)

min_of-In : (xs : List ℕ) (p : ℕ) → min_of xs ≡ some p → In p xs
unfolding min_of
min_of-In [] p h = cc
min_of-In (x ∷ xs) p h = elim (Option-cases (min_of xs)) [
  | inl e ↦ inl (ground arith)
  | inr (m, e) ↦ elim (Bool-cases (leb x m)) [
    | inl l ↦ inl (ground arith)
    | inr g ↦ inr (min_of-In xs p (ground arith))
  ]
]

Names-map : (ms : List Candidate) (p : ℕ) → In p (map (λ m. m.0) ms) → Names p ms
Names-map [] p h = absurd h
Names-map (m ∷ ms) p (inl e) = (m, inl refl, sym e)
Names-map (m ∷ ms) p (inr h) = let r = Names-map ms p h in (r.0, inr r.1, r.2)

pub Names-any : (ms : List Candidate) (p : ℕ) → any (λ m. m.0 == p) ms ≡ true → Names p ms
Names-any [] p h = cc
Names-any (m ∷ ms) p h = elim (Bool-cases (m.0 == p)) [
  | inl e ↦ (m, inl refl, (==_iff _ _).0 e)
  | inr f ↦ let r = Names-any ms p (rw f at h) in (r.0, inr r.1, r.2)
]

any-In :
    (p : Candidate → Bool) (m : Candidate) (ms : List Candidate)
    → In m ms
    → p m ≡ true
    → any p ms ≡ true
any-In p m [] h t = absurd h
any-In p m (x ∷ ms) (inl e) t = rw (rw e at t)
any-In p m (x ∷ ms) (inr h) t = ground (arith, any-In p m ms h t)

any-none :
    (p : Candidate → Bool) (ms : List Candidate)
    → ((m : Candidate) → In m ms → p m ≡ false)
    → any p ms ≡ false
any-none p [] h = refl
any-none p (x ∷ ms) h = ground (arith, h x (inl refl), any-none p ms (λ m k. h m (inr k)))

module _ (c : Settings) (i : Probes) where
  In-map-probe :
      (ms : List Candidate) (x : Candidate)
      → In x (map (probe_one c i) ms)
      → (m : Candidate) × In m ms × (m.0 ≡ x.0)
  unfolding probe_one
  In-map-probe [] x h = absurd h
  In-map-probe (m ∷ ms) x (inl e) = (m, inl refl, sym (ap (λ (z : Candidate). z.0) e))
  In-map-probe (m ∷ ms) x (inr h) = let r = In-map-probe ms x h in (r.0, inr r.1, r.2)

  -- A chosen node is one of the candidates.
  choose_primary-Names :
      (ms : List Candidate) (p : ℕ)
      → choose_primary ms ≡ some p
      → (m : Candidate) × In m ms × (m.0 ≡ p)
  choose_primary-Names [] p h = unfold choose_primary in cc h
  choose_primary-Names (m ∷ ms) p h =
      let (b, e, here, top) = choose_primary-best m ms in (b, here, ground arith)

  probe-Names : (ms : List Candidate) (p : ℕ) → choose_primary (probe c i ms) ≡ some p → Names p ms
  unfolding probe
  probe-Names ms p h =
      let (x, here, e) = choose_primary-Names (probe c i ms) p h in
      let (m, there, f) = In-map-probe (filter (λ m. i.joined m.0) ms) x here in
      (m, (In-filter (λ (n : Candidate). i.joined n.0) m ms there).0, f ∙ e)

  alive-Names :
      (s : Supervisor) (ms : List Candidate) (p : ℕ)
      → primary_alive s ms ≡ true
      → (if needs_reconfirm s ms then some (decided_primary s) else none) ≡ some p
      → Names p ms
  unfolding primary_alive
  alive-Names s ms p a h =
      let e : decided_primary s ≡ p = ground arith in
      rw e at (Names-any ms (decided_primary s) (ground arith))

  candidate-Names :
      (s : Supervisor) (ms : List Candidate) (p : ℕ) → candidate c i s ms ≡ some p → Names p ms
  unfolding candidate
  candidate-Names s ms p h = elim (Bool-cases (succeeded s.decided)) [
    | inr fresh ↦
        let (m, here, e) =
          Names-map (filter (λ m. not m.2) ms) p
            (min_of-In (map (λ m. m.0) (filter (λ m. not m.2) ms)) p (ground arith)) in
        (m, (In-filter (λ (n : Candidate). not n.2) m ms here).0, e)
    | inl known ↦ elim (Bool-cases (primary_alive s ms)) [
      | inr dead ↦ probe-Names ms p (ground arith)
      | inl alive ↦ alive-Names s ms p alive (ground arith)
    ]
  ]

  -- The leader's part of a round, branch by branch: it changes nothing; or, with a majority of live
  -- nodes and no proposal of this number in flight, it proposes a live node under the number after
  -- the decided one, and notes that.
  pub leader_step_lem :
      (s : Supervisor) (w : World)
      → (((leader_step c i s w).1 ≡ s) × ((leader_step c i s w).2.trace ≡ w.trace))
        ⊎ ((p : ℕ) × ((leader_step c i s w).2.trace
              ≡ proposed (record { seq = next_seq s; primary = p }) ∷ w.trace)
            × Names p (live c (w.clock w.at) s)
            × (c.majority ≤ length (live c (w.clock w.at) s))
            × (in_flight s ≡ false)
            × ((leader_step c i s w).1
                ≡ record s { last_proposed = (next_seq s, p); last_proposed_tick = s.ticks }))
  unfolding leader_step propose
  leader_step_lem s w = elim (Bool-cases (leb c.majority (length (live c (w.clock w.at) s)))) [
    | inr few ↦ rw few (inl (refl, refl))
    | inl many ↦ elim (Option-cases (candidate c i s (live c (w.clock w.at) s))) [
      | inl nobody ↦ inl (ground arith, ground arith)
      | inr (p, e) ↦ elim (Bool-cases (in_flight s)) [
        | inl busy ↦ inl (ground arith, ground arith)
        | inr free ↦
            inr (p, ground arith, candidate-Names s _ p e, leb→le _ _ many, free, ground arith)
      ]
    ]
  ]

  -- While the decided primary is live and no live node asks for a reconfirmation, the leader
  -- proposes nothing and its state stays as it is.
  pub no_proposal_while_alive :
      (s : Supervisor) (w : World) (d : Decision)
      → s.decided ≡ some d
      → d.primary ≢ 0
      → Names d.primary (live c (w.clock w.at) s)
      → s.reconfirm_pending ≡ false
      → ((m : Candidate) → In m (live c (w.clock w.at) s) → asks_reconfirm s m ≡ false)
      → ((leader_step c i s w).1 ≡ s) × ((leader_step c i s w).2.trace ≡ w.trace)
  unfolding leader_step candidate primary_alive needs_reconfirm
  no_proposal_while_alive s w d e ne (m, here, f) r none_asks = ground (
    arith,
    any-In (λ (n : Candidate). n.0 == d.primary) m (live c (w.clock w.at) s) here (ground arith),
    any-none (asks_reconfirm s) (live c (w.clock w.at) s) none_asks,
  )
