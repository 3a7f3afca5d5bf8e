-- ===== src/Supervisor/Leader/DeadPrimary.antt =====
-- The failover of src/lib.rs: when the decided primary is gone, the Raft leader proposes the best of the nodes
-- that its probes return.
use hyperiondb.Prelude.{
  ℕ, ◌+◌, ◌-◌, ◌≤◌, ◌<◌, ◌≡◌, ◌≢◌, ◌⊎◌, ◌∙◌, refl, ap, inl, inr, true, false, none, some, List, [],
  ◌∷◌, map, arith, length, any, ◌==◌, filter-In, In, All, Bool-cases, ◌||◌, ltb, filter, find,
  if◌then◌else◌,
}
use hyperiondb.Prelude.Words.{u64_mod}
use hyperiondb.Prelude.Text.{Text}
use hyperiondb.Failover.{Candidate, Decision, choose_primary}
use hyperiondb.Failover.Choice.{NotAhead, choose_primary-best}
use hyperiondb.Supervisor.World.{Settings, Supervisor, proposed, World, dead_timeout}
use hyperiondb.Supervisor.Leader.{
  Probes, live, is_live, probe_one, probe, primary_alive, candidate, next_seq, in_flight, propose,
  leader_step,
}
use hyperiondb.Supervisor.Leader.Proposals.{Names, Names-any}

map-In :
    (f : Candidate → Candidate) (m : Candidate) (ms : List Candidate)
    → In m ms
    → In (f m) (map f ms)
map-In f m [] h = absurd h
map-In f m (x ∷ ms) (inl e) = inl (ap f e)
map-In f m (x ∷ ms) (inr h) = inr (map-In f m ms h)

best_of :
    (xs : List Candidate) (m : Candidate)
    → In m xs
    → (x : Candidate) × (choose_primary xs ≡ some x.0) × In x xs × All (λ y. NotAhead y x) xs
best_of [] m h = absurd h
best_of (x ∷ xs) m h = choose_primary-best x xs

module _ (c : Settings) (i : Probes) where
  In-probe :
      (m : Candidate) (ms : List Candidate)
      → In m ms
      → i.joined m.0 ≡ true
      → In (probe_one c i m) (probe c i ms)
  unfolding probe
  In-probe m ms h joined =
      map-In (probe_one c i) m _ (filter-In (λ (n : Candidate). i.joined n.0) m ms h joined)

  not_alive :
      (s : Supervisor) (d : Decision) (ms : List Candidate)
      → s.decided ≡ some d
      → ¬ Names d.primary ms
      → primary_alive s ms ≡ false
  unfolding primary_alive
  not_alive s d ms e gone = elim (Bool-cases (any (λ m. m.0 == d.primary) ms)) [
    | inl t ↦ absurd (gone (Names-any ms d.primary t))
    | inr f ↦ ground (arith, e, f)
  ]

  proposed_best :
      (s : Supervisor) (w : World) (d : Decision) (m : Candidate)
      → s.decided ≡ some d
      → ¬ Names d.primary (live c (w.clock w.at) s)
      → c.majority ≤ length (live c (w.clock w.at) s)
      → In m (live c (w.clock w.at) s)
      → i.joined m.0 ≡ true
      → in_flight s ≡ false
      → (x : Candidate) × In x (probe c i (live c (w.clock w.at) s))
        × All (λ y. NotAhead y x) (probe c i (live c (w.clock w.at) s))
        × ((leader_step c i s w).2.trace
            ≡ proposed (record { seq = next_seq s; primary = x.0 }) ∷ w.trace)
        × ((leader_step c i s w).1
            ≡ record s { last_proposed = (next_seq s, x.0); last_proposed_tick = s.ticks })
  unfolding leader_step propose candidate
  proposed_best s w d m e gone many here joined free =
      let ms = live c (w.clock w.at) s in
      let (x, chosen, there, best) =
        best_of (probe c i ms) (probe_one c i m) (In-probe m ms here joined) in
      let dead = not_alive s d ms e gone in
      (
        x,
        there,
        best,
        ground (arith, e, chosen, dead, many, free),
        ground (arith, e, chosen, dead, many, free),
      )

  -- The nodes heard of less than 2500 milliseconds before the time `t`, and the node itself.
  abbrev pub heard : ℕ → Supervisor → List Candidate
  heard t s =
      map (λ e. (e.0, e.1.lsn, e.1.recovery))
        (filter (λ e. e.0 == c.node_id || ltb (t - e.1.seen) dead_timeout) s.peers_lsn)

  -- The position of a node: its own for the node itself, what a peer that is configured answers, and
  -- otherwise the last one heard.
  abbrev pub position : Candidate → ℕ
  position m =
      if m.0 == c.node_id then i.own else elim (find (λ (p : ℕ × Text). p.0 == m.0) c.pg_members) [
        | none ↦ m.1
        | some _ ↦ elim (i.peer m.0) [ none ↦ m.1 | some lsn ↦ lsn ]
      ]

  -- Those of the nodes whose probe returned, with their positions.
  abbrev pub probed : List Candidate → List Candidate
  probed ms = map (λ m. (m.0, position m, m.2)) (filter (λ m. i.joined m.0) ms)

  heard-live : (t : ℕ) (s : Supervisor) → live c t s ≡ heard t s
  unfolding live is_live
  heard-live t s = refl

  probed-probe : (ms : List Candidate) → probe c i ms ≡ probed ms
  unfolding probe probe_one
  probed-probe ms = refl

  next-seq :
      (s : Supervisor) (d : Decision)
      → s.decided ≡ some d
      → d.seq + 1 < u64_mod
      → next_seq s ≡ d.seq + 1
  unfolding next_seq
  next-seq s d e fits = ground (arith, e)

  free-of_flight :
      (s : Supervisor) (n : ℕ)
      → next_seq s ≡ n
      → (s.last_proposed.0 ≢ n) ⊎ (20 ≤ s.ticks - s.last_proposed_tick)
      → in_flight s ≡ false
  unfolding in_flight
  free-of_flight s n e (inl other) = ground (arith, e, other)
  free-of_flight s n e (inr old) = ground (arith, e, old)

  -- When the decided primary is not among the nodes heard of in the last 2500 milliseconds, a majority
  -- is, the probe of a node among these returned, and the number after the decided one was not proposed within the last
  -- 20 rounds, the leader proposes under this number a node whose probe returned and that none of these
  -- nodes is ahead of by its probed position, and notes that.
  pub failover_proposed :
      (s : Supervisor) (w : World) (d : Decision) (m : Candidate)
      → s.decided ≡ some d
      → d.seq + 1 < u64_mod
      → ¬ Names d.primary (heard (w.clock w.at) s)
      → c.majority ≤ length (heard (w.clock w.at) s)
      → In m (heard (w.clock w.at) s)
      → i.joined m.0 ≡ true
      → (s.last_proposed.0 ≢ d.seq + 1) ⊎ (20 ≤ s.ticks - s.last_proposed_tick)
      → (x : Candidate) × In x (probed (heard (w.clock w.at) s))
        × All (λ y. NotAhead y x) (probed (heard (w.clock w.at) s))
        × ((leader_step c i s w).2.trace
            ≡ proposed (record { seq = d.seq + 1; primary = x.0 }) ∷ w.trace)
        × ((leader_step c i s w).1
            ≡ record s { last_proposed = (d.seq + 1, x.0); last_proposed_tick = s.ticks })
  unfolding live is_live probe probe_one
  failover_proposed s w d m e fits gone many here joined free =
      let seq = next-seq s d e fits in
      let (x, there, best, traced, noted) =
        proposed_best s w d m e gone many here joined (free-of_flight s (d.seq + 1) seq free) in
      (
        x,
        there,
        best,
        traced ∙ ap (λ (n : ℕ). proposed (record { seq = n; primary = x.0 }) ∷ w.trace) seq,
        noted
            ∙ ap (λ (n : ℕ). record s { last_proposed = (n, x.0); last_proposed_tick = s.ticks })
                seq,
      )
