-- ===== src/Transport/Fifo.antt =====
-- The gossip of each connection of `spawn_server` in src/rpc.rs is passed on in order, in whatever order
-- the tasks have their turns.
use mathlib.Core.Path.{subst}
use mathlib.Core.Option.{some-injective}
use hyperiondb.Prelude.{
  Bool, true, ◌⊎◌, ℕ, ◌≤◌, ◌<◌, ◌≡◌, ◌≢◌, refl, sym, ap, ◌∙◌, false, some, List, [], ◌∷◌, ◌++◌,
  length, get_elem?, set, ◌==◌, arith, Bool-cases, Option-cases, inl, inr, get_elem?-append,
  get_elem?-set, get_elem?-lt, length-append, length-set,
}
use hyperiondb.Transport.{Server}
use native.Mathlib.Decide.{dec_lt}
use hyperiondb.Transport.Accept.{
  Task, Hub, Event, accepted, accept_failed, turn_of, spawned, turn, serve_event, accept_loop,
  spawn_server,
}
use hyperiondb.Transport.Turns.{
  of_sender, tagged, Senders, brings, Follows, turn-Turned, Follows-other, spawned-Follows,
  turn-quiet,
}

module _ {S : Type 0} (v : Server S) (g : Senders v) where
  open g use {n, from, ps, small, voters, distinct, fit}

  record IsFair (h : Hub S) : Type 0 where
    each : (k : ℕ) → k < n → (t : Task) → get_elem? h.tasks k ≡ some t → Follows v g h.gossip_in k t
    quiet : (k : ℕ) → n ≤ k → (t : Task) → get_elem? h.tasks k ≡ some t → t.stream ≡ []
    none_yet : (k : ℕ) → k < n → length h.tasks ≤ k → of_sender (from k) h.gossip_in ≡ []

  -- A task after an accept is an old one or the new one.
  accepted-task :
      (h : Hub S) (k : ℕ) (t : Task)
      → get_elem? (h.tasks ++ spawned v (brings v g) (length h.tasks) ∷ []) k ≡ some t
      → ((k ≡ length h.tasks) × (spawned v (brings v g) k ≡ t)) ⊎ (get_elem? h.tasks k ≡ some t)
  accepted-task h k t e =
      let new = spawned v (brings v g) (length h.tasks) in
      elim (Bool-cases (k == length h.tasks)) [
        | inl last ↦
            let here : k ≡ length h.tasks = ground arith in
            let same : new ≡ t =
              some-injective _ _ (ground (arith, last, e, get_elem?-append h.tasks new k)) in
            inl (here, ap (spawned v (brings v g)) here ∙ same)
        | inr other ↦ inr (ground (arith, other, e, get_elem?-append h.tasks new k))
      ]

  accepted-IsFair : (h : Hub S) → IsFair h → IsFair (serve_event v (brings v g) accepted h)
  unfolding serve_event spawned
  accepted-IsFair h fair = record {
    each = λ k lt t e. elim (accepted-task h k t e) [
      | inl (last, is) ↦
          subst (Follows v g h.gossip_in k) is
            (spawned-Follows v g h.gossip_in k lt (fair.none_yet k lt (omega arith)))
      | inr old ↦ fair.each k lt t old
    ];
    quiet = λ k le t e. elim (accepted-task h k t e) [
      | inl (last, is) ↦ subst (λ (u : Task). u.stream ≡ []) is (ground arith)
      | inr old ↦ fair.quiet k le t old
    ];
    none_yet = λ k lt le.
        fair.none_yet k lt
          (omega (arith, length-append h.tasks (spawned v (brings v g) (length h.tasks) ∷ [])));
  }

  -- A task after a turn of the task `k` is that one or another.
  turned-task :
      (h : Hub S) (k j : ℕ) (t u w : Task)
      → get_elem? h.tasks k ≡ some t
      → get_elem? (set h.tasks k w) j ≡ some u
      → ((j ≡ k) × (w ≡ u)) ⊎ ((j ≢ k) × (get_elem? h.tasks j ≡ some u))
  turned-task h k j t u w here e = elim (Bool-cases (j == k)) [
    | inl same ↦ inl (
      ground arith,
      some-injective _ _ (ground (arith, same, e, get_elem?-set h.tasks k j w t here)),
    )
    | inr other ↦
        inr ((λ f. ground arith), ground (arith, other, e, get_elem?-set h.tasks k j w t here))
  ]

  abbrev after_turn : Hub S → ℕ → Task → Hub S
  after_turn h k t = record {
    raft = (turn v (brings v g) h t).0.raft;
    gossip_in = (turn v (brings v g) h t).0.gossip_in;
    tasks = set h.tasks k (turn v (brings v g) h t).1;
  }

  turned-IsFair :
      (h : Hub S) (k : ℕ) (t : Task)
      → k < n
      → IsFair h
      → get_elem? h.tasks k ≡ some t
      → IsFair (after_turn h k t)
  turned-IsFair h k t lt fair here =
      let r = turn v (brings v g) h t in
      let (own, others) = turn-Turned v g h k t lt (fair.each k lt t here) in
      record {
        each = λ j hj u e. elim (turned-task h k j t u r.1 here e) [
          | inl (same, is) ↦
              subst (λ j. Follows v g r.0.gossip_in j u) (sym same)
                (subst (Follows v g r.0.gossip_in k) is own)
          | inr (ne, old) ↦
              Follows-other v g h.gossip_in r.0.gossip_in j u (others j hj ne)
                (fair.each j hj u old)
        ];
        quiet = λ j hj u e. elim (turned-task h k j t u r.1 here e) [
          | inl (same, is) ↦ absurd (omega arith)
          | inr (ne, old) ↦ fair.quiet j hj u old
        ];
        none_yet = λ j hj le.
            others j hj
              (λ e. absurd (omega (arith, get_elem?-lt h.tasks k t here, length-set h.tasks k r.1)))
            ∙ fair.none_yet j hj (omega (arith, length-set h.tasks k r.1));
      }

  quiet-IsFair :
      (h : Hub S) (k : ℕ) (t : Task)
      → n ≤ k
      → IsFair h
      → get_elem? h.tasks k ≡ some t
      → IsFair (after_turn h k t)
  quiet-IsFair h k t le fair here =
      let r = turn v (brings v g) h t in
      let (same, empty) = turn-quiet v g h t (fair.quiet k le t here) in
      record {
        each = λ j hj u e. elim (turned-task h k j t u r.1 here e) [
          | inl (at_k, is) ↦ absurd (omega arith)
          | inr (ne, old) ↦
              Follows-other v g h.gossip_in r.0.gossip_in j u (ap (of_sender (from j)) same)
                (fair.each j hj u old)
        ];
        quiet = λ j hj u e. elim (turned-task h k j t u r.1 here e) [
          | inl (at_k, is) ↦ subst (λ (u : Task). u.stream ≡ []) is empty
          | inr (ne, old) ↦ fair.quiet j hj u old
        ];
        none_yet = λ j hj le.
            ap (of_sender (from j)) same
            ∙ fair.none_yet j hj (omega (arith, length-set h.tasks k r.1));
      }

  serve_event-IsFair : (e : Event) (h : Hub S) → IsFair h → IsFair (serve_event v (brings v g) e h)
  unfolding serve_event
  serve_event-IsFair accepted h fair = accepted-IsFair h fair
  serve_event-IsFair accept_failed h fair = fair
  serve_event-IsFair (turn_of k) h fair = elim (Option-cases (get_elem? h.tasks k)) [
    | inl o ↦ rw (serve_event, o) fair
    | inr (t, o) ↦ elim (dec_lt k n) [
      | yes lt ↦ rw (serve_event, o) (turned-IsFair h k t lt fair o)
      | no ge ↦ rw (serve_event, o) (quiet-IsFair h k t (omega arith) fair o)
    ]
  ]

  accept_loop-IsFair :
      (es : List Event) (h : Hub S) → IsFair h → IsFair (accept_loop v (brings v g) es h)
  unfolding accept_loop
  accept_loop-IsFair [] h fair = fair
  accept_loop-IsFair (e ∷ es) h fair =
      accept_loop-IsFair es (serve_event v (brings v g) e h) (serve_event-IsFair e h fair)

  abbrev pub no_tasks : S → Hub S
  no_tasks raft = record { raft = raft; gossip_in = []; tasks = [] }

  no_tasks-IsFair : (raft : S) → IsFair (no_tasks raft)
  no_tasks-IsFair raft = record {
    each = λ k lt t e. cc;
    quiet = λ k le t e. cc;
    none_yet = λ k lt le. refl;
  }

  -- Where each connection brings the gossip of a voter of its own, in frames that fit, or nothing: in
  -- whatever order connections come in and tasks have their turns, what the server passes on in a
  -- voter's name is what it sent so far, whole and in order, and all of it once the task of its
  -- connection has ended.
  pub spawn_server-fifo :
      (raft : S) (listens : Bool) (es : List Event) (k : ℕ) (t : Task)
      → k < n
      → get_elem? (spawn_server v (brings v g) listens es (no_tasks raft)).tasks k ≡ some t
      → (rest : List (List ℕ)) × (of_sender
              (from k)
              (spawn_server v (brings v g) listens es (no_tasks raft)).gossip_in
            ++ tagged (from k) rest
          ≡ tagged (from k) (ps k))
        × (t.running ≡ false → rest ≡ [])
  unfolding spawn_server
  spawn_server-fifo raft true es k t lt here =
      let f = (accept_loop-IsFair es (no_tasks raft) (no_tasks-IsFair raft)).each k lt t here in
      (f.rest, f.whole, f.ended)
  spawn_server-fifo raft false es k t lt here = cc
