-- ===== src/Transport/Interleaved.antt =====
-- What the tasks of `spawn_server` in src/rpc.rs pass on, in whatever order they have their turns.
use hyperiondb.Prelude.{
  Bool, true, false, ℕ, List, [], ◌∷◌, get_elem?, Bool-cases, Option-cases, inl, inr,
}
use hyperiondb.Transport.{Server, read_frame, count}
use hyperiondb.Transport.Serve.{FromVoters, handle_frame-FromVoters}
use hyperiondb.Transport.Accept.{
  Task, Hub, Event, accepted, accept_failed, turn_of, conn_of, turn, serve_event, accept_loop,
  spawn_server,
}

module _ {S : Type 0} (v : Server S) (arrives : ℕ → List ℕ) where
  turn-FromVoters :
      (h : Hub S) (t : Task)
      → FromVoters v h.gossip_in
      → FromVoters v (turn v arrives h t).0.gossip_in
  unfolding turn conn_of count
  turn-FromVoters h t a = elim (Bool-cases t.running) [
    | inl e ↦ elim (Option-cases (read_frame t.stream)) [
      | inl o ↦ rw (e, o) a
      | inr (r, o) ↦ rw (e, o) (handle_frame-FromVoters v r.0 (count v (conn_of v arrives h t)) a)
    ]
    | inr e ↦ rw e a
  ]

  serve_event-FromVoters :
      (e : Event) (h : Hub S)
      → FromVoters v h.gossip_in
      → FromVoters v (serve_event v arrives e h).gossip_in
  unfolding serve_event
  serve_event-FromVoters accepted h a = a
  serve_event-FromVoters accept_failed h a = a
  serve_event-FromVoters (turn_of k) h a = elim (Option-cases (get_elem? h.tasks k)) [
    | inl o ↦ rw (serve_event, o) a
    | inr (t, o) ↦ rw (serve_event, o) (turn-FromVoters h t a)
  ]

  accept_loop-voters :
      (es : List Event) (h : Hub S)
      → FromVoters v h.gossip_in
      → FromVoters v (accept_loop v arrives es h).gossip_in
  unfolding accept_loop
  accept_loop-voters [] h a = a
  accept_loop-voters (e ∷ es) h a =
      accept_loop-voters es (serve_event v arrives e h) (serve_event-FromVoters e h a)

  -- However many connections the server accepts, whatever the bytes on them, and in whatever order their
  -- tasks have their turns, only gossip in the name of a voter is passed on.
  pub spawn_server-voters :
      (listens : Bool) (es : List Event) (h : Hub S)
      → FromVoters v h.gossip_in
      → FromVoters v (spawn_server v arrives listens es h).gossip_in
  unfolding spawn_server
  spawn_server-voters true es h a = accept_loop-voters es h a
  spawn_server-voters false es h a = a
