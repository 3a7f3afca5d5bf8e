-- ===== src/Transport/Accept.antt =====
-- The accept loop of `spawn_server` in src/rpc.rs: each connection that is accepted gets a task that
-- runs `handle_conn`, and the tasks share Raft and the queue of gossip. What happens is a sequence of
-- events, one turn of a loop at a time.
use hyperiondb.Prelude.{
  ℕ, Bool, true, false, none, some, List, [], ◌∷◌, ◌++◌, length, get_elem?, set, if◌then◌else◌,
}
use hyperiondb.Transport.{Server, Conn, read_frame, handle_frame, count}

-- A task: what is still to come in on its stream, and whether its loop runs.
pub record Task : Type 0 where
  pub stream : List ℕ
  pub frames : ℕ
  pub responses : List (List ℕ)
  pub running : Bool

-- What the tasks share, and the tasks in the order in which their connections were accepted.
pub record Hub (S : Type 0) : Type 0 where
  pub raft : S
  pub gossip_in : List (ℕ × List ℕ)
  pub tasks : List Task

-- A connection comes in, an accept fails and the loop sleeps, or the loop of a task has a turn.
pub data Event : Type 0 where
  accepted : Event
  accept_failed : Event
  turn_of : ℕ → Event

-- The server, and what arrives on the connections.
module _ {S : Type 0} (v : Server S) (arrives : ℕ → List ℕ) where
  unfoldable pub conn_of : Hub S → Task → Conn S
  conn_of h t = record {
    frames = t.frames;
    raft = h.raft;
    gossip_in = h.gossip_in;
    responses = t.responses;
  }

  -- The new task of a connection.
  unfoldable pub spawned : ℕ → Task
  spawned k = record { stream = arrives k; frames = 0; responses = []; running = true }

  -- One turn of the loop of `handle_conn`.
  unfoldable pub turn : Hub S → Task → Conn S × Task
  turn h t =
      if t.running
      then elim (read_frame t.stream) [
        | none ↦ (conn_of h t, record t { running = false })
        | some (frame, rest) ↦
            let (d, more) = handle_frame v frame (count v (conn_of h t)) in
            (
              d,
              record { stream = rest; frames = d.frames; responses = d.responses; running = more },
            )
      ]
      else (conn_of h t, t)

  unfoldable pub serve_event : Event → Hub S → Hub S
  serve_event accepted h = record h { tasks = h.tasks ++ spawned (length h.tasks) ∷ [] }
  serve_event accept_failed h = h
  serve_event (turn_of k) h = elim (get_elem? h.tasks k) [
    | none ↦ h
    | some t ↦
        let (d, u) = turn h t in
        record { raft = d.raft; gossip_in = d.gossip_in; tasks = set h.tasks k u }
  ]

  -- What happens once the listener is there.
  unfoldable pub accept_loop : List Event → Hub S → Hub S
  accept_loop [] h = h
  accept_loop (e ∷ es) h = accept_loop es (serve_event e h)

  -- `listens` tells whether the listener could be turned into one of `tokio`.
  unfoldable pub spawn_server : (listens : Bool) → List Event → Hub S → Hub S
  spawn_server listens es h = if listens then accept_loop es h else h
