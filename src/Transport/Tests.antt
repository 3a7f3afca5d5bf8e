-- ===== src/Transport/Tests.antt =====
-- The server of a connection with two voters, and a Raft that counts the requests.
use hyperiondb.Prelude.{
  Bool-cases, inl, ◌<◌, ◌+◌, ◌-◌, ◌++◌, ◌==◌, if◌then◌else◌, any, false, get_elem?, ℕ, suc, ◌≡◌,
  refl, true, none, some, inr, List, [], ◌∷◌, length, arith,
}
use hyperiondb.Prelude.Text.{codes}
use hyperiondb.Transport.{
  Server, Conn, vote, handle_conn, count, read_frame, read_exact, write_frame, gossip_frame,
  handle_frame, receive_gossip, forward,
}
use hyperiondb.Prelude.Bytes.{be_bytes, from_be_acc}
use hyperiondb.Transport.Client.{Net, Wire, Connection, call, send_turns}
use hyperiondb.Transport.Calls.{flat, result_from, call-served, written, send_turns-up}
use hyperiondb.Transport.Accept.{
  Hub, Event, accepted, accept_failed, turn_of, accept_loop, spawn_server, serve_event, spawned,
  turn, conn_of,
}
use hyperiondb.Transport.Interleaved.{spawn_server-voters}
use hyperiondb.Transport.Turns.{Senders, brings, of_sender, tagged}
use hyperiondb.Transport.Fifo.{spawn_server-fifo, no_tasks}
use hyperiondb.Transport.Serve.{AllFit, sent, FromVoters}

abbrev server : Server ℕ
server = record {
  voters = 1 ∷ 2 ∷ [];
  ready = λ n. true;
  accepts = λ n. true;
  respond = λ rpc body n. (suc n, some (n ∷ []));
}

abbrev opened : Conn ℕ
opened = record { frames = 0; raft = 5; gossip_in = (1, 9 ∷ []) ∷ []; responses = [] }

abbrev two_payloads : List (List ℕ)
two_payloads = (7 ∷ []) ∷ (8 ∷ []) ∷ []

-- A stream holds what is still to come in; at its other end `server` answers.
abbrev wired : Net
wired = record {
  Stream = List ℕ;
  connect = λ addr k. some [];
  write_all = λ s bytes. (
    flat
        (handle_conn server (length bytes) bytes
          (record { frames = 0; raft = 5; gossip_in = []; responses = [] })).responses,
    true,
  );
  incoming = λ s. s;
  leave = λ s rest. rest;
}

abbrev plain : Wire (List ℕ) (List ℕ) ℕ
plain = record { to_vec = λ req. some req; from_slice = λ bytes. some (inr bytes) }

abbrev closed : Connection (List ℕ)
closed = record { target = 2; addr = codes "b:7400"; stream = none }

call-served_example :
    (t : List ℕ) × (call wired plain vote (4 ∷ []) closed 0
      ≡ (record closed { stream = some t }, result_from wired plain 2 (inr (5 ∷ []))))
call-served_example =
    call-served wired plain server 5 vote (4 ∷ []) (4 ∷ []) (5 ∷ []) (inr (5 ∷ [])) closed 0 [] refl
      refl (omega arith) (omega arith) refl refl refl (λ bytes. (refl, refl)) (λ s e. absurd (cc e))

-- A stream holds what was written to it.
abbrev recording : Net
recording = record {
  Stream = List ℕ;
  connect = λ addr k. some [];
  write_all = λ s bytes. (s ++ bytes, true);
  incoming = λ s. [];
  leave = λ s rest. s;
}

send_turns-up_example :
    send_turns recording (codes "b:7400") 3 ((1 ∷ [], (2 ∷ []) ∷ []) ∷ (3 ∷ [], []) ∷ []) none
    ≡ some (written recording [] ((2 ∷ []) ∷ (3 ∷ []) ∷ []))
send_turns-up_example =
    send_turns-up recording (codes "b:7400") 3 (1 ∷ [], (2 ∷ []) ∷ []) ((3 ∷ [], []) ∷ []) none []
      ((2 ∷ []) ∷ (3 ∷ []) ∷ []) (inr (refl, refl)) (((1 ∷ []) ∷ [], refl), (([], refl), tt))
      (refl, (refl, tt))

-- The length and the contents of the two frames.
two_frames_written :
    written recording [] ((2 ∷ []) ∷ (3 ∷ []) ∷ []) ≡ 0 ∷ 0 ∷ 0 ∷ 1 ∷ 2 ∷ 0 ∷ 0 ∷ 0 ∷ 1 ∷ 3 ∷ []
unfolding write_frame be_bytes
two_frames_written = refl

abbrev payloads : ℕ → List (List ℕ)
payloads k = if k == 0 then two_payloads else (9 ∷ []) ∷ []

is_voter : (k : ℕ) → k < 2 → any (λ w. w == k + 1) server.voters ≡ true
is_voter k lt = ground arith

payloads-fit : (k : ℕ) → k < 2 → AllFit server (payloads k)
payloads-fit k lt = elim (Bool-cases (k == 0)) [
  | inl e ↦ rw e (omega arith, (omega arith, tt))
  | inr e ↦ rw e (omega arith, tt)
]

abbrev two_senders : Senders server
two_senders = record {
  n = 2;
  from = λ k. k + 1;
  ps = payloads;
  small = λ k lt. omega arith;
  voters = is_voter;
  distinct = λ j k hj hk e. omega arith;
  fit = payloads-fit;
}

-- Two connections, the second of which has the first turns.
abbrev events : List Event
events =
    accepted
    ∷ accept_failed
    ∷ accepted
    ∷ turn_of 1
    ∷ turn_of 0
    ∷ turn_of 1
    ∷ turn_of 0
    ∷ turn_of 7
    ∷ []

abbrev idle_hub : Hub ℕ
idle_hub = record { raft = 5; gossip_in = (1, 9 ∷ []) ∷ []; tasks = [] }

spawn_server-voters_example :
    FromVoters server
      (spawn_server server (λ k. sent server (3 - k) two_payloads) true events idle_hub).gossip_in
spawn_server-voters_example =
    spawn_server-voters server (λ k. sent server (3 - k) two_payloads) true events idle_hub
      (refl, tt)

-- The task of the second connection has ended.
second_ended :
    get_elem?
      (spawn_server server
        (brings server two_senders)
        true
        events
        (no_tasks server two_senders 5)).tasks
      1
    ≡ some (record { stream = []; frames = 1; responses = []; running = false })
unfolding spawn_server accept_loop serve_event spawned turn conn_of count read_frame read_exact
    write_frame gossip_frame handle_frame receive_gossip forward be_bytes from_be_acc
second_ended = refl

spawn_server-fifo_example :
    (rest : List (List ℕ)) × (of_sender 2
          (spawn_server server
            (brings server two_senders)
            true
            events
            (no_tasks server two_senders 5)).gossip_in
        ++ tagged 2 rest
      ≡ tagged 2 ((9 ∷ []) ∷ []))
    × (false ≡ false → rest ≡ [])
spawn_server-fifo_example =
    spawn_server-fifo server two_senders 5 true events 1
      (record { stream = []; frames = 1; responses = []; running = false }) (omega arith)
      second_ended
