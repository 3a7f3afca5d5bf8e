-- ===== src/Transport/Client.antt =====
-- The client of src/rpc.rs: `Connection::call` with its one retry on a fresh stream, and the task that
-- sends gossip to one peer.
-- Sockets and timeouts are a parameter: a call that fails or runs out of time is one that fails.
use hyperiondb.Prelude.{
  ℕ, suc, Bool, not, Option, none, some, List, [], ◌∷◌, ◌⊎◌, inl, inr, ◌==◌, if◌then◌else◌, filter,
}
use hyperiondb.Prelude.Text.{Text}
use hyperiondb.Peers.{Peer}
use hyperiondb.Transport.{Rpc, append, vote, snapshot, kind_raft, write_frame, read_frame}

-- `TcpStream`: what a connect to an address gives at the k-th try, what a write leaves and whether it
-- succeeded, and the bytes that arrive in time; reading some leaves the rest.
pub record Net : Type 1 where
  pub Stream : Type 0
  pub connect : Text → ℕ → Option Stream
  pub write_all : Stream → List ℕ → Stream × Bool
  pub incoming : Stream → List ℕ
  pub leave : Stream → List ℕ → Stream

-- `serde_json` for the request and for the result of one kind of call.
pub record Wire (Req Resp Err : Type 0) : Type 0 where
  pub to_vec : Req → Option (List ℕ)
  pub from_slice : List ℕ → Option (Err ⊎ Resp)

pub data RpcError (Err : Type 0) : Type 0 where
  network : RpcError Err
  unreachable : RpcError Err
  remote : ℕ → Err → RpcError Err

-- `RPC_APPEND`, `RPC_VOTE` and `RPC_SNAPSHOT`
unfoldable pub rpc_byte : Rpc → ℕ
rpc_byte append = 0
rpc_byte vote = 1
rpc_byte snapshot = 2

unfoldable pub request : Rpc → List ℕ → List ℕ
request rpc body = kind_raft ∷ rpc_byte rpc ∷ body

pub record Connection (S : Type 0) : Type 0 where
  pub target : ℕ
  pub addr : Text
  pub stream : Option S

module _ (net : Net) where
  unfoldable pub read_response : net.Stream → net.Stream × Option (List ℕ)
  read_response s = elim (read_frame (net.incoming s)) [
    | none ↦ (s, none)
    | some (resp, rest) ↦ (net.leave s rest, some resp)
  ]

  unfoldable pub exchange : net.Stream → List ℕ → net.Stream × Option (List ℕ)
  exchange s payload =
      let (t, written) = net.write_all s (write_frame payload) in
      if written then read_response t else (t, none)

  module _ {Req Resp Err : Type 0} (wire : Wire Req Resp Err) where
    unfoldable pub decode : ℕ → List ℕ → RpcError Err ⊎ Resp
    decode target resp = elim (wire.from_slice resp) [
      | none ↦ inl network
      | some (inl e) ↦ inl (remote target e)
      | some (inr r) ↦ inr r
    ]

    -- A call on a new stream.
    unfoldable pub call_fresh :
        List ℕ → Connection net.Stream → ℕ → Connection net.Stream × (RpcError Err ⊎ Resp)
    call_fresh payload c k = elim (net.connect c.addr k) [
      | none ↦ (record c { stream = none }, inl unreachable)
      | some s ↦
          let (t, resp) = exchange s payload in
          elim resp [
            | none ↦ (record c { stream = none }, inl network)
            | some bytes ↦ (record c { stream = some t }, decode c.target bytes)
          ]
    ]

    -- The stream that is open is tried first; if that fails, a new one.
    unfoldable pub call_on :
        Option net.Stream
        → List ℕ
        → Connection net.Stream
        → ℕ
        → Connection net.Stream × (RpcError Err ⊎ Resp)
    call_on none payload c k = call_fresh payload c k
    call_on (some s) payload c k =
        let (t, resp) = exchange s payload in
        let fresh = call_fresh payload c k in
        elim resp [
          | none ↦ fresh
          | some bytes ↦ (record c { stream = some t }, decode c.target bytes)
        ]

    unfoldable pub call :
        Rpc → Req → Connection net.Stream → ℕ → Connection net.Stream × (RpcError Err ⊎ Resp)
    call rpc req c k = elim (wire.to_vec req) [
      | none ↦ (c, inl network)
      | some body ↦ call_on c.stream (request rpc body) c k
    ]

  -- The client of `NetworkFactory` for a node, and the operations of `RaftNetwork`, each with its own
  -- types of request, response and error. The time that a call may take is in `Net`.
  unfoldable pub new_client : ℕ → Text → Connection net.Stream
  new_client target addr = record { target = target; addr = addr; stream = none }

  module _ {Req Resp Err : Type 0} (wire : Wire Req Resp Err) where
    pub append_entries_request :
        Req → Connection net.Stream → ℕ → Connection net.Stream × (RpcError Err ⊎ Resp)
    append_entries_request req c k = call wire append req c k

    pub install_snapshot_request :
        Req → Connection net.Stream → ℕ → Connection net.Stream × (RpcError Err ⊎ Resp)
    install_snapshot_request req c k = call wire snapshot req c k

    pub vote_request :
        Req → Connection net.Stream → ℕ → Connection net.Stream × (RpcError Err ⊎ Resp)
    vote_request req c k = call wire vote req c k

  -- The newest of the frames in the queue.
  unfoldable pub newest_frame : List ℕ → List (List ℕ) → List ℕ
  newest_frame frame [] = frame
  newest_frame frame (newer ∷ more) = newest_frame newer more

  unfoldable pub reconnect : Text → ℕ → Option net.Stream → Option net.Stream
  reconnect addr k none = net.connect addr k
  reconnect addr k (some s) = some s

  -- A frame that is not written is lost, and so is the stream.
  unfoldable pub send_frame : List ℕ → Option net.Stream → Option net.Stream
  send_frame frame none = none
  send_frame frame (some s) =
      let (t, written) = net.write_all s (write_frame frame) in if written then some t else none

  -- One turn of the task that sends gossip to one peer, on its stream, for the frames that it finds queued.
  unfoldable pub send_turn :
      Text → ℕ → List ℕ × List (List ℕ) → Option net.Stream → Option net.Stream
  send_turn addr k (frame, more) conn = send_frame (newest_frame frame more) (reconnect addr k conn)

  unfoldable pub send_turns :
      Text → ℕ → List (List ℕ × List (List ℕ)) → Option net.Stream → Option net.Stream
  send_turns addr k [] conn = conn
  send_turns addr k (q ∷ qs) conn = send_turns addr (suc k) qs (send_turn addr k q conn)

-- The peers that get a task.
unfoldable pub gossip_targets : ℕ → List Peer → List Peer
gossip_targets my_id peers = filter (λ p. not (p.0 == my_id)) peers
