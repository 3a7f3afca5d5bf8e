-- ===== src/Transport.antt =====
-- src/rpc.rs: frames, the gossip broadcast and the loop that serves a connection. A stream is the list
-- of the bytes that the peer sends before it closes; Raft and `serde_json` are a function that takes
-- the body of a request and may give a response.
mod Frames
pub mod Serve
pub mod Client
pub mod Calls
mod Accept
mod Interleaved
mod Turns
mod Fifo
mod Tests
use hyperiondb.Prelude.{
  ℕ, zero, suc, ◌+◌, ◌*◌, ◌%◌, ◌^◌, Bool, true, false, Option, none, some, List, [], ◌∷◌, ◌++◌,
  length, take, drop, leb, ltb, ◌==◌, if◌then◌else◌, ◌>>=◌, any, map,
}
use hyperiondb.Prelude.Bytes.{be_bytes, from_be}

abbrev pub kind_raft : ℕ
kind_raft = 0

abbrev pub kind_gossip : ℕ
kind_gossip = 1

abbrev pub max_frame : ℕ
max_frame = 4 * 1024 * 1024

-- The bytes that `write_frame` writes; the length is cast to `u32`.
unfoldable pub write_frame : List ℕ → List ℕ
write_frame bytes = be_bytes 4 (length bytes % 2 ^ 32) ++ bytes

unfoldable pub read_exact : ℕ → List ℕ → Option (List ℕ × List ℕ)
read_exact n stream = if leb n (length stream) then some (take n stream, drop n stream) else none

-- A frame and the rest of the stream.
unfoldable pub read_frame : List ℕ → Option (List ℕ × List ℕ)
read_frame stream = do
  (len, rest) ← read_exact 4 stream
  let n = from_be len
  if ltb max_frame n then none else read_exact n rest

-- The frame that `broadcast` sends to every peer.
unfoldable pub gossip_frame : ℕ → List ℕ → List ℕ
gossip_frame from payload = kind_gossip ∷ be_bytes 8 from ++ payload

-- What every queue of `txs` has after `broadcast`.
pub broadcast : ℕ → List ℕ → List (List (List ℕ)) → List (List (List ℕ))
broadcast from payload txs = map (λ q. q ++ gossip_frame from payload ∷ []) txs

pub data Rpc : Type 0 where
  append : Rpc
  vote : Rpc
  snapshot : Rpc

-- The server of one connection: the voters, whether Raft has started when so many frames were
-- read, whether the peer takes a response, and what Raft answers.
pub record Server (S : Type 0) : Type 0 where
  pub voters : List ℕ
  pub ready : ℕ → Bool
  pub accepts : ℕ → Bool
  pub respond : Rpc → List ℕ → S → S × Option (List ℕ)

-- The frames read, Raft, what was passed on, and the responses that were written or tried.
pub record Conn (S : Type 0) : Type 0 where
  pub frames : ℕ
  pub raft : S
  pub gossip_in : List (ℕ × List ℕ)
  pub responses : List (List ℕ)

module _ {S : Type 0} (v : Server S) where
  unfoldable pub rpc_of : ℕ → Option Rpc
  rpc_of b =
      if b == 0
      then some append
      else if b == 1
      then some vote
      else if b == 2
      then some snapshot
      else none

  unfoldable pub dispatch_raft : List ℕ → Conn S → Conn S × Option (List ℕ)
  dispatch_raft [] c = (c, none)
  dispatch_raft (b ∷ body) c =
      if v.ready c.frames
      then elim (rpc_of b) [
        | none ↦ (c, none)
        | some rpc ↦
            let (raft, resp) = v.respond rpc body c.raft in (record c { raft = raft }, resp)
      ]
      else (c, none)

  -- Gossip is taken from voters only.
  unfoldable pub forward : ℕ → List ℕ → Conn S → Conn S
  forward from payload c =
      if any (λ w. w == from) v.voters
      then record c { gossip_in = c.gossip_in ++ (from, payload) ∷ [] }
      else c

  unfoldable pub receive_gossip : List ℕ → Conn S → Conn S
  receive_gossip frame c =
      if leb 9 (length frame) then forward (from_be (take 8 (drop 1 frame))) (drop 9 frame) c else c

  unfoldable pub answer : Conn S × Option (List ℕ) → Conn S × Bool
  answer (c, none) = (c, false)
  answer (c, some bytes) =
      (record c { responses = c.responses ++ write_frame bytes ∷ [] }, v.accepts c.frames)

  -- One frame, and whether the loop goes on.
  unfoldable pub handle_frame : List ℕ → Conn S → Conn S × Bool
  handle_frame [] c = (c, false)
  handle_frame (kind ∷ body) c =
      if kind == kind_gossip
      then (receive_gossip (kind ∷ body) c, true)
      else if kind == kind_raft
      then answer (dispatch_raft body c)
      else (c, false)

  unfoldable pub count : Conn S → Conn S
  count c = record c { frames = c.frames + 1 }

  -- The loop, on fuel: none of its frames is empty, so the length of the stream is enough.
  unfoldable pub handle_conn : ℕ → List ℕ → Conn S → Conn S
  handle_conn zero stream c = c
  handle_conn (suc fuel) stream c = elim (read_frame stream) [
    | none ↦ c
    | some (frame, rest) ↦
        let (d, more) = handle_frame frame (count c) in
        let after = handle_conn fuel rest d in if more then after else d
  ]
