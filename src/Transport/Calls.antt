-- ===== src/Transport/Calls.antt =====
-- Calls of src/rpc.rs: against the loop that serves a connection, with the retry on a new stream, and
-- the gossip that a task sends.
use mathlib.Core.List.{append-nil}
use hyperiondb.Prelude.{
  ℕ, suc, ◌+◌, ◌≤◌, ◌≡◌, refl, ap, sym, ◌∙◌, Bool, true, Option, none, some, List, [], ◌∷◌, ◌++◌,
  ◌⊎◌, inl, inr, length, arith, if◌then◌else◌, Option-cases, Bool-cases,
}
use hyperiondb.Prelude.Text.{Text}
use hyperiondb.Transport.{
  Rpc, append, vote, snapshot, Server, Conn, write_frame, read_frame, max_frame, rpc_of,
  dispatch_raft, answer, handle_frame, handle_conn, count,
}
use hyperiondb.Transport.Frames.{read_frame-write_frame}
use hyperiondb.Transport.Serve.{
  handle_conn-enough, handle_conn-reads, handle_conn-stops, read_frame-empty,
}
use hyperiondb.Transport.Client.{
  Net, Wire, RpcError, remote, rpc_byte, request, Connection, read_response, exchange, decode,
  call_fresh, call_on, call, newest_frame, reconnect, send_frame, send_turn, send_turns,
}

read_whole :
    (bytes : List ℕ) → length bytes ≤ max_frame → read_frame (write_frame bytes) ≡ some (bytes, [])
read_whole bytes h =
    ap read_frame (sym (append-nil (write_frame bytes)))
    ∙ read_frame-write_frame bytes [] (omega arith)
    ∙ ground arith

module _ {S : Type 0} (v : Server S) where
  abbrev pub opened : S → Conn S
  opened raft = record { frames = 0; raft = raft; gossip_in = []; responses = [] }

  rpc_of-rpc_byte : (rpc : Rpc) → rpc_of v (rpc_byte rpc) ≡ some rpc
  unfolding rpc_of rpc_byte
  rpc_of-rpc_byte append = refl
  rpc_of-rpc_byte vote = refl
  rpc_of-rpc_byte snapshot = refl

  dispatch_raft-rpc :
      (rpc : Rpc) (body resp : List ℕ) (c : Conn S)
      → v.ready c.frames ≡ true
      → (v.respond rpc body c.raft).1 ≡ some resp
      → dispatch_raft v (rpc_byte rpc ∷ body) c
        ≡ (record c { raft = (v.respond rpc body c.raft).0 }, some resp)
  unfolding dispatch_raft
  dispatch_raft-rpc rpc body resp c ready e =
      rw (dispatch_raft, ready, rpc_of-rpc_byte rpc)
        (ap (λ (o : Option (List ℕ)). (record c { raft = (v.respond rpc body c.raft).0 }, o)) e)

  -- A request that stands alone on a stream gets the answer of Raft.
  handle_conn-request :
      (rpc : Rpc) (body resp : List ℕ) (raft : S) (n : ℕ)
      → v.ready 1 ≡ true
      → (v.respond rpc body raft).1 ≡ some resp
      → length body + 2 ≤ max_frame
      → (handle_conn v (suc n) (write_frame (request rpc body)) (opened raft)).responses
        ≡ write_frame resp ∷ []
  unfolding request handle_frame count answer
  handle_conn-request rpc body resp raft n ready e fits =
      let frame = request rpc body in
      let c = count v (opened raft) in
      let x : Conn S = record c {
        raft = (v.respond rpc body raft).0;
        responses = write_frame resp ∷ [];
      } in
      let handled : handle_frame v frame c ≡ (x, v.accepts 1) =
        ap (answer v) (dispatch_raft-rpc rpc body resp c ready e) in
      let ends : (if v.accepts 1 then handle_conn v n [] x else x) ≡ x =
        elim (Bool-cases (v.accepts 1)) [
          | inl t ↦ simp t (handle_conn-stops v n [] x (read_frame-empty v [] (omega arith)))
          | inr f ↦ simp f refl
        ] in
      ap (λ (d : Conn S). d.responses)
        (handle_conn-reads v n (write_frame frame) (opened raft) (frame, [])
            (read_whole frame (omega arith))
          ∙ ap (λ (r : Conn S × Bool). if r.1 then handle_conn v n [] r.0 else r.0) handled
          ∙ ends)

abbrev pub flat : List (List ℕ) → List ℕ
flat [] = []
flat (x ∷ xs) = x ++ flat xs

module _ (net : Net) where
  -- A stream at whose other end `handle_conn` runs: what is written arrives, and what comes in are the
  -- responses.
  abbrev pub IsServed : {S : Type 0} → Server S → S → net.Stream → Type 0
  IsServed v raft s =
      (bytes : List ℕ)
      → ((net.write_all s bytes).1 ≡ true)
        × (net.incoming (net.write_all s bytes).0
            ≡ flat (handle_conn v (length bytes) bytes (opened v raft)).responses)

  module _ {S : Type 0} (v : Server S) (raft : S) (s : net.Stream)
      (served : IsServed v raft s) where
    exchange-served :
        (rpc : Rpc) (body resp : List ℕ)
        → v.ready 1 ≡ true
        → (v.respond rpc body raft).1 ≡ some resp
        → length body + 2 ≤ max_frame
        → length resp ≤ max_frame
        → (exchange net s (request rpc body)).1 ≡ some resp
    unfolding exchange read_response
    exchange-served rpc body resp ready e fits fits₁ =
        let frame = write_frame (request rpc body) in
        let (written, arrives) = served frame in
        let n = length frame in
        let responses =
          ap (λ (d : Conn S). d.responses)
            (handle_conn-enough v n (suc n) frame (opened v raft) (omega arith) (omega arith))
          ∙ handle_conn-request v rpc body resp raft n ready e fits in
        let whole : read_frame (net.incoming (net.write_all s frame).0) ≡ some (resp, []) =
          ap read_frame (arrives ∙ ap flat responses ∙ append-nil (write_frame resp))
          ∙ read_whole resp fits₁ in
        rw (exchange, written, read_response, whole) refl

  module _ {Req Resp Err : Type 0} (wire : Wire Req Resp Err) where
    call-open :
        (payload resp : List ℕ) (c : Connection net.Stream) (k : ℕ) (s : net.Stream)
        → (exchange net s payload).1 ≡ some resp
        → call_on net wire (some s) payload c k
          ≡ (record c { stream = some (exchange net s payload).0 }, decode net wire c.target resp)
    unfolding call_on
    call-open payload resp c k s e = rw (call_on, e) refl

    call-fresh :
        (payload resp : List ℕ) (c : Connection net.Stream) (k : ℕ) (s : net.Stream)
        → net.connect c.addr k ≡ some s
        → (exchange net s payload).1 ≡ some resp
        → call_fresh net wire payload c k
          ≡ (record c { stream = some (exchange net s payload).0 }, decode net wire c.target resp)
    unfolding call_fresh
    call-fresh payload resp c k s f e = rw (call_fresh, f, e) refl

    call-sent :
        (rpc : Rpc) (req : Req) (body : List ℕ) (c : Connection net.Stream) (k : ℕ)
        → wire.to_vec req ≡ some body
        → call net wire rpc req c k ≡ call_on net wire c.stream (request rpc body) c k
    unfolding call
    call-sent rpc req body c k e = rw (call, e) refl

    call-retries :
        (payload : List ℕ) (c : Connection net.Stream) (k : ℕ) (s : net.Stream)
        → (exchange net s payload).1 ≡ none
        → call_on net wire (some s) payload c k ≡ call_fresh net wire payload c k
    unfolding call_on
    call-retries payload c k s e = rw (call_on, e) refl

    -- A result that was serialized, as the caller gets it: an error comes with the node it is from.
    abbrev pub result_from : ℕ → Err ⊎ Resp → RpcError Err ⊎ Resp
    result_from target (inl e) = inl (remote target e)
    result_from target (inr r) = inr r

    decode-result :
        (target : ℕ) (resp : List ℕ) (result : Err ⊎ Resp)
        → wire.from_slice resp ≡ some result
        → decode net wire target resp ≡ result_from target result
    unfolding decode
    decode-result target resp (inl x) e = rw (decode, e) refl
    decode-result target resp (inr x) e = rw (decode, e) refl

    module _ {S : Type 0} (v : Server S) (raft : S) where
      -- A call whose request and response fit in a frame returns the result of Raft at the other end, its
      -- answer or its error with the node it is from, and keeps a stream, if the response there is that
      -- result serialized, a new stream would be served, and the open one, if there is one, is served or
      -- fails.
      pub call-served :
          (rpc : Rpc) (req : Req) (body resp : List ℕ) (result : Err ⊎ Resp)
          (c : Connection net.Stream) (k : ℕ) (fresh : net.Stream)
          → wire.from_slice resp ≡ some result
          → wire.to_vec req ≡ some body
          → length body + 2 ≤ max_frame
          → length resp ≤ max_frame
          → v.ready 1 ≡ true
          → (v.respond rpc body raft).1 ≡ some resp
          → net.connect c.addr k ≡ some fresh
          → IsServed v raft fresh
          → ((s : net.Stream)
              → c.stream ≡ some s
              → ((exchange net s (request rpc body)).1 ≡ none) ⊎ IsServed v raft s)
          → (t : net.Stream) × (call net wire rpc req c k
              ≡ (record c { stream = some t }, result_from c.target result))
      unfolding call_on
      call-served rpc req body resp result c k fresh reads sends fits fits₁ ready answers connects
            served old =
          let payload = request rpc body in
          let ok = λ (s : net.Stream) (h : IsServed v raft s).
            exchange-served v raft s h rpc body resp ready answers fits fits₁ in
          let sent = call-sent rpc req body c k sends in
          let same = λ (t : net.Stream).
            ap {B = Connection net.Stream × (RpcError Err ⊎ Resp)}
              (λ r. (record c { stream = some t }, r)) (decode-result c.target resp result reads) in
          let anew =
            call-fresh payload resp c k fresh connects (ok fresh served)
            ∙ same (exchange net fresh payload).0 in
          elim (Option-cases c.stream) [
            | inl none_open ↦ (
              (exchange net fresh payload).0,
              sent
                  ∙ ap (λ (o : Option net.Stream). call_on net wire o payload c k) none_open
                  ∙ anew,
            )
            | inr (s, open_s) ↦
                let turn =
                  sent ∙ ap (λ (o : Option net.Stream). call_on net wire o payload c k) open_s in
                elim (old s open_s) [
                  | inl fails ↦ (
                    (exchange net fresh payload).0,
                    turn ∙ call-retries payload c k s fails ∙ anew,
                  )
                  | inr h ↦ (
                    (exchange net s payload).0,
                    turn ∙ call-open payload resp c k s (ok s h) ∙ same (exchange net s payload).0,
                  )
                ]
          ]

  -- The stream after frames that are written one after another.
  abbrev pub written : net.Stream → List (List ℕ) → net.Stream
  written s [] = s
  written s (frame ∷ frames) = written (net.write_all s (write_frame frame)).0 frames

  -- Each of these writes succeeds.
  abbrev pub Succeed : net.Stream → List (List ℕ) → Type 0
  Succeed s [] = Unit
  Succeed s (frame ∷ frames) =
      ((net.write_all s (write_frame frame)).1 ≡ true)
      × Succeed (net.write_all s (write_frame frame)).0 frames

  -- What each turn finds queued ends with the frame that is listed for it.
  abbrev pub Queued : List (List ℕ × List (List ℕ)) → List (List ℕ) → Type 0
  Queued [] [] = Unit
  Queued (q ∷ qs) (frame ∷ frames) =
      ((older : List (List ℕ)) × (q.0 ∷ q.1 ≡ older ++ frame ∷ [])) × Queued qs frames
  Queued _ _ = ⊥

  newest_frame-last :
      (frame : List ℕ) (more older : List (List ℕ)) (last : List ℕ)
      → frame ∷ more ≡ older ++ last ∷ []
      → newest_frame net frame more ≡ last
  unfolding newest_frame
  newest_frame-last frame [] [] last e = cc e
  newest_frame-last frame [] (a ∷ []) last e = absurd (cc e)
  newest_frame-last frame [] (a ∷ b ∷ older) last e = absurd (cc e)
  newest_frame-last frame (n ∷ more) [] last e = absurd (cc e)
  newest_frame-last frame (n ∷ more) (a ∷ older) last e = newest_frame-last n more older last (cc e)

  send_turn-open :
      (addr : Text) (k : ℕ) (q : List ℕ × List (List ℕ)) (s : net.Stream) (older : List (List ℕ))
      (last : List ℕ)
      → q.0 ∷ q.1 ≡ older ++ last ∷ []
      → (net.write_all s (write_frame last)).1 ≡ true
      → send_turn net addr k q (some s) ≡ some (net.write_all s (write_frame last)).0
  unfolding send_turn reconnect send_frame
  send_turn-open addr k (frame, more) s older last e ok =
      rw (newest_frame-last frame more older last e) (simp ok refl)

  send_turns-open :
      (addr : Text) (k : ℕ) (qs : List (List ℕ × List (List ℕ))) (s : net.Stream)
      (frames : List (List ℕ))
      → Queued qs frames
      → Succeed s frames
      → send_turns net addr k qs (some s) ≡ some (written s frames)
  unfolding send_turns
  send_turns-open addr k [] s [] queued ok = refl
  send_turns-open addr k [] s (f ∷ fs) queued ok = absurd queued
  send_turns-open addr k (q ∷ qs) s [] queued ok = absurd queued
  send_turns-open addr k (q ∷ qs) s (f ∷ fs) ((older, e), queued) (ok, oks) =
      ap (λ (o : Option net.Stream). send_turns net addr (suc k) qs o)
        (send_turn-open addr k q s older f e ok)
      ∙ send_turns-open addr (suc k) qs (net.write_all s (write_frame f)).0 fs queued oks

  send_turns-connects :
      (addr : Text) (k : ℕ) (qs : List (List ℕ × List (List ℕ))) (q : List ℕ × List (List ℕ))
      (s : net.Stream)
      → net.connect addr k ≡ some s
      → send_turns net addr k (q ∷ qs) none ≡ send_turns net addr k (q ∷ qs) (some s)
  unfolding send_turns send_turn reconnect
  send_turns-connects addr k qs q s e = rw e refl

  -- The task that sends gossip, with a stream or with none where a connect gives one: after any number of
  -- turns that stream has, behind what was on it, the last of the frames that each turn found queued,
  -- written as frames in the order of the turns, if these writes succeed.
  pub send_turns-up :
      (addr : Text) (k : ℕ) (q : List ℕ × List (List ℕ)) (qs : List (List ℕ × List (List ℕ)))
      (conn : Option net.Stream) (s : net.Stream) (frames : List (List ℕ))
      → (conn ≡ some s) ⊎ ((conn ≡ none) × (net.connect addr k ≡ some s))
      → Queued (q ∷ qs) frames
      → Succeed s frames
      → send_turns net addr k (q ∷ qs) conn ≡ some (written s frames)
  send_turns-up addr k q qs conn s frames how queued ok = elim how [
    | inl e ↦
        ap (λ (o : Option net.Stream). send_turns net addr k (q ∷ qs) o) e
        ∙ send_turns-open addr k (q ∷ qs) s frames queued ok
    | inr (e, connects) ↦
        ap (λ (o : Option net.Stream). send_turns net addr k (q ∷ qs) o) e
        ∙ send_turns-connects addr k qs q s connects
        ∙ send_turns-open addr k (q ∷ qs) s frames queued ok
  ]
