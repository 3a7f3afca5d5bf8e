-- ===== src/Transport/Serve.antt =====
-- The loop of `handle_conn` in src/rpc.rs: how long it runs, and what it does with gossip.
use mathlib.Core.Path.{subst}
use mathlib.Core.List.{append-nil, append_assoc}
use hyperiondb.Prelude.{
  ℕ, zero, suc, ◌+◌, ◌≤◌, ◌<◌, ◌≡◌, refl, ◌∙◌, true, Option, none, some, List, [], ◌∷◌, ◌++◌, map,
  length, leb, ◌==◌, if◌then◌else◌, arith, length-append, Bool-cases, Option-cases, inl, inr, any,
  ap, sym, All, All-append,
}
use hyperiondb.Prelude.Words.{u64_mod}
use hyperiondb.Prelude.Bytes.{
  be_bytes, length-be_bytes, from_be-be_bytes, take-length-append, drop-length-append,
}
use hyperiondb.Transport.{
  Server, Conn, write_frame, read_frame, gossip_frame, kind_gossip, max_frame, forward,
  receive_gossip, handle_frame, handle_conn, count, kind_raft, dispatch_raft, answer, rpc_of,
}
use hyperiondb.Transport.Frames.{read_frame-write_frame, read_frame-shorter}

module _ {S : Type 0} (v : Server S) where
  pub handle_conn-stops :
      (n : ℕ) (stream : List ℕ) (c : Conn S)
      → read_frame stream ≡ none
      → handle_conn v n stream c ≡ c
  unfolding handle_conn
  handle_conn-stops zero stream c e = refl
  handle_conn-stops (suc n) stream c e = rw (handle_conn, e) refl

  pub handle_conn-reads :
      (n : ℕ) (stream : List ℕ) (c : Conn S) (r : List ℕ × List ℕ)
      → read_frame stream ≡ some r
      → handle_conn v (suc n) stream c ≡ (
          if (handle_frame v r.0 (count v c)).1
          then handle_conn v n r.1 (handle_frame v r.0 (count v c)).0
          else (handle_frame v r.0 (count v c)).0)
  unfolding handle_conn
  handle_conn-reads n stream c r e = rw (handle_conn, e) refl

  pub read_frame-empty : (stream : List ℕ) → length stream ≤ 0 → read_frame stream ≡ none
  read_frame-empty stream h = elim (Option-cases (read_frame stream)) [
    | inl e ↦ e
    | inr (r, e) ↦ absurd (omega (arith, read_frame-shorter stream r e))
  ]

  -- More fuel than the length of the stream changes nothing.
  pub handle_conn-enough :
      (m n : ℕ) (stream : List ℕ) (c : Conn S)
      → length stream ≤ m
      → length stream ≤ n
      → handle_conn v m stream c ≡ handle_conn v n stream c
  handle_conn-enough zero n stream c h k =
      let e = read_frame-empty stream h in
      handle_conn-stops zero stream c e ∙ sym (handle_conn-stops n stream c e)
  handle_conn-enough (suc m) zero stream c h k =
      let e = read_frame-empty stream k in
      handle_conn-stops (suc m) stream c e ∙ sym (handle_conn-stops zero stream c e)
  handle_conn-enough (suc m) (suc n) stream c h k = elim (Option-cases (read_frame stream)) [
    | inl e ↦ handle_conn-stops (suc m) stream c e ∙ sym (handle_conn-stops (suc n) stream c e)
    | inr (r, e) ↦
        let less = read_frame-shorter stream r e in
        let d = handle_frame v r.0 (count v c) in
        let ih = handle_conn-enough m n r.1 d.0 (omega arith) (omega arith) in
        handle_conn-reads m stream c r e
        ∙ ap (λ (x : Conn S). if d.1 then x else d.0) ih
        ∙ sym (handle_conn-reads n stream c r e)
  ]

  pub handle_frame-gossip :
      (from : ℕ) (payload : List ℕ) (c : Conn S)
      → from < u64_mod
      → handle_frame v (gossip_frame from payload) c ≡ (forward v from payload c, true)
  unfolding handle_frame gossip_frame receive_gossip
  handle_frame-gossip from payload c h =
      let len = length-be_bytes 8 from in
      rw
        (
          take-length-append (be_bytes 8 from) payload 8 len,
          drop-length-append (be_bytes 8 from) payload 8 len,
          from_be-be_bytes 8 from h,
        )
        (ground (arith, length-append (be_bytes 8 from) payload, len))

  -- The stream of a peer that broadcasts `payloads`.
  abbrev pub sent : ℕ → List (List ℕ) → List ℕ
  sent from [] = []
  sent from (p ∷ ps) = write_frame (gossip_frame from p) ++ sent from ps

  abbrev pub delivered : ℕ → List (List ℕ) → List (ℕ × List ℕ)
  delivered from ps = if any (λ w. w == from) v.voters then map (λ p. (from, p)) ps else []

  abbrev pub AllFit : List (List ℕ) → Type 0
  AllFit [] = Unit
  AllFit (p ∷ ps) = (length p + 9 ≤ max_frame) × AllFit ps

  length-gossip_frame : (from : ℕ) (p : List ℕ) → length (gossip_frame from p) ≡ length p + 9
  unfolding gossip_frame
  length-gossip_frame from p =
      omega (arith, length-append (be_bytes 8 from) p, length-be_bytes 8 from)

  pub read_frame-sent :
      (from : ℕ) (p : List ℕ) (ps : List (List ℕ))
      → length p + 9 ≤ max_frame
      → read_frame (sent from (p ∷ ps)) ≡ some (gossip_frame from p, sent from ps)
  read_frame-sent from p ps fits =
      let len = length-gossip_frame from p in
      read_frame-write_frame (gossip_frame from p) (sent from ps) (omega (arith, len))
      ∙ ground (arith, len)

  forward-delivered :
      (from : ℕ) (p : List ℕ) (ps : List (List ℕ)) (c : Conn S)
      → ((forward v from p c).gossip_in ++ delivered from ps
          ≡ c.gossip_in ++ delivered from (p ∷ ps))
        × ((forward v from p c).responses ≡ c.responses)
        × ((forward v from p c).raft ≡ c.raft)
  unfolding forward
  forward-delivered from p ps c = elim (Bool-cases (any (λ w. w == from) v.voters)) [
    | inl e ↦ (simp e (append_assoc c.gossip_in ((from, p) ∷ []) _), simp e refl, simp e refl)
    | inr e ↦ (simp e refl, simp e refl, simp e refl)
  ]

  -- The gossip of a voter arrives whole and in order, and that of others not at all, whatever the fuel
  -- is if it is at least the number of frames.
  pub handle_conn-gossip :
      (from : ℕ) (ps : List (List ℕ)) (n : ℕ) (c : Conn S)
      → from < u64_mod
      → AllFit ps
      → length ps ≤ n
      → ((handle_conn v n (sent from ps) c).gossip_in ≡ c.gossip_in ++ delivered from ps)
        × ((handle_conn v n (sent from ps) c).responses ≡ c.responses)
        × ((handle_conn v n (sent from ps) c).raft ≡ c.raft)
  unfolding count
  handle_conn-gossip from [] n c small fit h =
      let nothing : c.gossip_in ≡ c.gossip_in ++ delivered from [] =
        elim (Bool-cases (any (λ w. w == from) v.voters)) [
          | inl e ↦ simp e (sym (append-nil c.gossip_in))
          | inr e ↦ simp e (sym (append-nil c.gossip_in))
        ] in
      rw (handle_conn-stops n [] c (read_frame-empty [] (omega arith))) (nothing, refl, refl)
  handle_conn-gossip from (p ∷ ps) zero c small fit h = absurd (omega arith)
  handle_conn-gossip from (p ∷ ps) (suc n) c small (one, fit) h =
      let read = read_frame-sent from p ps one in
      let d = forward v from p (count v c) in
      let (onward, same₁, same₂) = forward-delivered from p ps (count v c) in
      let (got, resp, raft) = handle_conn-gossip from ps n d small fit (omega arith) in
      rw
        (
          handle_conn-reads n (sent from (p ∷ ps)) c (gossip_frame from p, sent from ps) read,
          handle_frame-gossip from p (count v c) small,
        )
        (got ∙ onward, resp ∙ same₁, raft ∙ same₂)

  abbrev pub FromVoters : List (ℕ × List ℕ) → Type 0
  FromVoters gs = All (λ (g : ℕ × List ℕ). any (λ w. w == g.0) v.voters ≡ true) gs

  forward-FromVoters :
      (from : ℕ) (p : List ℕ) (c : Conn S)
      → FromVoters c.gossip_in
      → FromVoters (forward v from p c).gossip_in
  unfolding forward
  forward-FromVoters from p c a = elim (Bool-cases (any (λ w. w == from) v.voters)) [
    | inl e ↦ simp e (All-append _ c.gossip_in ((from, p) ∷ []) a (e, tt))
    | inr e ↦ simp e a
  ]

  dispatch_raft-gossip_in :
      (body : List ℕ) (c : Conn S) → (dispatch_raft v body c).0.gossip_in ≡ c.gossip_in
  unfolding dispatch_raft
  dispatch_raft-gossip_in [] c = refl
  dispatch_raft-gossip_in (b ∷ body) c = elim (Bool-cases (v.ready c.frames)) [
    | inl e ↦ elim (Option-cases (rpc_of v b)) [
      | inl o ↦ simp (e, o) refl
      | inr (rpc, o) ↦ simp (e, o) refl
    ]
    | inr e ↦ simp e refl
  ]

  answer-gossip_in :
      (c : Conn S) (o : Option (List ℕ)) → (answer v (c, o)).0.gossip_in ≡ c.gossip_in
  unfolding answer
  answer-gossip_in c none = refl
  answer-gossip_in c (some bytes) = refl

  pub handle_frame-FromVoters :
      (frame : List ℕ) (c : Conn S)
      → FromVoters c.gossip_in
      → FromVoters (handle_frame v frame c).0.gossip_in
  unfolding handle_frame receive_gossip
  handle_frame-FromVoters [] c a = a
  handle_frame-FromVoters (kind ∷ body) c a = elim (Bool-cases (kind == kind_gossip)) [
    | inl e ↦ simp e (elim (Bool-cases (leb 9 (length (kind ∷ body)))) [
      | inl q ↦ simp q (forward-FromVoters _ _ c a)
      | inr q ↦ simp q a
    ])
    | inr e ↦ elim (Bool-cases (kind == kind_raft)) [
      | inl q ↦
          let r = dispatch_raft v body c in
          simp (e, q)
            (subst FromVoters (sym (answer-gossip_in r.0 r.1 ∙ dispatch_raft-gossip_in body c)) a)
      | inr q ↦ simp (e, q) a
    ]
  ]

  -- Whatever the bytes of the stream are, only gossip in the name of a voter is taken.
  pub handle_conn-voters :
      (n : ℕ) (stream : List ℕ) (c : Conn S)
      → FromVoters c.gossip_in
      → FromVoters (handle_conn v n stream c).gossip_in
  unfolding handle_conn count
  handle_conn-voters zero stream c a = a
  handle_conn-voters (suc n) stream c a = elim (Option-cases (read_frame stream)) [
    | inl e ↦
        subst (λ (x : Conn S). FromVoters x.gossip_in) (sym (handle_conn-stops (suc n) stream c e))
          a
    | inr (r, e) ↦
        let d = handle_frame v r.0 (count v c) in
        let b = handle_frame-FromVoters r.0 (count v c) a in
        subst (λ (x : Conn S). FromVoters x.gossip_in) (sym (handle_conn-reads n stream c r e))
          (elim (Bool-cases d.1) [ inl q ↦ rw q (handle_conn-voters n r.1 d.0 b) | inr q ↦ rw q b ])
  ]
