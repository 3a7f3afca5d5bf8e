-- ===== src/Supervisor/Hearing.antt =====
-- Gossip on its whole way: encoded as src/failover.rs does, framed and served as src/rpc.rs does, and taken
-- in by the loop of src/lib.rs.
mod Tests
use mathlib.Core.List.{append-nil}
use mathlib.Core.Path.{subst}
use mathlib.Core.Option.{some-injective}
use hyperiondb.Prelude.{
  ℕ, ◌+◌, ◌≤◌, ◌<◌, ◌≡◌, ◌≢◌, refl, ap, sym, ◌∙◌, inl, inr, Bool, true, false, Option, none, some,
  List, [], ◌∷◌, ◌++◌, arith, map, length, any, ◌==◌, leb, if◌then◌else◌, All, Option-cases,
  length-append, length-map, bool_byte,
}
use hyperiondb.Prelude.Words.{u64_mod}
use hyperiondb.Prelude.Bytes.{be_bytes, length-be_bytes}
use hyperiondb.Prelude.Maps.{Map, lookup, insert, lookup-insert-other, lookup-insert-same}
use hyperiondb.Failover.{Gossip, encode_gossip, decode_gossip}
use hyperiondb.Failover.Payload.{decode-encode_gossip}
use hyperiondb.Supervisor.World.{Supervisor, World, Seen}
use hyperiondb.Supervisor.Receive.{receive, receive_one, take_gossip, raise_seq}
use hyperiondb.Transport.{Server, Conn, handle_conn}
use hyperiondb.Transport.Serve.{sent, AllFit, handle_conn-gossip}
use hyperiondb.Transport.Calls.{opened}

abbrev pub encode : Gossip → List ℕ
encode g = encode_gossip g.lsn g.in_recovery g.reconfirm g.seq

abbrev pub FitsWords : Gossip → Type 0
FitsWords g = (g.lsn < u64_mod) × (g.seq < u64_mod)

-- What a node knows of a peer that sent `gs` and then `g`: the position of the last gossip, at a time that
-- the clock of `w` shows from then on, and a sequence number that is none behind.
pub record Heard (from : ℕ) (gs : List Gossip) (g : Gossip) (w : World) (s s' : Supervisor)
    : Type 0 where
  pub position :
      (k : ℕ) × (w.at ≤ k)
      × (lookup from s'.peers_lsn
          ≡ some (record { lsn = g.lsn; recovery = g.in_recovery; seen = w.clock k }))
  pub heard : (k : ℕ) × (w.at ≤ k) × (lookup from s'.last_heard ≡ some (w.clock k))
  pub reconfirm : lookup from s'.peers_reconfirm ≡ some g.reconfirm
  pub seq :
      (q : ℕ) × (lookup from s'.peers_seq ≡ some q)
      × All (λ (x : Gossip). x.seq ≤ q) (gs ++ g ∷ [])
      × ((old : ℕ) → lookup from s.peers_seq ≡ some old → old ≤ q)
  pub others :
      (j : ℕ)
      → j ≢ from
      → (lookup j s'.peers_lsn ≡ lookup j s.peers_lsn)
        × (lookup j s'.last_heard ≡ lookup j s.last_heard)
        × (lookup j s'.peers_reconfirm ≡ lookup j s.peers_reconfirm)
        × (lookup j s'.peers_seq ≡ lookup j s.peers_seq)

length-encode : (g : Gossip) → length (encode g) ≡ 18
unfolding encode_gossip
length-encode g =
    length-append (be_bytes 8 g.lsn)
      (bool_byte g.in_recovery ∷ bool_byte g.reconfirm ∷ be_bytes 8 g.seq)
    ∙ omega (arith, length-be_bytes 8 g.lsn, length-be_bytes 8 g.seq)

lookup-raise_seq :
    (from seq : ℕ) (m : Map ℕ)
    → (q : ℕ) × (lookup from (raise_seq from seq m) ≡ some q)
      × (seq ≤ q)
      × ((old : ℕ) → lookup from m ≡ some old → old ≤ q)
unfolding raise_seq
lookup-raise_seq from seq m = elim (Option-cases (lookup from m)) [
  | inl e ↦ (
    seq,
    rw (raise_seq, e) (lookup-insert-same from seq m),
    omega arith,
    λ old h. absurd (cc (e, h)),
  )
  | inr (known, e) ↦
      let q = if leb known seq then seq else known in
      (
        q,
        rw (raise_seq, e) (lookup-insert-same from q m),
        ground arith,
        λ old h. let same : known ≡ old = some-injective _ _ (sym e ∙ h) in ground (arith, same),
      )
]

raise_seq-other :
    (from seq j : ℕ) (m : Map ℕ) → j ≢ from → lookup j (raise_seq from seq m) ≡ lookup j m
unfolding raise_seq
raise_seq-other from seq j m away = elim (Option-cases (lookup from m)) [
  | inl e ↦ rw (raise_seq, e) (lookup-insert-other from j seq m away)
  | inr (known, e) ↦ rw (raise_seq, e) (lookup-insert-other from j _ m away)
]

receive_one-encode :
    (from : ℕ) (g : Gossip) (s : Supervisor) (w : World)
    → FitsWords g
    → receive_one from (encode g) s w ≡ (
      tt,
      take_gossip from
          (w.clock (w.at + 1))
          g
          (record s { last_heard = insert from (w.clock w.at) s.last_heard }),
      record w { at = w.at + 1 + 1 },
    )
unfolding receive_one
receive_one-encode from g s w (lsn, seq) =
    let e : decode_gossip (encode g) ≡ some g =
      ap decode_gossip (sym (append-nil (encode g)))
      ∙ decode-encode_gossip g.lsn g.in_recovery g.reconfirm g.seq [] lsn seq in
    rw (receive_one, e) refl

module _ (from : ℕ) where
  abbrev pub addressed : List Gossip → List (ℕ × List ℕ)
  addressed gs = map (λ g. (from, encode g)) gs

  -- What the loop knows after one gossip.
  took :
      (g : Gossip) (t t' : ℕ) (s : Supervisor)
      → let s' = take_gossip from t' g (record s { last_heard = insert from t s.last_heard }) in
        (lookup from s'.peers_lsn
          ≡ some (record { lsn = g.lsn; recovery = g.in_recovery; seen = t' }))
        × (lookup from s'.last_heard ≡ some t)
        × (lookup from s'.peers_reconfirm ≡ some g.reconfirm)
  unfolding take_gossip
  took g t t' s = (
    lookup-insert-same from _ s.peers_lsn,
    lookup-insert-same from t s.last_heard,
    lookup-insert-same from g.reconfirm s.peers_reconfirm,
  )

  hears_one :
      (g : Gossip) (s : Supervisor) (w : World)
      → Heard from [] g w s (
          take_gossip from
            (w.clock (w.at + 1))
            g
            (record s { last_heard = insert from (w.clock w.at) s.last_heard }))
  unfolding take_gossip
  hears_one g s w =
      let (lsn, last, reconfirm) = took g (w.clock w.at) (w.clock (w.at + 1)) s in
      let (q, known, newer, older) = lookup-raise_seq from g.seq s.peers_seq in
      record {
        position = (w.at + 1, omega arith, lsn);
        heard = (w.at, omega arith, last);
        reconfirm = reconfirm;
        seq = (q, known, (newer, tt), older);
        others = λ j away. (
          lookup-insert-other from j _ s.peers_lsn away,
          lookup-insert-other from j _ s.last_heard away,
          lookup-insert-other from j _ s.peers_reconfirm away,
          raise_seq-other from g.seq j s.peers_seq away,
        );
      }

  Heard-after :
      (x : Gossip) (gs : List Gossip) (g : Gossip) (w : World) (n : ℕ) (s t u : Supervisor)
      → w.at ≤ n
      → Heard from [] x w s t
      → Heard from gs g (record w { at = n }) t u
      → Heard from (x ∷ gs) g w s u
  Heard-after x gs g w n s t u le a b =
      let (k₁, from₁, position) = b.position in
      let (k₂, from₂, heard) = b.heard in
      let (q₁, known₁, (new₁, _), old₁) = a.seq in
      let (q₂, known₂, new₂, old₂) = b.seq in
      let grows = old₂ q₁ known₁ in
      record {
        position = (k₁, omega (arith, le, from₁), position);
        heard = (k₂, omega (arith, le, from₂), heard);
        reconfirm = b.reconfirm;
        seq = (q₂, known₂, (omega arith, new₂), (λ old h. omega (arith, old₁ old h)));
        others = λ j away.
            let (a₁, a₂, a₃, a₄) = a.others j away in
            let (b₁, b₂, b₃, b₄) = b.others j away in (b₁ ∙ a₁, b₂ ∙ a₂, b₃ ∙ a₃, b₄ ∙ a₄);
      }

  receive-encode :
      (g : Gossip) (q : List (ℕ × List ℕ)) (s : Supervisor) (w : World)
      → FitsWords g
      → receive ((from, encode g) ∷ q) s w
        ≡ receive q
            (take_gossip from
              (w.clock (w.at + 1))
              g
              (record s { last_heard = insert from (w.clock w.at) s.last_heard }))
            (record w { at = w.at + 1 + 1 })
  unfolding receive
  receive-encode g q s w fits =
      ap (λ (r : Unit {0} × Supervisor × World). receive q r.1 r.2)
        (receive_one-encode from g s w fits)

  hears :
      (gs : List Gossip) (g : Gossip) (s : Supervisor) (w : World)
      → All FitsWords (gs ++ g ∷ [])
      → Heard from gs g w s (receive (addressed (gs ++ g ∷ [])) s w).1
  unfolding receive
  hears [] g s w (fits, _) =
      subst (λ (r : Unit {0} × Supervisor × World). Heard from [] g w s r.1)
        (sym (receive-encode g [] s w fits)) (hears_one g s w)
  hears (x ∷ gs) g s w (fits, rest) =
      let w₁ : World = record w { at = w.at + 1 + 1 } in
      let s₁ =
        take_gossip from (w.clock (w.at + 1)) x
          (record s { last_heard = insert from (w.clock w.at) s.last_heard }) in
      subst (λ (r : Unit {0} × Supervisor × World). Heard from (x ∷ gs) g w s r.1)
        (sym (receive-encode x (addressed (gs ++ g ∷ [])) s w fits))
        (Heard-after x gs g w (w.at + 1 + 1) s s₁ _ (omega arith) (hears_one x s w)
          (hears gs g s₁ w₁ rest))

module _ {S : Type 0} (v : Server S) where
  encoded_fit : (gs : List Gossip) → AllFit v (map encode gs)
  encoded_fit [] = tt
  encoded_fit (g ∷ gs) = (omega (arith, length-encode g), encoded_fit gs)

  map-addressed :
      (from : ℕ) (gs : List Gossip)
      → map (λ (p : List ℕ). (from, p)) (map encode gs) ≡ addressed from gs
  map-addressed from [] = refl
  map-addressed from (g ∷ gs) = ap (◌∷◌ (from, encode g)) (map-addressed from gs)

  -- Gossip that a voter encodes and broadcasts over a connection arrives in the loop: the loop then
  -- knows the voter's last position, whether it is in recovery and whether it asks for a
  -- reconfirmation, at a time that the clock shows from then on; the sequence number that it knows
  -- of the voter is none behind those sent and those known before; and what it knows of other nodes
  -- stays. (The numbers fit in 64 bits, and the server has fuel for the frames.)
  pub gossip_arrives :
      (from : ℕ) (gs : List Gossip) (g : Gossip) (raft : S) (n : ℕ) (s : Supervisor) (w : World)
      → from < u64_mod
      → any (λ x. x == from) v.voters ≡ true
      → All FitsWords (gs ++ g ∷ [])
      → length gs + 1 ≤ n
      → let c = handle_conn v n (sent v from (map encode (gs ++ g ∷ []))) (opened v raft) in
        Heard from gs g w s (receive c.gossip_in s w).1
  gossip_arrives from gs g raft n s w small voter fits enough =
      let all = gs ++ g ∷ [] in
      let (arrives, _, _) =
        handle_conn-gossip v from (map encode all) n (opened v raft) small (encoded_fit all)
          (omega (arith, length-map encode all, length-append gs (g ∷ []))) in
      let queue : (handle_conn v n (sent v from (map encode all)) (opened v raft)).gossip_in
          ≡ addressed from all =
        arrives ∙ simp voter (map-addressed from all) in
      subst (λ q. Heard from gs g w s (receive q s w).1) (sym queue) (hears from gs g s w fits)
