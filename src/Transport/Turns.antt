-- ===== src/Transport/Turns.antt =====
-- One turn of a task of `spawn_server` in src/rpc.rs, whose connection brings the gossip of a voter.
use mathlib.Core.Path.{subst}
use mathlib.Core.List.{append-nil, append_assoc}
use hyperiondb.Prelude.{
  ltb, ℕ, ◌<◌, ◌≡◌, ◌≢◌, refl, sym, ap, ◌∙◌, true, false, none, List, [], ◌∷◌, ◌++◌, map, filter,
  any, ◌==◌, arith, if◌then◌else◌, Bool-cases, inl, inr,
}
use hyperiondb.Transport.{Server, Conn, read_frame, forward, count}
use hyperiondb.Prelude.Words.{u64_mod}
use hyperiondb.Transport.Serve.{
  handle_frame-gossip, read_frame-sent, sent, AllFit, read_frame-empty,
}
use hyperiondb.Transport.Accept.{Task, Hub, conn_of, spawned, turn}

abbrev pub of_sender : ℕ → List (ℕ × List ℕ) → List (ℕ × List ℕ)
of_sender from gs = filter (λ g. g.0 == from) gs

abbrev pub tagged : ℕ → List (List ℕ) → List (ℕ × List ℕ)
tagged from ps = map (λ p. (from, p)) ps

of_sender-append :
    (from : ℕ) (xs ys : List (ℕ × List ℕ))
    → of_sender from (xs ++ ys) ≡ of_sender from xs ++ of_sender from ys
of_sender-append from [] ys = refl
of_sender-append from (x ∷ xs) ys = elim (Bool-cases (x.0 == from)) [
  | inl e ↦ rw (e, of_sender-append from xs ys) refl
  | inr e ↦ rw (e, of_sender-append from xs ys) refl
]

-- The first `n` connections bring the gossip of different voters, in frames that fit, and others bring
-- nothing.
pub record Senders {S : Type 0} (v : Server S) : Type 0 where
  pub n : ℕ
  pub from : ℕ → ℕ
  pub ps : ℕ → List (List ℕ)
  pub small : (k : ℕ) → k < n → from k < u64_mod
  pub voters : (k : ℕ) → k < n → any (λ w. w == from k) v.voters ≡ true
  pub distinct : (j k : ℕ) → j < n → k < n → from j ≡ from k → j ≡ k
  pub fit : (k : ℕ) → k < n → AllFit v (ps k)

module _ {S : Type 0} (v : Server S) (g : Senders v) where
  open g use {n, from, ps, small, voters, distinct, fit}

  abbrev pub brings : ℕ → List ℕ
  brings k = if ltb k n then sent v (from k) (ps k) else []

  -- What the task `k` has passed on and what is still to come.
  pub record Follows (gossip_in : List (ℕ × List ℕ)) (k : ℕ) (t : Task) : Type 0 where
    pub rest : List (List ℕ)
    pub stream : t.stream ≡ sent v (from k) rest
    pub fits : AllFit v rest
    pub whole : of_sender (from k) gossip_in ++ tagged (from k) rest ≡ tagged (from k) (ps k)
    pub ended : t.running ≡ false → rest ≡ []

  turn-last :
      (h : Hub S) (t : Task)
      → t.running ≡ true
      → read_frame t.stream ≡ none
      → turn v brings h t ≡ (conn_of v brings h t, record t { running = false })
  unfolding turn
  turn-last h t r e = simp (r, e) refl

  turn-next :
      (h : Hub S) (k : ℕ) (t : Task) (p : List ℕ) (rest : List (List ℕ))
      → k < n
      → t.running ≡ true
      → t.stream ≡ sent v (from k) (p ∷ rest)
      → AllFit v (p ∷ rest)
      → ((turn v brings h t).0.gossip_in ≡ h.gossip_in ++ (from k, p) ∷ [])
        × ((turn v brings h t).1.stream ≡ sent v (from k) rest)
        × ((turn v brings h t).1.running ≡ true)
  unfolding turn conn_of forward count
  turn-next h k t p rest lt r e (one, fits) =
      let read = ap read_frame e ∙ read_frame-sent v (from k) p rest one in
      rw
        (
          r,
          read,
          handle_frame-gossip v (from k) p (count v (conn_of v brings h t)) (small k lt),
          voters k lt,
        )
        (refl, refl, refl)

  turn-idle :
      (h : Hub S) (t : Task) → t.running ≡ false → turn v brings h t ≡ (conn_of v brings h t, t)
  unfolding turn
  turn-idle h t r = simp r refl

  -- What one more payload of the sender `k` does to what was passed on.
  passed-own :
      (gs : List (ℕ × List ℕ)) (k : ℕ) (p : List ℕ) (rest : List (List ℕ))
      → of_sender (from k) (gs ++ (from k, p) ∷ []) ++ tagged (from k) rest
        ≡ of_sender (from k) gs ++ tagged (from k) (p ∷ rest)
  passed-own gs k p rest =
      let same : (from k == from k) ≡ true = ground arith in
      rw (of_sender-append (from k) gs ((from k, p) ∷ []), same)
        (append_assoc (of_sender (from k) gs) ((from k, p) ∷ []) (tagged (from k) rest))

  passed-other :
      (gs : List (ℕ × List ℕ)) (j k : ℕ) (p : List ℕ)
      → j < n
      → k < n
      → j ≢ k
      → of_sender (from j) (gs ++ (from k, p) ∷ []) ≡ of_sender (from j) gs
  passed-other gs j k p hj hk h =
      let other : (from k == from j) ≡ false = elim (Bool-cases (from k == from j)) [
        | inl e ↦ absurd (h (distinct j k hj hk (ground arith)))
        | inr e ↦ e
      ] in
      rw (of_sender-append (from j) gs ((from k, p) ∷ []), other)
        (append-nil (of_sender (from j) gs))

  -- A turn of the task `k`: the task still follows, and nothing comes in another name.
  abbrev pub Turned : Hub S → ℕ → Conn S × Task → Type 0
  Turned h k r =
      Follows r.0.gossip_in k r.1
      × ((j : ℕ)
          → j < n
          → j ≢ k
          → of_sender (from j) r.0.gossip_in ≡ of_sender (from j) h.gossip_in)

  pub turn-Turned :
      (h : Hub S) (k : ℕ) (t : Task)
      → k < n
      → Follows h.gossip_in k t
      → Turned h k (turn v brings h t)
  unfolding conn_of
  turn-Turned h k t lt f = elim (Bool-cases t.running) [
    | inl r ↦ goes_on lt f.rest refl r
    | inr r ↦ subst (Turned h k) (sym (turn-idle h t r)) (f, λ j hj ne. refl)
  ]
    where
      goes_on :
          k < n
          → (rest : List (List ℕ)) → f.rest ≡ rest
          → t.running ≡ true
          → Turned h k (turn v brings h t)
      goes_on lt [] e r =
          let at_end : t.stream ≡ [] = f.stream ∙ ap (sent v (from k)) e in
          let ends = ap read_frame at_end ∙ read_frame-empty v [] (omega arith) in
          subst (Turned h k) (sym (turn-last h t r ends)) (
            record {
              rest = f.rest;
              stream = f.stream;
              fits = f.fits;
              whole = f.whole;
              ended = λ _. e;
            },
            λ j hj ne. refl,
          )
      goes_on lt (p ∷ rest) e r =
          let fits : AllFit v (p ∷ rest) = subst (AllFit v) e f.fits in
          let (passed, stream, running) =
            turn-next h k t p rest lt r (f.stream ∙ ap (sent v (from k)) e) fits in
          (
            record {
              rest = rest;
              stream = stream;
              fits = fits.1;
              whole =
                  ap (λ (gs : List (ℕ × List ℕ)). of_sender (from k) gs ++ tagged (from k) rest)
                    passed
                  ∙ passed-own h.gossip_in k p rest
                  ∙ ap
                      (λ (ps : List (List ℕ)). of_sender (from k) h.gossip_in ++ tagged (from k) ps)
                      (sym e)
                  ∙ f.whole;
              ended = λ stops. absurd (ground (arith, running, stops));
            },
            λ j hj ne. ap (of_sender (from j)) passed ∙ passed-other h.gossip_in j k p hj lt ne,
          )

  -- The gossip that others pass on does not matter.
  pub Follows-other :
      (gs hs : List (ℕ × List ℕ)) (k : ℕ) (t : Task)
      → of_sender (from k) hs ≡ of_sender (from k) gs
      → Follows gs k t
      → Follows hs k t
  Follows-other gs hs k t e f = record {
    rest = f.rest;
    stream = f.stream;
    fits = f.fits;
    whole = ap (λ (xs : List (ℕ × List ℕ)). xs ++ tagged (from k) f.rest) e ∙ f.whole;
    ended = f.ended;
  }

  pub spawned-Follows :
      (gs : List (ℕ × List ℕ)) (k : ℕ)
      → k < n
      → of_sender (from k) gs ≡ []
      → Follows gs k (spawned v brings k)
  unfolding spawned
  spawned-Follows gs k lt e = record {
    rest = ps k;
    stream = ground arith;
    fits = fit k lt;
    whole = ap (λ (xs : List (ℕ × List ℕ)). xs ++ tagged (from k) (ps k)) e;
    ended = λ stops. cc;
  }

  -- A task that has nothing to read passes nothing on.
  pub turn-quiet :
      (h : Hub S) (t : Task)
      → t.stream ≡ []
      → ((turn v brings h t).0.gossip_in ≡ h.gossip_in) × ((turn v brings h t).1.stream ≡ [])
  unfolding conn_of
  turn-quiet h t e = elim (Bool-cases t.running) [
    | inl r ↦
        let ends = ap read_frame e ∙ read_frame-empty v [] (omega arith) in
        rw (turn-last h t r ends) (refl, e)
    | inr r ↦ rw (turn-idle h t r) (refl, e)
  ]
