-- ===== src/Durability/Invariant.antt =====
-- The invariant of packages/consensus-model/src/lib.rs, for every size of the cluster: what was
-- acknowledged is held by the primary and by so many nodes that every majority meets them.
use mathlib.Core.Path.{subst}
use mathlib.Core.Option.{some-injective}
use hyperiondb.Prelude.{
  ◌∙◌, ℕ, zero, suc, ◌+◌, ◌≤◌, ◌<◌, ◌≡◌, refl, sym, true, false, ◌&&◌, Option, some, arith, leb,
  leb→le, le→leb, &&-split, length, get_or, set, replicate, indices, length-set, length-replicate,
  get_or-set, length-range_from,
}
use hyperiondb.Prelude.Quorum.{count_mono, count_all}
use hyperiondb.Prelude.Words.{u64_mod, add64}
use hyperiondb.Explore.{Run, Run-induction}
use hyperiondb.Durability.{
  Cluster, State, Action, write, replicate_to, ack, crash, failover, lsn_at, alive_at, count,
  majority, init_state, next_state, model, Reach,
}
use hyperiondb.Durability.Winners.{IsElectable, IsElectable-ahead}
use hyperiondb.Durability.Offered.{Offered, IsPrimary, actions-Offered}

-- The bounds are `u64`, the cluster is not empty, and the nodes that an acknowledgement takes meet
-- every majority.
pub record IsSafeCluster (c : Cluster) : Type 0 where
  pub nonempty : 0 < c.n
  pub lsn_fits : c.max_lsn < u64_mod
  pub term_fits : c.max_term < u64_mod
  pub quorum : c.n < majority c + c.ack_quorum

pub record IsSound (c : Cluster) (s : State) : Type 0 where
  pub lsns : length s.lsn ≡ c.n
  pub alives : length s.alive ≡ c.n
  pub bounded : (i : ℕ) → lsn_at s i ≤ c.max_lsn
  pub terms : s.term ≤ c.max_term
  pub primary : (p : ℕ) → s.primary ≡ some p → (p < c.n) × (s.acked ≤ lsn_at s p)
  pub confirmed : c.n < majority c + count c (λ i. leb s.acked (lsn_at s i))

-- A node's log with one record more.
grown : State → ℕ → State
grown s j = record s { lsn = set s.lsn j (add64 (lsn_at s j) 1) }

replicate-zero : (n i : ℕ) → ◌≡◌ {A = ℕ} (get_or (replicate n 0) i 0) 0
replicate-zero zero i = refl
replicate-zero (suc n) zero = refl
replicate-zero (suc n) (suc i) = replicate-zero n i

-- A primary, known by name.
next_state-write : (s : State) (p : ℕ) → s.primary ≡ some p → next_state s write ≡ some (grown s p)
unfolding next_state grown
next_state-write s p e = ground arith

next_state-ack :
    (s : State) (p : ℕ)
    → s.primary ≡ some p
    → next_state s ack ≡ some (record s { acked = lsn_at s p })
unfolding next_state
next_state-ack s p e = ground arith

next_state-replicate_to :
    (s : State) (p i : ℕ)
    → s.primary ≡ some p
    → lsn_at s i < lsn_at s p
    → next_state s (replicate_to i) ≡ some (grown s i)
unfolding next_state grown
next_state-replicate_to s p i e h = ground arith

successor :
    (P : State → Type 0) {s t : State} {o : Option State} → o ≡ some t → o ≡ some s → P s → P t
successor P e f h = subst P (some-injective _ _ (sym f ∙ e)) h

module _ (c : Cluster) (safe : IsSafeCluster c) where
  open safe use {nonempty, lsn_fits, term_fits, quorum}

  init_state-IsSound : IsSound c (init_state c)
  unfolding init_state majority
  init_state-IsSound = record {
    lsns = length-replicate c.n 0;
    alives = length-replicate c.n true;
    bounded = λ i. omega (arith, replicate-zero c.n i);
    terms = omega arith;
    primary = λ p e. ground (arith, replicate-zero c.n p);
    confirmed = omega (
      arith,
      length-range_from 0 c.n,
      count_all (λ i. leb 0 (get_or (replicate c.n 0) i 0)) (indices c.n)
          (λ i m. le→leb _ _ (omega arith)),
    );
  }

  -- One node's log grows by a record.
  module _ (s : State) (sound : IsSound c s) (j : ℕ) (room : lsn_at s j < c.max_lsn) where
    open sound use {lsns, alives, bounded, terms, primary, confirmed}

    grown-ge : (i : ℕ) → (lsn_at s i ≤ lsn_at (grown s j) i) × (lsn_at (grown s j) i ≤ c.max_lsn)
    unfolding grown
    grown-ge i = ground (arith, get_or-set s.lsn j i (add64 (lsn_at s j) 1) 0, bounded i, bounded j)

    grown-IsSound : IsSound c (grown s j)
    unfolding grown
    grown-IsSound = record {
      lsns = omega (arith, length-set s.lsn j (add64 (lsn_at s j) 1));
      alives = alives;
      bounded = λ i. (grown-ge i).1;
      terms = terms;
      primary = λ p e. omega (arith, primary p e, grown-ge p);
      confirmed = omega (
        arith,
        count_mono (λ i. leb s.acked (lsn_at s i)) (λ i. leb s.acked (lsn_at (grown s j) i))
            (indices c.n) (λ i h. le→leb _ _ (omega (arith, leb→le _ _ h, grown-ge i))),
      );
    }

  module _ (s : State) (sound : IsSound c s) where
    open sound use {lsns, alives, bounded, terms, primary, confirmed}

    acked_at :
        (p : ℕ)
        → IsPrimary s p
        → s.acked < lsn_at s p
        → c.ack_quorum ≤ count c (λ i. alive_at s i && leb (lsn_at s p) (lsn_at s i))
        → IsSound c (record s { acked = lsn_at s p })
    acked_at p is less enough = record {
      lsns = lsns;
      alives = alives;
      bounded = bounded;
      terms = terms;
      primary = λ q e. ground (arith, primary p is.chosen, is.chosen);
      confirmed = omega (
        arith,
        quorum,
        enough,
        count_mono (λ i. alive_at s i && leb (lsn_at s p) (lsn_at s i))
            (λ i. leb (lsn_at s p) (lsn_at s i)) (indices c.n) (λ i h. (&&-split _ _ h).1),
      );
    }

    crashed : (i : ℕ) → next_state s (crash i) ≡ some (record s { alive = set s.alive i false })
    unfolding next_state
    crashed i = refl

    elected :
        (w : ℕ)
        → next_state s (failover w) ≡ some (record s { primary = some w; term = add64 s.term 1 })
    unfolding next_state
    elected w = refl

    failed_over :
        (w : ℕ)
        → IsElectable c s w
        → s.term < c.max_term
        → IsSound c (record s { primary = some w; term = add64 s.term 1 })
    failed_over w el lt =
        let (inside, up, has) = IsElectable-ahead c s w s.acked el confirmed in
        record {
          lsns = lsns;
          alives = alives;
          bounded = bounded;
          terms = ground arith;
          primary = λ p e. ground arith;
          confirmed = confirmed;
        }

    next_state-IsSound :
        (a : Action) {t : State} → Offered c s a → next_state s a ≡ some t → IsSound c t
    next_state-IsSound write (p, is, room) e =
        successor (IsSound c) e (next_state-write s p is.chosen) (grown-IsSound s sound p room)
    next_state-IsSound (replicate_to i) (p, is, lt, less) e =
        successor (IsSound c) e (next_state-replicate_to s p i is.chosen less)
          (grown-IsSound s sound i (omega (arith, bounded p)))
    next_state-IsSound ack (p, is, (less, enough)) e =
        successor (IsSound c) e (next_state-ack s p is.chosen) (acked_at p is less enough)
    next_state-IsSound (crash i) (lt, up) e = successor (IsSound c) e (crashed i) (record {
      lsns = lsns;
      alives = omega (arith, length-set s.alive i false);
      bounded = bounded;
      terms = terms;
      primary = primary;
      confirmed = confirmed;
    })
    next_state-IsSound (failover w) (el, need, lt) e =
        successor (IsSound c) e (elected w) (failed_over w el lt)

  pub Run-IsSound : {s t : State} → IsSound c s → Run (model c) s t → IsSound c t
  Run-IsSound =
      Run-induction (model c) (Offered c) (actions-Offered c) (IsSound c)
        (λ s t h a o e. next_state-IsSound s h a o e)

  pub Reach-IsSound : {s : State} → Reach c s → IsSound c s
  Reach-IsSound r = Run-IsSound init_state-IsSound r
