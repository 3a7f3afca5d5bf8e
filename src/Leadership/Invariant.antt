-- ===== src/Leadership/Invariant.antt =====
-- The invariant of packages/consensus-model/src/leadership.rs with fencing, for every size of the
-- cluster: one writable node at each term, and a majority at or past the newest committed term.
use mathlib.Core.Path.{subst}
use mathlib.Core.Option.{some-injective}
use hyperiondb.Explore.{Run, Run-induction}
use hyperiondb.Prelude.{
  ℕ, zero, suc, ◌≤◌, ◌<◌, ◌≡◌, refl, sym, ◌∙◌, inl, inr, Bool, true, false, not, ◌&&◌, ◌||◌, Option,
  none, some, arith, ltb, leb, leb→le, le→leb, ◌==◌, ==_iff, Bool-cases, if-eq-some, length, get_or,
  set, replicate, max_of, get_or-le-max_of, indices, length-set, length-replicate,
  length-range_from,
}
use hyperiondb.Prelude.Quorum.{quorums_meet, count_mono, count_all, member_of_count}
use hyperiondb.Prelude.Words.{u64_mod, add64}
use hyperiondb.Leadership.{
  Leadership, LState, LAction, elect, commit, crash, recover, term_at, writable_at, alive_at, count,
  majority, init_state, conflict, record_commit, quorum_at_term, next_state, model, Reach,
}
use hyperiondb.Leadership.Election.{IsElected, elect_nodes-IsElected}
use hyperiondb.Leadership.Offered.{Offered, actions-Offered}

-- A cluster with a node and with fencing, whose bound on terms is a `u64`.
pub record IsFenced (c : Leadership) : Type 0 where
  pub nonempty : 0 < c.n
  pub term_fits : c.max_term < u64_mod
  pub fenced : c.fencing ≡ true

pub record IsSafe (c : Leadership) (s : LState) : Type 0 where
  pub terms : length s.cur_term ≡ c.n
  pub writables : length s.writable ≡ c.n
  pub alives : length s.alive ≡ c.n
  pub quiet : s.split_brain ≡ false
  pub unique :
      (i j : ℕ)
      → writable_at s i ≡ true
      → writable_at s j ≡ true
      → term_at s i ≡ term_at s j
      → i ≡ j
  pub reached : majority c ≤ count c (λ i. leb s.max_committed_term (term_at s i))
  pub leader :
      (p i : ℕ)
      → s.committed_leader ≡ some p
      → writable_at s i ≡ true
      → term_at s i ≡ s.max_committed_term
      → i ≡ p

replicate-false : (n i : ℕ) → get_or (replicate n false) i false ≡ false
replicate-false zero i = refl
replicate-false (suc n) zero = refl
replicate-false (suc n) (suc i) = replicate-false n i

writable_at_start : (n i : ℕ) → get_or (set (replicate n false) 0 true) i false ≡ true → i ≡ 0
writable_at_start zero i h = cc
writable_at_start (suc n) zero h = refl
writable_at_start (suc n) (suc i) h = cc (replicate-false n i)

-- What a fenced commit may have done.
pub record IsLeaseCommit (s : LState) (w : ℕ) (t : LState) : Type 0 where
  pub same_terms : t.cur_term ≡ s.cur_term
  pub same_writables : t.writable ≡ s.writable
  pub same_alive : t.alive ≡ s.alive
  pub split : t.split_brain ≡ s.split_brain
  pub committed : t.max_committed_term ≡ term_at s w
  pub maker : t.committed_leader ≡ some w

module _ (c : Leadership) (safe : IsFenced c) where
  open safe use {nonempty, term_fits, fenced}

  init_state-IsSafe : IsSafe c (init_state c)
  unfolding init_state majority
  init_state-IsSafe = record {
    terms = length-replicate c.n 1;
    writables = omega (arith, length-set (replicate c.n false) 0 true, length-replicate c.n false);
    alives = length-replicate c.n true;
    quiet = refl;
    unique = λ i j hi hj e. omega (arith, writable_at_start c.n i hi, writable_at_start c.n j hj);
    reached = omega (
      arith,
      length-range_from 0 c.n,
      count_all (λ i. leb 0 (get_or (replicate c.n 1) i 0)) (indices c.n)
          (λ i m. le→leb _ _ (omega arith)),
    );
    leader = λ p i e h t. cc;
  }

  module _ (s : LState) (inv : IsSafe c s) where
    open inv use {terms, writables, alives, quiet, unique, reached, leader}

    -- Some node is at or past the newest committed term.
    committed-le-max_of : s.max_committed_term ≤ max_of s.cur_term
    unfolding majority
    committed-le-max_of =
        let (i, here, h) =
          member_of_count (λ i. leb s.max_committed_term (term_at s i)) (indices c.n)
            (omega (arith, reached)) in
        omega (arith, leb→le _ _ h, get_or-le-max_of s.cur_term i)

    elected-IsSafe :
        (winner voters nt : ℕ) (t : LState)
        → max_of s.cur_term < nt
        → IsElected winner voters nt 0 c.n s t
        → IsSafe c t
    elected-IsSafe winner voters nt t h el = record {
      terms = omega (arith, el.term_len);
      writables = omega (arith, el.writable_len);
      alives = rw el.same_alive alives;
      quiet = el.same_split ∙ quiet;
      unique = λ i j hi hj e. ground (
        arith,
        el.writables i,
        el.writables j,
        el.terms i,
        el.terms j,
        unique i j,
        get_or-le-max_of s.cur_term i,
        get_or-le-max_of s.cur_term j,
      );
      reached = omega (
        arith,
        reached,
        count_mono (λ i. leb s.max_committed_term (term_at s i))
            (λ i. leb t.max_committed_term (term_at t i)) (indices c.n) (λ i k. raised i k),
      );
      leader = λ p i e hi ht. ground (
        arith,
        el.writables i,
        el.terms i,
        leader p i,
        committed-le-max_of,
        el.same_leader,
        el.same_committed,
      );
    }
      where
        raised :
            (i : ℕ)
            → leb s.max_committed_term (term_at s i) ≡ true
            → leb t.max_committed_term (term_at t i) ≡ true
        raised i k = ground (arith, el.terms i, el.same_committed, get_or-le-max_of s.cur_term i)

    -- A majority at the term of `w` is not behind the newest committed term.
    pub fenced_term :
        (w : ℕ)
        → leb (majority c) (quorum_at_term c s (term_at s w)) ≡ true
        → s.max_committed_term ≤ term_at s w
    unfolding majority quorum_at_term
    fenced_term w h =
        let (i, here, at_term, past) =
          quorums_meet (λ i. alive_at s i && term_at s i == term_at s w)
            (λ i. leb s.max_committed_term (term_at s i)) (indices c.n)
            (omega (arith, length-range_from 0 c.n, leb→le _ _ h, reached)) in
        ground arith

    no_conflict :
        (w : ℕ)
        → writable_at s w ≡ true
        → term_at s w ≡ s.max_committed_term
        → conflict s w ≡ s.split_brain
    unfolding conflict
    no_conflict w hw e = by_leader s.committed_leader refl
      where
        by_leader :
            (o : Option ℕ)
            → s.committed_leader ≡ o
            → ◌≡◌ {A = Bool}
                (elim o [ none ↦ s.split_brain | some prev ↦ not (prev == w) || s.split_brain ])
                s.split_brain
        by_leader none f = refl
        by_leader (some prev) f = ground (arith, leader prev w)

    pub record_commit-IsLeaseCommit :
        (w : ℕ)
        → writable_at s w ≡ true
        → leb (majority c) (quorum_at_term c s (term_at s w)) ≡ true
        → IsLeaseCommit s w (record_commit s w)
    unfolding record_commit
    record_commit-IsLeaseCommit w hw h =
        let late = fenced_term w h in
        elim (Bool-cases (term_at s w == s.max_committed_term)) [
          | inl e ↦
              rw (not_before late, e)
                (record {
                  same_terms = refl;
                  same_writables = refl;
                  same_alive = refl;
                  split = no_conflict w hw ((==_iff _ _).0 e);
                  committed = sym ((==_iff _ _).0 e);
                  maker = refl;
                })
          | inr e ↦
              rw (not_before late, e)
                (record {
                  same_terms = refl;
                  same_writables = refl;
                  same_alive = refl;
                  split = refl;
                  committed = refl;
                  maker = refl;
                })
        ]
      where
        not_before :
            s.max_committed_term ≤ term_at s w → ltb (term_at s w) s.max_committed_term ≡ false
        not_before h = ground arith

    committed-IsSafe :
        (w : ℕ) (t : LState)
        → writable_at s w ≡ true
        → leb (majority c) (quorum_at_term c s (term_at s w)) ≡ true
        → IsLeaseCommit s w t
        → IsSafe c t
    unfolding quorum_at_term
    committed-IsSafe w t hw h k = record {
      terms = rw k.same_terms terms;
      writables = rw k.same_writables writables;
      alives = rw k.same_alive alives;
      quiet = k.split ∙ quiet;
      unique = rw (k.same_terms, k.same_writables) unique;
      reached =
          rw (k.committed, k.same_terms)
            (omega (
              arith,
              leb→le _ _ h,
              count_mono (λ i. alive_at s i && term_at s i == term_at s w)
                  (λ i. leb (term_at s w) (term_at s i)) (indices c.n) (λ i g. ground arith),
            ));
      leader =
          rw (k.committed, k.same_terms, k.same_writables, k.maker)
            (λ p i e hi ht. unique i w hi hw ht ∙ some-injective _ _ e);
    }

    -- A commit that the fence lets through.
    pub let_through :
        (w : ℕ) {t : LState}
        → next_state c s (commit w) ≡ some t
        → (leb (majority c) (quorum_at_term c s (term_at s w)) ≡ true)
          × (some (record_commit s w) ≡ some t)
    unfolding next_state
    let_through w e =
        if-eq-some (leb (majority c) (quorum_at_term c s (term_at s w))) (some (record_commit s w))
          (simp fenced at e)

    next_state-IsSafe :
        (a : LAction) {t : LState} → Offered c s a → next_state c s a ≡ some t → IsSafe c t
    unfolding next_state
    next_state-IsSafe (elect winner voters) (room, m) e = subst (IsSafe c) (some-injective _ _ e) (
        elected-IsSafe winner voters (add64 (max_of s.cur_term) 1) _ (omega arith) (
          elect_nodes-IsElected winner voters (add64 (max_of s.cur_term) 1) s 0 c.n (omega arith)
            (omega arith)))
    next_state-IsSafe (commit w) (up, hw) e =
        let (h, f) = let_through w e in
        subst (IsSafe c) (some-injective _ _ f)
          (committed-IsSafe w (record_commit s w) hw h (record_commit-IsLeaseCommit w hw h))
    next_state-IsSafe (crash i) h e = subst (IsSafe c) (some-injective _ _ e) (record {
      terms = terms;
      writables = writables;
      alives = omega (arith, length-set s.alive i false);
      quiet = quiet;
      unique = unique;
      reached = reached;
      leader = leader;
    })
    next_state-IsSafe (recover i) h e = subst (IsSafe c) (some-injective _ _ e) (record {
      terms = terms;
      writables = writables;
      alives = omega (arith, length-set s.alive i true);
      quiet = quiet;
      unique = unique;
      reached = reached;
      leader = leader;
    })

  pub Run-IsSafe : {s t : LState} → IsSafe c s → Run (model c) s t → IsSafe c t
  Run-IsSafe =
      Run-induction (model c) (Offered c) (actions-Offered c) (IsSafe c)
        (λ s t h a o e. next_state-IsSafe s h a o e)

  pub Reach-IsSafe : {s : LState} → Reach c s → IsSafe c s
  Reach-IsSafe r = Run-IsSafe init_state-IsSafe r
