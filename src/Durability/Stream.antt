-- ===== src/Durability/Stream.antt =====
-- A run of the model of packages/consensus-model/src/lib.rs at any size: node 0 writes a record, the
-- nodes below the quorum take it, it is acknowledged and node 0 crashes.
use hyperiondb.Prelude.{
  ℕ, zero, suc, ◌≤◌, ◌<◌, ◌≡◌, ◌≢◌, refl, true, false, not, ◌&&◌, inl, some, List, [], ◌∷◌, arith,
  Ordering, ltb, leb, ◌==◌, all, if◌then◌else◌, get_or, set, replicate, indices, In,
  length-replicate, get_or-set, get_or-replicate,
}
use hyperiondb.Prelude.Quorum.{count_mono}
use hyperiondb.Prelude.Words.{add64}
use hyperiondb.Prelude.Masks.{between, count_between}
use hyperiondb.Explore.{Step, take, stay, later}
use hyperiondb.Durability.{
  Cluster, State, write, replicate_to, ack, crash, lsn_at, alive_at, count, by_lsn, init_state,
  primary_actions, next_state, within_boundary, model, Reach,
}
use hyperiondb.Durability.Offers.{
  offered_by_primary, can_ack, lags, offers_ack, offers_replicate, offered_crash,
}

-- The cluster has less than 32 nodes, whose masks a `u32` holds, room for one record and one
-- failover, and an acknowledgement takes a node.
pub record IsRoomy (c : Cluster) : Type 0 where
  pub few : c.n < 32
  pub lsn_room : 1 ≤ c.max_lsn
  pub term_room : 1 ≤ c.max_term
  pub asks : 1 ≤ c.ack_quorum

-- The first `k` of `n` nodes have the record.
pub marks : ℕ → ℕ → List ℕ
marks k zero = []
marks zero (suc n) = 0 ∷ marks zero n
marks (suc k) (suc n) = 1 ∷ marks k n

pub get_or-marks : (k n i : ℕ) → get_or (marks k n) i 0 ≡ (if ltb i k && ltb i n then 1 else 0)
unfolding marks
get_or-marks k zero i = ground arith
get_or-marks zero (suc n) zero = ground arith
get_or-marks zero (suc n) (suc i) = ground (arith, get_or-marks zero n i)
get_or-marks (suc k) (suc n) zero = ground arith
get_or-marks (suc k) (suc n) (suc i) = ground (arith, get_or-marks k n i)

set-marks : (k n : ℕ) → k < n → set (marks k n) k 1 ≡ marks (suc k) n
unfolding marks
set-marks k zero h = absurd (omega arith)
set-marks zero (suc n) h = refl
set-marks (suc k) (suc n) h = rw (set-marks k n (omega arith)) refl

replicate-marks : (n : ℕ) → replicate n 0 ≡ marks 0 n
unfolding marks
replicate-marks zero = refl
replicate-marks (suc n) = rw (replicate-marks n) refl

pub all-marks : (k n m : ℕ) → 1 ≤ m → all (λ l. leb l m) (marks k n) ≡ true
unfolding marks
all-marks k zero m h = refl
all-marks zero (suc n) m h = ground (arith, all-marks zero n m h)
all-marks (suc k) (suc n) m h = ground (arith, all-marks k n m h)

module _ (c : Cluster) where
  unfoldable pub streamed : ℕ → State
  streamed k = record {
    lsn = marks k c.n;
    alive = replicate c.n true;
    primary = some 0;
    acked = 0;
    term = 0;
  }

  unfoldable pub acked_by : ℕ → State
  acked_by k = record (streamed k) { acked = 1 }

  unfoldable pub crashed : ℕ → State
  crashed k = record (acked_by k) { alive = set (replicate c.n true) 0 false }

  module _ (roomy : IsRoomy c) where
    open roomy use {few, lsn_room, term_room, asks}

    up : (k i : ℕ) → i < c.n → alive_at (streamed k) i ≡ true
    unfolding streamed
    up k i h = get_or-replicate c.n i true false h

    lsn_of : (k i : ℕ) → lsn_at (streamed k) i ≡ (if ltb i k && ltb i c.n then 1 else 0)
    unfolding streamed
    lsn_of k i = get_or-marks k c.n i

    grows :
        (k : ℕ)
        → k < c.n
        → set (marks k c.n) k (add64 (get_or (marks k c.n) k 0) 1) ≡ marks (suc k) c.n
    grows k h =
        let none_yet : get_or (marks k c.n) k 0 ≡ 0 = ground (arith, get_or-marks k c.n k) in
        rw none_yet (set-marks k c.n h)

    inside : (k : ℕ) → within_boundary c (streamed k) ≡ true
    unfolding within_boundary streamed
    inside k = ground (arith, all-marks k c.n c.max_lsn lsn_room)

    offers_write : 0 < c.n → In write (primary_actions c (streamed 0) 0)
    unfolding primary_actions
    offers_write h =
        let go : ltb (lsn_at (streamed 0) 0) c.max_lsn ≡ true = ground (arith, lsn_of 0 0) in
        rw go (inl refl)

    written : 0 < c.n → next_state (streamed 0) write ≡ some (streamed 1)
    unfolding next_state streamed
    written h = rw (grows 0 h) refl

    streamed-one : 0 < c.n → Reach c (streamed 1)
    unfolding init_state streamed
    streamed-one h =
        let start : init_state c ≡ streamed 0 = rw (replicate-marks c.n) refl in
        let first : Step (model c) (streamed 0) (streamed 1) =
          take write (offered_by_primary c (streamed 0) write 0 refl (up 0 0 h) (offers_write h))
            (written h) (inside 1) in
        later stay (rw start first)

    lagging : (k : ℕ) → 1 ≤ k → k < c.n → lags c (streamed k) 0 k ≡ true
    unfolding lags
    lagging k h lt = ground (arith, up k k lt, lsn_of k 0, lsn_of k k)

    replicated :
        (k : ℕ)
        → 1 ≤ k
        → k < c.n
        → next_state (streamed k) (replicate_to k) ≡ some (streamed (suc k))
    unfolding next_state streamed
    replicated k h lt =
        let go : ltb (get_or (marks k c.n) k 0) (get_or (marks k c.n) 0 0) ≡ true =
          ground (arith, get_or-marks k c.n 0, get_or-marks k c.n k) in
        rw (go, grows k lt) refl

    streamed-Reach : (k : ℕ) → 1 ≤ k → k ≤ c.n → Reach c (streamed k)
    unfolding streamed
    streamed-Reach zero h le = absurd (omega arith)
    streamed-Reach (suc zero) h le = streamed-one (omega arith)
    streamed-Reach (suc (suc k)) h le = later (streamed-Reach (suc k) (omega arith) (omega arith)) (
        take (replicate_to (suc k))
          (offered_by_primary c (streamed (suc k)) (replicate_to (suc k)) 0 refl
            (up (suc k) 0 (omega arith))
            (offers_replicate c (streamed (suc k)) 0 (suc k) (omega arith)
              (lagging (suc k) (omega arith) (omega arith))))
          (replicated (suc k) (omega arith) (omega arith)) (inside (suc (suc k))))

    module _ (le : c.ack_quorum ≤ c.n) where
      confirmers :
          c.ack_quorum
          ≤ count c (λ i.
            alive_at (streamed c.ack_quorum) i
            && leb (lsn_at (streamed c.ack_quorum) 0) (lsn_at (streamed c.ack_quorum) i))
      unfolding between
      confirmers =
          let k = c.ack_quorum in
          omega (
            arith,
            count_between 0 k 0 c.n (omega arith) (omega arith),
            count_mono (between 0 k)
                (λ i.
                  alive_at (streamed k) i && leb (lsn_at (streamed k) 0) (lsn_at (streamed k) i))
                (indices c.n)
                (λ i h.
                  let lt : i < c.n = ground arith in
                  ground (arith, up k i lt, lsn_of k 0, lsn_of k i)),
          )

      acks : can_ack c (streamed c.ack_quorum) 0 ≡ true
      unfolding can_ack streamed
      acks = ground (arith, confirmers, lsn_of c.ack_quorum 0)

      acked_by-Reach : Reach c (acked_by c.ack_quorum)
      unfolding acked_by streamed next_state within_boundary
      acked_by-Reach =
          let k = c.ack_quorum in
          let first : get_or (marks k c.n) 0 0 ≡ 1 = ground (arith, get_or-marks k c.n 0) in
          later (streamed-Reach k asks le) (
            take ack
              (offered_by_primary c (streamed k) ack 0 refl (up k 0 (omega arith))
                (offers_ack c (streamed k) 0 acks))
              (rw first refl) (inside k))

      pub down : (k i : ℕ) → i < c.n → alive_at (crashed k) i ≡ not (i == 0)
      unfolding crashed
      down k i h = ground (
        arith,
        get_or-set (replicate c.n true) 0 i false false,
        length-replicate c.n true,
        get_or-replicate c.n i true false h,
      )

      pub lowest : (g w : ℕ) → g ≤ w → by_lsn (crashed c.ack_quorum) g w ≢ Ordering.gt → w ≡ g
      unfolding by_lsn crashed acked_by streamed
      lowest g w h le_w =
          let k = c.ack_quorum in ground (arith, get_or-marks k c.n g, get_or-marks k c.n w)

      pub crashed-Reach : Reach c (crashed c.ack_quorum)
      unfolding crashed acked_by streamed next_state within_boundary
      crashed-Reach =
          let k = c.ack_quorum in
          later acked_by-Reach (
            take (crash 0) (offered_crash c (acked_by k) 0 (omega arith) (up k 0 (omega arith)))
              refl (inside k))
