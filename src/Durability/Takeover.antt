-- ===== src/Durability/Takeover.antt =====
-- The run of `Durability.Stream` ends with a failover to any node that a live majority without node 0
-- may elect.
use hyperiondb.Prelude.{
  ℕ, ◌+◌, ◌≤◌, ◌<◌, ◌≡◌, ◌≢◌, refl, ap, ◌∙◌, true, not, ◌&&◌, inl, inr, none, some, List, [], ◌∷◌,
  arith, Ordering, ltb, if◌then◌else◌, max_by, indices, In, Option-cases, All-In,
}
use hyperiondb.Prelude.MaxBy.{max_by_lem}
use hyperiondb.Prelude.Quorum.{count_mono}
use hyperiondb.Prelude.Masks.{between}
use hyperiondb.Prelude.Group.{
  group, any-none, length-between, length-group, In-group, group-In, group-pos, group-lt,
}
use hyperiondb.Explore.{take, later}
use hyperiondb.Durability.{
  Cluster, State, failover, lsn_at, alive_at, count, majority, members_of, by_lsn,
  possible_new_primaries, need_failover, next_state, within_boundary, Reach,
}
use hyperiondb.Durability.Winners.{IsElectedBy, by_lsn-IsPreorder}
use hyperiondb.Durability.Elected.{possible_new_primaries-In}
use hyperiondb.Durability.Offers.{offered_failover}
use hyperiondb.Durability.Stream.{
  IsRoomy, get_or-marks, all-marks, streamed, acked_by, crashed, down, lowest, crashed-Reach,
}

max_by-nonempty : (cmp : ℕ → ℕ → Ordering) (a : ℕ) (xs : List ℕ) → In a xs → max_by cmp xs ≢ none
max_by-nonempty cmp a [] m e = absurd m
max_by-nonempty cmp a (x ∷ xs) m e = cc

module _ (c : Cluster) where
  -- Node `g` took over.
  unfoldable pub taken_over : ℕ → ℕ → State
  taken_over k g = record (crashed c k) { primary = some g; term = 1 }

  module _ (roomy : IsRoomy c) where
    open roomy use {few, lsn_room, term_room}

    module _ (le : c.ack_quorum ≤ c.n) where
      module _ (g : ℕ) (standby : 1 ≤ g) (fits : g + majority c ≤ c.n) where
        hi : ℕ
        hi = g + majority c

        mask : ℕ
        mask = group g hi c.n

        wide : g < hi
        unfolding hi majority
        wide = omega arith

        best : max_by (by_lsn (crashed c c.ack_quorum)) (members_of c mask) ≡ some g
        unfolding mask hi
        best = elim (Option-cases (max_by (by_lsn (crashed c c.ack_quorum)) (members_of c mask))) [
          | inl e ↦ absurd (
              max_by-nonempty (by_lsn (crashed c c.ack_quorum)) g (members_of c mask)
                (group-In g hi c.n few wide fits) e)
          | inr (w, e) ↦
              let s = crashed c c.ack_quorum in
              let (m, top) =
                max_by_lem (by_lsn s) (by_lsn-IsPreorder c s) (members_of c mask) w e in
              let not_over =
                All-In (λ x. by_lsn s x w ≢ Ordering.gt) (members_of c mask) g top
                  (group-In g hi c.n few wide fits) in
              let same : w ≡ g =
                lowest c roomy le g w (In-group g hi c.n few wide fits w m).0 not_over in
              e ∙ ap some same
        ]

        elected : IsElectedBy c (crashed c c.ack_quorum) g mask
        unfolding mask hi
        elected = record {
          size = omega (arith, length-group g hi c.n few wide fits);
          live =
              any-none (λ i. not (alive_at (crashed c c.ack_quorum) i)) (members_of c mask)
                (λ i m.
                  let inside = In-group g hi c.n few wide fits i m in
                  ground (arith, inside, down c roomy le c.ack_quorum i (omega (arith, inside))));
          best = best;
        }

        enough : majority c ≤ count c (alive_at (crashed c c.ack_quorum))
        unfolding between hi
        enough = omega (
          arith,
          length-between g hi c.n few wide fits,
          count_mono (between g hi) (alive_at (crashed c c.ack_quorum)) (indices c.n) (λ i h.
              let lt : i < c.n = ground arith in ground (arith, down c roomy le c.ack_quorum i lt)),
        )

        possible : In g (possible_new_primaries c (crashed c c.ack_quorum))
        unfolding mask hi
        possible =
            possible_new_primaries-In c (crashed c c.ack_quorum) mask g few
              (group-pos g hi c.n few wide fits) (group-lt g hi c.n few wide fits) enough elected

        pub taken_over-Reach : Reach c (taken_over c.ack_quorum g)
        unfolding taken_over crashed acked_by streamed next_state within_boundary need_failover
            majority
        taken_over-Reach =
            let k = c.ack_quorum in
            let dead : not (alive_at (crashed c k) 0) ≡ true =
              ground (arith, down c roomy le k 0 (omega arith)) in
            later (crashed-Reach c roomy le) (
              take (failover g) (offered_failover c (crashed c k) g dead (omega arith) possible)
                refl (ground (arith, all-marks k c.n c.max_lsn lsn_room)))

    -- What the run ends in.
    pub lsn-taken_over :
        (k g i : ℕ) → lsn_at (taken_over k g) i ≡ (if ltb i k && ltb i c.n then 1 else 0)
    unfolding taken_over crashed acked_by streamed
    lsn-taken_over k g i = get_or-marks k c.n i
