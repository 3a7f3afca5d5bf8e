-- ===== src/Durability/Winners.antt =====
-- What `possible_new_primaries` of packages/consensus-model/src/lib.rs returns: the most advanced
-- member of a live majority, so a node that has every record which a majority has.
use hyperiondb.Prelude.{
  ℕ, ◌+◌, ◌-◌, ◌≤◌, ◌<◌, ◌≡◌, ◌≢◌, refl, true, false, not, ◌||◌, inl, inr, Option, none, some, List,
  [], ◌∷◌, arith, compare, Ordering, ltb, leb, leb→le, ◌==◌, ==_iff, Bool-cases, length, any,
  max_by, range_from, indices, All, All-In, In-filter, filter-In, In-range_from, length-range_from,
  not-In-of-any,
}
use hyperiondb.Prelude.MaxBy.{IsPreorder, max_by_lem}
use hyperiondb.Prelude.Quorum.{quorums_meet}
use hyperiondb.Prelude.Words.{has_bit, one_shl}
use hyperiondb.Durability.{
  Cluster, State, lsn_at, alive_at, count, majority, insert_winner, by_lsn, members_of, try_mask,
  try_masks, possible_new_primaries,
}

-- `w` is the most advanced of `members`, a live majority.
pub record IsElectedBy (c : Cluster) (s : State) (w mask : ℕ) : Type 0 where
  pub size : length (members_of c mask) ≡ majority c
  pub live : any (λ i. not (alive_at s i)) (members_of c mask) ≡ false
  pub best : max_by (by_lsn s) (members_of c mask) ≡ some w

abbrev pub IsElectable : Cluster → State → ℕ → Type 0
IsElectable c s w = (mask : ℕ) × IsElectedBy c s w mask

All-insert_winner :
    (P : ℕ → Type 0) (w : ℕ) (xs : List ℕ) → P w → All P xs → All P (insert_winner w xs)
unfolding insert_winner
All-insert_winner P w [] h a = (h, a)
All-insert_winner P w (x ∷ xs) h a =
    elim (compare w x)
      as (λ o. All P (elim o [
        | Ordering.lt ↦ w ∷ x ∷ xs
        | Ordering.eq ↦ x ∷ xs
        | Ordering.gt ↦ x ∷ insert_winner w xs
      ])) [
        | Ordering.lt ↦ (h, a)
        | Ordering.eq ↦ a
        | Ordering.gt ↦ (a.0, All-insert_winner P w xs h a.1)
      ]

module _ (c : Cluster) (s : State) where
  try_mask-IsElectable :
      (mask : ℕ) (winners : List ℕ)
      → All (IsElectable c s) winners
      → All (IsElectable c s) (try_mask c s mask winners)
  unfolding try_mask
  try_mask-IsElectable mask winners h =
      elim (Bool-cases (
        not (length (members_of c mask) == majority c)
        || any (λ i. not (alive_at s i)) (members_of c mask))) [
          | inl skip ↦ rw skip h
          | inr go ↦ rw go (found go (max_by (by_lsn s) (members_of c mask)) refl)
        ]
    where
      found :
          (not (length (members_of c mask) == majority c)
              || any (λ i. not (alive_at s i)) (members_of c mask))
            ≡ false
          → (o : Option ℕ) → max_by (by_lsn s) (members_of c mask) ≡ o
          → All (IsElectable c s) (elim o [ none ↦ winners | some w ↦ insert_winner w winners ])
      found go none e = h
      found go (some w) e =
          All-insert_winner (IsElectable c s) w winners
            (mask, record { size = (==_iff _ _).0 (ground arith); live = ground arith; best = e }) h

  try_masks-IsElectable :
      (masks winners : List ℕ)
      → All (IsElectable c s) winners
      → All (IsElectable c s) (try_masks c s masks winners)
  unfolding try_masks
  try_masks-IsElectable [] winners h = h
  try_masks-IsElectable (mask ∷ masks) winners h =
      try_masks-IsElectable masks (try_mask c s mask winners) (try_mask-IsElectable mask winners h)

  pub possible_new_primaries-IsElectable : All (IsElectable c s) (possible_new_primaries c s)
  unfolding possible_new_primaries
  possible_new_primaries-IsElectable = elim (Bool-cases (ltb (count c (alive_at s)) (majority c))) [
    | inl few ↦ rw few tt
    | inr enough ↦ rw enough (try_masks-IsElectable (range_from 1 (one_shl c.n - 1)) [] tt)
  ]

  pub by_lsn-IsPreorder : IsPreorder (by_lsn s)
  unfolding by_lsn
  by_lsn-IsPreorder = record {
    reflexive = λ a. ground arith;
    transitive = λ a b d p q. ground arith;
    total = λ a b e. ground arith;
  }

  by_lsn-le : (a b : ℕ) → by_lsn s a b ≢ Ordering.gt → lsn_at s a ≤ lsn_at s b
  unfolding by_lsn
  by_lsn-le a b h = ground arith

  -- An electable node is alive and in range, and has whatever so many nodes have that every majority
  -- meets them.
  pub IsElectable-ahead :
      (w a : ℕ)
      → IsElectable c s w
      → c.n < majority c + count c (λ i. leb a (lsn_at s i))
      → (w < c.n) × (alive_at s w ≡ true) × (a ≤ lsn_at s w)
  unfolding majority
  IsElectable-ahead w a (mask, e) q =
      let (m, top) = max_by_lem (by_lsn s) by_lsn-IsPreorder (members_of c mask) w e.best in
      let (i, here, bit, has) =
        quorums_meet (has_bit mask) (λ i. leb a (lsn_at s i)) (indices c.n)
          (omega (arith, length-range_from 0 c.n, e.size)) in
      let le : lsn_at s i ≤ lsn_at s w = by_lsn-le i w (
        All-In (λ x. by_lsn s x w ≢ Ordering.gt) (members_of c mask) i top
          (filter-In (has_bit mask) i (indices c.n) here bit)) in
      let r = In-filter (has_bit mask) w (indices c.n) m in
      (
        omega (arith, In-range_from w 0 c.n r.0),
        ground (arith, not-In-of-any (λ i. not (alive_at s i)) w (members_of c mask) e.live m),
        omega (arith, leb→le a (lsn_at s i) has),
      )
