-- ===== src/Durability/Elected.antt =====
-- That `possible_new_primaries` of packages/consensus-model/src/lib.rs misses no candidate: the most
-- advanced member of any live majority is among them.
use hyperiondb.Prelude.{
  ℕ, ◌-◌, ◌≤◌, ◌<◌, ◌≡◌, refl, sym, false, not, ◌||◌, inl, inr, none, some, List, [], ◌∷◌, arith,
  compare, Ordering, ltb, ◌==◌, Bool-cases, length, any, max_by, range_from, In, range_from-In,
}
use hyperiondb.Prelude.Words.{one_shl}
use hyperiondb.Durability.{
  Cluster, State, alive_at, count, majority, insert_winner, by_lsn, members_of, try_mask, try_masks,
  possible_new_primaries,
}
use hyperiondb.Durability.Winners.{IsElectedBy}

In-insert_winner : (w : ℕ) (xs : List ℕ) → In w (insert_winner w xs)
unfolding insert_winner
In-insert_winner w [] = inl refl
In-insert_winner w (x ∷ xs) = by_order (In-insert_winner w xs) (compare w x) refl
  where
    by_order :
        In w (insert_winner w xs)
        → (o : Ordering) → compare w x ≡ o
        → In w (elim o [
          | Ordering.lt ↦ w ∷ x ∷ xs
          | Ordering.eq ↦ x ∷ xs
          | Ordering.gt ↦ x ∷ insert_winner w xs
        ])
    by_order ih Ordering.lt e = inl refl
    by_order ih Ordering.eq e = inl (ground arith)
    by_order ih Ordering.gt e = inr ih

insert_winner-keeps : (v w : ℕ) (xs : List ℕ) → In v xs → In v (insert_winner w xs)
unfolding insert_winner
insert_winner-keeps v w [] m = absurd m
insert_winner-keeps v w (x ∷ xs) (inl e) =
    elim (compare w x)
      as (λ o. In v (elim o [
        | Ordering.lt ↦ w ∷ x ∷ xs
        | Ordering.eq ↦ x ∷ xs
        | Ordering.gt ↦ x ∷ insert_winner w xs
      ])) [ Ordering.lt ↦ inr (inl e) | Ordering.eq ↦ inl e | Ordering.gt ↦ inl e ]
insert_winner-keeps v w (x ∷ xs) (inr m) =
    elim (compare w x)
      as (λ o. In v (elim o [
        | Ordering.lt ↦ w ∷ x ∷ xs
        | Ordering.eq ↦ x ∷ xs
        | Ordering.gt ↦ x ∷ insert_winner w xs
      ])) [
        | Ordering.lt ↦ inr (inr m)
        | Ordering.eq ↦ inr m
        | Ordering.gt ↦ inr (insert_winner-keeps v w xs m)
      ]

module _ (c : Cluster) (s : State) where
  try_mask-keeps : (mask v : ℕ) (winners : List ℕ) → In v winners → In v (try_mask c s mask winners)
  unfolding try_mask
  try_mask-keeps mask v winners m =
      elim (Bool-cases (
        not (length (members_of c mask) == majority c)
        || any (λ i. not (alive_at s i)) (members_of c mask))) [
          | inl skip ↦ rw skip m
          | inr go ↦
              rw go
                (elim (max_by (by_lsn s) (members_of c mask))
                  as (λ o. In v (elim o [ none ↦ winners | some w ↦ insert_winner w winners ])) [
                    | none ↦ m
                    | some w ↦ insert_winner-keeps v w winners m
                  ])
        ]

  try_masks-keeps :
      (masks : List ℕ) (v : ℕ) (winners : List ℕ)
      → In v winners
      → In v (try_masks c s masks winners)
  unfolding try_masks
  try_masks-keeps [] v winners m = m
  try_masks-keeps (mask ∷ masks) v winners m =
      try_masks-keeps masks v (try_mask c s mask winners) (try_mask-keeps mask v winners m)

  try_mask-In :
      (mask w : ℕ) (winners : List ℕ) → IsElectedBy c s w mask → In w (try_mask c s mask winners)
  unfolding try_mask
  try_mask-In mask w winners e =
      let go : (not (length (members_of c mask) == majority c)
            || any (λ i. not (alive_at s i)) (members_of c mask))
          ≡ false =
        ground (arith, e.size, e.live) in
      rw (go, e.best) (In-insert_winner w winners)

  try_masks-In :
      (masks : List ℕ) (mask w : ℕ) (winners : List ℕ)
      → In mask masks
      → IsElectedBy c s w mask
      → In w (try_masks c s masks winners)
  unfolding try_masks
  try_masks-In [] mask w winners m e = absurd m
  try_masks-In (x ∷ masks) mask w winners (inl f) e =
      try_masks-keeps masks w (try_mask c s x winners) (try_mask-In x w winners (rw (sym f) e))
  try_masks-In (x ∷ masks) mask w winners (inr m) e =
      try_masks-In masks mask w (try_mask c s x winners) m e

  -- The shift of `1u32` does not wrap below 32 nodes.
  pub possible_new_primaries-In :
      (mask w : ℕ)
      → c.n < 32
      → 0 < mask
      → mask < one_shl c.n
      → majority c ≤ count c (alive_at s)
      → IsElectedBy c s w mask
      → In w (possible_new_primaries c s)
  unfolding possible_new_primaries
  possible_new_primaries-In mask w small pos fits enough e =
      let go : ltb (count c (alive_at s)) (majority c) ≡ false = ground arith in
      rw go (
        try_masks-In (range_from 1 (one_shl c.n - 1)) mask w []
          (range_from-In mask 1 (one_shl c.n - 1) (omega arith) (omega arith)) e)
