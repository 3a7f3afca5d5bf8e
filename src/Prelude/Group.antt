-- ===== src/Prelude/Group.antt =====
-- The mask of the nodes from `lo` to below `hi`, in a cluster whose masks a `u32` holds.
use hyperiondb.Prelude.{
  Bool, ℕ, ◌-◌, ◌%◌, ◌^◌, ◌≤◌, ◌<◌, ◌≡◌, refl, ap, false, List, [], ◌∷◌, arith, any, length, filter,
  indices, In, inl, inr, In-filter, filter-In, In-range_from, range_from-In,
}
use hyperiondb.Prelude.Words.{has_bit, one_shl}
use hyperiondb.Prelude.Masks.{
  mask_of, mask_of-lt, mask_of-pos, has_bit-mask_of, between, count_between,
}

pub any-none : (p : ℕ → Bool) (xs : List ℕ) → ((i : ℕ) → In i xs → p i ≡ false) → any p xs ≡ false
any-none p [] h = refl
any-none p (x ∷ xs) h = ground (arith, h x (inl refl), any-none p xs (λ i m. h i (inr m)))

filter-ext :
    (p q : ℕ → Bool) (xs : List ℕ) → ((i : ℕ) → In i xs → p i ≡ q i) → filter p xs ≡ filter q xs
filter-ext p q [] h = refl
filter-ext p q (x ∷ xs) h = rw (h x (inl refl), filter-ext p q xs (λ i m. h i (inr m))) refl

pub group : (lo hi n : ℕ) → ℕ
group lo hi n = mask_of (between lo hi) n

module _ (lo hi n : ℕ) (few : n < 32) (some_node : lo < hi) (inside : hi ≤ n) where
  pub has_bit-group : (i : ℕ) → i < n → has_bit (group lo hi n) i ≡ between lo hi i
  unfolding group
  has_bit-group i h = has_bit-mask_of (between lo hi) n i few h

  members-group : filter (has_bit (group lo hi n)) (indices n) ≡ filter (between lo hi) (indices n)
  members-group =
      filter-ext (has_bit (group lo hi n)) (between lo hi) (indices n)
        (λ i m. has_bit-group i (omega (arith, In-range_from i 0 n m)))

  pub length-between : length (filter (between lo hi) (indices n)) ≡ hi - lo
  length-between = ground (arith, count_between lo hi 0 n (omega arith) (omega arith))

  pub length-group : length (filter (has_bit (group lo hi n)) (indices n)) ≡ hi - lo
  length-group = rw members-group length-between

  pub In-group : (i : ℕ) → In i (filter (has_bit (group lo hi n)) (indices n)) → (lo ≤ i) × (i < hi)
  unfolding between
  In-group i m =
      let r = In-filter (between lo hi) i (indices n) (rw members-group at m) in
      (ground (arith, r.1), ground (arith, r.1))

  pub group-In : In lo (filter (has_bit (group lo hi n)) (indices n))
  unfolding between
  group-In = rw members-group (
      filter-In (between lo hi) lo (indices n) (range_from-In lo 0 n (omega arith) (omega arith))
        (ground arith))

  pub group-pos : 0 < group lo hi n
  unfolding group between
  group-pos = mask_of-pos (between lo hi) n lo (omega arith) (ground arith)

  pub group-lt : group lo hi n < one_shl n
  unfolding group
  group-lt =
      let e : 2 ^ (n % 32) ≡ 2 ^ n = ap (λ k. 2 ^ k) (omega arith) in
      rw e (mask_of-lt (between lo hi) n)
