-- ===== src/Leadership/Offered.antt =====
-- When the actions of packages/consensus-model/src/leadership.rs are offered.
use hyperiondb.Prelude.{
  ℕ, ◌-◌, ◌<◌, ◌≡◌, inl, inr, true, false, not, ◌||◌, List, [], ◌∷◌, ltb, ltb→lt, ◌==◌, &&-split,
  Bool-cases, if◌then◌else◌, length, any, max_of, range_from, indices, In, All, All-append, All-map,
  All-of-In, All-indices,
}
use hyperiondb.Prelude.Words.{one_shl}
use hyperiondb.Leadership.{
  Leadership, LState, LAction, elect, commit, crash, recover, writable_at, alive_at, majority,
  members_of, mask_elections, elections, crash_or_recover, actions,
}

abbrev pub Offered : Leadership → LState → LAction → Type 0
Offered c s (elect winner voters) =
    (max_of s.cur_term < c.max_term) × In winner (members_of c voters)
Offered c s (commit w) = (alive_at s w ≡ true) × (writable_at s w ≡ true)
Offered c s (crash i) = alive_at s i ≡ true
Offered c s (recover i) = alive_at s i ≡ false

module _ (c : Leadership) (s : LState) where
  mask_elections-Offered :
      max_of s.cur_term < c.max_term → (mask : ℕ) → All (Offered c s) (mask_elections c s mask)
  unfolding mask_elections
  mask_elections-Offered h mask =
      elim (Bool-cases (
        not (length (members_of c mask) == majority c)
        || any (λ i. not (alive_at s i)) (members_of c mask))) [
          | inl skip ↦ rw skip tt
          | inr go ↦ rw go (
              All-map (Offered c s) (λ winner. elect winner mask) (members_of c mask)
                (All-of-In (λ w. Offered c s (elect w mask)) (members_of c mask) (λ w m. (h, m))))
        ]

  elections-Offered :
      max_of s.cur_term < c.max_term → (masks : List ℕ) → All (Offered c s) (elections c s masks)
  unfolding elections
  elections-Offered h [] = tt
  elections-Offered h (mask ∷ masks) =
      All-append (Offered c s) _ _ (mask_elections-Offered h mask) (elections-Offered h masks)

  every_election-Offered : All (Offered c s) (
      if ltb (max_of s.cur_term) c.max_term
      then elections c s (range_from 1 (one_shl c.n - 1))
      else [])
  every_election-Offered = elim (Bool-cases (ltb (max_of s.cur_term) c.max_term)) [
    | inl h ↦ rw h (elections-Offered (ltb→lt _ _ h) (range_from 1 (one_shl c.n - 1)))
    | inr h ↦ rw h tt
  ]

  crash_or_recover-Offered : (i : ℕ) → Offered c s (crash_or_recover s i)
  unfolding crash_or_recover
  crash_or_recover-Offered i = elim (Bool-cases (alive_at s i)) [ inl h ↦ rw h h | inr h ↦ rw h h ]

  -- Every action in the list meets its guard.
  pub actions-Offered : All (Offered c s) (actions c s)
  unfolding actions
  actions-Offered = All-append (Offered c s) _ _ every_election-Offered (
      All-append (Offered c s) _ _
        (All-map (Offered c s) commit _
          (All-indices (λ w. Offered c s (commit w)) _ c.n (λ w lt h. &&-split _ _ h)))
        (All-map (Offered c s) (crash_or_recover s) _ (
          All-of-In (λ i. Offered c s (crash_or_recover s i)) (indices c.n)
            (λ i m. crash_or_recover-Offered i))))
