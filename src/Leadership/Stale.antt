-- ===== src/Leadership/Stale.antt =====
-- Runs of the model of packages/consensus-model/src/leadership.rs at any size: the other nodes elect
-- node 1, node 0 is left a stale leader, and without fencing both commit.
use hyperiondb.Prelude.{
  ℕ, zero, suc, ◌+◌, ◌-◌, ◌≤◌, ◌<◌, ◌≡◌, refl, sym, ap, ◌∙◌, Bool, true, false, not, ◌&&◌, ◌||◌,
  inl, inr, some, List, [], ◌∷◌, map, arith, ltb, leb, ◌==◌, all, any, if◌then◌else◌, length,
  get_or, replicate, max_of, get_or-le-max_of, filter, indices, range_from, In, filter-In,
  range_from-In, append-In_left, append-In_right, map-In, length-set, length-replicate, get_or-set,
  get_or-replicate,
}
use hyperiondb.Prelude.Words.{one_shl, has_bit}
use hyperiondb.Prelude.Masks.{between}
use hyperiondb.Prelude.Group.{
  group, any-none, has_bit-group, length-group, In-group, group-In, group-pos, group-lt,
}
use hyperiondb.Explore.{take, stay, later}
use hyperiondb.Leadership.{
  Leadership, LState, LAction, elect, commit, term_at, writable_at, alive_at, majority, init_state,
  members_of, mask_elections, elections, actions, elect_nodes, next_state, within_boundary,
  stale_writable_leader_present, Reach,
}
use hyperiondb.Leadership.Election.{IsElected, elect_nodes-IsElected}

-- The cluster has at least three nodes and less than 32, whose masks a `u32` holds, and room for
-- one election.
pub record IsRoomy (c : Leadership) : Type 0 where
  pub many : 3 ≤ c.n
  pub few : c.n < 32
  pub term_room : 2 ≤ c.max_term

all-get_or :
    (p : ℕ → Bool) (xs : List ℕ)
    → ((i : ℕ) → i < length xs → p (get_or xs i 0) ≡ true)
    → all p xs ≡ true
all-get_or p [] h = refl
all-get_or p (x ∷ xs) h =
    ground (arith, h 0 (omega arith), all-get_or p xs (λ i lt. h (suc i) (omega arith)))

any-In : (p : ℕ → Bool) (i : ℕ) (xs : List ℕ) → In i xs → p i ≡ true → any p xs ≡ true
any-In p i [] m h = absurd m
any-In p i (x ∷ xs) (inl e) h = rw (rw e at h) refl
any-In p i (x ∷ xs) (inr m) h = ground (arith, any-In p i xs m h)

max_of-replicate : (n : ℕ) → 0 < n → max_of (replicate n 1) ≡ 1
max_of-replicate zero h = absurd (omega arith)
max_of-replicate (suc zero) h = refl
max_of-replicate (suc (suc n)) h = ground (arith, max_of-replicate (suc n) (omega arith))

module _ (c : Leadership) (s : LState) where
  elections-In :
      (a : LAction) (masks : List ℕ) (mask : ℕ)
      → In mask masks
      → In a (mask_elections c s mask)
      → In a (elections c s masks)
  unfolding elections
  elections-In a [] mask m h = absurd m
  elections-In a (x ∷ masks) mask (inl e) h =
      append-In_left a (mask_elections c s x) (elections c s masks) (rw (sym e) h)
  elections-In a (x ∷ masks) mask (inr m) h =
      append-In_right a (mask_elections c s x) (elections c s masks) (elections-In a masks mask m h)

  offered_elect :
      (w mask : ℕ)
      → max_of s.cur_term < c.max_term
      → 0 < mask
      → mask < one_shl c.n
      → length (members_of c mask) ≡ majority c
      → any (λ i. not (alive_at s i)) (members_of c mask) ≡ false
      → In w (members_of c mask)
      → In (elect w mask) (actions c s)
  unfolding actions mask_elections
  offered_elect w mask room pos fits size live m =
      let go : (not (length (members_of c mask) == majority c)
            || any (λ i. not (alive_at s i)) (members_of c mask))
          ≡ false =
        ground arith in
      let here : In (elect w mask) (mask_elections c s mask) =
        rw go (map-In (λ winner. elect winner mask) w (members_of c mask) m) in
      let there : In (elect w mask) (
          if ltb (max_of s.cur_term) c.max_term
          then elections c s (range_from 1 (one_shl c.n - 1))
          else []) =
        let open_term : ltb (max_of s.cur_term) c.max_term ≡ true = ground arith in
        rw open_term (
          elections-In (elect w mask) (range_from 1 (one_shl c.n - 1)) mask
            (range_from-In mask 1 (one_shl c.n - 1) (omega arith) (omega arith)) here) in
      append-In_left (elect w mask) _ _ there

  pub offered_commit :
      (w : ℕ) → w < c.n → alive_at s w ≡ true → writable_at s w ≡ true → In (commit w) (actions c s)
  unfolding actions
  offered_commit w lt up hw =
      append-In_right (commit w)
        (if ltb (max_of s.cur_term) c.max_term
          then elections c s (range_from 1 (one_shl c.n - 1))
          else [])
        _
        (append-In_left (commit w)
          (map commit (filter (λ w. alive_at s w && writable_at s w) (indices c.n))) _
          (map-In commit w (filter (λ w. alive_at s w && writable_at s w) (indices c.n)) (
            filter-In (λ w. alive_at s w && writable_at s w) w (indices c.n)
              (range_from-In w 0 c.n (omega arith) (omega arith)) (ground arith))))

module _ (c : Leadership) (roomy : IsRoomy c) where
  open roomy use {many, few, term_room}

  hi : ℕ
  hi = 1 + majority c

  wide : 1 < hi
  unfolding hi majority
  wide = omega arith

  fits : hi ≤ c.n
  unfolding hi majority
  fits = omega arith

  mask : ℕ
  mask = group 1 hi c.n

  -- Node 1 is elected by the group from 1 on.
  pub stale : LState
  stale = elect_nodes 1 mask 2 (indices c.n) (init_state c)

  stale-IsElected : IsElected 1 mask 2 0 c.n (init_state c) stale
  unfolding stale init_state
  stale-IsElected =
      elect_nodes-IsElected 1 mask 2 (init_state c) 0 c.n
        (omega (arith, length-replicate {A = ℕ} c.n 1))
        (omega (arith, length-set (replicate c.n false) 0 true, length-replicate c.n false))

  open stale-IsElected use {
    terms, writables, term_len, same_alive, same_committed, same_leader, same_split,
  }

  term-stale : (i : ℕ) → i < c.n → term_at stale i ≡ (if has_bit mask i then 2 else 1)
  unfolding init_state
  term-stale i h = ground (arith, terms i, get_or-replicate {A = ℕ} c.n i 1 0 h)

  in_group : (i : ℕ) → i < c.n → has_bit mask i ≡ (leb 1 i && ltb i hi)
  unfolding mask between
  in_group i h = has_bit-group 1 hi c.n few wide fits i h

  pub old_term : term_at stale 0 ≡ 1
  old_term = ground (arith, term-stale 0 (omega arith), in_group 0 (omega arith))

  pub new_term : term_at stale 1 ≡ 2
  new_term = ground (arith, wide, term-stale 1 (omega arith), in_group 1 (omega arith))

  pub up-stale : (i : ℕ) → i < c.n → alive_at stale i ≡ true
  unfolding init_state
  up-stale i h =
      ap (λ (xs : List Bool). get_or xs i false) same_alive ∙ get_or-replicate c.n i true false h

  pub writable-old : writable_at stale 0 ≡ true
  unfolding init_state
  writable-old = ground (
    arith,
    writables 0,
    in_group 0 (omega arith),
    get_or-set (replicate c.n false) 0 0 true false,
    length-replicate c.n false,
  )

  pub writable-new : writable_at stale 1 ≡ true
  writable-new = ground (arith, wide, writables 1, in_group 1 (omega arith))

  pub inside-stale : within_boundary c stale ≡ true
  unfolding within_boundary init_state
  inside-stale =
      all-get_or (λ t. leb t c.max_term) stale.cur_term
        (λ i h.
          ground (arith, term-stale i (omega (arith, term_len, length-replicate {A = ℕ} c.n 1))))

  first_term : max_of (init_state c).cur_term ≡ 1
  unfolding init_state
  first_term = max_of-replicate c.n (omega arith)

  elected-stale : next_state c (init_state c) (elect 1 mask) ≡ some stale
  unfolding next_state stale
  elected-stale = rw first_term refl

  offers_elect : In (elect 1 mask) (actions c (init_state c))
  unfolding mask init_state hi
  offers_elect =
      offered_elect c (init_state c) 1 mask (omega (arith, first_term))
        (group-pos 1 hi c.n few wide fits) (group-lt 1 hi c.n few wide fits)
        (omega (arith, length-group 1 hi c.n few wide fits))
        (any-none (λ i. not (get_or (replicate c.n true) i false)) (members_of c mask)
          (λ i m.
            let inside = In-group 1 hi c.n few wide fits i m in
            ground (arith, get_or-replicate c.n i true false (omega (arith, inside, fits)))))
        (group-In 1 hi c.n few wide fits)

  pub stale-Reach : Reach c stale
  stale-Reach = later stay (take (elect 1 mask) offers_elect elected-stale inside-stale)

  pub committed-stale : stale.max_committed_term ≡ 0
  unfolding init_state
  committed-stale = same_committed

  pub stale-present : stale_writable_leader_present stale ≡ true
  unfolding stale_writable_leader_present init_state
  stale-present =
      any-In _ 0 (indices (length stale.cur_term))
        (range_from-In 0 0 (length stale.cur_term) (omega arith)
          (omega (arith, term_len, length-replicate {A = ℕ} c.n 1)))
        (ground (
          arith,
          up-stale 0 (omega arith),
          writable-old,
          old_term,
          new_term,
          get_or-le-max_of stale.cur_term 1,
        ))
