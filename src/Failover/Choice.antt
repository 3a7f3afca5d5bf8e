-- ===== src/Failover/Choice.antt =====
-- `choose_primary` of src/failover.rs: the most advanced node, the same for any order of the nodes.
use hyperiondb.Prelude.{
  ◌≤◌, ◌<◌, ◌≡◌, ◌≢◌, refl, ◌⊎◌, inl, true, false, some, List, [], ◌∷◌, arith, Ordering,
  max_by_from, In, ap, sym, ◌∙◌, All, All-In, All-mono,
}
use hyperiondb.Prelude.MaxBy.{IsPreorder, max_by_from_lem}
use hyperiondb.Failover.{Candidate, by_candidate, choose_primary}

-- `x` is behind `c`; or level with it, and in recovery where `c` is not; or level, in the same
-- state, and with an id that is not smaller.
abbrev pub NotAhead : Candidate → Candidate → Type 0
NotAhead x c =
    (x.1 < c.1) ⊎ ((x.1 ≡ c.1) × (((x.2 ≡ true) × (c.2 ≡ false)) ⊎ ((x.2 ≡ c.2) × (c.0 ≤ x.0))))

by_candidate-IsPreorder : IsPreorder by_candidate
unfolding by_candidate
by_candidate-IsPreorder = record {
  reflexive = λ a. ground arith;
  transitive = λ a b d p q. ground arith;
  total = λ a b e. ground arith;
}

by_candidate-NotAhead : (x c : Candidate) → by_candidate x c ≢ Ordering.gt → NotAhead x c
unfolding by_candidate
by_candidate-NotAhead x c h = ground arith

NotAhead-antisymm : (x c : Candidate) → NotAhead x c → NotAhead c x → x ≡ c
NotAhead-antisymm x c h k = ground arith

chosen : (x : Candidate) (xs : List Candidate) → Candidate
chosen x xs = max_by_from by_candidate x xs

choose_primary-chosen :
    (x : Candidate) (xs : List Candidate) → choose_primary (x ∷ xs) ≡ some (chosen x xs).0
unfolding choose_primary chosen
choose_primary-chosen x xs = refl

chosen_lem :
    (x : Candidate) (xs : List Candidate)
    → In (chosen x xs) (x ∷ xs) × All (λ y. NotAhead y (chosen x xs)) (x ∷ xs)
unfolding chosen
chosen_lem x xs =
    let (i, a) = max_by_from_lem by_candidate by_candidate-IsPreorder x xs in
    (
      i,
      All-mono _ (λ y. NotAhead y (max_by_from by_candidate x xs)) (x ∷ xs)
          (λ y h. by_candidate-NotAhead y (max_by_from by_candidate x xs) h) a,
    )

-- From one candidate or more, a candidate is chosen that none is ahead of: by position, then for
-- not being in recovery, then by the smaller id.
pub choose_primary-best :
    (x : Candidate) (xs : List Candidate)
    → (c : Candidate) × (choose_primary (x ∷ xs) ≡ some c.0)
      × In c (x ∷ xs)
      × All (λ y. NotAhead y c) (x ∷ xs)
choose_primary-best x xs =
    let (i, a) = chosen_lem x xs in (chosen x xs, choose_primary-chosen x xs, i, a)

-- Two lists with the same candidates, in any order, give the same choice.
pub choose_primary-order :
    (xs ys : List Candidate)
    → ((c : Candidate) → In c xs → In c ys)
    → ((c : Candidate) → In c ys → In c xs)
    → choose_primary xs ≡ choose_primary ys
choose_primary-order [] [] h k = refl
choose_primary-order [] (y ∷ ys) h k = absurd (k y (inl refl))
choose_primary-order (x ∷ xs) [] h k = absurd (h x (inl refl))
choose_primary-order (x ∷ xs) (y ∷ ys) h k =
    let c = chosen x xs in
    let d = chosen y ys in
    let (i, a) = chosen_lem x xs in
    let (j, b) = chosen_lem y ys in
    let same : c ≡ d =
      NotAhead-antisymm c d (All-In (λ z. NotAhead z d) (y ∷ ys) c b (h c i))
        (All-In (λ z. NotAhead z c) (x ∷ xs) d a (k d j)) in
    choose_primary-chosen x xs
    ∙ ap (λ (z : Candidate). some z.0) same
    ∙ sym (choose_primary-chosen y ys)
