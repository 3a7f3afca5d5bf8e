-- ===== src/Prelude/Quorum.antt =====
-- Two majorities of one list have a member in common.
use hyperiondb.Prelude.{
  ℕ, ◌+◌, ◌≤◌, ◌<◌, ◌≡◌, refl, Bool, true, ◌&&◌, List, [], ◌∷◌, arith, length, filter, In, inl, inr,
  Bool-cases, &&-split,
}

count_both :
    (p q : ℕ → Bool) (xs : List ℕ)
    → length (filter p xs) + length (filter q xs) ≤ length xs + length (filter (λ i. p i && q i) xs)
count_both p q [] = omega arith
count_both p q (x ∷ xs) = ground (arith, count_both p q xs)

pub member_of_count :
    (p : ℕ → Bool) (xs : List ℕ) → 0 < length (filter p xs) → (i : ℕ) × In i xs × (p i ≡ true)
member_of_count p [] h = absurd (omega arith)
member_of_count p (x ∷ xs) h = elim (Bool-cases (p x)) [
  | inl t ↦ (x, inl refl, t)
  | inr f ↦ let r = member_of_count p xs (rw f at h) in (r.0, inr r.1, r.2)
]

pub quorums_meet :
    (p q : ℕ → Bool) (xs : List ℕ)
    → length xs < length (filter p xs) + length (filter q xs)
    → (i : ℕ) × In i xs × (p i ≡ true) × (q i ≡ true)
quorums_meet p q xs h =
    let r = member_of_count (λ i. p i && q i) xs (omega (arith, count_both p q xs)) in
    let b = &&-split (p r.0) (q r.0) r.2 in (r.0, r.1, b.0, b.1)

-- A test that passes wherever another does passes at least as often.
pub count_mono :
    (p q : ℕ → Bool) (xs : List ℕ)
    → ((i : ℕ) → p i ≡ true → q i ≡ true)
    → length (filter p xs) ≤ length (filter q xs)
count_mono p q [] h = omega arith
count_mono p q (x ∷ xs) h = ground (arith, h x, count_mono p q xs h)

pub count_all :
    (p : ℕ → Bool) (xs : List ℕ)
    → ((i : ℕ) → In i xs → p i ≡ true)
    → length (filter p xs) ≡ length xs
count_all p [] h = refl
count_all p (x ∷ xs) h = ground (arith, h x (inl refl), count_all p xs (λ i m. h i (inr m)))
