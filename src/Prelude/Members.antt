-- ===== src/Prelude/Members.antt =====
-- Membership in a list, with the place kept, and what holds of every member.
use Prim.Native.Nat.{ℕ, zero, suc, ◌+◌, ◌<◌, ◌≤◌}
use mathlib.Core.Path.{◌≡◌, refl, ap}
use mathlib.Core.Bool.{Bool, true, false}
use mathlib.Core.Logic.{◌⊎◌, inl, inr}
use mathlib.Core.List.{List, [], ◌∷◌, ◌++◌, map}
use mathlib.Core.Option.{some}
use native.Mathlib.Decide.{dec_lt}
use native.Mathlib.Omega.{arith}
use hyperiondb.Prelude.Tests.{Bool-cases}
use hyperiondb.Prelude.Lists.{get_elem?, filter, push_if, range_from, indices, any, length}

abbrev pub In : {A : Type 0} → A → List A → Type 0
In a [] = ⊥
In a (x ∷ xs) = (a ≡ x) ⊎ In a xs

abbrev pub All : {A : Type 0} → (A → Type 0) → List A → Type 0
All P [] = Unit
All P (x ∷ xs) = P x × All P xs

module _ {A : Type 0} (P : A → Type 0) where
  pub All-append : (xs ys : List A) → All P xs → All P ys → All P (xs ++ ys)
  All-append [] ys hx hy = hy
  All-append (x ∷ xs) ys hx hy = (hx.0, All-append xs ys hx.1 hy)

  pub All-push_if : (b : Bool) (x : A) → (b ≡ true → P x) → All P (push_if b x)
  All-push_if true x h = (h refl, tt)
  All-push_if false x h = tt

  pub All-In : (xs : List A) (a : A) → All P xs → In a xs → P a
  All-In [] a h m = absurd m
  All-In (x ∷ xs) a h (inl e) = rw e h.0
  All-In (x ∷ xs) a h (inr m) = All-In xs a h.1 m

  pub All-of-In : (xs : List A) → ((a : A) → In a xs → P a) → All P xs
  All-of-In [] h = tt
  All-of-In (x ∷ xs) h = (h x (inl refl), All-of-In xs (λ a m. h a (inr m)))

  pub All-map : {B : Type 0} (f : B → A) (xs : List B) → All (λ b. P (f b)) xs → All P (map f xs)
  All-map f [] h = tt
  All-map f (x ∷ xs) h = (h.0, All-map f xs h.1)

pub All-mono :
    {A : Type 0} (P Q : A → Type 0) (xs : List A) → ((a : A) → P a → Q a) → All P xs → All Q xs
All-mono P Q [] h a = tt
All-mono P Q (x ∷ xs) h a = (h x a.0, All-mono P Q xs h a.1)

module _ {A : Type 0} where
  pub get_elem?-In : (xs : List A) (i : ℕ) (a : A) → get_elem? xs i ≡ some a → In a xs
  get_elem?-In [] i a h = cc
  get_elem?-In (x ∷ xs) zero a h = inl (cc)
  get_elem?-In (x ∷ xs) (suc i) a h = inr (get_elem?-In xs i a h)

  In-filter_head :
      (p : A → Bool) (a x : A) (xs : List A)
      → p x ≡ true
      → (In a (filter p xs) → In a xs × (p a ≡ true))
      → (a ≡ x) ⊎ In a (filter p xs)
      → In a (x ∷ xs) × (p a ≡ true)
  In-filter_head p a x xs t ih (inl e) = (inl e, rw e t)
  In-filter_head p a x xs t ih (inr m) = let r = ih m in (inr r.0, r.1)

  pub In-filter : (p : A → Bool) (a : A) (xs : List A) → In a (filter p xs) → In a xs × (p a ≡ true)
  In-filter p a [] h = absurd h
  In-filter p a (x ∷ xs) h = elim (Bool-cases (p x)) [
    | inl yes_x ↦ In-filter_head p a x xs yes_x (In-filter p a xs) (rw yes_x at h)
    | inr no_x ↦ let r = In-filter p a xs (rw no_x at h) in (inr r.0, r.1)
  ]

  pub filter-In : (p : A → Bool) (a : A) (xs : List A) → In a xs → p a ≡ true → In a (filter p xs)
  filter-In p a [] m t = m
  filter-In p a (x ∷ xs) (inl e) t = rw (rw e at t) (inl e)
  filter-In p a (x ∷ xs) (inr m) t = elim (Bool-cases (p x)) [
    | inl f ↦ rw f (inr (filter-In p a xs m t))
    | inr f ↦ rw f (filter-In p a xs m t)
  ]

  pub append-In_left : (a : A) (xs ys : List A) → In a xs → In a (xs ++ ys)
  append-In_left a [] ys m = absurd m
  append-In_left a (x ∷ xs) ys (inl e) = inl e
  append-In_left a (x ∷ xs) ys (inr m) = inr (append-In_left a xs ys m)

  pub append-In_right : (a : A) (xs ys : List A) → In a ys → In a (xs ++ ys)
  append-In_right a [] ys m = m
  append-In_right a (x ∷ xs) ys m = inr (append-In_right a xs ys m)

  pub map-In : {B : Type 0} (f : A → B) (a : A) (xs : List A) → In a xs → In (f a) (map f xs)
  map-In f a [] m = absurd m
  map-In f a (x ∷ xs) (inl e) = inl (ap f e)
  map-In f a (x ∷ xs) (inr m) = inr (map-In f a xs m)

  pub not-In-of-any :
      (p : A → Bool) (a : A) (xs : List A) → any p xs ≡ false → In a xs → p a ≡ false
  not-In-of-any p a [] h m = absurd m
  not-In-of-any p a (x ∷ xs) h (inl e) = rw e (ground arith)
  not-In-of-any p a (x ∷ xs) h (inr m) = not-In-of-any p a xs (ground arith) m

pub In-range_from : (i k n : ℕ) → In i (range_from k n) → (k ≤ i) × (i < k + n)
In-range_from i k zero h = absurd h
In-range_from i k (suc n) (inl e) = omega arith
In-range_from i k (suc n) (inr m) = omega (arith, In-range_from i (k + 1) n m)

pub range_from-In : (i k n : ℕ) → k ≤ i → i < k + n → In i (range_from k n)
range_from-In i k zero h l = absurd (omega arith)
range_from-In i k (suc n) h l = elim (dec_lt k i) [
  | yes above ↦ inr (range_from-In i (k + 1) n (omega arith) (omega arith))
  | no first ↦ inl (omega arith)
]

pub length-range_from : (k n : ℕ) → length (range_from k n) ≡ n
length-range_from k zero = refl
length-range_from k (suc n) = omega (arith, length-range_from (k + 1) n)

-- The indices that pass a test lie in range.
pub All-indices :
    (P : ℕ → Type 0) (p : ℕ → Bool) (n : ℕ)
    → ((i : ℕ) → i < n → p i ≡ true → P i)
    → All P (filter p (indices n))
All-indices P p n h =
    All-of-In P (filter p (indices n))
      λ i m. let r = In-filter p i (indices n) m in h i (omega (arith, In-range_from i 0 n r.0)) r.1
