-- ===== src/Prelude/Lists.antt =====
-- Lists measured and indexed by native numbers: Rust's `Vec`, its ranges and its iterator adaptors.
use Prim.Native.Nat.{ℕ, zero, suc, ◌+◌, ◌<◌, ◌≤◌, Ordering}
use mathlib.Core.Path.{◌≡◌, refl, ap}
use mathlib.Core.Bool.{Bool, true, false, ◌&&◌, ◌||◌}
use mathlib.Core.List.{List, [], ◌∷◌, ◌++◌, map}
use mathlib.Core.Option.{Option, none, some}
use native.Mathlib.Omega.{arith}
use hyperiondb.Prelude.Tests.{leb, ltb, ◌==◌, if◌then◌else◌}

module _ {ℓ} {A : Type ℓ} where
  abbrev pub length : List A → ℕ
  length [] = 0
  length (x ∷ xs) = suc (length xs)

  -- `d` stands for the panic of an index out of range.
  abbrev pub get_or : List A → ℕ → A → A
  get_or [] i d = d
  get_or (x ∷ xs) zero d = x
  get_or (x ∷ xs) (suc i) d = get_or xs i d

  abbrev pub get_elem? : List A → ℕ → Option A
  get_elem? [] i = none
  get_elem? (x ∷ xs) zero = some x
  get_elem? (x ∷ xs) (suc i) = get_elem? xs i

  -- A write out of range changes nothing.
  abbrev pub set : List A → ℕ → A → List A
  set [] i v = []
  set (x ∷ xs) zero v = v ∷ xs
  set (x ∷ xs) (suc i) v = x ∷ set xs i v

  abbrev pub replicate : ℕ → A → List A
  replicate zero a = []
  replicate (suc n) a = a ∷ replicate n a

  abbrev pub take : ℕ → List A → List A
  take zero xs = []
  take (suc n) [] = []
  take (suc n) (x ∷ xs) = x ∷ take n xs

  abbrev pub drop : ℕ → List A → List A
  drop zero xs = xs
  drop (suc n) [] = []
  drop (suc n) (x ∷ xs) = drop n xs

  abbrev pub filter : (A → Bool) → List A → List A
  filter p [] = []
  filter p (x ∷ xs) = if p x then x ∷ filter p xs else filter p xs

  abbrev pub any : (A → Bool) → List A → Bool
  any p [] = false
  any p (x ∷ xs) = p x || any p xs

  abbrev pub all : (A → Bool) → List A → Bool
  all p [] = true
  all p (x ∷ xs) = p x && all p xs

  abbrev pub find : (A → Bool) → List A → Option A
  find p [] = none
  find p (x ∷ xs) = if p x then some x else find p xs

  abbrev pub keep_by : Ordering → A → A → A
  keep_by Ordering.lt best x = x
  keep_by Ordering.eq best x = x
  keep_by Ordering.gt best x = best

  -- `Iterator::max_by` keeps the later of two elements that compare equal.
  abbrev pub max_by_from : (A → A → Ordering) → A → List A → A
  max_by_from cmp best [] = best
  max_by_from cmp best (x ∷ xs) = max_by_from cmp (keep_by (cmp best x) best x) xs

  abbrev pub max_by : (A → A → Ordering) → List A → Option A
  max_by cmp [] = none
  max_by cmp (x ∷ xs) = some (max_by_from cmp x xs)

  -- `v.push(x)` under a test
  abbrev pub push_if : Bool → A → List A
  push_if b x = if b then x ∷ [] else []

-- `iter().max()`; 0 stands for the panic of `unwrap` on an empty list.
abbrev pub max_of : List ℕ → ℕ
max_of [] = 0
max_of (x ∷ xs) = if leb x (max_of xs) then max_of xs else x

-- `i..i + n`, and `0..n`
abbrev pub range_from : ℕ → ℕ → List ℕ
range_from i zero = []
range_from i (suc n) = i ∷ range_from (i + 1) n

abbrev pub indices : ℕ → List ℕ
indices n = range_from 0 n

module _ {ℓ} {A : Type ℓ} where
  pub length-set : (xs : List A) (i : ℕ) (v : A) → length (set xs i v) ≡ length xs
  length-set [] i v = refl
  length-set (x ∷ xs) zero v = refl
  length-set (x ∷ xs) (suc i) v = ap suc (length-set xs i v)

  pub length-replicate : (n : ℕ) (a : A) → length (replicate n a) ≡ n
  length-replicate zero a = refl
  length-replicate (suc n) a = ap suc (length-replicate n a)

  pub length-append : (xs ys : List A) → length (xs ++ ys) ≡ length xs + length ys
  length-append [] ys = omega arith
  length-append (x ∷ xs) ys = omega (arith, length-append xs ys)

  pub length-map : {B : Type ℓ} (f : A → B) (xs : List A) → length (map f xs) ≡ length xs
  length-map f [] = refl
  length-map f (x ∷ xs) = ap suc (length-map f xs)

  pub get_or-replicate : (n i : ℕ) (a d : A) → i < n → get_or (replicate n a) i d ≡ a
  get_or-replicate zero i a d h = absurd (omega arith)
  get_or-replicate (suc n) zero a d h = refl
  get_or-replicate (suc n) (suc i) a d h = get_or-replicate n i a d (omega arith)

  pub get_or-set :
      (xs : List A) (i j : ℕ) (v d : A)
      → get_or (set xs i v) j d ≡ (if (i == j) && ltb i (length xs) then v else get_or xs j d)
  get_or-set [] i j v d = ground arith
  get_or-set (x ∷ xs) zero zero v d = ground arith
  get_or-set (x ∷ xs) zero (suc j) v d = ground arith
  get_or-set (x ∷ xs) (suc i) zero v d = ground arith
  get_or-set (x ∷ xs) (suc i) (suc j) v d = ground (arith, get_or-set xs i j v d)

pub get_or-le-max_of : (xs : List ℕ) (i : ℕ) → get_or xs i 0 ≤ max_of xs
get_or-le-max_of [] i = omega arith
get_or-le-max_of (x ∷ xs) zero = ground arith
get_or-le-max_of (x ∷ xs) (suc i) = ground (arith, get_or-le-max_of xs i)

module _ {ℓ} {A : Type ℓ} where
  pub get_elem?-append :
      (xs : List A) (x : A) (k : ℕ)
      → get_elem? (xs ++ x ∷ []) k ≡ (if k == length xs then some x else get_elem? xs k)
  get_elem?-append [] x zero = refl
  get_elem?-append [] x (suc k) = ground arith
  get_elem?-append (y ∷ xs) x zero = ground arith
  get_elem?-append (y ∷ xs) x (suc k) = ground (arith, get_elem?-append xs x k)

  pub get_elem?-set :
      (xs : List A) (i k : ℕ) (x y : A)
      → get_elem? xs i ≡ some y
      → get_elem? (set xs i x) k ≡ (if k == i then some x else get_elem? xs k)
  get_elem?-set [] i k x y h = cc
  get_elem?-set (z ∷ xs) zero zero x y h = refl
  get_elem?-set (z ∷ xs) zero (suc k) x y h = ground arith
  get_elem?-set (z ∷ xs) (suc i) zero x y h = ground arith
  get_elem?-set (z ∷ xs) (suc i) (suc k) x y h = ground (arith, get_elem?-set xs i k x y h)

  pub get_elem?-lt : (xs : List A) (k : ℕ) (x : A) → get_elem? xs k ≡ some x → k < length xs
  get_elem?-lt [] k x h = cc
  get_elem?-lt (y ∷ xs) zero x h = omega arith
  get_elem?-lt (y ∷ xs) (suc k) x h = omega (arith, get_elem?-lt xs k x h)
