-- ===== src/Prelude/Bytes.antt =====
-- Big-endian bytes: `to_be_bytes`, `from_be_bytes` and slices of a byte string.
use native.Mathlib.Nat.{pow-suc, add-zero, add-suc}
use hyperiondb.Prelude.{
  ℕ, zero, suc, ◌+◌, ◌-◌, ◌*◌, ◌/◌, ◌%◌, ◌^◌, ◌<◌, ◌≡◌, refl, Option, none, some, List, [], ◌∷◌,
  ◌++◌, arith, leb, if◌then◌else◌, length, get_or, get_elem?, take, drop, length-append,
}

-- The low `k` bytes of `n`, the most significant first.
unfoldable pub be_bytes : ℕ → ℕ → List ℕ
be_bytes zero n = []
be_bytes (suc k) n = be_bytes k (n / 256) ++ (n % 256) ∷ []

unfoldable pub from_be_acc : ℕ → List ℕ → ℕ
from_be_acc acc [] = acc
from_be_acc acc (b ∷ bs) = from_be_acc (acc * 256 + b) bs

abbrev pub from_be : List ℕ → ℕ
from_be bs = from_be_acc 0 bs

-- `bytes.get(lo..hi)`
abbrev pub slice : {A : Type 0} → List A → ℕ → ℕ → Option (List A)
slice bs lo hi = if leb hi (length bs) then some (take (hi - lo) (drop lo bs)) else none

pub length-be_bytes : (k n : ℕ) → length (be_bytes k n) ≡ k
unfolding be_bytes
length-be_bytes zero n = refl
length-be_bytes (suc k) n =
    omega (arith, length-append (be_bytes k (n / 256)) (n % 256 ∷ []), length-be_bytes k (n / 256))

from_be_acc-append :
    (acc : ℕ) (xs : List ℕ) (b : ℕ) → from_be_acc acc (xs ++ b ∷ []) ≡ from_be_acc acc xs * 256 + b
unfolding from_be_acc
from_be_acc-append acc [] b = refl
from_be_acc-append acc (x ∷ xs) b = from_be_acc-append (acc * 256 + x) xs b

-- A number that fits in `k` bytes is read back.
pub from_be-be_bytes : (k n : ℕ) → n < 256 ^ k → from_be (be_bytes k n) ≡ n
unfolding be_bytes from_be_acc
from_be-be_bytes zero n h = omega arith
from_be-be_bytes (suc k) n h =
    let ih = from_be-be_bytes k (n / 256) (omega (arith, pow-suc 256 k)) in
    omega (arith, from_be_acc-append 0 (be_bytes k (n / 256)) (n % 256), ih)

module _ {A : Type 0} where
  pub take-length-append : (xs ys : List A) (n : ℕ) → length xs ≡ n → take n (xs ++ ys) ≡ xs
  take-length-append [] ys zero e = refl
  take-length-append [] ys (suc n) e = absurd (omega arith)
  take-length-append (x ∷ xs) ys zero e = absurd (omega arith)
  take-length-append (x ∷ xs) ys (suc n) e = rw (take-length-append xs ys n (omega arith))

  pub drop-length-append : (xs ys : List A) (n : ℕ) → length xs ≡ n → drop n (xs ++ ys) ≡ ys
  drop-length-append [] ys zero e = refl
  drop-length-append [] ys (suc n) e = absurd (omega arith)
  drop-length-append (x ∷ xs) ys zero e = absurd (omega arith)
  drop-length-append (x ∷ xs) ys (suc n) e = drop-length-append xs ys n (omega arith)

  -- What stands behind a prefix of `n` elements.
  pub get_or-length-append :
      (xs ys : List A) (y d : A) (n : ℕ) → length xs ≡ n → get_or (xs ++ y ∷ ys) n d ≡ y
  get_or-length-append [] ys y d zero e = refl
  get_or-length-append [] ys y d (suc n) e = absurd (omega arith)
  get_or-length-append (x ∷ xs) ys y d zero e = absurd (omega arith)
  get_or-length-append (x ∷ xs) ys y d (suc n) e = get_or-length-append xs ys y d n (omega arith)

  pub get_elem?-suc-append :
      (xs ys : List A) (y : A) (n : ℕ)
      → length xs ≡ n
      → get_elem? (xs ++ y ∷ ys) (suc n) ≡ get_elem? ys 0
  get_elem?-suc-append [] ys y zero e = refl
  get_elem?-suc-append [] ys y (suc n) e = absurd (omega arith)
  get_elem?-suc-append (x ∷ xs) ys y zero e = absurd (omega arith)
  get_elem?-suc-append (x ∷ xs) ys y (suc n) e = get_elem?-suc-append xs ys y n (omega arith)

  pub drop-suc-append :
      (xs ys : List A) (y : A) (n k : ℕ)
      → length xs ≡ n
      → drop (suc (k + n)) (xs ++ y ∷ ys) ≡ drop k ys
  drop-suc-append [] ys y zero k e = rw add-zero
  drop-suc-append [] ys y (suc n) k e = absurd (omega arith)
  drop-suc-append (x ∷ xs) ys y zero k e = absurd (omega arith)
  drop-suc-append (x ∷ xs) ys y (suc n) k e = rw add-suc (drop-suc-append xs ys y n k (omega arith))

  pub length-drop : (n : ℕ) (xs : List A) → length (drop n xs) ≡ length xs - n
  length-drop zero xs = omega arith
  length-drop (suc n) [] = omega arith
  length-drop (suc n) (x ∷ xs) = omega (arith, length-drop n xs)
