-- ===== src/Prelude/Masks.antt =====
-- Masks of nodes: a mask for every set, and the bits of an interval counted.
use native.Mathlib.Nat.{div-div-eq-div-mul, pow-suc}
use hyperiondb.Prelude.{
  ℕ, zero, suc, ◌+◌, ◌-◌, ◌*◌, ◌/◌, ◌%◌, ◌^◌, ◌≤◌, ◌<◌, ◌≡◌, ◌∙◌, sym, ap, Bool, true, ◌&&◌, arith,
  leb, ltb, ◌==◌, length, filter, range_from, if◌then◌else◌, bool_byte, Bool-cases, inl, inr,
}
use hyperiondb.Prelude.Words.{has_bit}

-- The mask of the numbers below `n` that pass.
pub mask_of : (ℕ → Bool) → ℕ → ℕ
mask_of p zero = 0
mask_of p (suc n) = bool_byte (p 0) + 2 * mask_of (λ i. p (suc i)) n

pub mask_of-lt : (p : ℕ → Bool) (n : ℕ) → mask_of p n < 2 ^ n
unfolding mask_of
mask_of-lt p zero = omega arith
mask_of-lt p (suc n) = elim (Bool-cases (p 0)) [
  | inl e ↦ rw e (omega (arith, pow-suc 2 n, mask_of-lt (λ i. p (suc i)) n))
  | inr e ↦ rw e (omega (arith, pow-suc 2 n, mask_of-lt (λ i. p (suc i)) n))
]

pub mask_of-pos : (p : ℕ → Bool) (n i : ℕ) → i < n → p i ≡ true → 0 < mask_of p n
unfolding mask_of
mask_of-pos p zero i h e = absurd (omega arith)
mask_of-pos p (suc n) zero h e = rw e (omega arith)
mask_of-pos p (suc n) (suc i) h e = omega (arith, mask_of-pos (λ j. p (suc j)) n i (omega arith) e)

halved : (m i : ℕ) → m / 2 ^ suc i ≡ m / 2 / 2 ^ i
halved m i = ap (λ k. m / k) (omega (arith, pow-suc 2 i)) ∙ sym (div-div-eq-div-mul m 2 (2 ^ i))

bit_of-mask_of : (p : ℕ → Bool) (n i : ℕ) → i < n → (mask_of p n / 2 ^ i % 2 == 1) ≡ p i
unfolding mask_of
bit_of-mask_of p zero i h = absurd (omega arith)
bit_of-mask_of p (suc n) zero h = elim (Bool-cases (p 0)) [
  | inl e ↦ rw e (ground arith)
  | inr e ↦ rw e (ground arith)
]
bit_of-mask_of p (suc n) (suc i) h =
    let m = mask_of (λ j. p (suc j)) n in
    let half : (bool_byte (p 0) + 2 * m) / 2 ≡ m = elim (Bool-cases (p 0)) [
      | inl e ↦ rw e (omega arith)
      | inr e ↦ rw e (omega arith)
    ] in
    rw (halved (bool_byte (p 0) + 2 * m) i, half)
      (bit_of-mask_of (λ j. p (suc j)) n i (omega arith))

pub has_bit-mask_of : (p : ℕ → Bool) (n i : ℕ) → n < 32 → i < n → has_bit (mask_of p n) i ≡ p i
unfolding has_bit
has_bit-mask_of p n i small h = let e : i % 32 ≡ i = omega arith in rw e (bit_of-mask_of p n i h)

-- The numbers of an interval.
unfoldable pub between : ℕ → ℕ → ℕ → Bool
between lo hi i = leb lo i && ltb i hi

pub count_between :
    (lo hi a n : ℕ)
    → lo ≤ hi
    → hi ≤ a + n
    → length (filter (between lo hi) (range_from a n)) ≡ hi - (if leb a lo then lo else a)
unfolding between
count_between lo hi a zero h k = ground arith
count_between lo hi a (suc n) h k = ground (arith, count_between lo hi (a + 1) n h (omega arith))
