-- ===== src/Prelude/Text/Decimal.antt =====
-- Decimal numbers: `to_string` of a `u64`, and `str::parse` of `u64` and `i64`.
use hyperiondb.Prelude.{
  ℕ, zero, suc, ◌+◌, ◌-◌, ◌*◌, ◌/◌, ◌%◌, ◌^◌, ◌<◌, ◌≤◌, ◌≡◌, refl, ◌∙◌, ◌||◌, Option, none, some,
  [], ◌∷◌, arith, leb, ltb, ◌==◌, if◌then◌else◌, All, ◌>>=◌, ap, sym, ◌≢◌, ◌⊎◌, inl, inr,
  Bool-cases, >>=-eq-some,
}
use mathlib.Core.Path.{subst}
use mathlib.Core.Option.{some-injective}
use native.Mathlib.Nat.{pow-suc}
use hyperiondb.Prelude.Words.{u64_mod}
use hyperiondb.Prelude.Text.{Text}

-- The decimal digits of `n` in front of `out`; a `u64` has at most 20.
unfoldable pub digits : ℕ → ℕ → Text → Text
digits zero n out = out
digits (suc k) n out =
    let d = b'0' + n % 10 in
    let rest = digits k (n / 10) (d ∷ out) in if n / 10 == 0 then d ∷ out else rest

abbrev pub show : ℕ → Text
show n = digits 20 n []

-- The digits behind `n`, refused when they leave the range below `bound`.
unfoldable pub scan : ℕ → Text → ℕ → Option ℕ
scan bound [] n = some n
scan bound (c ∷ s) n =
    let m = n * 10 + (c - b'0') in
    let rest = scan bound s m in
    if ltb c b'0' || ltb b'9' c then none else if leb bound m then none else rest

unfoldable pub scan_all : ℕ → Text → Option ℕ
scan_all bound [] = none
scan_all bound (c ∷ s) = scan bound (c ∷ s) 0

-- `parse::<u64>`: one plus sign may stand in front.
unfoldable pub parse_u64 : Text → Option ℕ
parse_u64 [] = none
parse_u64 (c ∷ s) = if c == b'+' then scan_all u64_mod s else scan_all u64_mod (c ∷ s)

-- `parse::<i64>`, with `value.max(0) as u64` behind it: a negative number becomes 0.
unfoldable pub parse_i64_max0 : Text → Option ℕ
parse_i64_max0 [] = none
parse_i64_max0 (c ∷ s) =
    if c == b'-'
    then scan_all (2 ^ 63 + 1) s >>= (λ n. some 0)
    else if c == b'+'
    then scan_all (2 ^ 63) s
    else scan_all (2 ^ 63) (c ∷ s)

abbrev pub IsDigit : ℕ → Type 0
IsDigit c = (b'0' ≤ c) × (c ≤ b'9')

pub digits-IsDigit : (k n : ℕ) (out : Text) → All IsDigit out → All IsDigit (digits k n out)
unfolding digits
digits-IsDigit zero n out h = h
digits-IsDigit (suc k) n out h = ground (arith, digits-IsDigit k (n / 10) ((b'0' + n % 10) ∷ out))

small : (n : ℕ) → (n ≡ 0) ⊎ (n ≢ 0)
small zero = inl refl
small (suc n) = inr (omega arith)

digits-last : (k n : ℕ) (out : Text) → n / 10 ≡ 0 → digits (suc k) n out ≡ (b'0' + n % 10) ∷ out
unfolding digits
digits-last k n out e = ground (arith, e)

digits-more :
    (k n : ℕ) (out : Text)
    → n / 10 ≢ 0
    → digits (suc k) n out ≡ digits k (n / 10) ((b'0' + n % 10) ∷ out)
unfolding digits
digits-more k n out e = ground (arith, e)

scan-last :
    (n : ℕ) (out : Text)
    → n < u64_mod
    → scan u64_mod ((b'0' + n % 10) ∷ out) (n / 10) ≡ scan u64_mod out n
unfolding scan
scan-last n out h = ground arith

scan-digits :
    (k n : ℕ) (out : Text)
    → n < 10 ^ suc k
    → n < u64_mod
    → scan u64_mod (digits (suc k) n out) 0 ≡ scan u64_mod out n
scan-digits zero n out h fits =
    let e : n / 10 ≡ 0 = omega arith in
    ap (λ (t : Text). scan u64_mod t 0) (digits-last 0 n out e)
    ∙ ap (scan u64_mod ((b'0' + n % 10) ∷ out)) (sym e)
    ∙ scan-last n out fits
scan-digits (suc k) n out h fits = elim (small (n / 10)) [
  | inl e ↦
      ap (λ (t : Text). scan u64_mod t 0) (digits-last (suc k) n out e)
      ∙ ap (scan u64_mod ((b'0' + n % 10) ∷ out)) (sym e)
      ∙ scan-last n out fits
  | inr e ↦
      ap (λ (t : Text). scan u64_mod t 0) (digits-more (suc k) n out e)
      ∙ scan-digits k (n / 10) ((b'0' + n % 10) ∷ out) (omega (arith, pow-suc 10 (suc k)))
          (omega arith)
      ∙ scan-last n out fits
]

-- A number is not printed as nothing.
digits-onto : (k n c : ℕ) (out : Text) → (d : ℕ) × (s : Text) × (digits k n (c ∷ out) ≡ d ∷ s)
digits-onto zero n c out = (c, out, unfold digits in refl)
digits-onto (suc k) n c out = elim (small (n / 10)) [
  | inl e ↦ (b'0' + n % 10, c ∷ out, digits-last k n (c ∷ out) e)
  | inr e ↦
      let (d, s, q) = digits-onto k (n / 10) (b'0' + n % 10) (c ∷ out) in
      (d, s, digits-more k n (c ∷ out) e ∙ q)
]

-- The print of a number is a digit and more digits.
pub show-cons : (n : ℕ) → (c : ℕ) × (s : Text) × (show n ≡ c ∷ s) × IsDigit c × All IsDigit s
show-cons n =
    let all_digits = digits-IsDigit 20 n [] tt in
    let (c, s, e) : (c : ℕ) × (s : Text) × (show n ≡ c ∷ s) = elim (small (n / 10)) [
      | inl e ↦ (b'0' + n % 10, [], digits-last 19 n [] e)
      | inr e ↦
          let (d, s, q) = digits-onto 19 (n / 10) (b'0' + n % 10) [] in
          (d, s, digits-more 19 n [] e ∙ q)
    ] in
    let (first, rest) = subst (All IsDigit) e all_digits in (c, s, e, first, rest)

parse_u64-digit : (c : ℕ) (s : Text) → IsDigit c → parse_u64 (c ∷ s) ≡ scan u64_mod (c ∷ s) 0
unfolding parse_u64 scan_all
parse_u64-digit c s h = ground arith

-- A `u64` is read back from its decimal print.
pub parse_u64-show : (n : ℕ) → n < u64_mod → parse_u64 (show n) ≡ some n
unfolding scan
parse_u64-show n h =
    let (c, s, e, first, rest) = show-cons n in
    ap parse_u64 e
    ∙ parse_u64-digit c s first
    ∙ ap (λ (t : Text). scan u64_mod t 0) (sym e)
    ∙ scan-digits 19 n [] (omega arith) h

pub scan-bound : (bound : ℕ) (s : Text) (n r : ℕ) → n < bound → scan bound s n ≡ some r → r < bound
unfolding scan
scan-bound bound [] n r h e = ground arith
scan-bound bound (c ∷ s) n r h e = ground (arith, scan-bound bound s (n * 10 + (c - b'0')) r)

pub parse_u64-bound : (s : Text) (n : ℕ) → parse_u64 s ≡ some n → n < u64_mod
unfolding parse_u64 scan_all
parse_u64-bound [] n e = cc
parse_u64-bound (c ∷ []) n e = ground (arith, scan-bound u64_mod (c ∷ []) 0 n (omega arith))
parse_u64-bound (c ∷ (d ∷ s)) n e = ground (
  arith,
  scan-bound u64_mod (d ∷ s) 0 n (omega arith),
  scan-bound u64_mod (c ∷ d ∷ s) 0 n (omega arith),
)

scan_all-bound : (bound : ℕ) (s : Text) (n : ℕ) → 0 < bound → scan_all bound s ≡ some n → n < bound
unfolding scan_all
scan_all-bound bound [] n h e = cc
scan_all-bound bound (c ∷ s) n h e = scan-bound bound (c ∷ s) 0 n h e

pub parse_i64_max0-bound : (s : Text) (n : ℕ) → parse_i64_max0 s ≡ some n → n < 2 ^ 63
unfolding parse_i64_max0
parse_i64_max0-bound [] n e = cc
parse_i64_max0-bound (c ∷ s) n e = elim (Bool-cases (c == b'-')) [
  | inl q ↦
      let (m, _, h) = >>=-eq-some (scan_all (2 ^ 63 + 1) s) (λ m. some 0) (simp q at e) in
      ground (arith, some-injective _ _ h)
  | inr q ↦ elim (Bool-cases (c == b'+')) [
    | inl r ↦ scan_all-bound (2 ^ 63) s n (omega arith) (simp (q, r) at e)
    | inr r ↦ scan_all-bound (2 ^ 63) (c ∷ s) n (omega arith) (simp (q, r) at e)
  ]
]
