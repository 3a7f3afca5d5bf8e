-- ===== src/Transport/Frames.antt =====
-- Frames of src/rpc.rs: what is written is read back.
use mathlib.Core.List.{append_assoc}
use hyperiondb.Prelude.{
  ℕ, ◌+◌, ◌≤◌, ◌<◌, ◌%◌, ◌^◌, ◌≡◌, refl, ◌∙◌, none, some, List, ◌++◌, length, drop, leb, ltb,
  if◌then◌else◌, arith, length-append, Bool-cases, inl, inr, [], ◌∷◌, ap, zero, suc, if-eq-some,
  >>=-eq-some, leb→le,
}
use mathlib.Core.Option.{some-injective}
use hyperiondb.Prelude.Bytes.{
  be_bytes, from_be, length-be_bytes, from_be-be_bytes, take-length-append, drop-length-append,
}
use hyperiondb.Transport.{write_frame, read_exact, read_frame, max_frame}

pub read_exact-append :
    (xs ys : List ℕ) (n : ℕ) → length xs ≡ n → read_exact n (xs ++ ys) ≡ some (xs, ys)
unfolding read_exact
read_exact-append xs ys n e =
    rw (take-length-append xs ys n e, drop-length-append xs ys n e)
      (ground (arith, length-append xs ys))

-- What `write_frame` writes is read back, with what follows it left in the stream, if it has at most
-- `max_frame` bytes; a longer frame of less than 4 GiB is refused.
pub read_frame-write_frame :
    (bytes rest : List ℕ)
    → length bytes < 2 ^ 32
    → read_frame (write_frame bytes ++ rest)
      ≡ (if leb (length bytes) max_frame then some (bytes, rest) else none)
unfolding read_frame write_frame
read_frame-write_frame bytes rest h =
    let n = length bytes % 2 ^ 32 in
    let len = be_bytes 4 n in
    let same : n ≡ length bytes = omega arith in
    let fits : from_be len ≡ n = from_be-be_bytes 4 n (omega arith) in
    rw (append_assoc, read_exact-append len (bytes ++ rest) 4 (length-be_bytes 4 n), fits, same)
      (elim (Bool-cases (ltb max_frame (length bytes))) [
        | inl e ↦ ground (arith, read_exact-append bytes rest (length bytes) refl, e)
        | inr e ↦ ground (arith, read_exact-append bytes rest (length bytes) refl, e)
      ])

length-drop : (n : ℕ) (xs : List ℕ) → n ≤ length xs → length xs ≡ n + length (drop n xs)
length-drop zero xs h = omega arith
length-drop (suc n) [] h = absurd (omega arith)
length-drop (suc n) (x ∷ xs) h = omega (arith, length-drop n xs (omega arith))

read_exact-shorter :
    (n : ℕ) (stream : List ℕ) (r : List ℕ × List ℕ)
    → read_exact n stream ≡ some r
    → length stream ≡ n + length r.1
unfolding read_exact
read_exact-shorter n stream r h =
    let (fits, e) = if-eq-some (leb n (length stream)) _ h in
    length-drop n stream (leb→le n (length stream) fits)
    ∙ ap (λ (x : List ℕ × List ℕ). n + length x.1) (some-injective _ _ e)

-- A frame that is read takes something from the stream.
pub read_frame-shorter :
    (stream : List ℕ) (r : List ℕ × List ℕ)
    → read_frame stream ≡ some r
    → length r.1 < length stream
unfolding read_frame
read_frame-shorter stream r h =
    let (front, first, h₁) = >>=-eq-some (read_exact 4 stream) _ h in
    elim (Bool-cases (ltb max_frame (from_be front.0))) [
      | inl e ↦ let k = simp e at h₁ in absurd cc
      | inr e ↦
          let k = simp e at h₁ in
          omega (
            arith,
            read_exact-shorter 4 stream front first,
            read_exact-shorter (from_be front.0) front.1 r k,
          )
    ]
