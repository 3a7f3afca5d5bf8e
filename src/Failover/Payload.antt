-- ===== src/Failover/Payload.antt =====
-- The gossip payload of src/failover.rs: what is sent is read back, and what older and shorter
-- payloads decode to.
use mathlib.Core.List.{append_assoc}
use hyperiondb.Prelude.{
  ℕ, ◌<◌, ◌≡◌, refl, ◌↔◌, Bool, true, false, not, none, some, List, [], ◌∷◌, ◌++◌, arith, ◌==◌,
  bool_byte, take, leb, if◌then◌else◌, length-append, length,
}
use hyperiondb.Prelude.Words.{u64_mod}
use hyperiondb.Prelude.Bytes.{
  be_bytes, from_be, length-be_bytes, take-length-append, get_or-length-append,
  get_elem?-suc-append, drop-suc-append, from_be-be_bytes,
}
use hyperiondb.Failover.{encode_gossip, decode_gossip}

not-zero-bool_byte : (b : Bool) → not (bool_byte b == 0) ≡ b
not-zero-bool_byte true = refl
not-zero-bool_byte false = refl

-- A payload with all its fields, given the bytes of its position.
decode_gossip-append :
    (xs ys : List ℕ) (r q : ℕ)
    → length xs ≡ 8
    → decode_gossip (xs ++ r ∷ q ∷ ys)
      ≡ some (record {
        lsn = from_be xs;
        in_recovery = not (r == 0);
        reconfirm = not (q == 0);
        seq = if leb 8 (length ys) then from_be (take 8 ys) else 0;
      })
unfolding decode_gossip
decode_gossip-append xs ys r q e = ground (
  arith,
  take-length-append xs (r ∷ q ∷ ys) 8 e,
  get_or-length-append xs (q ∷ ys) r 0 8 e,
  get_elem?-suc-append xs (q ∷ ys) r 8 e,
  drop-suc-append xs (q ∷ ys) r 8 1 e,
  length-append xs (r ∷ q ∷ ys),
)

-- An encoded payload decodes to what was encoded, whatever bytes follow it, if the position and the
-- sequence number fit in 64 bits.
pub decode-encode_gossip :
    (lsn : ℕ) (in_recovery reconfirm : Bool) (seq : ℕ) (rest : List ℕ)
    → lsn < u64_mod
    → seq < u64_mod
    → decode_gossip (encode_gossip lsn in_recovery reconfirm seq ++ rest)
      ≡ some (record { lsn = lsn; in_recovery = in_recovery; reconfirm = reconfirm; seq = seq })
unfolding encode_gossip
decode-encode_gossip lsn in_recovery reconfirm seq rest h k =
    rw
      (
        append_assoc,
        decode_gossip-append (be_bytes 8 lsn) (be_bytes 8 seq ++ rest) (bool_byte in_recovery)
            (bool_byte reconfirm) (length-be_bytes 8 lsn),
      )
      (ground (
        arith,
        take-length-append (be_bytes 8 seq) rest 8 (length-be_bytes 8 seq),
        length-append (be_bytes 8 seq) rest,
        length-be_bytes 8 seq,
        from_be-be_bytes 8 lsn (omega arith),
        from_be-be_bytes 8 seq (omega arith),
      ))

-- A payload is refused exactly when it is shorter than 9 bytes.
pub decode_gossip-eq-none_iff : (bytes : List ℕ) → (decode_gossip bytes ≡ none) ↔ (length bytes < 9)
unfolding decode_gossip
decode_gossip-eq-none_iff bytes = ((λ h. ground arith), (λ h. ground arith))

-- The 9 bytes of a node that sends only its position and whether it is in recovery decode to no
-- request for a reconfirmation and to sequence number 0.
pub decode_gossip-legacy :
    (lsn : ℕ) (in_recovery : Bool)
    → lsn < u64_mod
    → decode_gossip (be_bytes 8 lsn ++ bool_byte in_recovery ∷ [])
      ≡ some (record { lsn = lsn; in_recovery = in_recovery; reconfirm = false; seq = 0 })
unfolding decode_gossip
decode_gossip-legacy lsn r h =
    let e = length-be_bytes 8 lsn in
    ground (
      arith,
      take-length-append (be_bytes 8 lsn) (bool_byte r ∷ []) 8 e,
      get_or-length-append (be_bytes 8 lsn) [] (bool_byte r) 0 8 e,
      get_elem?-suc-append (be_bytes 8 lsn) [] (bool_byte r) 8 e,
      length-append (be_bytes 8 lsn) (bool_byte r ∷ []),
      from_be-be_bytes 8 lsn (omega arith),
      e,
    )
