-- ===== src/Failover.antt =====
-- src/failover.rs: the gossip payload, the decision that Raft replicates, and the choice of a
-- primary.
pub mod Payload
pub mod Choice
mod Tests
use hyperiondb.Prelude.{
  ℕ, Bool, true, false, not, Option, none, some, List, [], ◌∷◌, ◌++◌, compare, Ordering, ltb, ◌==◌,
  if◌then◌else◌, then_cmp, bool_byte, length, get_or, get_elem?, take, max_by,
}
use hyperiondb.Prelude.Bytes.{be_bytes, from_be, slice}

pub record Gossip : Type 0 where
  pub lsn : ℕ
  pub in_recovery : Bool
  pub reconfirm : Bool
  pub seq : ℕ

unfoldable pub encode_gossip : (lsn : ℕ) (in_recovery reconfirm : Bool) (seq : ℕ) → List ℕ
encode_gossip lsn in_recovery reconfirm seq =
    be_bytes 8 lsn ++ bool_byte in_recovery ∷ bool_byte reconfirm ∷ be_bytes 8 seq

unfoldable pub decode_gossip : List ℕ → Option Gossip
decode_gossip bytes =
    if ltb (length bytes) 9
    then none
    else some (record {
      lsn = from_be (take 8 bytes);
      in_recovery = not (get_or bytes 8 0 == 0);
      reconfirm = elim (get_elem? bytes 9) [ none ↦ false | some byte ↦ not (byte == 0) ];
      seq = elim (slice bytes 10 18) [ none ↦ 0 | some raw ↦ from_be raw ];
    })

pub record Decision : Type 0 where
  pub seq : ℕ
  pub primary : ℕ

-- A node's id, its log position and whether it is in recovery.
abbrev pub Candidate : Type 0
Candidate = ℕ × ℕ × Bool

unfoldable pub by_candidate : Candidate → Candidate → Ordering
by_candidate a b =
    then_cmp (compare a.1 b.1)
      (then_cmp (compare (bool_byte (not a.2)) (bool_byte (not b.2))) (compare b.0 a.0))

unfoldable pub choose_primary : List Candidate → Option ℕ
choose_primary candidates = elim (max_by by_candidate candidates) [
  | none ↦ none
  | some c ↦ some c.0
]
