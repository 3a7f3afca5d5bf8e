-- ===== src/Leadership/Election.antt =====
-- The effect of an election in packages/consensus-model/src/leadership.rs on each node.
use hyperiondb.Prelude.{
  ℕ, zero, suc, ◌+◌, ◌≤◌, ◌<◌, ◌≡◌, refl, ◌∙◌, false, ◌&&◌, arith, ltb, leb, ◌==◌, if◌then◌else◌,
  length, range_from, length-set, get_or-set, inl, inr, Bool-cases,
}
use hyperiondb.Prelude.Words.{has_bit}
use hyperiondb.Leadership.{LState, term_at, writable_at, elect_node, elect_nodes}

-- The voters among `k .. k + m` are at the new term, where only the winner may write.
pub record IsElected (winner voters new_term k m : ℕ) (s t : LState) : Type 0 where
  pub terms :
      (j : ℕ)
      → term_at t j
        ≡ (if (leb k j && ltb j (k + m)) && has_bit voters j then new_term else term_at s j)
  pub writables :
      (j : ℕ)
      → writable_at t j
        ≡ (if (leb k j && ltb j (k + m)) && has_bit voters j then j == winner else writable_at s j)
  pub term_len : length t.cur_term ≡ length s.cur_term
  pub writable_len : length t.writable ≡ length s.writable
  pub same_alive : t.alive ≡ s.alive
  pub same_committed : t.max_committed_term ≡ s.max_committed_term
  pub same_leader : t.committed_leader ≡ s.committed_leader
  pub same_split : t.split_brain ≡ s.split_brain

module _ (winner voters new_term : ℕ) where
  elect_node-IsElected :
      (s : LState) (i : ℕ)
      → i < length s.cur_term
      → i < length s.writable
      → IsElected winner voters new_term i 1 s (elect_node winner voters new_term i s)
  unfolding elect_node
  elect_node-IsElected s i lt lw = elim (Bool-cases (has_bit voters i)) [
    | inl b ↦ rw b (record {
      terms = λ j. ground (arith, get_or-set s.cur_term i j new_term 0);
      writables = λ j. ground (arith, get_or-set s.writable i j (i == winner) false);
      term_len = length-set s.cur_term i new_term;
      writable_len = length-set s.writable i (i == winner);
      same_alive = refl;
      same_committed = refl;
      same_leader = refl;
      same_split = refl;
    })
    | inr b ↦ rw b (record {
      terms = λ j. ground arith;
      writables = λ j. ground arith;
      term_len = refl;
      writable_len = refl;
      same_alive = refl;
      same_committed = refl;
      same_leader = refl;
      same_split = refl;
    })
  ]

  IsElected-refl : (s : LState) (k : ℕ) → IsElected winner voters new_term k 0 s s
  IsElected-refl s k = record {
    terms = λ j. ground arith;
    writables = λ j. ground arith;
    term_len = refl;
    writable_len = refl;
    same_alive = refl;
    same_committed = refl;
    same_leader = refl;
    same_split = refl;
  }

  IsElected-trans :
      (s t u : LState) (k m : ℕ)
      → IsElected winner voters new_term k 1 s t
      → IsElected winner voters new_term (k + 1) m t u
      → IsElected winner voters new_term k (suc m) s u
  IsElected-trans s t u k m a b = record {
    terms = λ j. ground (arith, a.terms j, b.terms j);
    writables = λ j. ground (arith, a.writables j, b.writables j);
    term_len = omega (arith, a.term_len, b.term_len);
    writable_len = omega (arith, a.writable_len, b.writable_len);
    same_alive = b.same_alive ∙ a.same_alive;
    same_committed = b.same_committed ∙ a.same_committed;
    same_leader = b.same_leader ∙ a.same_leader;
    same_split = b.same_split ∙ a.same_split;
  }

  pub elect_nodes-IsElected :
      (s : LState) (k m : ℕ)
      → k + m ≤ length s.cur_term
      → k + m ≤ length s.writable
      → IsElected winner voters new_term k m s
          (elect_nodes winner voters new_term (range_from k m) s)
  unfolding elect_nodes
  elect_nodes-IsElected s k zero h g = IsElected-refl s k
  elect_nodes-IsElected s k (suc m) h g =
      let first = elect_node-IsElected s k (omega arith) (omega arith) in
      IsElected-trans s (elect_node winner voters new_term k s) _ k m first (
        elect_nodes-IsElected (elect_node winner voters new_term k s) (k + 1) m
          (omega (arith, first.term_len)) (omega (arith, first.writable_len)))
