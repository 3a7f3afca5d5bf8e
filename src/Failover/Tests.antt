-- ===== src/Failover/Tests.antt =====
-- Payloads and choices at concrete inputs.
use hyperiondb.Prelude.{◌≡◌, refl, inl, inr, true, false, some, [], ◌∷◌, In, All}
use hyperiondb.Prelude.Bytes.{be_bytes}
use hyperiondb.Failover.{Candidate, encode_gossip, by_candidate, choose_primary}
use hyperiondb.Failover.Choice.{NotAhead, choose_primary-best}

encode_gossip_bytes :
    encode_gossip 258 true false 7
    ≡ 0 ∷ 0 ∷ 0 ∷ 0 ∷ 0 ∷ 0 ∷ 1 ∷ 2 ∷ 1 ∷ 0 ∷ 0 ∷ 0 ∷ 0 ∷ 0 ∷ 0 ∷ 0 ∷ 0 ∷ 7 ∷ []
unfolding encode_gossip be_bytes
encode_gossip_bytes = refl

abbrev first : Candidate
first = (1, 40, true)

abbrev second : Candidate
second = (2, 70, true)

abbrev third : Candidate
third = (3, 70, false)

-- Level with node 2, node 3 is not in recovery.
choose_third : choose_primary (first ∷ second ∷ third ∷ []) ≡ some 3
unfolding choose_primary by_candidate
choose_third = refl

forwards : (c : Candidate) → In c (first ∷ second ∷ []) → In c (second ∷ first ∷ [])
forwards c (inl e) = inr (inl e)
forwards c (inr (inl e)) = inl e
forwards c (inr (inr e)) = absurd e

backwards : (c : Candidate) → In c (second ∷ first ∷ []) → In c (first ∷ second ∷ [])
backwards c (inl e) = inr (inl e)
backwards c (inr (inl e)) = inl e
backwards c (inr (inr e)) = absurd e

choose_primary-best_example :
    (c : Candidate) × (choose_primary (first ∷ second ∷ third ∷ []) ≡ some c.0)
    × In c (first ∷ second ∷ third ∷ [])
    × All (λ y. NotAhead y c) (first ∷ second ∷ third ∷ [])
choose_primary-best_example = choose_primary-best first (second ∷ third ∷ [])
