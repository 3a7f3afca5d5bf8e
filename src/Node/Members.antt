-- ===== src/Node/Members.antt =====
-- The members with which src/raft_node.rs initializes Raft.
use mathlib.Core.Path.{subst}
use hyperiondb.Prelude.{
  ℕ, ◌≡◌, refl, sym, ap, ◌∙◌, inl, inr, Bool, none, some, List, [], ◌∷◌, arith, ◌==◌, In,
  Bool-cases,
}
use hyperiondb.Prelude.Maps.{Map, lookup}
use hyperiondb.Prelude.BTree.{put, lookup-put}
use hyperiondb.Prelude.Text.{Text}
use hyperiondb.Peers.{Peer}
use hyperiondb.Config.{Values, Caches}
use hyperiondb.Startup.{Boot, running, start, boot, ids}
use hyperiondb.Startup.Checks.{Distinct}
use hyperiondb.Startup.Quorum.{start-running_iff, peers_of}
use hyperiondb.Node.{members_from}

members_from-other :
    (m : Map Text) (ps : List Peer) (k : ℕ)
    → ¬ In k (ids ps)
    → lookup k (members_from m ps) ≡ lookup k m
unfolding members_from
members_from-other m [] k away = refl
members_from-other m (p ∷ ps) k away =
    members_from-other (put p.0 p.1 m) ps k (λ i. away (inr i))
    ∙ lookup-put p.0 k p.1 m
    ∙ (elim (Bool-cases (p.0 == k)) [
      | inl e ↦ absurd (away (inl (ground (arith, e))))
      | inr e ↦ ground (arith, e)
    ])

members_from-lookup :
    (m : Map Text) (ps : List Peer) (p : Peer)
    → Distinct (ids ps)
    → In p ps
    → lookup p.0 (members_from m ps) ≡ some p.1
unfolding members_from
members_from-lookup m [] p d i = absurd i
members_from-lookup m (q ∷ ps) p (unique, d) (inl e) =
    ap (λ (x : Peer). lookup x.0 (members_from (put q.0 q.1 m) ps)) e
    ∙ members_from-other (put q.0 q.1 m) ps q.0 unique
    ∙ lookup-put q.0 q.0 q.1 m
    ∙ ground (arith, ap (λ (x : Peer). x.1) (sym e))
members_from-lookup m (q ∷ ps) p (unique, d) (inr i) = members_from-lookup (put q.0 q.1 m) ps p d i

-- In a cluster that started, the members of Raft are the peers of the configuration: each is found
-- under its id with its address, and no other id is.
pub start-members :
    (v : Values) (c : Caches) (raft_starts : Bool) (b : Boot)
    → (start v c raft_starts).0 ≡ running b
    → ((p : Peer) → In p b.raft_peers → lookup p.0 (members_from [] b.raft_peers) ≡ some p.1)
      × ((k : ℕ) → ¬ In k b.voters → lookup k (members_from [] b.raft_peers) ≡ none)
unfolding boot lookup
start-members v c raft_starts b h =
    let ((_, valid), _, same) = (start-running_iff v c raft_starts b).0 h in
    subst
      (λ (x : Boot).
        ((p : Peer) → In p x.raft_peers → lookup p.0 (members_from [] x.raft_peers) ≡ some p.1)
        × ((k : ℕ) → ¬ In k x.voters → lookup k (members_from [] x.raft_peers) ≡ none))
      same
      (
        (λ p i. members_from-lookup [] (peers_of v) p valid.voters_distinct i),
        (λ k away. members_from-other [] (peers_of v) k away),
      )
