-- ===== src/Leadership.antt =====
-- packages/consensus-model/src/leadership.rs: elections by majorities, and commits of a writable
-- node that are fenced by a majority at its term.
-- An index out of range panics in the source; `get_or` returns a default there, and
-- `Leadership.Invariant` keeps every array at the cluster's length.
mod Election
mod Offered
mod Invariant
pub mod Stale
pub mod Threshold
pub mod Safety
mod Tests
use hyperiondb.Explore.{Rules, Run}
use hyperiondb.Prelude.{
  ℕ, ◌+◌, ◌-◌, ◌/◌, Bool, true, false, not, ◌&&◌, ◌||◌, Option, none, some, List, [], ◌∷◌, ◌++◌,
  map, ltb, leb, ◌==◌, if◌then◌else◌, length, get_or, set, replicate, filter, any, all, max_of,
  range_from, indices,
}
use hyperiondb.Prelude.Words.{add64, one_shl, has_bit}

pub record Leadership : Type 0 where
  pub n : ℕ
  pub max_term : ℕ
  pub fencing : Bool

pub record LState : Type 0 where
  pub cur_term : List ℕ
  pub writable : List Bool
  pub alive : List Bool
  pub max_committed_term : ℕ
  pub committed_leader : Option ℕ
  pub split_brain : Bool

pub data LAction : Type 0 where
  elect : (winner voters : ℕ) → LAction
  commit : ℕ → LAction
  crash : ℕ → LAction
  recover : ℕ → LAction

abbrev pub term_at : LState → ℕ → ℕ
term_at s i = get_or s.cur_term i 0

abbrev pub writable_at : LState → ℕ → Bool
writable_at s i = get_or s.writable i false

abbrev pub alive_at : LState → ℕ → Bool
alive_at s i = get_or s.alive i false

abbrev pub count : Leadership → (ℕ → Bool) → ℕ
count c p = length (filter p (indices c.n))

pub majority : Leadership → ℕ
majority c = c.n / 2 + 1

pub init_state : Leadership → LState
init_state c = record {
  cur_term = replicate c.n 1;
  writable = set (replicate c.n false) 0 true;
  alive = replicate c.n true;
  max_committed_term = 0;
  committed_leader = none;
  split_brain = false;
}

abbrev pub members_of : Leadership → ℕ → List ℕ
members_of c mask = filter (has_bit mask) (indices c.n)

-- The body of the loop over masks.
pub mask_elections : Leadership → LState → ℕ → List LAction
mask_elections c s mask =
    if not (length (members_of c mask) == majority c)
      || any (λ i. not (alive_at s i)) (members_of c mask)
    then []
    else map (λ winner. elect winner mask) (members_of c mask)

pub elections : Leadership → LState → List ℕ → List LAction
elections c s [] = []
elections c s (mask ∷ masks) = mask_elections c s mask ++ elections c s masks

pub crash_or_recover : LState → ℕ → LAction
crash_or_recover s i = if alive_at s i then crash i else recover i

pub actions : Leadership → LState → List LAction
actions c s =
    (if ltb (max_of s.cur_term) c.max_term
      then elections c s (range_from 1 (one_shl c.n - 1))
      else [])
    ++ (map commit (filter (λ w. alive_at s w && writable_at s w) (indices c.n))
        ++ map (crash_or_recover s) (indices c.n))

-- One voter of an election, and the loop over the nodes.
pub elect_node : (winner voters new_term : ℕ) → ℕ → LState → LState
elect_node winner voters new_term i s =
    if has_bit voters i
    then record s {
      cur_term = set s.cur_term i new_term;
      writable = set s.writable i (i == winner);
    }
    else s

pub elect_nodes : (winner voters new_term : ℕ) → List ℕ → LState → LState
elect_nodes winner voters new_term [] s = s
elect_nodes winner voters new_term (i ∷ is) s =
    elect_nodes winner voters new_term is (elect_node winner voters new_term i s)

-- A commit at the newest committed term is a conflict unless the same node made the last one.
pub conflict : LState → ℕ → Bool
conflict s w = elim s.committed_leader [
  | none ↦ s.split_brain
  | some prev ↦ not (prev == w) || s.split_brain
]

pub record_commit : LState → ℕ → LState
record_commit s w =
    if ltb (term_at s w) s.max_committed_term
    then record s { split_brain = true }
    else if term_at s w == s.max_committed_term
    then record s { split_brain = conflict s w; committed_leader = some w }
    else record s { max_committed_term = term_at s w; committed_leader = some w }

pub quorum_at_term : Leadership → LState → ℕ → ℕ
quorum_at_term c s t = count c (λ i. alive_at s i && term_at s i == t)

pub next_state : Leadership → LState → LAction → Option LState
next_state c s (elect winner voters) =
    some (elect_nodes winner voters (add64 (max_of s.cur_term) 1) (indices c.n) s)
next_state c s (commit w) =
    if (if c.fencing then leb (majority c) (quorum_at_term c s (term_at s w)) else true)
    then some (record_commit s w)
    else none
next_state c s (crash i) = some (record s { alive = set s.alive i false })
next_state c s (recover i) = some (record s { alive = set s.alive i true })

pub within_boundary : Leadership → LState → Bool
within_boundary c s = all (λ t. leb t c.max_term) s.cur_term

-- The two properties that the checker is given.
pub no_split_brain : LState → Bool
no_split_brain s = not s.split_brain

pub stale_writable_leader_present : LState → Bool
stale_writable_leader_present s =
    any (λ i. alive_at s i && (writable_at s i && ltb (term_at s i) (max_of s.cur_term)))
      (indices (length s.cur_term))

abbrev pub model : Leadership → Rules LState LAction
model c = record {
  actions = actions c;
  next_state = next_state c;
  within_boundary = within_boundary c;
}

abbrev pub Reach : Leadership → LState → Type 0
Reach c s = Run (model c) (init_state c) s
