-- ===== src/Durability.antt =====
-- packages/consensus-model/src/lib.rs: the durability model, a primary that streams its log to
-- standbys, acknowledges at a quorum of confirmations and is replaced by a failover.
-- An index out of range panics in the source; `get_or` returns a default there, and
-- `Durability.Invariant` shows that no reachable state has such an index.
mod Winners
mod Offered
mod Elected
mod Offers
pub mod Stream
mod Takeover
pub mod Threshold
pub mod Invariant
pub mod Safety
mod Tests
use hyperiondb.Prelude.{
  ℕ, ◌+◌, ◌-◌, ◌/◌, Bool, true, false, not, ◌&&◌, ◌||◌, Option, none, some, List, [], ◌∷◌, ◌++◌,
  map, compare, Ordering, ltb, leb, ◌==◌, if◌then◌else◌, then_cmp, ◌>>=◌, length, get_or, set,
  replicate, filter, any, all, max_by, push_if, range_from, indices, In, ◌≡◌,
}
use hyperiondb.Explore.{Rules, Run}
use hyperiondb.Prelude.Words.{add64, one_shl, has_bit}

pub record Cluster : Type 0 where
  pub n : ℕ
  pub ack_quorum : ℕ
  pub max_lsn : ℕ
  pub max_term : ℕ

pub record State : Type 0 where
  pub lsn : List ℕ
  pub alive : List Bool
  pub primary : Option ℕ
  pub acked : ℕ
  pub term : ℕ

pub data Action : Type 0 where
  write : Action
  replicate_to : ℕ → Action
  ack : Action
  crash : ℕ → Action
  failover : ℕ → Action

-- `s.lsn[i]` and `s.alive[i]`
abbrev pub lsn_at : State → ℕ → ℕ
lsn_at s i = get_or s.lsn i 0

abbrev pub alive_at : State → ℕ → Bool
alive_at s i = get_or s.alive i false

abbrev pub count : Cluster → (ℕ → Bool) → ℕ
count c p = length (filter p (indices c.n))

unfoldable pub majority : Cluster → ℕ
majority c = c.n / 2 + 1

-- `BTreeSet::insert` and `into_iter`: sorted, without repetition.
pub insert_winner : ℕ → List ℕ → List ℕ
insert_winner w [] = w ∷ []
insert_winner w (x ∷ xs) = elim (compare w x) [
  | Ordering.lt ↦ w ∷ x ∷ xs
  | Ordering.eq ↦ x ∷ xs
  | Ordering.gt ↦ x ∷ insert_winner w xs
]

pub by_lsn : State → ℕ → ℕ → Ordering
by_lsn s a b = then_cmp (compare (lsn_at s a) (lsn_at s b)) (compare b a)

abbrev pub members_of : Cluster → ℕ → List ℕ
members_of c mask = filter (has_bit mask) (indices c.n)

-- The body of the loop over masks. `max_by` is `none` only for an empty set, whose `unwrap` would
-- panic; the test on `members.len()` comes first.
pub try_mask : Cluster → State → ℕ → List ℕ → List ℕ
try_mask c s mask winners =
    if not (length (members_of c mask) == majority c)
      || any (λ i. not (alive_at s i)) (members_of c mask)
    then winners
    else elim (max_by (by_lsn s) (members_of c mask)) [
      | none ↦ winners
      | some w ↦ insert_winner w winners
    ]

pub try_masks : Cluster → State → List ℕ → List ℕ → List ℕ
try_masks c s [] winners = winners
try_masks c s (mask ∷ masks) winners = try_masks c s masks (try_mask c s mask winners)

pub possible_new_primaries : Cluster → State → List ℕ
possible_new_primaries c s =
    if ltb (count c (alive_at s)) (majority c)
    then []
    else try_masks c s (range_from 1 (one_shl c.n - 1)) []

pub init_state : Cluster → State
init_state c = record {
  lsn = replicate c.n 0;
  alive = replicate c.n true;
  primary = some 0;
  acked = 0;
  term = 0;
}

-- The actions that a live primary `p` offers.
pub primary_actions : Cluster → State → ℕ → List Action
primary_actions c s p =
    push_if (ltb (lsn_at s p) c.max_lsn) write
    ++ (push_if
          (ltb 0 (lsn_at s p)
            && (ltb s.acked (lsn_at s p)
                && leb c.ack_quorum (count c (λ i. alive_at s i && leb (lsn_at s p) (lsn_at s i)))))
          ack
        ++ map replicate_to (
            filter (λ i. not (i == p) && (alive_at s i && ltb (lsn_at s i) (lsn_at s p)))
              (indices c.n)))

pub need_failover : State → Bool
need_failover s = elim s.primary [ none ↦ true | some p ↦ not (alive_at s p) ]

pub actions : Cluster → State → List Action
actions c s =
    elim s.primary [ none ↦ [] | some p ↦ if alive_at s p then primary_actions c s p else [] ]
    ++ (map crash (filter (alive_at s) (indices c.n))
        ++ (if need_failover s && ltb s.term c.max_term
            then map failover (possible_new_primaries c s)
            else []))

pub next_state : State → Action → Option State
next_state s write = do p ← s.primary; some (record s { lsn = set s.lsn p (add64 (lsn_at s p) 1) })
next_state s (replicate_to i) = do
  p ← s.primary
  some (
      if ltb (lsn_at s i) (lsn_at s p)
      then record s { lsn = set s.lsn i (add64 (lsn_at s i) 1) }
      else s)
next_state s ack = do p ← s.primary; some (record s { acked = lsn_at s p })
next_state s (crash i) = some (record s { alive = set s.alive i false })
next_state s (failover w) = some (record s { primary = some w; term = add64 s.term 1 })

pub within_boundary : Cluster → State → Bool
within_boundary c s = leb s.term c.max_term && all (λ l. leb l c.max_lsn) s.lsn

-- The two properties that the checker is given.
pub no_acked_loss : State → Bool
no_acked_loss s = elim s.primary [ none ↦ true | some p ↦ leb s.acked (lsn_at s p) ]

pub failover_after_ack : State → Bool
failover_after_ack s = leb 1 s.term && leb 1 s.acked

abbrev pub model : Cluster → Rules State Action
model c = record {
  actions = actions c;
  next_state = next_state;
  within_boundary = within_boundary c;
}

abbrev pub Reach : Cluster → State → Type 0
Reach c s = Run (model c) (init_state c) s
