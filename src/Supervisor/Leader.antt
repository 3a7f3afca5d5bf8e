-- ===== src/Supervisor/Leader.antt =====
-- src/lib.rs: the part of a round for the Raft leader: which nodes are live, who should be primary,
-- and the proposal of a decision.
pub mod Proposals
pub mod DeadPrimary
use hyperiondb.Prelude.{
  ℕ, ◌+◌, ◌-◌, Bool, true, false, not, ◌&&◌, ◌||◌, Option, none, some, List, [], ◌∷◌, map, ltb, leb,
  ◌==◌, if◌then◌else◌, length, filter, any, find,
}
use hyperiondb.Prelude.Text.{Text}
use hyperiondb.Prelude.Words.{add64}
use hyperiondb.Prelude.Maps.{Map, lookup}
use hyperiondb.Failover.{Candidate, Decision, choose_primary}
use hyperiondb.Supervisor.World.{
  Settings, Seen, Supervisor, proposed, M, ◌>>=◌, ◌>>◌, pure, get, modify, when, now, emit,
  succeeded, decided_primary, decided_seq, dead_timeout,
}

-- What the probes of the log positions return: the node's own, a peer's if it answers, and whether
-- the thread of a probe ends normally.
pub record Probes : Type 0 where
  pub own : ℕ
  pub peer : ℕ → Option ℕ
  pub joined : ℕ → Bool

unfoldable pub is_live : Settings → ℕ → ℕ × Seen → Bool
is_live c t e = e.0 == c.node_id || ltb (t - e.1.seen) dead_timeout

unfoldable pub live : Settings → ℕ → Supervisor → List Candidate
live c t s = map (λ e. (e.0, e.1.lsn, e.1.recovery)) (filter (is_live c t) s.peers_lsn)

-- `min()` of an iterator
unfoldable pub min_of : List ℕ → Option ℕ
min_of [] = none
min_of (x ∷ xs) = elim (min_of xs) [ none ↦ some x | some m ↦ some (if leb x m then x else m) ]

unfoldable pub probe_one : Settings → Probes → Candidate → Candidate
probe_one c i m = (
  m.0,
  (if m.0 == c.node_id then i.own else elim (find (λ (p : ℕ × Text). p.0 == m.0) c.pg_members) [
    | none ↦ m.1
    | some _ ↦ elim (i.peer m.0) [ none ↦ m.1 | some lsn ↦ lsn ]
  ]),
  m.2,
)

unfoldable pub probe : Settings → Probes → List Candidate → List Candidate
probe c i ms = map (probe_one c i) (filter (λ m. i.joined m.0) ms)

unfoldable pub primary_alive : Supervisor → List Candidate → Bool
primary_alive s ms = not (decided_primary s == 0) && any (λ m. m.0 == decided_primary s) ms

abbrev pub asks_reconfirm : Supervisor → Candidate → Bool
asks_reconfirm s m = elim (lookup m.0 s.peers_reconfirm) [ none ↦ false | some b ↦ b ]

unfoldable pub needs_reconfirm : Supervisor → List Candidate → Bool
needs_reconfirm s ms = s.reconfirm_pending || any (asks_reconfirm s) ms

unfoldable pub candidate : Settings → Probes → Supervisor → List Candidate → Option ℕ
candidate c i s ms =
    if not (succeeded s.decided)
    then min_of (map (λ m. m.0) (filter (λ m. not m.2) ms))
    else if not (primary_alive s ms)
    then choose_primary (probe c i ms)
    else if needs_reconfirm s ms
    then some (decided_primary s)
    else none

unfoldable pub next_seq : Supervisor → ℕ
next_seq s = add64 (decided_seq s) 1

unfoldable pub in_flight : Supervisor → Bool
in_flight s = s.last_proposed.0 == next_seq s && ltb (s.ticks - s.last_proposed_tick) 20

unfoldable pub propose : ℕ → M (Unit {0})
propose p = do
  s ← get
  when (not (in_flight s)) (do
    emit (proposed (record { seq = next_seq s; primary = p }))
    modify (λ u. record u { last_proposed = (next_seq s, p); last_proposed_tick = s.ticks }))

unfoldable pub leader_step : Settings → Probes → M (Unit {0})
leader_step c i = do
  t ← now
  s ← get
  when (leb c.majority (length (live c t s)))
      (elim (candidate c i s (live c t s)) [ none ↦ pure tt | some p ↦ propose p ])
