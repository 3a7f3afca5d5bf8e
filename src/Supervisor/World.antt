-- ===== src/Supervisor/World.antt =====
-- src/lib.rs: the state of the supervisor loop, its settings, what the loop sees of the outside in
-- one round, and what it does there.
-- Times are milliseconds. Answers of the clock, of `psql` and of the file system are arbitrary:
-- functions of how many questions the loop has put so far.
use hyperiondb.Prelude.{
  ℕ, ◌+◌, Bool, true, false, not, Option, none, some, List, ◌∷◌, if◌then◌else◌,
}
use hyperiondb.Prelude.Text.{Text, text_eq}
use hyperiondb.Prelude.Maps.{Map}
use hyperiondb.Failover.{Decision}

-- What the loop reads before it starts and never changes.
pub record Settings : Type 0 where
  pub node_id : ℕ
  pub pg_members : List (ℕ × Text)
  pub majority : ℕ
  pub sync_target : Text
  pub synchronous : Bool
  pub has_rejoin_script : Bool
  pub has_watchdog_script : Bool
  pub conninfo : Text

-- A peer's log position, whether it is in recovery, and when it was heard of.
pub record Seen : Type 0 where
  pub lsn : ℕ
  pub recovery : Bool
  pub seen : ℕ

-- The variables of the loop. `last_proposed` is a sequence number and a node.
pub record Supervisor : Type 0 where
  pub peers_lsn : Map Seen
  pub last_heard : Map ℕ
  pub peers_reconfirm : Map Bool
  pub peers_seq : Map ℕ
  pub reconfirm_pending : Bool
  pub decided : Option Decision
  pub last_proposed : ℕ × ℕ
  pub last_proposed_tick : ℕ
  pub promoted : Bool
  pub promote_tick : ℕ
  pub rejoining : Bool
  pub applied_primary : ℕ
  pub slots_ensured : Bool
  pub applied_read_only : Option Bool
  pub applied_sync : Option Text
  pub authorized_since : Option ℕ
  pub datadir : Option Text
  pub cluster_marker : Bool
  pub ticks : ℕ
  pub last_loop : ℕ

-- The statements that the loop hands to `psql`.
pub data Sql : Type 0 where
  set_read_only : Bool → Sql
  set_sync : Text → Sql
  set_conninfo : Text → Sql
  reload_conf : Sql
  promote : Sql
  create_slot : ℕ → Sql
  show_data_directory : Sql

-- What the loop does outside, with whether it succeeded where the loop asks.
pub data Effect : Type 0 where
  heartbeat : Effect
  watchdog : Effect
  ran : Sql → Bool → Effect
  gossiped : List ℕ → Effect
  marked : Text → Bool → Effect
  proposed : Decision → Effect
  rejoined : (datadir primary : Text) → Effect

-- The trace has the newest effect first.
pub record World : Type 0 where
  pub clock : ℕ → ℕ
  pub reply : ℕ → Sql → Option Text
  pub marker_exists : ℕ → Bool
  pub marker_write : ℕ → Bool
  pub at : ℕ
  pub trace : List Effect

abbrev pub M : Type 0 → Type 0
M A = Supervisor → World → A × Supervisor × World

infixl 5 ◌>>=◌ ◌>>◌
abbrev pub ◌>>=◌ : {A B : Type 0} → M A → (A → M B) → M B
◌>>=◌ m f s w = let r = m s w in f r.0 r.1 r.2

abbrev pub ◌>>◌ : {A B : Type 0} → M A → M B → M B
◌>>◌ m k s w = let r = m s w in k r.1 r.2

abbrev pub pure : {A : Type 0} → A → M A
pure a s w = (a, s, w)

abbrev pub get : M Supervisor
get s w = (s, s, w)

abbrev pub modify : (Supervisor → Supervisor) → M (Unit {0})
modify f s w = (tt, f s, w)

abbrev pub when : Bool → M (Unit {0}) → M (Unit {0})
when b m s w = if b then m s w else (tt, s, w)

-- `Instant::now()`
abbrev pub now : M ℕ
now s w = (w.clock w.at, s, record w { at = w.at + 1 })

abbrev pub emit : Effect → M (Unit {0})
emit e s w = (tt, s, record w { trace = e ∷ w.trace })

abbrev pub succeeded : {A : Type 0} → Option A → Bool
succeeded none = false
succeeded (some a) = true

-- `apply::run_sql`; the text of an error is only logged.
unfoldable pub run_sql : Sql → M (Option Text)
run_sql q s w = (
  w.reply w.at q,
  s,
  record w { at = w.at + 1; trace = ran q (succeeded (w.reply w.at q)) ∷ w.trace },
)

-- `apply_setting`: the statement, then a reload if it succeeded.
unfoldable pub apply_setting : Sql → M Bool
apply_setting q = do
  r ← run_sql q
  if succeeded r then (do r' ← run_sql reload_conf; pure (succeeded r')) else pure false

-- `decided.map(|decision| decision.primary).unwrap_or(0)`, and the same for `seq`
abbrev pub primary_of : Option Decision → ℕ
primary_of none = 0
primary_of (some d) = d.primary

abbrev pub seq_of : Option Decision → ℕ
seq_of none = 0
seq_of (some d) = d.seq

abbrev pub decided_primary : Supervisor → ℕ
decided_primary s = primary_of s.decided

abbrev pub decided_seq : Supervisor → ℕ
decided_seq s = seq_of s.decided

abbrev pub is_flag : Option Bool → Bool → Bool
is_flag none b = false
is_flag (some true) b = b
is_flag (some false) b = not b

-- `applied_sync.as_deref() == Some(names)`
abbrev pub is_names : Option Text → Text → Bool
is_names none names = false
is_names (some t) names = text_eq t names

abbrev pub dead_timeout : ℕ
dead_timeout = 2500

abbrev pub confirm_window : ℕ
confirm_window = 1500

abbrev pub quorum_lease : ℕ
quorum_lease = 1200

abbrev pub stall_threshold : ℕ
stall_threshold = 1500
