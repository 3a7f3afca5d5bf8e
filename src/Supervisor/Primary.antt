-- ===== src/Supervisor/Primary.antt =====
-- src/lib.rs: the part of a round for a node that is not in recovery: who may write, the fence, the
-- names of the synchronous standbys and the rejoin of a deposed primary.
pub mod Frames
pub mod Fencing
pub mod Sync
pub mod Faults
pub mod Liveness
pub mod Since
pub mod Rejoin
use hyperiondb.Prelude.{
  ℕ, ◌-◌, ◌<◌, Bool, true, false, not, ◌&&◌, ◌||◌, Option, none, some, List, [], ◌∷◌, ltb, leb,
  ◌==◌, if◌then◌else◌, find, map, max_of,
}
use hyperiondb.Prelude.Text.{Text, text_eq}
use hyperiondb.Failover.{Decision}
use hyperiondb.Supervisor.World.{
  Settings, Supervisor, Sql, set_read_only, set_sync, create_slot, show_data_directory, Effect,
  rejoined, M, ◌>>=◌, ◌>>◌, pure, get, modify, when, now, emit, run_sql, apply_setting, succeeded,
  decided_primary, is_flag, is_names, confirm_window,
}

-- A new primary makes a slot for each other member, once; failures are ignored.
unfoldable pub create_slots : Settings → List (ℕ × Text) → M (Unit {0})
create_slots c [] = pure tt
create_slots c ((id, addr) ∷ members) = do
  when (not (id == c.node_id)) (do run_sql (create_slot id); pure tt)
  create_slots c members

unfoldable pub ensure_slots : Settings → M (Unit {0})
ensure_slots c = do
  s ← get
  when (decided_primary s == c.node_id && not s.slots_ensured)
      (do create_slots c c.pg_members; modify (λ t. record t { slots_ensured = true }))

-- The newest sequence number that a peer has gossiped.
abbrev pub cluster_seq : Supervisor → ℕ
cluster_seq s = max_of (map (λ e. e.1) s.peers_seq)

unfoldable pub raw_authority : Settings → Bool → Supervisor → Bool
raw_authority c quorum_ok s = elim s.decided [
  | none ↦ quorum_ok && (cluster_seq s == 0 && not s.cluster_marker)
  | some d ↦ d.primary == c.node_id && (quorum_ok && not s.reconfirm_pending)
]

-- `*authorized_since.get_or_insert_with(Instant::now)`, and the test that it has lasted.
unfoldable pub confirm : Option ℕ → M Bool
confirm (some since) = do t ← now; pure (leb confirm_window (t - since))
confirm none = do
  since ← now
  modify (λ u. record u { authorized_since = some since })
  t ← now
  pure (leb confirm_window (t - since))

-- Authority that is new has to last for `confirm_window`, but at the bootstrap and on a node that is
-- already writable.
unfoldable pub authorize : Settings → Bool → M Bool
authorize c quorum_ok = do
  s ← get
  if not (raw_authority c quorum_ok s)
      then (do modify (λ t. record t { authorized_since = none }); pure false)
      else if not (succeeded s.decided) || is_flag s.applied_read_only false
      then (do t ← now; modify (λ u. record u { authorized_since = some t }); pure true)
      else confirm s.authorized_since

-- `none` leaves the names alone.
unfoldable pub wanted_sync : Settings → Bool → Supervisor → Option Text
wanted_sync c authorized s =
    if not c.synchronous
    then some []
    else if authorized && succeeded s.decided
    then some c.sync_target
    else none

unfoldable pub fence : Bool → M (Unit {0})
fence authorized = do
  s ← get
  when (not authorized && not (is_flag s.applied_read_only true)) (do
    ok ← apply_setting (set_read_only true)
    when ok (modify (λ t. record t { applied_read_only = some true })))

unfoldable pub configure_sync : Option Text → M (Unit {0})
configure_sync none = pure tt
configure_sync (some names) = do
  s ← get
  when (not (is_names s.applied_sync names)) (do
    ok ← apply_setting (set_sync names)
    when ok (modify (λ t. record t { applied_sync = some names })))

unfoldable pub unfence : Bool → M (Unit {0})
unfence authorized = do
  s ← get
  when (authorized && not (is_flag s.applied_read_only false)) (do
    ok ← apply_setting (set_read_only false)
    when ok (modify (λ t. record t { applied_read_only = some false })))

-- The data directory that was read before, or what a statement returns now.
unfoldable pub known_datadir : M Text
known_datadir = do
  s ← get
  elim s.datadir [
    | some dir ↦ pure dir
    | none ↦ (do r ← run_sql show_data_directory; pure (elim r [ none ↦ [] | some dir ↦ dir ]))
  ]

-- A deposed primary is rewound against the decided one, once for each decision.
unfoldable pub rejoin : Settings → Bool → M (Unit {0})
rejoin c authorized = do
  s ← get
  when
      (not authorized
        && (not (decided_primary s == 0)
            && (not (decided_primary s == c.node_id) && (not s.rejoining && c.has_rejoin_script))))
      (elim (find (λ m. m.0 == decided_primary s) c.pg_members) [
        | none ↦ pure tt
        | some member ↦ (do
          dir ← known_datadir
          when (not (text_eq dir []))
              (do emit (rejoined dir member.1); modify (λ t. record t { rejoining = true })))
      ])

-- Fence first, then the names, then unfence.
unfoldable pub primary_step : Settings → Bool → M (Unit {0})
primary_step c quorum_ok = do
  ensure_slots c
  authorized ← authorize c quorum_ok
  fence authorized
  s ← get
  configure_sync (wanted_sync c authorized s)
  unfence authorized
  rejoin c authorized
