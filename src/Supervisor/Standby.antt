-- ===== src/Supervisor/Standby.antt =====
-- src/lib.rs: the part of a round for a node in recovery: it is promoted if the decision names it,
-- and follows the decided primary otherwise.
pub mod Promotion
use hyperiondb.Prelude.{
  [], ℕ, ◌-◌, Bool, true, false, not, ◌&&◌, Option, none, some, List, ltb, leb, ◌==◌, if◌then◌else◌,
  find,
}
use hyperiondb.Prelude.Text.{Text}
use hyperiondb.Supervisor.World.{
  Settings, Supervisor, set_read_only, set_sync, set_conninfo, reload_conf, promote, M, ◌>>=◌, ◌>>◌,
  pure, get, modify, when, run_sql, apply_setting, succeeded, decided_primary, is_names,
}

-- A standby confirms no commits of its own.
unfoldable pub clear_sync : M (Unit {0})
clear_sync = do
  s ← get
  when (not (is_names s.applied_sync [])) (do
    ok ← apply_setting (set_sync [])
    when ok (modify (λ t. record t { applied_sync = some [] })))

-- The node is fenced before it is promoted, whether or not those statements succeed.
unfoldable pub promote_self : M (Unit {0})
promote_self = do
  modify (λ s.
      if s.promoted && leb 100 (s.ticks - s.promote_tick) then record s { promoted = false } else s)
  s ← get
  when (not s.promoted) (do
    run_sql (set_read_only true)
    run_sql reload_conf
    r ← run_sql promote
    when (succeeded r) (modify (λ t. record t { promoted = true; promote_tick = t.ticks })))

unfoldable pub follow_primary : Settings → M (Unit {0})
follow_primary c = do
  s ← get
  when (not (decided_primary s == 0) && not (s.applied_primary == decided_primary s))
      (elim (find (λ (m : ℕ × Text). m.0 == decided_primary s) c.pg_members) [
        | none ↦ pure tt
        | some _ ↦ (do
          ok ← apply_setting (set_conninfo c.conninfo)
          when ok (modify (λ t. record t { applied_primary = decided_primary s })))
      ])

unfoldable pub standby_step : Settings → M (Unit {0})
standby_step c = do
  modify (λ s. record s { applied_read_only = none; authorized_since = none })
  clear_sync
  s ← get
  if decided_primary s == c.node_id then promote_self else follow_primary c
