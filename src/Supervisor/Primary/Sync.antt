-- ===== src/Supervisor/Primary/Sync.antt =====
-- The confirmation of new authority, the names of the synchronous standbys, and the rejoin of a
-- deposed primary, in src/lib.rs.
use hyperiondb.Prelude.{
  ℕ, ◌+◌, ◌-◌, ◌≤◌, ◌<◌, ◌≡◌, ◌≢◌, ap, sym, ◌∙◌, ◌⊎◌, inl, inr, Bool, true, false, Option, none,
  some, arith, Bool-cases, Option-cases,
}
use hyperiondb.Prelude.Text.{Text, text_eq_iff}
use hyperiondb.Failover.{Decision}
use hyperiondb.Supervisor.World.{
  Settings, Supervisor, World, set_read_only, set_sync, reload_conf, run_sql, apply_setting,
  succeeded, is_flag, confirm_window,
}
use hyperiondb.Supervisor.Primary.{
  confirm, authorize, wanted_sync, configure_sync, unfence, primary_step,
}
use hyperiondb.Supervisor.Primary.Frames.{
  unfences, AllSucceed, ensure_slots-state, ensure_slots-world, authorize-state, fence-state,
  fence-world, unfence-state, rejoin-state,
}
use hyperiondb.Supervisor.Primary.Fencing.{
  s₁, w₁, authorized, s₂, w₂, s₃, w₃, s₄, w₄, s₅, w₅, primary_step-parts, reply₂,
  unfences-unauthorized, read_only-unauthorized,
}

-- The clock has moved by the window since authority was first seen; or authority is new, and the
-- clock moved by the window between two readings of it.
abbrev pub Confirmed : Supervisor → World → Type 0
Confirmed s w =
    ((since : ℕ) × (k : ℕ) × (s.authorized_since ≡ some since)
      × (confirm_window ≤ w.clock k - since))
    ⊎ ((k : ℕ) × (s.authorized_since ≡ none) × (confirm_window ≤ w.clock (k + 1) - w.clock k))

configure_sync-sets :
    (names : Text) (s : Supervisor) (w : World)
    → AllSucceed w
    → (configure_sync (some names) s w).1.applied_sync ≡ some names
unfolding configure_sync apply_setting run_sql
configure_sync-sets names s w ok = elim (Option-cases s.applied_sync) [
  | inl e ↦ ground (arith, ok w.at (set_sync names), ok (w.at + 1) reload_conf)
  | inr (t, e) ↦
      ground (arith, ok w.at (set_sync names), ok (w.at + 1) reload_conf, text_eq_iff t names)
]

pub configure_sync-fails :
    (names : Text) (s : Supervisor) (w : World)
    → ((k : ℕ) → w.reply k (set_sync names) ≡ none)
    → (configure_sync (some names) s w).1.applied_sync ≡ s.applied_sync
unfolding configure_sync apply_setting run_sql
configure_sync-fails names s w fails = ground (arith, fails w.at)

pub unfence-true :
    (b : Bool)
    → b ≡ true
    → (s : Supervisor) (w : World) → succeeded (w.reply w.at (set_read_only false)) ≡ true
    → succeeded (w.reply (w.at + 1) reload_conf) ≡ true
    → (unfence b s w).1.applied_read_only ≡ some false
unfolding unfence apply_setting run_sql
unfence-true true h s w ok reloads = ground arith
unfence-true false h s w ok reloads = cc

module _ (c : Settings) (quorum_ok : Bool) where
  authorize-Confirmed :
      (s : Supervisor) (w : World)
      → (authorize c quorum_ok s w).0 ≡ true
      → succeeded s.decided ≡ true
      → is_flag s.applied_read_only false ≡ false
      → Confirmed s w
  unfolding authorize confirm
  authorize-Confirmed s w h d r = elim (Option-cases s.authorized_since) [
    | inl e ↦ inr (w.at, e, ground arith)
    | inr (since, e) ↦ inl (since, w.at, e, ground arith)
  ]

  Confirmed-same :
      (s t : Supervisor) (w v : World)
      → t.authorized_since ≡ s.authorized_since
      → v.clock ≡ w.clock
      → Confirmed t v
      → Confirmed s w
  Confirmed-same s t w v e f (inl (since, k, a, h)) = inl (since, k, sym e ∙ a, rw f at h)
  Confirmed-same s t w v e f (inr (k, a, h)) = inr (k, sym e ∙ a, rw f at h)

  pub wanted_sync-target :
      (b : Bool) (s : Supervisor)
      → c.synchronous ≡ true
      → succeeded s.decided ≡ true
      → b ≡ true
      → wanted_sync c b s ≡ some c.sync_target
  unfolding wanted_sync
  wanted_sync-target b s sync e t = ground arith

  module _ (s : Supervisor) (w : World) where
    pub slots-decided : (s₁ c quorum_ok s w).decided ≡ s.decided
    slots-decided = rw ensure_slots-state

    pub slots-read_only : (s₁ c quorum_ok s w).applied_read_only ≡ s.applied_read_only
    slots-read_only = rw ensure_slots-state

    pub slots-since : (s₁ c quorum_ok s w).authorized_since ≡ s.authorized_since
    slots-since = rw ensure_slots-state

    pub fence-decided : (s₃ c quorum_ok s w).decided ≡ s.decided
    fence-decided =
        ap (λ (t : Supervisor). t.decided)
          (fence-state c (authorized c quorum_ok s w) (s₂ c quorum_ok s w) (w₂ c quorum_ok s w))
        ∙ ap (λ (t : Supervisor). t.decided)
            (authorize-state c quorum_ok (s₁ c quorum_ok s w) (w₁ c quorum_ok s w))
        ∙ slots-decided

    pub reply₃ : (w₃ c quorum_ok s w).reply ≡ w.reply
    reply₃ =
        (fence-world c (authorized c quorum_ok s w) (s₂ c quorum_ok s w) (w₂ c quorum_ok s w)).0
        ∙ reply₂ c quorum_ok s w

    -- The round ends with the names that the middle part leaves.
    pub sync-after :
        (primary_step c quorum_ok s w).1.applied_sync ≡ (s₄ c quorum_ok s w).applied_sync
    sync-after = rw primary_step-parts (
        ap (λ (t : Supervisor). t.applied_sync)
          (rejoin-state c (authorized c quorum_ok s w) (s₅ c quorum_ok s w) (w₅ c quorum_ok s w))
        ∙ ap (λ (t : Supervisor). t.applied_sync)
            (unfence-state c (authorized c quorum_ok s w) (s₄ c quorum_ok s w)
              (w₄ c quorum_ok s w)))

    pub read_only-after :
        (primary_step c quorum_ok s w).1.applied_read_only ≡ (s₅ c quorum_ok s w).applied_read_only
    read_only-after = rw primary_step-parts (
        ap (λ (t : Supervisor). t.applied_read_only)
          (rejoin-state c (authorized c quorum_ok s w) (s₅ c quorum_ok s w) (w₅ c quorum_ok s w)))

  -- Once a primary is decided, a node that is not known to be writable is made writable only when
  -- its authority is confirmed.
  pub unfence-Confirmed :
      (s : Supervisor) (w : World) (d : Decision)
      → s.decided ≡ some d
      → s.applied_read_only ≢ some false
      → unfences w.trace < unfences (primary_step c quorum_ok s w).2.trace
      → Confirmed s w
  unfence-Confirmed s w d e r h = elim (Bool-cases (authorized c quorum_ok s w)) [
    | inr f ↦ absurd (omega (arith, unfences-unauthorized c quorum_ok s w f))
    | inl t ↦
        Confirmed-same s (s₁ c quorum_ok s w) w (w₁ c quorum_ok s w) (slots-since s w)
          (ensure_slots-world c s w).1
          (authorize-Confirmed (s₁ c quorum_ok s w) (w₁ c quorum_ok s w) t
            (rw (slots-decided s w ∙ e)) (rw (slots-read_only s w) (ground arith)))
  ]

  -- With synchronous replication and a decided primary, a round whose statements succeed ends
  -- writable only with the names of the standbys configured.
  pub synced_when_writable :
      (s : Supervisor) (w : World) (d : Decision)
      → c.synchronous ≡ true
      → s.decided ≡ some d
      → AllSucceed w
      → (primary_step c quorum_ok s w).1.applied_read_only ≡ some false
      → (primary_step c quorum_ok s w).1.applied_sync ≡ some c.sync_target
  synced_when_writable s w d sync e ok writable = elim (Bool-cases (authorized c quorum_ok s w)) [
    | inr f ↦ cc (read_only-unauthorized c quorum_ok s w f ok)
    | inl t ↦
        sync-after s w
        ∙ ap
            (λ (o : Option Text).
              (configure_sync o (s₃ c quorum_ok s w) (w₃ c quorum_ok s w)).1.applied_sync)
            (wanted_sync-target (authorized c quorum_ok s w) (s₃ c quorum_ok s w) sync
              (rw (fence-decided s w ∙ e)) t)
        ∙ configure_sync-sets c.sync_target (s₃ c quorum_ok s w) (w₃ c quorum_ok s w)
            (rw (reply₃ s w) ok)
  ]
