-- ===== src/Supervisor/Primary/Fencing.antt =====
-- The fence of src/lib.rs: a node that is not in recovery is made writable only with authority, and
-- read-only without it.
use hyperiondb.Prelude.{
  ◌+◌, ◌<◌, ◌≡◌, refl, ap, sym, ◌∙◌, ◌⊎◌, inl, inr, Bool, true, false, none, some, List, arith,
  Bool-cases,
}
use hyperiondb.Failover.{Decision}
use hyperiondb.Supervisor.World.{
  Settings, Supervisor, World, set_read_only, reload_conf, Effect, run_sql, apply_setting,
}
use hyperiondb.Supervisor.Primary.{
  cluster_seq, ensure_slots, raw_authority, confirm, authorize, wanted_sync, fence, configure_sync,
  unfence, rejoin, primary_step,
}
use hyperiondb.Supervisor.Primary.Frames.{
  unfences, AllSucceed, ensure_slots-state, ensure_slots-world, authorize-world, fence-world,
  configure_sync-state, configure_sync-world, rejoin-state, rejoin-world,
}

-- A quorum is in contact, and the node is the decided primary with nothing to reconfirm, or the loop
-- knows of no decision.
abbrev pub HasAuthority : Settings → Bool → Supervisor → Type 0
HasAuthority c quorum_ok s =
    (quorum_ok ≡ true)
    × (((s.decided ≡ none) × (cluster_seq s ≡ 0) × (s.cluster_marker ≡ false))
        ⊎ ((d : Decision) × (s.decided ≡ some d)
            × (d.primary ≡ c.node_id)
            × (s.reconfirm_pending ≡ false)))

pub unfence-false :
    (b : Bool)
    → b ≡ false
    → (s : Supervisor) (w : World) → ((unfence b s w).1 ≡ s) × ((unfence b s w).2.trace ≡ w.trace)
unfolding unfence
unfence-false true h s w = cc
unfence-false false h s w = (refl, refl)

pub fence-false :
    (b : Bool)
    → b ≡ false
    → (s : Supervisor) (w : World) → AllSucceed w
    → (fence b s w).1.applied_read_only ≡ some true
unfolding fence apply_setting run_sql
fence-false true h s w ok = cc
fence-false false h s w ok = ground (arith, ok w.at (set_read_only true), ok (w.at + 1) reload_conf)

module _ (c : Settings) (quorum_ok : Bool) where
  pub raw_authority-HasAuthority :
      (s : Supervisor) → raw_authority c quorum_ok s ≡ true → HasAuthority c quorum_ok s
  unfolding raw_authority
  raw_authority-HasAuthority s h = ground arith

  authorize-raw :
      (s : Supervisor) (w : World)
      → (authorize c quorum_ok s w).0 ≡ true
      → raw_authority c quorum_ok s ≡ true
  unfolding authorize confirm
  authorize-raw s w h = ground arith

  pub raw_authority-ensure_slots :
      (s : Supervisor) (w : World)
      → raw_authority c quorum_ok (ensure_slots c s w).1 ≡ raw_authority c quorum_ok s
  unfolding raw_authority
  raw_authority-ensure_slots s w = rw ensure_slots-state

  -- The parts of the round, each from where the part before it ended.
  module _ (s : Supervisor) (w : World) where
    abbrev pub s₁ : Supervisor
    s₁ = (ensure_slots c s w).1

    abbrev pub w₁ : World
    w₁ = (ensure_slots c s w).2

    abbrev pub authorized : Bool
    authorized = (authorize c quorum_ok s₁ w₁).0

    abbrev pub s₂ : Supervisor
    s₂ = (authorize c quorum_ok s₁ w₁).1

    abbrev pub w₂ : World
    w₂ = (authorize c quorum_ok s₁ w₁).2

    abbrev pub s₃ : Supervisor
    s₃ = (fence authorized s₂ w₂).1

    abbrev pub w₃ : World
    w₃ = (fence authorized s₂ w₂).2

    abbrev pub s₄ : Supervisor
    s₄ = (configure_sync (wanted_sync c authorized s₃) s₃ w₃).1

    abbrev pub w₄ : World
    w₄ = (configure_sync (wanted_sync c authorized s₃) s₃ w₃).2

    abbrev pub s₅ : Supervisor
    s₅ = (unfence authorized s₄ w₄).1

    abbrev pub w₅ : World
    w₅ = (unfence authorized s₄ w₄).2

    pub primary_step-parts : primary_step c quorum_ok s w ≡ rejoin c authorized s₅ w₅
    unfolding primary_step
    primary_step-parts = refl

    pub unfences-before : unfences w₄.trace ≡ unfences w.trace
    unfences-before = omega (
      arith,
      (configure_sync-world (wanted_sync c authorized s₃) s₃ w₃).1,
      (fence-world c authorized s₂ w₂).1,
      ap (λ (v : List Effect). unfences v) (authorize-world c quorum_ok s₁ w₁).1,
      (ensure_slots-world c s w).2,
    )

    pub reply₂ : w₂.reply ≡ w.reply
    reply₂ = (authorize-world c quorum_ok s₁ w₁).0 ∙ (ensure_slots-world c s w).0

    pub reply₄ : w₄.reply ≡ w.reply
    reply₄ =
        (configure_sync-world (wanted_sync c authorized s₃) s₃ w₃).0
        ∙ (fence-world c authorized s₂ w₂).0
        ∙ reply₂

    pub unfences-unauthorized :
        authorized ≡ false → unfences (primary_step c quorum_ok s w).2.trace ≡ unfences w.trace
    unfences-unauthorized h = rw primary_step-parts (
        rejoin-world c authorized s₅ w₅
        ∙ ap (λ (v : List Effect). unfences v) (unfence-false authorized h s₄ w₄).1
        ∙ unfences-before)

    pub authorized-HasAuthority : authorized ≡ true → HasAuthority c quorum_ok s
    authorized-HasAuthority h =
        raw_authority-HasAuthority s (sym (raw_authority-ensure_slots s w) ∙ authorize-raw s₁ w₁ h)

    pub read_only-unauthorized :
        authorized ≡ false
        → AllSucceed w
        → (primary_step c quorum_ok s w).1.applied_read_only ≡ some true
    read_only-unauthorized h ok =
        rw (primary_step-parts, rejoin-state c authorized s₅ w₅)
          (ap (λ (t : Supervisor). t.applied_read_only) (unfence-false authorized h s₄ w₄).0
            ∙ ap (λ (t : Supervisor). t.applied_read_only)
                (configure_sync-state (wanted_sync c authorized s₃) s₃ w₃)
            ∙ fence-false authorized h s₂ w₂ (rw reply₂ ok))

    unauthorized : ¬ HasAuthority c quorum_ok s → authorized ≡ false
    unauthorized no_one = elim (Bool-cases authorized) [
      | inl h ↦ absurd (no_one (authorized-HasAuthority h))
      | inr h ↦ h
    ]

  -- A round of a node that is not in recovery asks Postgres to become writable only with authority:
  -- a quorum in contact, and either the decision names the node and nothing waits to be reconfirmed,
  -- or the loop has no decision, no sequence number from a peer, and has not seen that the cluster is
  -- marked on disk. (It has not seen that either while it has not read the data directory.)
  pub unfence_needs_authority :
      (s : Supervisor) (w : World)
      → unfences w.trace < unfences (primary_step c quorum_ok s w).2.trace
      → HasAuthority c quorum_ok s
  unfence_needs_authority s w h = elim (Bool-cases (authorized s w)) [
    | inl yes_authorized ↦ authorized-HasAuthority s w yes_authorized
    | inr not_authorized ↦ absurd (omega (arith, unfences-unauthorized s w not_authorized))
  ]

  pub unfences_without_authority :
      (s : Supervisor) (w : World)
      → ¬ HasAuthority c quorum_ok s
      → unfences (primary_step c quorum_ok s w).2.trace ≡ unfences w.trace
  unfences_without_authority s w no_one = unfences-unauthorized s w (unauthorized s w no_one)

  -- Without authority, and if the statements succeed, the round ends with the node read-only and has
  -- not asked Postgres to become writable.
  pub fenced_without_authority :
      (s : Supervisor) (w : World)
      → ¬ HasAuthority c quorum_ok s
      → AllSucceed w
      → ((primary_step c quorum_ok s w).1.applied_read_only ≡ some true)
        × (unfences (primary_step c quorum_ok s w).2.trace ≡ unfences w.trace)
  fenced_without_authority s w no_one ok =
      let h = unauthorized s w no_one in
      (read_only-unauthorized s w h ok, unfences-unauthorized s w h)
