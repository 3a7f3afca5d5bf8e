-- ===== src/Supervisor/Primary/Faults.antt =====
-- A round of src/lib.rs in which the statement for the synchronous standbys fails.
use hyperiondb.Prelude.{ℕ, ◌-◌, ◌≤◌, ◌≡◌, ap, ◌∙◌, true, false, Option, none, some, arith}
use hyperiondb.Prelude.Text.{Text}
use hyperiondb.Failover.{Decision}
use hyperiondb.Supervisor.World.{
  Settings, Supervisor, World, set_read_only, set_sync, reload_conf, succeeded, confirm_window,
}
use hyperiondb.Supervisor.Primary.{raw_authority, confirm, authorize, configure_sync, primary_step}
use hyperiondb.Supervisor.Primary.Frames.{
  ensure_slots-state, ensure_slots-world, authorize-state, fence-state,
}
use hyperiondb.Supervisor.Primary.Sync.{
  slots-decided, slots-since, fence-decided, sync-after, read_only-after, reply₃,
  wanted_sync-target, configure_sync-fails, unfence-true,
}
use hyperiondb.Supervisor.Primary.Fencing.{s₁, w₁, authorized, s₂, w₂, s₃, w₃, s₄, w₄, reply₄}

module _ (c : Settings) where
  pub authorize-true :
      (s : Supervisor) (w : World) (d : Decision) (since : ℕ)
      → s.decided ≡ some d
      → d.primary ≡ c.node_id
      → s.reconfirm_pending ≡ false
      → s.authorized_since ≡ some since
      → ((k : ℕ) → confirm_window ≤ w.clock k - since)
      → (authorize c true s w).0 ≡ true
  unfolding authorize confirm raw_authority
  authorize-true s w d since e p r a h = ground (arith, h w.at)

  pub slots-pending :
      (s : Supervisor) (w : World) → (s₁ c true s w).reconfirm_pending ≡ s.reconfirm_pending
  slots-pending s w = rw ensure_slots-state

  -- A primary with confirmed authority whose statement for the standbys' names fails while the
  -- others succeed ends the round writable all the same, with the names that it had before.
  pub writable_despite_sync_failure :
      (s : Supervisor) (w : World) (d : Decision) (since : ℕ)
      → c.synchronous ≡ true
      → s.decided ≡ some d
      → d.primary ≡ c.node_id
      → s.reconfirm_pending ≡ false
      → s.authorized_since ≡ some since
      → ((k : ℕ) → confirm_window ≤ w.clock k - since)
      → ((k : ℕ) → w.reply k (set_sync c.sync_target) ≡ none)
      → ((k : ℕ) → succeeded (w.reply k (set_read_only false)) ≡ true)
      → ((k : ℕ) → succeeded (w.reply k reload_conf) ≡ true)
      → ((primary_step c true s w).1.applied_read_only ≡ some false)
        × ((primary_step c true s w).1.applied_sync ≡ s.applied_sync)
  writable_despite_sync_failure s w d since sync e p r a window fails off reloads =
      let b = authorized c true s w in
      let t : b ≡ true =
        authorize-true (s₁ c true s w) (w₁ c true s w) d since (slots-decided c true s w ∙ e) p
          (slots-pending s w ∙ r) (slots-since c true s w ∙ a)
          (rw (ensure_slots-world c s w).1 window) in
      (
        read_only-after c true s w
            ∙ unfence-true b t (s₄ c true s w) (w₄ c true s w) (rw (reply₄ c true s w) (off _))
                (rw (reply₄ c true s w) (reloads _)),
        sync-after c true s w
            ∙ ap
                (λ (o : Option Text).
                  (configure_sync o (s₃ c true s w) (w₃ c true s w)).1.applied_sync)
                (wanted_sync-target c true b (s₃ c true s w) sync
                  (rw (fence-decided c true s w ∙ e)) t)
            ∙ configure_sync-fails c.sync_target (s₃ c true s w) (w₃ c true s w)
                (rw (reply₃ c true s w) fails)
            ∙ ap (λ (u : Supervisor). u.applied_sync)
                (fence-state c b (s₂ c true s w) (w₂ c true s w))
            ∙ ap (λ (u : Supervisor). u.applied_sync)
                (authorize-state c true (s₁ c true s w) (w₁ c true s w))
            ∙ ap (λ (u : Supervisor). u.applied_sync) (ensure_slots-state c s w),
      )
