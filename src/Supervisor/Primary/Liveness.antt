-- ===== src/Supervisor/Primary/Liveness.antt =====
-- The authority of a decided primary over the part of a round in src/lib.rs that it runs.
use hyperiondb.Prelude.{
  ℕ, ◌+◌, ◌-◌, ◌≤◌, ◌≡◌, ◌⊎◌, inl, inr, refl, ap, ◌∙◌, Bool, true, false, Option, some, arith,
  Bool-cases, Option-cases,
}
use hyperiondb.Prelude.Text.{Text}
use hyperiondb.Failover.{Decision}
use hyperiondb.Supervisor.World.{Settings, Supervisor, World, is_flag, confirm_window}
use hyperiondb.Supervisor.Primary.{raw_authority, confirm, authorize, wanted_sync, primary_step}
use hyperiondb.Supervisor.Primary.Frames.{
  AllSucceed, ensure_slots-world, ensure_slots-later, authorize-state, fence-state,
  configure_sync-state, unfence-state, rejoin-state,
}
use hyperiondb.Supervisor.Primary.Sync.{
  slots-decided, slots-since, slots-read_only, read_only-after, unfence-true,
}
use hyperiondb.Supervisor.Primary.Fencing.{
  s₁, w₁, authorized, s₂, w₂, s₃, w₃, s₄, w₄, s₅, w₅, primary_step-parts, reply₄,
}
use hyperiondb.Supervisor.Primary.Faults.{slots-pending}

-- The decision names the node, and nothing waits to be reconfirmed.
pub record IsDecidedHere (c : Settings) (s : Supervisor) (d : Decision) : Type 0 where
  pub decided_here : s.decided ≡ some d
  pub is_primary : d.primary ≡ c.node_id
  pub confirmed : s.reconfirm_pending ≡ false

-- A time that was noted before, or that the clock showed.
abbrev pub IsNoted : Supervisor → World → ℕ → Type 0
IsNoted s w t = (s.authorized_since ≡ some t) ⊎ ((k : ℕ) × (t ≡ w.clock k))

module _ (c : Settings) where
  authorize-notes :
      (s : Supervisor) (w : World) (d : Decision)
      → IsDecidedHere c s d
      → (t : ℕ) × ((authorize c true s w).1.authorized_since ≡ some t) × IsNoted s w t
  unfolding authorize confirm raw_authority
  authorize-notes s w d here =
      let e = here.decided_here in
      let p = here.is_primary in
      let r = here.confirmed in
      elim (Bool-cases (is_flag s.applied_read_only false)) [
        | inl f ↦ (w.clock w.at, ground (arith, e, p, r, f), inr (w.at, refl))
        | inr f ↦ elim (Option-cases s.authorized_since) [
          | inl a ↦ (w.clock w.at, ground (arith, e, p, r, f, a), inr (w.at, refl))
          | inr (since, a) ↦ (since, ground (arith, e, p, r, f, a), inl a)
        ]
      ]

  module _ (quorum_ok : Bool) (s : Supervisor) (w : World) where
    -- What the parts behind `authorize` leave alone.
    after_authorize :
        (A : Type 0) (f : Supervisor → A)
        → ((t : Supervisor) (b : Option Bool) → f (record t { applied_read_only = b }) ≡ f t)
        → ((t : Supervisor) (o : Option Text) → f (record t { applied_sync = o }) ≡ f t)
        → ((t : Supervisor) (b : Bool) → f (record t { rejoining = b }) ≡ f t)
        → f (primary_step c quorum_ok s w).1 ≡ f (s₂ c quorum_ok s w)
    after_authorize A f flag sync rejoins =
        let b = authorized c quorum_ok s w in
        ap (λ r. f r.1) (primary_step-parts c quorum_ok s w)
        ∙ ap f (rejoin-state c b (s₅ c quorum_ok s w) (w₅ c quorum_ok s w))
        ∙ rejoins _ _
        ∙ ap f (unfence-state c b (s₄ c quorum_ok s w) (w₄ c quorum_ok s w))
        ∙ flag _ _
        ∙ ap f (
            configure_sync-state (wanted_sync c b (s₃ c quorum_ok s w)) (s₃ c quorum_ok s w)
              (w₃ c quorum_ok s w))
        ∙ sync _ _
        ∙ ap f (fence-state c b (s₂ c quorum_ok s w) (w₂ c quorum_ok s w))
        ∙ flag _ _

    pub since-after :
        (primary_step c quorum_ok s w).1.authorized_since ≡ (s₂ c quorum_ok s w).authorized_since
    since-after =
        after_authorize (Option ℕ) (λ t. t.authorized_since) (λ t b. refl) (λ t o. refl)
          (λ t b. refl)

    decided-after : (primary_step c quorum_ok s w).1.decided ≡ s.decided
    decided-after =
        after_authorize (Option Decision) (λ t. t.decided) (λ t b. refl) (λ t o. refl) (λ t b. refl)
        ∙ ap (λ (t : Supervisor). t.decided)
            (authorize-state c quorum_ok (s₁ c quorum_ok s w) (w₁ c quorum_ok s w))
        ∙ slots-decided c quorum_ok s w

  module _ (s : Supervisor) (w : World) where
    pending-after : (primary_step c true s w).1.reconfirm_pending ≡ s.reconfirm_pending
    pending-after =
        after_authorize true s w Bool (λ t. t.reconfirm_pending) (λ t b. refl) (λ t o. refl)
          (λ t b. refl)
        ∙ ap (λ (t : Supervisor). t.reconfirm_pending)
            (authorize-state c true (s₁ c true s w) (w₁ c true s w))
        ∙ slots-pending c s w

  authorize-now :
      (s : Supervisor) (w : World) (d : Decision) (since : ℕ)
      → IsDecidedHere c s d
      → s.authorized_since ≡ some since
      → confirm_window ≤ w.clock w.at - since
      → (authorize c true s w).0 ≡ true
  unfolding authorize confirm raw_authority
  authorize-now s w d since here a h =
      let e = here.decided_here in
      let p = here.is_primary in let r = here.confirmed in ground (arith, e, p, r, a, h)

  authorize-flag :
      (s : Supervisor) (w : World) (d : Decision)
      → IsDecidedHere c s d
      → is_flag s.applied_read_only false ≡ true
      → (authorize c true s w).0 ≡ true
  unfolding authorize raw_authority
  authorize-flag s w d here f =
      let e = here.decided_here in
      let p = here.is_primary in let r = here.confirmed in ground (arith, e, p, r, f)

  authorize-keeps :
      (s : Supervisor) (w : World) (d : Decision) (t : ℕ)
      → IsDecidedHere c s d
      → is_flag s.applied_read_only false ≡ false
      → s.authorized_since ≡ some t
      → (authorize c true s w).1.authorized_since ≡ some t
  unfolding authorize confirm raw_authority
  authorize-keeps s w d t here f a =
      let e = here.decided_here in
      let p = here.is_primary in let r = here.confirmed in ground (arith, e, p, r, f, a)

  module _ (s : Supervisor) (v : World) (d : Decision) (here : IsDecidedHere c s d) where
    slots-here : IsDecidedHere c (s₁ c true s v) d
    slots-here = record {
      decided_here = slots-decided c true s v ∙ here.decided_here;
      is_primary = here.is_primary;
      confirmed = slots-pending c s v ∙ here.confirmed;
    }

    -- The decision stays with the node over the round.
    pub primary_step-here : IsDecidedHere c (primary_step c true s v).1 d
    primary_step-here = record {
      decided_here = decided-after true s v ∙ here.decided_here;
      is_primary = here.is_primary;
      confirmed = pending-after s v ∙ here.confirmed;
    }

    -- By the end of the round the time of authority is noted.
    pub primary_step-notes : (t : ℕ) × ((primary_step c true s v).1.authorized_since ≡ some t)
    primary_step-notes =
        let (t, notes, _) = authorize-notes (s₁ c true s v) (w₁ c true s v) d slots-here in
        (t, since-after true s v ∙ notes)

    unfenced :
        authorized c true s v ≡ true
        → AllSucceed v
        → (primary_step c true s v).1.applied_read_only ≡ some false
    unfenced t ok =
        read_only-after c true s v
        ∙ unfence-true (authorized c true s v) t (s₄ c true s v) (w₄ c true s v)
            (rw (reply₄ c true s v) (ok _ _)) (rw (reply₄ c true s v) (ok _ _))

    -- A writable node stays writable.
    pub primary_step-writable :
        s.applied_read_only ≡ some false
        → AllSucceed v
        → (primary_step c true s v).1.applied_read_only ≡ some false
    primary_step-writable f ok =
        unfenced
          (authorize-flag (s₁ c true s v) (w₁ c true s v) d slots-here
            (rw (slots-read_only c true s v ∙ f) refl))
          ok

    -- A time of authority that was noted stays, or the node is writable.
    pub primary_step-keeps :
        (t : ℕ)
        → s.authorized_since ≡ some t
        → AllSucceed v
        → ((primary_step c true s v).1.applied_read_only ≡ some false)
          ⊎ ((primary_step c true s v).1.authorized_since ≡ some t)
    primary_step-keeps t a ok =
        elim (Bool-cases (is_flag (s₁ c true s v).applied_read_only false)) [
          | inl f ↦
              inl (unfenced (authorize-flag (s₁ c true s v) (w₁ c true s v) d slots-here f) ok)
          | inr f ↦ inr (
              since-after true s v
              ∙ authorize-keeps (s₁ c true s v) (w₁ c true s v) d t slots-here f
                  (slots-since c true s v ∙ a))
        ]

    -- The round reads the clock a window after the time that is noted.
    pub primary_step-confirms :
        (t : ℕ)
        → s.authorized_since ≡ some t
        → AllSucceed v
        → ((k : ℕ) → v.at ≤ k → t + confirm_window ≤ v.clock k)
        → (primary_step c true s v).1.applied_read_only ≡ some false
    primary_step-confirms t a ok late =
        let w = w₁ c true s v in
        let reads : w.clock w.at ≡ v.clock w.at =
          ap (λ (f : ℕ → ℕ). f w.at) (ensure_slots-world c s v).1 in
        unfenced
          (authorize-now (s₁ c true s v) w d t slots-here (slots-since c true s v ∙ a)
            (omega (arith, late w.at (ensure_slots-later c s v), reads)))
          ok
