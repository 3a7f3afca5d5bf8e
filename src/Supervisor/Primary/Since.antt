-- ===== src/Supervisor/Primary/Since.antt =====
-- What a round out of recovery in src/lib.rs does to the time since which the node has authority.
use hyperiondb.Prelude.{
  ℕ, ◌≤◌, ◌<◌, ◌≡◌, ◌≢◌, refl, sym, ap, ◌∙◌, ◌⊎◌, inl, inr, Bool, true, false, not, ◌||◌, some,
  List, arith, Bool-cases, Option-cases,
}
use hyperiondb.Supervisor.World.{Settings, Supervisor, World, Effect, succeeded, is_flag}
use hyperiondb.Supervisor.Primary.{
  raw_authority, confirm, authorize, wanted_sync, fence, unfence, primary_step,
}
use hyperiondb.Supervisor.Primary.Frames.{
  unfences, ensure_slots-world, ensure_slots-later, authorize-state, configure_sync-state,
  rejoin-world,
}
use hyperiondb.Supervisor.Primary.Fencing.{
  HasAuthority, authorized, s₁, w₁, s₂, w₂, s₃, w₃, s₄, w₄, s₅, w₅, primary_step-parts,
  unfences-before, unfences-unauthorized, raw_authority-HasAuthority, raw_authority-ensure_slots,
}
use hyperiondb.Supervisor.Primary.Sync.{slots-since, slots-read_only}
use hyperiondb.Supervisor.Primary.Liveness.{since-after}

-- The time was noted before, or is what the clock shows at this point or later.
abbrev pub NotedFrom : Supervisor → World → ℕ → Type 0
NotedFrom s w t = (s.authorized_since ≡ some t) ⊎ ((k : ℕ) × (w.at ≤ k) × (t ≡ w.clock k))

pub NotedFrom-later :
    (s s' : Supervisor) (w w' : World) (t : ℕ)
    → (s'.authorized_since ≡ some t → s.authorized_since ≡ some t)
    → w'.clock ≡ w.clock
    → w.at ≤ w'.at
    → NotedFrom s' w' t
    → NotedFrom s w t
NotedFrom-later s s' w w' t since clock later (inl e) = inl (since e)
NotedFrom-later s s' w w' t since clock later (inr (k, from, e)) =
    inr (k, omega (arith, from, later), e ∙ ap (λ (f : ℕ → ℕ). f k) clock)

unfence-known :
    (b : Bool) (s : Supervisor) (w : World)
    → s.applied_read_only ≡ some false
    → (unfence b s w).2.trace ≡ w.trace
unfolding unfence
unfence-known b s w e = ground arith

fence-authorized : (b : Bool) → b ≡ true → (s : Supervisor) (w : World) → (fence b s w).1 ≡ s
unfolding fence
fence-authorized true e s w = refl
fence-authorized false e s w = absurd (cc e)

module _ (c : Settings) where
  authorize-since :
      (q : Bool) (s : Supervisor) (w : World) (t : ℕ)
      → (authorize c q s w).1.authorized_since ≡ some t
      → (raw_authority c q s ≡ true) × NotedFrom s w t
  unfolding authorize confirm
  authorize-since q s w t h = elim (Bool-cases (raw_authority c q s)) [
    | inr f ↦ absurd (ground (arith, f, h))
    | inl r ↦ elim (Bool-cases (not (succeeded s.decided) || is_flag s.applied_read_only false)) [
      | inl e ↦ (r, inr (w.at, omega arith, ground (arith, r, e, h)))
      | inr e ↦ elim (Option-cases s.authorized_since) [
        | inl a ↦ (r, inr (w.at, omega arith, ground (arith, r, e, a, h)))
        | inr (since, a) ↦ (r, inl (ground (arith, r, e, a, h)))
      ]
    ]
  ]

  pub primary_step-since :
      (q : Bool) (s : Supervisor) (w : World) (t : ℕ)
      → (primary_step c q s w).1.authorized_since ≡ some t
      → HasAuthority c q s × NotedFrom s w t
  primary_step-since q s w t h =
      let (raw, known) =
        authorize-since q (s₁ c q s w) (w₁ c q s w) t (sym (since-after c q s w) ∙ h) in
      (
        raw_authority-HasAuthority c q s (sym (raw_authority-ensure_slots c q s w) ∙ raw),
        NotedFrom-later s (s₁ c q s w) w (w₁ c q s w) t (λ e. sym (slots-since c q s w) ∙ e)
            (ensure_slots-world c s w).1 (ensure_slots-later c s w) known,
      )

  -- A node that is known to be writable is not made writable again.
  pub unfence_not_known :
      (q : Bool) (s : Supervisor) (w : World)
      → unfences w.trace < unfences (primary_step c q s w).2.trace
      → s.applied_read_only ≢ some false
  unfence_not_known q s w h e = elim (Bool-cases (authorized c q s w)) [
    | inr f ↦ absurd (omega (arith, h, unfences-unauthorized c q s w f))
    | inl t ↦
        let known : (s₄ c q s w).applied_read_only ≡ some false =
          ap (λ (x : Supervisor). x.applied_read_only)
            (configure_sync-state (wanted_sync c (authorized c q s w) (s₃ c q s w)) (s₃ c q s w)
              (w₃ c q s w))
          ∙ ap (λ (x : Supervisor). x.applied_read_only)
              (fence-authorized (authorized c q s w) t (s₂ c q s w) (w₂ c q s w))
          ∙ ap (λ (x : Supervisor). x.applied_read_only)
              (authorize-state c q (s₁ c q s w) (w₁ c q s w))
          ∙ slots-read_only c q s w
          ∙ e in
        let parts =
          ap (λ (x : Unit {0} × Supervisor × World). unfences x.2.trace)
            (primary_step-parts c q s w) in
        let rest = rejoin-world c (authorized c q s w) (s₅ c q s w) (w₅ c q s w) in
        let stays =
          ap (λ (x : List Effect). unfences x)
            (unfence-known (authorized c q s w) (s₄ c q s w) (w₄ c q s w) known) in
        absurd (omega (arith, h, parts, rest, stays, unfences-before c q s w))
  ]
