-- ===== src/Supervisor/Standby/Promotion.antt =====
-- What src/lib.rs does on a node in recovery: it is never made writable there, and promoted only
-- behind a fence.
use hyperiondb.Prelude.{
  ℕ, ◌+◌, ◌<◌, ◌≡◌, refl, ap, ◌∙◌, inl, inr, Bool, true, false, none, List, [], ◌∷◌, arith, ◌==◌,
  ==_iff, Bool-cases,
}
use hyperiondb.Supervisor.World.{
  Settings, Supervisor, World, set_read_only, reload_conf, promote, Effect, ran, run_sql,
  apply_setting, succeeded, decided_primary,
}
use hyperiondb.Supervisor.Primary.Frames.{unfences}
use hyperiondb.Supervisor.Standby.{clear_sync, promote_self, follow_primary, standby_step}

-- The attempts at a promotion in a trace.
abbrev pub is_promote : Effect → ℕ
is_promote (ran promote b) = 1
is_promote _ = 0

abbrev pub promotions : List Effect → ℕ
promotions [] = 0
promotions (e ∷ es) = is_promote e + promotions es

-- The newest effects are a fence, a reload and a promotion, in that order.
abbrev pub FencedPromotion : World → World → Type 0
FencedPromotion w v =
    (a : Bool) × (b : Bool) × (d : Bool) × (rest : List Effect) × (v.trace
      ≡ ran promote d ∷ ran reload_conf b ∷ ran (set_read_only true) a ∷ rest)
    × (promotions rest ≡ promotions w.trace)

module _ (s : Supervisor) (w : World) where
  clear_sync-quiet :
      (promotions (clear_sync s w).2.trace ≡ promotions w.trace)
      × (unfences (clear_sync s w).2.trace ≡ unfences w.trace)
      × ((clear_sync s w).1 ≡ record s { applied_sync = (clear_sync s w).1.applied_sync })
  unfolding clear_sync apply_setting run_sql
  clear_sync-quiet = ground arith

  follow_primary-quiet :
      (c : Settings)
      → (promotions (follow_primary c s w).2.trace ≡ promotions w.trace)
        × (unfences (follow_primary c s w).2.trace ≡ unfences w.trace)
        × ((follow_primary c s w).1
            ≡ record s { applied_primary = (follow_primary c s w).1.applied_primary })
  unfolding follow_primary apply_setting run_sql
  follow_primary-quiet c = ground arith

  promote_self-quiet :
      (unfences (promote_self s w).2.trace ≡ unfences w.trace)
      × ((promote_self s w).1 ≡ record s {
        promoted = (promote_self s w).1.promoted;
        promote_tick = (promote_self s w).1.promote_tick;
      })
  unfolding promote_self run_sql
  promote_self-quiet = ground arith

  promote_self-fenced :
      promotions w.trace < promotions (promote_self s w).2.trace
      → FencedPromotion w (promote_self s w).2
  unfolding promote_self run_sql
  promote_self-fenced h = (
    succeeded (w.reply w.at (set_read_only true)),
    succeeded (w.reply (w.at + 1) reload_conf),
    succeeded (w.reply (w.at + 1 + 1) promote),
    w.trace,
    ground arith,
    refl,
  )

module _ (c : Settings) (s : Supervisor) (w : World) where
  abbrev reset : Supervisor
  reset = record s { applied_read_only = none; authorized_since = none }

  abbrev cleared : Supervisor
  cleared = (clear_sync reset w).1

  abbrev w' : World
  w' = (clear_sync reset w).2

  cleared-decided : decided_primary cleared ≡ decided_primary s
  cleared-decided = rw (clear_sync-quiet reset w).2

  standby_step-promote :
      (decided_primary s == c.node_id) ≡ true → standby_step c s w ≡ promote_self cleared w'
  unfolding standby_step
  standby_step-promote h = rw (cleared-decided, h)

  standby_step-follow :
      (decided_primary s == c.node_id) ≡ false → standby_step c s w ≡ follow_primary c cleared w'
  unfolding standby_step
  standby_step-follow h = rw (cleared-decided, h)

  -- A round on a node in recovery never asks Postgres to become writable, and forgets that the node
  -- was writable or had authority.
  pub standby_never_unfences :
      (unfences (standby_step c s w).2.trace ≡ unfences w.trace)
      × ((standby_step c s w).1.applied_read_only ≡ none)
      × ((standby_step c s w).1.authorized_since ≡ none)
  standby_never_unfences = elim (Bool-cases (decided_primary s == c.node_id)) [
    | inl h ↦
        rw (standby_step-promote h)
          (ground (arith, clear_sync-quiet reset w, promote_self-quiet cleared w'))
    | inr h ↦
        rw (standby_step-follow h)
          (ground (arith, clear_sync-quiet reset w, follow_primary-quiet cleared w' c))
  ]

  -- A round on a node in recovery asks for a promotion only if the decision names the node, and
  -- right after it asked for the fence and a reload.
  pub promotion_is_fenced :
      promotions w.trace < promotions (standby_step c s w).2.trace
      → (decided_primary s ≡ c.node_id) × FencedPromotion w (standby_step c s w).2
  promotion_is_fenced lt = elim (Bool-cases (decided_primary s == c.node_id)) [
    | inr h ↦ absurd (
        omega (
          arith,
          (clear_sync-quiet reset w).0,
          (follow_primary-quiet cleared w' c).0,
          ap (λ (r : Unit {0} × Supervisor × World). promotions r.2.trace) (standby_step-follow h),
        ))
    | inl h ↦
        let e = ap (λ (r : Unit {0} × Supervisor × World). r.2) (standby_step-promote h) in
        let less : promotions w'.trace < promotions (promote_self cleared w').2.trace =
          omega (arith, (clear_sync-quiet reset w).0, ap (λ (v : World). promotions v.trace) e) in
        let (a, b, d, rest, shape, count) = promote_self-fenced cleared w' less in
        ((==_iff _ _).0 h, rw e (a, b, d, rest, shape, count ∙ (clear_sync-quiet reset w).0))
  ]
