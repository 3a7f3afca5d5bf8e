-- ===== src/Supervisor/Primary/Frames.antt =====
-- What each part of the primary's round in src/lib.rs leaves alone, and how often it asks Postgres
-- to become writable or starts a rejoin.
use hyperiondb.Prelude.{
  ℕ, ◌+◌, ◌≤◌, ◌≡◌, refl, ◌∙◌, Bool, true, false, not, Option, none, some, List, [], ◌∷◌, arith,
  ◌==◌,
}
use hyperiondb.Prelude.Text.{Text}
use hyperiondb.Supervisor.World.{
  Settings, Supervisor, World, Sql, set_read_only, create_slot, Effect, ran, rejoined, ◌>>◌, pure,
  when, run_sql, apply_setting, succeeded,
}
use hyperiondb.Supervisor.Primary.{
  create_slots, ensure_slots, confirm, authorize, fence, configure_sync, unfence, known_datadir,
  rejoin,
}

-- The attempts to make Postgres writable in a trace.
abbrev pub is_off : Effect → ℕ
is_off (ran (set_read_only false) b) = 1
is_off _ = 0

abbrev pub unfences : List Effect → ℕ
unfences [] = 0
unfences (e ∷ es) = is_off e + unfences es

-- The rejoins in a trace.
abbrev pub is_rejoin : Effect → ℕ
is_rejoin (rejoined d p) = 1
is_rejoin _ = 0

abbrev pub rejoins : List Effect → ℕ
rejoins [] = 0
rejoins (e ∷ es) = is_rejoin e + rejoins es

-- Every statement succeeds.
abbrev pub AllSucceed : World → Type 0
AllSucceed w = (k : ℕ) (q : Sql) → succeeded (w.reply k q) ≡ true

record Quiet (s t : Supervisor) (w v : World) : Type 0 where
  state : t ≡ s
  reply : v.reply ≡ w.reply
  clock : v.clock ≡ w.clock
  offs : unfences v.trace ≡ unfences w.trace
  rejoin_count : rejoins v.trace ≡ rejoins w.trace
  later : w.at ≤ v.at

module _ (c : Settings) where
  slot-Quiet :
      (id : ℕ) (s : Supervisor) (w : World)
      → Quiet s
          (when (not (id == c.node_id)) (do run_sql (create_slot id); pure tt) s w).1
          w
          (when (not (id == c.node_id)) (do run_sql (create_slot id); pure tt) s w).2
  unfolding run_sql
  slot-Quiet id s w = ground arith

  create_slots-Quiet :
      (ms : List (ℕ × Text)) (s : Supervisor) (w : World)
      → Quiet s (create_slots c ms s w).1 w (create_slots c ms s w).2
  unfolding create_slots
  create_slots-Quiet [] s w = record {
    state = refl;
    reply = refl;
    clock = refl;
    offs = refl;
    rejoin_count = refl;
    later = omega arith;
  }
  create_slots-Quiet ((id, addr) ∷ ms) s w =
      let q = slot-Quiet id s w in
      let r = create_slots-Quiet ms _ _ in
      record {
        state = r.state ∙ q.state;
        reply = r.reply ∙ q.reply;
        clock = r.clock ∙ q.clock;
        offs = r.offs ∙ q.offs;
        rejoin_count = r.rejoin_count ∙ q.rejoin_count;
        later = omega (arith, q.later, r.later);
      }

  pub ensure_slots-state :
      (s : Supervisor) (w : World)
      → (ensure_slots c s w).1 ≡ record s { slots_ensured = (ensure_slots c s w).1.slots_ensured }
  unfolding ensure_slots
  ensure_slots-state s w = ground (arith, (create_slots-Quiet c.pg_members s w).state)

  -- What the rounds of Postgres commands keep of the world.
  pub ensure_slots-world :
      (s : Supervisor) (w : World)
      → ((ensure_slots c s w).2.reply ≡ w.reply)
        × ((ensure_slots c s w).2.clock ≡ w.clock)
        × (unfences (ensure_slots c s w).2.trace ≡ unfences w.trace)
        × (rejoins (ensure_slots c s w).2.trace ≡ rejoins w.trace)
  unfolding ensure_slots
  ensure_slots-world s w =
      let q = create_slots-Quiet c.pg_members s w in
      ground (arith, q.state, q.reply, q.clock, q.offs, q.rejoin_count)

  pub ensure_slots-later : (s : Supervisor) (w : World) → w.at ≤ (ensure_slots c s w).2.at
  unfolding ensure_slots
  ensure_slots-later s w = ground (arith, (create_slots-Quiet c.pg_members s w).later)

  module _ (b : Bool) where
    pub authorize-state :
        (s : Supervisor) (w : World)
        → (authorize c b s w).1
          ≡ record s { authorized_since = (authorize c b s w).1.authorized_since }
    unfolding authorize confirm
    authorize-state s w = ground arith

    pub authorize-world :
        (s : Supervisor) (w : World)
        → ((authorize c b s w).2.reply ≡ w.reply) × ((authorize c b s w).2.trace ≡ w.trace)
    unfolding authorize confirm
    authorize-world s w = ground arith

    pub fence-state :
        (s : Supervisor) (w : World)
        → (fence b s w).1 ≡ record s { applied_read_only = (fence b s w).1.applied_read_only }
    unfolding fence apply_setting run_sql
    fence-state s w = ground arith

    pub fence-world :
        (s : Supervisor) (w : World)
        → ((fence b s w).2.reply ≡ w.reply)
          × (unfences (fence b s w).2.trace ≡ unfences w.trace)
          × (rejoins (fence b s w).2.trace ≡ rejoins w.trace)
    unfolding fence apply_setting run_sql
    fence-world s w = ground arith

    pub unfence-state :
        (s : Supervisor) (w : World)
        → (unfence b s w).1 ≡ record s { applied_read_only = (unfence b s w).1.applied_read_only }
    unfolding unfence apply_setting run_sql
    unfence-state s w = ground arith

    pub unfence-world :
        (s : Supervisor) (w : World)
        → ((unfence b s w).2.reply ≡ w.reply) × (rejoins (unfence b s w).2.trace ≡ rejoins w.trace)
    unfolding unfence apply_setting run_sql
    unfence-world s w = ground arith

    pub rejoin-state :
        (s : Supervisor) (w : World)
        → (rejoin c b s w).1 ≡ record s { rejoining = (rejoin c b s w).1.rejoining }
    unfolding rejoin known_datadir run_sql
    rejoin-state s w = ground arith

    pub rejoin-world :
        (s : Supervisor) (w : World) → unfences (rejoin c b s w).2.trace ≡ unfences w.trace
    unfolding rejoin known_datadir run_sql
    rejoin-world s w = ground arith

pub configure_sync-state :
    (o : Option Text) (s : Supervisor) (w : World)
    → (configure_sync o s w).1 ≡ record s { applied_sync = (configure_sync o s w).1.applied_sync }
unfolding configure_sync apply_setting run_sql
configure_sync-state none s w = refl
configure_sync-state (some names) s w = ground arith

pub configure_sync-world :
    (o : Option Text) (s : Supervisor) (w : World)
    → ((configure_sync o s w).2.reply ≡ w.reply)
      × (unfences (configure_sync o s w).2.trace ≡ unfences w.trace)
      × (rejoins (configure_sync o s w).2.trace ≡ rejoins w.trace)
unfolding configure_sync apply_setting run_sql
configure_sync-world none s w = ground arith
configure_sync-world (some names) s w = ground arith
