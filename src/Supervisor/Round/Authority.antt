-- ===== src/Supervisor/Round/Authority.antt =====
-- The time since which a node of src/lib.rs holds its authority: it held it in every round since, and is
-- made writable only after a confirmation window of such rounds.
use hyperiondb.Prelude.{
  ℕ, ◌+◌, ◌-◌, ◌≤◌, ◌<◌, ◌≡◌, refl, sym, ap, ◌∙◌, ◌⊎◌, inl, inr, false, Option, none, some, List,
  [], ◌∷◌, ◌++◌, arith, Bool-cases,
}
use hyperiondb.Failover.{Decision}
use hyperiondb.Supervisor.World.{Settings, Supervisor, World, confirm_window}
use hyperiondb.Supervisor.Receive.{adopt, differs, same_decision}
use hyperiondb.Supervisor.Standby.{standby_step}
use hyperiondb.Supervisor.Standby.Promotion.{standby_never_unfences}
use hyperiondb.Supervisor.Primary.{primary_step}
use hyperiondb.Supervisor.Primary.Frames.{unfences}
use hyperiondb.Supervisor.Primary.Fencing.{HasAuthority}
use hyperiondb.Supervisor.Primary.Sync.{unfence-Confirmed}
use hyperiondb.Supervisor.Primary.Since.{
  NotedFrom, NotedFrom-later, primary_step-since, unfence_not_known,
}
use hyperiondb.Supervisor.Round.{Inputs, round, rounds, initial}
use hyperiondb.Supervisor.Round.Frames.{begin_round-decided, begin_round-since, begin_round-world}
use hyperiondb.Supervisor.Round.Safety.{
  told, led, led_world, quorum, round-parts, acts-Carries, told-Carries,
}

pub adopt-since :
    (o : Option Decision) (s : Supervisor) → (adopt o s).authorized_since ≡ s.authorized_since
unfolding adopt differs same_decision
adopt-since none s = refl
adopt-since (some d) s = ground arith

module _ (c : Settings) where
  -- The node acts out of recovery and with authority in this round.
  abbrev pub Acts : Inputs → Supervisor → World → Type 0
  Acts i s w = (i.in_recovery ≡ false) × HasAuthority c (quorum c i s w) (led c i s w).1

  abbrev pub AllAct : List Inputs → Supervisor → World → Type 0
  AllAct [] s w = Unit
  AllAct (i ∷ is) s w = Acts i s w × AllAct is (round c i s w).1 (round c i s w).2

  -- Up to the point where the node acts, the time of authority is kept or forgotten.
  led-since :
      (i : Inputs) (s : Supervisor) (w : World) (t : ℕ)
      → (led c i s w).1.authorized_since ≡ some t
      → s.authorized_since ≡ some t
  led-since i s w t h = begin_round-since s w c t (
      sym (told-Carries c i s w).since
      ∙ sym (adopt-since i.decision (told c i s w).1)
      ∙ sym (acts-Carries c i s w).since
      ∙ h)

  pub led-clock : (i : Inputs) (s : Supervisor) (w : World) → (led_world c i s w).clock ≡ w.clock
  led-clock i s w =
      (acts-Carries c i s w).clock ∙ (told-Carries c i s w).clock ∙ (begin_round-world s w c).0

  pub led-later : (i : Inputs) (s : Supervisor) (w : World) → w.at ≤ (led_world c i s w).at
  led-later i s w = omega (
    arith,
    (acts-Carries c i s w).later,
    (told-Carries c i s w).later,
    (begin_round-world s w c).1,
  )

  pub round-since :
      (i : Inputs) (s : Supervisor) (w : World) (t : ℕ)
      → (round c i s w).1.authorized_since ≡ some t
      → Acts i s w × NotedFrom s w t
  round-since i s w t h = elim (Bool-cases i.in_recovery) [
    | inl r ↦
        let standby : round c i s w ≡ standby_step c (led c i s w).1 (led_world c i s w) =
          round-parts c i s w ∙ simp r refl in
        let forgets = (standby_never_unfences c (led c i s w).1 (led_world c i s w)).2 in
        absurd (cc (h, standby, forgets))
    | inr r ↦
        let primary : round c i s w
            ≡ primary_step c (quorum c i s w) (led c i s w).1 (led_world c i s w) =
          round-parts c i s w ∙ simp r refl in
        let (has, known) =
          primary_step-since c (quorum c i s w) (led c i s w).1 (led_world c i s w) t
            (ap (λ (x : Unit {0} × Supervisor × World). x.1.authorized_since) (sym primary) ∙ h) in
        (
          (r, has),
          NotedFrom-later s (led c i s w).1 w (led_world c i s w) t (led-since i s w t)
              (led-clock i s w) (led-later i s w) known,
        )
  ]

  abbrev pub after : List Inputs → Supervisor → World → Unit {0} × Supervisor × World
  after is s w = rounds c is s w

  -- The rounds end with some in all of which the node acted with authority, and the time `t` was
  -- shown by the clock in the first of these or later.
  abbrev pub HeldSince : List Inputs → Supervisor → World → ℕ → Type 0
  HeldSince is s w t =
      (js : List Inputs) × (i : Inputs) × (ks : List Inputs) × (is ≡ js ++ i ∷ ks)
      × ((k : ℕ) × ((after js s w).2.at ≤ k) × (t ≡ (after js s w).2.clock k))
      × AllAct (i ∷ ks) (after js s w).1 (after js s w).2

  -- The state in which the round of `i` behind those of `is` acts.
  abbrev pub acting : List Inputs → Inputs → Option Decision → ℕ → World → Supervisor
  acting is i decision start w = let r = after is (initial decision start) w in (led c i r.1 r.2).1

  rounds-snoc :
      (is : List Inputs) (i : Inputs) (s : Supervisor) (w : World)
      → after (is ++ i ∷ []) s w ≡ round c i (after is s w).1 (after is s w).2
  unfolding rounds
  rounds-snoc [] i s w = refl
  rounds-snoc (j ∷ is) i s w = rounds-snoc is i (round c j s w).1 (round c j s w).2

  held :
      (is : List Inputs) (s : Supervisor) (w : World) (t : ℕ)
      → (after is s w).1.authorized_since ≡ some t
      → ((s.authorized_since ≡ some t) × AllAct is s w) ⊎ HeldSince is s w t
  unfolding rounds
  held [] s w t h = inl (h, tt)
  held (i ∷ is) s w t h = elim (held is (round c i s w).1 (round c i s w).2 t h) [
    | inl (since, acts) ↦
        let (act, known) = round-since i s w t since in
        elim known [
          | inl before ↦ inl (before, (act, acts))
          | inr shown ↦ inr ([], i, is, refl, shown, (act, acts))
        ]
    | inr (js, j, ks, e, shown, acts) ↦ inr (i ∷ js, j, ks, ap (◌∷◌ i) e, shown, acts)
  ]

  led-offs :
      (i : Inputs) (s : Supervisor) (w : World)
      → unfences (led_world c i s w).trace ≡ unfences w.trace
  led-offs i s w =
      (acts-Carries c i s w).offs ∙ (told-Carries c i s w).offs ∙ (begin_round-decided s w c).1

  -- A round that asks Postgres to become writable does so where it acts out of recovery.
  unfencing_round :
      (i : Inputs) (s : Supervisor) (w : World)
      → unfences w.trace < unfences (round c i s w).2.trace
      → unfences (led_world c i s w).trace
        < unfences (primary_step c (quorum c i s w) (led c i s w).1 (led_world c i s w)).2.trace
  unfencing_round i s w h = elim (Bool-cases i.in_recovery) [
    | inl r ↦
        let standby : round c i s w ≡ standby_step c (led c i s w).1 (led_world c i s w) =
          round-parts c i s w ∙ simp r refl in
        let quiet = (standby_never_unfences c (led c i s w).1 (led_world c i s w)).0 in
        let same = ap (λ (x : Unit {0} × Supervisor × World). unfences x.2.trace) standby in
        absurd (omega (arith, h, same, quiet, led-offs i s w))
    | inr r ↦
        let primary : round c i s w
            ≡ primary_step c (quorum c i s w) (led c i s w).1 (led_world c i s w) =
          round-parts c i s w ∙ simp r refl in
        let same = ap (λ (x : Unit {0} × Supervisor × World). unfences x.2.trace) primary in
        omega (arith, h, same, led-offs i s w)
  ]

  -- With a decided primary, a round asks Postgres to become writable only after rounds in all of which
  -- the node acted with authority, since a time that is a confirmation window ago and that the clock
  -- showed in the first of these or later; or, if the time of authority is not known when the node
  -- acts, when the clock moves by the window between two readings of it. (The rounds are those since
  -- the loop began.)
  pub writable_after_held :
      (decision : Option Decision) (start : ℕ) (is : List Inputs) (i : Inputs) (w : World)
      (d : Decision)
      → (acting is i decision start w).decided ≡ some d
      → unfences (after is (initial decision start) w).2.trace
        < unfences (after (is ++ i ∷ []) (initial decision start) w).2.trace
      → ((t : ℕ) × (k : ℕ) × HeldSince is (initial decision start) w t
          × (confirm_window ≤ (after is (initial decision start) w).2.clock k - t))
        ⊎ ((k : ℕ) × ((acting is i decision start w).authorized_since ≡ none)
            × (confirm_window
                ≤ (after is (initial decision start) w).2.clock (k + 1)
                  - (after is (initial decision start) w).2.clock k))
  unfolding initial
  writable_after_held decision start is i w d e h =
      let s = initial decision start in
      let s' = (after is s w).1 in
      let w' = (after is s w).2 in
      let l = (led c i s' w').1 in
      let v = led_world c i s' w' in
      let clock = led-clock i s' w' in
      let more : unfences w'.trace < unfences (round c i s' w').2.trace =
        rw (sym (rounds-snoc is i s w)) h in
      let asks = unfencing_round i s' w' more in
      elim (unfence-Confirmed c (quorum c i s' w') l v d e (unfence_not_known c _ l v asks) asks) [
        | inl (t, k, since, window) ↦ elim (held is s w t (led-since i s' w' t since)) [
          | inl (before, _) ↦ absurd (cc before)
          | inr long ↦ inl (t, k, long, rw clock at window)
        ]
        | inr (k, unknown, window) ↦ inr (k, unknown, rw clock at window)
      ]
