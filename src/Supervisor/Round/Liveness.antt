-- ===== src/Supervisor/Round/Liveness.antt =====
-- Whole rounds of the loop of src/lib.rs: a decided primary becomes writable.
use hyperiondb.Prelude.{
  ℕ, ◌+◌, ◌-◌, ◌≤◌, ◌≡◌, ◌⊎◌, inl, inr, refl, ap, ◌∙◌, Bool, true, false, Option, none, some, List,
  [], ◌∷◌, ◌++◌, arith,
}
use hyperiondb.Failover.{Decision}
use hyperiondb.Supervisor.World.{Settings, Supervisor, World, confirm_window, stall_threshold}
use hyperiondb.Supervisor.Receive.{adopt, differs, same_decision}
use hyperiondb.Supervisor.Primary.{primary_step}
use hyperiondb.Supervisor.Primary.Frames.{AllSucceed}
use hyperiondb.Supervisor.Primary.Since.{NotedFrom}
use hyperiondb.Supervisor.Primary.Liveness.{
  IsDecidedHere, primary_step-here, primary_step-notes, primary_step-writable, primary_step-keeps,
  primary_step-confirms,
}
use hyperiondb.Supervisor.Round.{Inputs, round, rounds}
use hyperiondb.Supervisor.Round.Frames.{begin_round-calm}
use hyperiondb.Supervisor.Round.Safety.{
  told, led, led_world, quorum, round-parts, acts-Carries, told-Carries, adopted-decision,
  kept-pending,
}
use hyperiondb.Supervisor.Round.Authority.{adopt-since, led-clock, led-later, round-since, after}

adopt-flag :
    (o : Option Decision) (s : Supervisor) → (adopt o s).applied_read_only ≡ s.applied_read_only
unfolding adopt differs same_decision
adopt-flag none s = refl
adopt-flag (some d) s = ground arith

module _ (c : Settings) (d : Decision) where
  -- A round out of recovery in which Raft shows the decision, a quorum is in contact where the node acts,
  -- the loop did not stall before it and the statements succeed.
  pub record IsCalm (i : Inputs) (s : Supervisor) (w : World) : Type 0 where
    pub out_of_recovery : i.in_recovery ≡ false
    pub shown : i.decision ≡ some d
    pub contact : quorum c i s w ≡ true
    pub on_time : w.clock w.at - s.last_loop ≤ stall_threshold
    pub succeeds : AllSucceed w

  abbrev pub AllCalm : List Inputs → Supervisor → World → Type 0
  AllCalm [] s w = Unit
  AllCalm (i ∷ is) s w = IsCalm i s w × AllCalm is (round c i s w).1 (round c i s w).2

  -- The node is writable, or has authority since `t`.
  abbrev Holds : ℕ → Supervisor → Type 0
  Holds t s = (s.applied_read_only ≡ some false) ⊎ (s.authorized_since ≡ some t)

  module _ (i : Inputs) (s : Supervisor) (w : World) (calm : IsCalm i s w)
      (here : IsDecidedHere c s d) where
    acts_as_primary : round c i s w ≡ primary_step c true (led c i s w).1 (led_world c i s w)
    acts_as_primary =
        let r = calm.out_of_recovery in
        let primary : round c i s w
            ≡ primary_step c (quorum c i s w) (led c i s w).1 (led_world c i s w) =
          round-parts c i s w ∙ simp r refl in
        primary
        ∙ ap (λ (b : Bool). primary_step c b (led c i s w).1 (led_world c i s w)) calm.contact

    led-here : IsDecidedHere c (led c i s w).1 d
    led-here = record {
      decided_here = adopted-decision c i s w d calm.shown;
      is_primary = here.is_primary;
      confirmed =
          kept-pending c i s w d here.decided_here calm.shown
          ∙ (begin_round-calm s w c calm.on_time).0
          ∙ here.confirmed;
    }

    led-kept-since : (led c i s w).1.authorized_since ≡ s.authorized_since
    led-kept-since =
        (acts-Carries c i s w).since
        ∙ adopt-since i.decision (told c i s w).1
        ∙ (told-Carries c i s w).since
        ∙ (begin_round-calm s w c calm.on_time).1

    led-kept-flag : (led c i s w).1.applied_read_only ≡ s.applied_read_only
    led-kept-flag =
        (acts-Carries c i s w).flag
        ∙ adopt-flag i.decision (told c i s w).1
        ∙ (told-Carries c i s w).flag
        ∙ (begin_round-calm s w c calm.on_time).2

    led-reply : (led_world c i s w).reply ≡ w.reply
    led-reply =
        (acts-Carries c i s w).reply
        ∙ (told-Carries c i s w).reply
        ∙ (begin_round-calm s w c calm.on_time).3

    led-succeeds : AllSucceed (led_world c i s w)
    led-succeeds = rw led-reply calm.succeeds

    round-here : IsDecidedHere c (round c i s w).1 d
    round-here =
        rw acts_as_primary (primary_step-here c (led c i s w).1 (led_world c i s w) d led-here)

    round-notes : (t : ℕ) × ((round c i s w).1.authorized_since ≡ some t)
    round-notes =
        rw acts_as_primary (primary_step-notes c (led c i s w).1 (led_world c i s w) d led-here)

    round-Holds : (t : ℕ) → Holds t s → Holds t (round c i s w).1
    round-Holds t (inl f) = inl (
        rw acts_as_primary (
          primary_step-writable c (led c i s w).1 (led_world c i s w) d led-here (led-kept-flag ∙ f)
            led-succeeds))
    round-Holds t (inr a) = rw acts_as_primary (
        primary_step-keeps c (led c i s w).1 (led_world c i s w) d led-here t (led-kept-since ∙ a)
          led-succeeds)

    round-confirms :
        (t : ℕ)
        → Holds t s
        → ((k : ℕ) → w.at ≤ k → t + confirm_window ≤ w.clock k)
        → (round c i s w).1.applied_read_only ≡ some false
    round-confirms t (inl f) late = rw acts_as_primary (
        primary_step-writable c (led c i s w).1 (led_world c i s w) d led-here (led-kept-flag ∙ f)
          led-succeeds)
    round-confirms t (inr a) late = rw acts_as_primary (
        primary_step-confirms c (led c i s w).1 (led_world c i s w) d led-here t
          (led-kept-since ∙ a) led-succeeds
          (rw (led-clock c i s w) (λ k from. late k (omega (arith, from, led-later c i s w)))))

  rounds-confirm :
      (is : List Inputs) (j : Inputs) (s : Supervisor) (w : World) (t : ℕ)
      → IsDecidedHere c s d
      → Holds t s
      → AllCalm (is ++ j ∷ []) s w
      → ((k : ℕ) → (after c is s w).2.at ≤ k → t + confirm_window ≤ (after c is s w).2.clock k)
      → (after c (is ++ j ∷ []) s w).1.applied_read_only ≡ some false
  unfolding rounds
  rounds-confirm [] j s w t here holds (calm, _) late = round-confirms j s w calm here t holds late
  rounds-confirm (i ∷ is) j s w t here holds (calm, rest) late =
      rounds-confirm is j (round c i s w).1 (round c i s w).2 t (round-here i s w calm here)
        (round-Holds i s w calm here t holds) rest late

  -- A decided primary with nothing to reconfirm runs rounds out of recovery in which the decision stays,
  -- a quorum is in contact where it acts, the loop never stalls and the statements succeed. By the end
  -- of the first of them it has noted since when it has authority, a time that was noted before or
  -- that the clock showed in that round or later; and a round that begins a confirmation window after
  -- that time leaves it writable.
  pub writable_after_window :
      (i : Inputs) (is : List Inputs) (j : Inputs) (s : Supervisor) (w : World)
      → IsDecidedHere c s d
      → AllCalm (i ∷ is ++ j ∷ []) s w
      → ((t k : ℕ)
          → (round c i s w).1.authorized_since ≡ some t
          → (after c (i ∷ is) s w).2.at ≤ k
          → t + confirm_window ≤ (after c (i ∷ is) s w).2.clock k)
      → ((t : ℕ) × ((round c i s w).1.authorized_since ≡ some t) × NotedFrom s w t)
        × ((after c (i ∷ is ++ j ∷ []) s w).1.applied_read_only ≡ some false)
  unfolding rounds
  writable_after_window i is j s w here (calm, rest) late =
      let (t, since) = round-notes i s w calm here in
      (
        (t, since, (round-since c i s w t since).1),
        rounds-confirm is j (round c i s w).1 (round c i s w).2 t (round-here i s w calm here)
            (inr since) rest (λ k from. late t k since from),
      )
