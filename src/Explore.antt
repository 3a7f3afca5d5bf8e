-- ===== src/Explore.antt =====
-- What a model checker explores, for the models of packages/consensus-model (the checker itself,
-- `stateright`, is a library): an offered action with a successor within the boundary.
use mathlib.Core.Path.{subst}
use mathlib.Core.Option.{some-injective}
use hyperiondb.Prelude.{
  ℕ, ◌≡◌, Bool, true, Option, none, some, List, [], ◌∷◌, ◌>>=◌, if◌then◌else◌, get_elem?, In,
  get_elem?-In, >>=-eq-some, if-eq-some, All, All-In,
}

-- The operations of `impl Model`.
pub record Rules (S A : Type 0) : Type 0 where
  pub actions : S → List A
  pub next_state : S → A → Option S
  pub within_boundary : S → Bool

module _ {S A : Type 0} where
  pub data Step (m : Rules S A) (s : S) : S → Type 0 where
    take :
        (a : A) {t : S}
        → In a (m.actions s)
        → m.next_state s a ≡ some t
        → m.within_boundary t ≡ true
        → Step m s t

  pub data Run (m : Rules S A) (s : S) : S → Type 0 where
    stay : Run m s s
    later : {t u : S} → Run m s t → Step m t u → Run m s u

  -- Each number picks an offered action.
  unfoldable pub follow : Rules S A → S → List ℕ → Option S
  follow m s [] = some s
  follow m s (k ∷ ks) = do
    a ← get_elem? (m.actions s) k
    t ← m.next_state s a
    let rest = follow m t ks
    if m.within_boundary t then rest else none

  module _ (m : Rules S A) where
    Run-front : {s t u : S} → Step m s t → Run m t u → Run m s u
    Run-front st stay = later stay st
    Run-front st (later r last) = later (Run-front st r) last

    pub follow-Run : (s : S) (ks : List ℕ) (t : S) → follow m s ks ≡ some t → Run m s t
    unfolding follow
    follow-Run s [] t h = subst (λ (u : S). Run m s u) (some-injective _ _ h) stay
    follow-Run s (k ∷ ks) t h =
        let (a, here, h₁) = >>=-eq-some (get_elem? (m.actions s) k) _ h in
        let (u, next, h₂) = >>=-eq-some (m.next_state s a) _ h₁ in
        let (inside, rest) = if-eq-some (m.within_boundary u) (follow m u ks) h₂ in
        Run-front (take a (get_elem?-In (m.actions s) k a here) next inside)
          (follow-Run u ks t rest)

    -- An invariant that every offered action keeps holds along every run.
    module _ (Offered : S → A → Type 0) (offer : (s : S) → All (Offered s) (m.actions s))
        (P : S → Type 0)
        (keep : (s t : S) → P s → (a : A) → Offered s a → m.next_state s a ≡ some t → P t) where
      pub Run-induction : {s t : S} → P s → Run m s t → P t
      Run-induction p stay = p
      Run-induction p (later {t} r (take a here e inside)) =
          keep t _ (Run-induction p r) a (All-In (Offered t) (m.actions t) a (offer t) here) e
