-- ===== src/Prelude/Maps.antt =====
-- A `HashMap` with `u64` keys as an association list. The order of a walk is the list's here and
-- arbitrary in the source.
use hyperiondb.Prelude.{
  ℕ, ◌≡◌, ◌≢◌, ◌∙◌, refl, Option, none, some, List, [], ◌∷◌, arith, ◌==◌, if◌then◌else◌,
}

abbrev pub Map : Type 0 → Type 0
Map V = List (ℕ × V)

module _ {V : Type 0} where
  unfoldable pub lookup : ℕ → Map V → Option V
  lookup k [] = none
  lookup k ((j, v) ∷ m) = if j == k then some v else lookup k m

  unfoldable pub insert : ℕ → V → Map V → Map V
  insert k v [] = (k, v) ∷ []
  insert k v ((j, u) ∷ m) = if j == k then (k, v) ∷ m else (j, u) ∷ insert k v m

  pub lookup-insert :
      (k j : ℕ) (v : V) (m : Map V)
      → lookup j (insert k v m) ≡ (if k == j then some v else lookup j m)
  unfolding lookup insert
  lookup-insert k j v [] = refl
  lookup-insert k j v ((i, u) ∷ m) = ground (arith, lookup-insert k j v m)

  pub lookup-insert-other :
      (k j : ℕ) (v : V) (m : Map V) → j ≢ k → lookup j (insert k v m) ≡ lookup j m
  lookup-insert-other k j v m away = lookup-insert k j v m ∙ ground (arith, away)

  pub lookup-insert-same : (k : ℕ) (v : V) (m : Map V) → lookup k (insert k v m) ≡ some v
  lookup-insert-same k v m = lookup-insert k k v m ∙ ground arith
