-- ===== src/Startup/Checks.antt =====
-- The checks of the configuration in src/lib.rs, against what a valid configuration is.
use mathlib.Core.Path.{subst}
use hyperiondb.Prelude.{
  ℕ, ◌≡◌, ◌≢◌, ◌↔◌, inl, inr, refl, Bool, true, false, not, List, [], ◌∷◌, ◌++◌, arith, ◌==◌,
  push_if, In, All, All-mono, All-In, All-of-In, Bool-cases,
}
use hyperiondb.Prelude.Text.{Text, is_empty}
use hyperiondb.Peers.{Peer}
use hyperiondb.Startup.{
  ConfigError, duplicate_peer, duplicate_addr, contains, duplicates, ids, config_errors,
}

abbrev pub Distinct : List ℕ → Type 0
Distinct [] = Unit
Distinct (x ∷ xs) = ¬ In x xs × Distinct xs

-- What the checks are for.
pub record IsValid (node : ℕ) (voters : List ℕ) (members : List Peer) (raft_dir : Text)
    : Type 0 where
  pub voters_distinct : Distinct voters
  pub members_distinct : Distinct (ids members)
  pub is_voter : In node voters
  pub is_member : In node (ids members)
  pub has_dir : raft_dir ≢ []

pub contains_iff : (a : ℕ) (xs : List ℕ) → (contains a xs ≡ true) ↔ In a xs
contains_iff a [] = (λ e. cc, λ m. absurd m)
contains_iff a (x ∷ xs) = (
  (λ e. elim (Bool-cases (x == a)) [
    | inl same ↦ inl (ground (arith, same))
    | inr away ↦ inr ((contains_iff a xs).0 (ground (arith, e, away)))
  ]),
  (λ m. elim m [ inl e ↦ ground (arith, e) | inr k ↦ ground (arith, (contains_iff a xs).1 k) ]),
)

-- `xs` has no repetition and nothing that was seen.
abbrev Fresh : List ℕ → List ℕ → Type 0
Fresh seen xs = All (λ x. ¬ In x seen) xs × Distinct xs

duplicates-Fresh :
    (error : ℕ → ConfigError) (seen xs : List ℕ) → duplicates error seen xs ≡ [] → Fresh seen xs
unfolding duplicates
duplicates-Fresh error seen [] h = (tt, tt)
duplicates-Fresh error seen (x ∷ xs) h = elim (Bool-cases (contains x seen)) [
  | inl e ↦ let h₁ = simp e at h in absurd cc
  | inr e ↦
      let (away, distinct) = duplicates-Fresh error (x ∷ seen) xs (let h₁ = simp e at h in h₁) in
      (
        (λ m. cc ((contains_iff x seen).1 m, e), All-mono _ _ xs (λ y k m. k (inr m)) away),
        (λ m. All-In _ xs x away m (inl refl), distinct),
      )
]

Fresh-duplicates :
    (error : ℕ → ConfigError) (seen xs : List ℕ) → Fresh seen xs → duplicates error seen xs ≡ []
unfolding duplicates
Fresh-duplicates error seen [] h = refl
Fresh-duplicates error seen (x ∷ xs) ((new, away), (unique, distinct)) =
    elim (Bool-cases (contains x seen)) [
      | inl e ↦ absurd (new ((contains_iff x seen).0 e))
      | inr e ↦ simp e (
          Fresh-duplicates error (x ∷ seen) xs (
            All-of-In _ xs (λ y k m. elim m [
              | inl same ↦ unique (subst (λ (z : ℕ). In z xs) same k)
              | inr old ↦ All-In _ xs y away k old
            ]),
            distinct,
          ))
    ]

duplicates-nil_iff :
    (error : ℕ → ConfigError) (xs : List ℕ) → (duplicates error [] xs ≡ []) ↔ Distinct xs
duplicates-nil_iff error xs = (
  (λ e. (duplicates-Fresh error [] xs e).1),
  (λ d. Fresh-duplicates error [] xs (All-of-In _ xs (λ y k m. m), d)),
)

append-nil_iff : (xs ys : List ConfigError) → (xs ++ ys ≡ []) ↔ ((xs ≡ []) × (ys ≡ []))
append-nil_iff [] ys = (λ e. (refl, e), λ e. e.1)
append-nil_iff (x ∷ xs) ys = (λ e. absurd cc, λ e. absurd cc)

push_if-nil_iff : (b : Bool) (x : ConfigError) → (push_if b x ≡ []) ↔ (b ≡ false)
push_if-nil_iff true x = (λ e. absurd cc, λ e. absurd cc)
push_if-nil_iff false x = (λ _. refl, λ _. refl)

is_empty-false_iff : (s : Text) → (is_empty s ≡ false) ↔ (s ≢ [])
is_empty-false_iff [] = (λ e. absurd cc, λ h. absurd (h refl))
is_empty-false_iff (c ∷ s) = (λ _ e. cc, λ _. refl)

absent_iff : (node : ℕ) (xs : List ℕ) → (not (contains node xs) ≡ false) ↔ In node xs
absent_iff node xs = (
  (λ e. (contains_iff node xs).0 (ground (arith, e))),
  (λ m. ground (arith, (contains_iff node xs).1 m)),
)

-- The checks find no error exactly in a valid configuration: no id twice in either list, the node's
-- own id in both, and a directory for Raft.
pub config_errors-nil_iff :
    (node : ℕ) (voters : List ℕ) (members : List Peer) (raft_dir : Text)
    → (config_errors node voters members raft_dir ≡ []) ↔ IsValid node voters members raft_dir
unfolding config_errors
config_errors-nil_iff node voters members raft_dir = (
  (λ e.
      let (e₁, r₁) = (append-nil_iff _ _).0 e in
      let (e₂, r₂) = (append-nil_iff _ _).0 r₁ in
      let (e₃, r₃) = (append-nil_iff _ _).0 r₂ in
      let (e₄, e₅) = (append-nil_iff _ _).0 r₃ in
      record {
        voters_distinct = (duplicates-nil_iff duplicate_peer voters).0 e₁;
        members_distinct = (duplicates-nil_iff duplicate_addr (ids members)).0 e₂;
        is_voter = (absent_iff node voters).0 ((push_if-nil_iff _ _).0 e₃);
        is_member = (absent_iff node (ids members)).0 ((push_if-nil_iff _ _).0 e₄);
        has_dir = (is_empty-false_iff raft_dir).0 ((push_if-nil_iff _ _).0 e₅);
      }),
  (λ v. (append-nil_iff _ _).1 (
    (duplicates-nil_iff duplicate_peer voters).1 v.voters_distinct,
    (append-nil_iff _ _).1 (
      (duplicates-nil_iff duplicate_addr (ids members)).1 v.members_distinct,
      (append-nil_iff _ _).1 (
        (push_if-nil_iff _ _).1 ((absent_iff node voters).1 v.is_voter),
        (append-nil_iff _ _).1 (
          (push_if-nil_iff _ _).1 ((absent_iff node (ids members)).1 v.is_member),
          (push_if-nil_iff _ _).1 ((is_empty-false_iff raft_dir).1 v.has_dir),
        ),
      ),
    ),
  )),
)
