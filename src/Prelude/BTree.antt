-- ===== src/Prelude/BTree.antt =====
-- A `BTreeMap` with `u64` keys as a list of keys and values, which its operations keep ascending.
use hyperiondb.Prelude.{
  ℕ, suc, ◌≤◌, ◌≡◌, refl, ◌∙◌, Bool, true, false, ◌&&◌, Option, none, some, List, [], ◌∷◌, arith,
  ltb, leb, ◌==◌, if◌then◌else◌, Bool-cases, inl, inr, ltb→lt,
}
use mathlib.Core.Path.{subst}
use mathlib.Core.Option.{some-injective}
use hyperiondb.Prelude.Maps.{Map, lookup}

-- `std::ops::Bound`, and `RangeBounds::contains` for two of them.
pub data Bound : Type 0 where
  included : ℕ → Bound
  excluded : ℕ → Bound
  unbounded : Bound

unfoldable pub after : Bound → ℕ → Bool
after (included a) k = leb a k
after (excluded a) k = ltb a k
after unbounded k = true

unfoldable pub before : Bound → ℕ → Bool
before (included a) k = leb k a
before (excluded a) k = ltb k a
before unbounded k = true

abbrev member : ℕ → List ℕ → Bool
member k [] = false
member k (j ∷ js) = if j == k then true else member k js

module _ {V : Type 0} where
  unfoldable pub put : ℕ → V → Map V → Map V
  put k v [] = (k, v) ∷ []
  put k v ((j, u) ∷ m) =
      let rest = put k v m in
      if ltb k j then (k, v) ∷ (j, u) ∷ m else if j == k then (k, v) ∷ m else (j, u) ∷ rest

  unfoldable pub remove : ℕ → Map V → Map V
  remove k [] = []
  remove k ((j, u) ∷ m) = let rest = remove k m in if j == k then rest else (j, u) ∷ rest

  unfoldable pub remove_all : List ℕ → Map V → Map V
  remove_all [] m = m
  remove_all (k ∷ ks) m = remove_all ks (remove k m)

  unfoldable pub range : Bound → Bound → Map V → Map V
  range lo hi [] = []
  range lo hi ((k, v) ∷ m) =
      let rest = range lo hi m in if after lo k && before hi k then (k, v) ∷ rest else rest

  abbrev pub keys : Map V → List ℕ
  keys [] = []
  keys ((k, v) ∷ m) = k ∷ keys m

  abbrev pub values : Map V → List V
  values [] = []
  values ((k, v) ∷ m) = v ∷ values m

  -- `iter().next_back()`
  unfoldable pub last_value : Map V → Option V
  last_value [] = none
  last_value ((k, v) ∷ []) = some v
  last_value ((k, v) ∷ (p ∷ m)) = last_value (p ∷ m)

  pub lookup-put :
      (k j : ℕ) (v : V) (m : Map V) → lookup j (put k v m) ≡ (if k == j then some v else lookup j m)
  unfolding put lookup
  lookup-put k j v [] = ground arith
  lookup-put k j v ((i, u) ∷ m) = ground (arith, lookup-put k j v m)

  pub lookup-remove :
      (k j : ℕ) (m : Map V) → lookup j (remove k m) ≡ (if k == j then none else lookup j m)
  unfolding remove lookup
  lookup-remove k j [] = ground arith
  lookup-remove k j ((i, u) ∷ m) = ground (arith, lookup-remove k j m)

  lookup-remove_all :
      (ks : List ℕ) (j : ℕ) (m : Map V)
      → lookup j (remove_all ks m) ≡ (if member j ks then none else lookup j m)
  unfolding remove_all lookup
  lookup-remove_all [] j m = refl
  lookup-remove_all (k ∷ ks) j m =
      ground (arith, lookup-remove_all ks j (remove k m), lookup-remove k j m)

  -- A range has the keys within its bounds and no others.
  member-outside :
      (lo hi : Bound) (j : ℕ) (m : Map V)
      → (after lo j && before hi j) ≡ false
      → member j (keys (range lo hi m)) ≡ false
  unfolding range
  member-outside lo hi j [] e = refl
  member-outside lo hi j ((i, u) ∷ m) e = elim (Bool-cases (after lo i && before hi i)) [
    | inl q ↦ simp q (ground (arith, member-outside lo hi j m e, q, e))
    | inr q ↦ simp q (member-outside lo hi j m e)
  ]

  lookup-inside :
      (lo hi : Bound) (j : ℕ) (m : Map V)
      → (after lo j && before hi j) ≡ true
      → (if member j (keys (range lo hi m)) then none else lookup j m) ≡ none
  unfolding range lookup
  lookup-inside lo hi j [] e = refl
  lookup-inside lo hi j ((i, u) ∷ m) e = elim (Bool-cases (after lo i && before hi i)) [
    | inl q ↦ simp q (ground (arith, lookup-inside lo hi j m e, q, e))
    | inr q ↦
        let away : (i == j) ≡ false = ground (arith, q, e) in
        simp (q, away) (lookup-inside lo hi j m e)
  ]

  -- What stays when a range of keys is removed.
  pub lookup-remove_range :
      (lo hi : Bound) (j : ℕ) (m : Map V)
      → lookup j (remove_all (keys (range lo hi m)) m)
        ≡ (if after lo j && before hi j then none else lookup j m)
  lookup-remove_range lo hi j m = elim (Bool-cases (after lo j && before hi j)) [
    | inl e ↦ rw e (lookup-remove_all (keys (range lo hi m)) j m ∙ lookup-inside lo hi j m e)
    | inr e ↦
        simp e (rw (lookup-remove_all (keys (range lo hi m)) j m, member-outside lo hi j m e) refl)
  ]

  pub last_value-empty : (m : Map V) → last_value m ≡ none → (j : ℕ) → lookup j m ≡ none
  unfolding last_value lookup
  last_value-empty [] e j = refl
  last_value-empty (p ∷ []) e j = cc
  last_value-empty ((i, w) ∷ (p ∷ m)) e j = ground (arith, last_value-empty (p ∷ m) e p.0)

  -- The keys ascend from `lo`, and every entry fits its key.
  module _ (Fits : ℕ → V → Type 0) where
    abbrev pub Ascending : ℕ → Map V → Type 0
    Ascending lo [] = Unit
    Ascending lo ((k, v) ∷ m) = (lo ≤ k) × Fits k v × Ascending (suc k) m

    pub Ascending-below : (lo low : ℕ) (m : Map V) → low ≤ lo → Ascending lo m → Ascending low m
    Ascending-below lo low [] l a = tt
    Ascending-below lo low ((k, v) ∷ m) l (h, f, a) = (omega arith, f, a)

    put-Ascending-from :
        (lo k : ℕ) (v : V) (m : Map V)
        → lo ≤ k
        → Fits k v
        → Ascending lo m
        → Ascending lo (put k v m)
    unfolding put
    put-Ascending-from lo k v [] l f a = (l, f, tt)
    put-Ascending-from lo k v ((j, u) ∷ m) l f (h, g, a) = elim (Bool-cases (ltb k j)) [
      | inl e ↦ let lt = ltb→lt k j e in simp e (l, f, (omega arith, g, a))
      | inr e ↦ elim (Bool-cases (j == k)) [
        | inl q ↦ simp (e, q) (l, f, Ascending-below (suc j) (suc k) m (ground (arith, q)) a)
        | inr q ↦ simp (e, q) (h, g, put-Ascending-from (suc j) k v m (ground (arith, e, q)) f a)
      ]
    ]

    pub put-Ascending :
        (k : ℕ) (v : V) (m : Map V) → Fits k v → Ascending 0 m → Ascending 0 (put k v m)
    put-Ascending k v m f a = put-Ascending-from 0 k v m (omega arith) f a

    remove-Ascending : (lo k : ℕ) (m : Map V) → Ascending lo m → Ascending lo (remove k m)
    unfolding remove
    remove-Ascending lo k [] a = tt
    remove-Ascending lo k ((j, u) ∷ m) (h, g, a) =
        let rest = remove-Ascending (suc j) k m a in
        elim (Bool-cases (j == k)) [
          | inl e ↦ simp e (Ascending-below (suc j) lo (remove k m) (omega arith) rest)
          | inr e ↦ simp e (h, g, rest)
        ]

    pub remove_all-Ascending :
        (ks : List ℕ) (m : Map V) → Ascending 0 m → Ascending 0 (remove_all ks m)
    unfolding remove_all
    remove_all-Ascending [] m a = a
    remove_all-Ascending (k ∷ ks) m a =
        remove_all-Ascending ks (remove k m) (remove-Ascending 0 k m a)

    -- The last value is the value at the greatest key.
    pub last_value-greatest :
        (lo : ℕ) (m : Map V) (v : V)
        → Ascending lo m
        → last_value m ≡ some v
        → (k : ℕ) × (lookup k m ≡ some v)
          × Fits k v
          × (lo ≤ k)
          × ((j : ℕ) (u : V) → lookup j m ≡ some u → j ≤ k)
    unfolding lookup last_value
    last_value-greatest lo [] v a e = cc
    last_value-greatest lo ((i, w) ∷ []) v (h, f, a) e = (
      i,
      ground (arith, e),
      subst (Fits i) (some-injective _ _ e) f,
      h,
      λ j u q. ground (arith, q),
    )
    last_value-greatest lo ((i, w) ∷ (p ∷ m)) v (h, f, a) e =
        let (k, here, g, l, top) = last_value-greatest (suc i) (p ∷ m) v a e in
        (k, ground (arith, here, l), g, omega arith, λ j u q. ground (arith, top j u, q, l))
