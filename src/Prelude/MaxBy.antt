-- ===== src/Prelude/MaxBy.antt =====
-- What `Iterator::max_by` returns when the comparison is a total preorder.
use mathlib.Core.Path.{subst}
use mathlib.Core.Option.{some-injective}
use hyperiondb.Prelude.{
  ◌≡◌, ◌≢◌, ◌∙◌, keep_by, refl, ◌⊎◌, inl, inr, some, List, [], ◌∷◌, Ordering, max_by, max_by_from,
  In, All,
}

pub record IsPreorder {A : Type 0} (cmp : A → A → Ordering) : Type 0 where
  pub reflexive : (a : A) → cmp a a ≢ Ordering.gt
  pub transitive :
      (a b c : A) → cmp a b ≢ Ordering.gt → cmp b c ≢ Ordering.gt → cmp a c ≢ Ordering.gt
  pub total : (a b : A) → cmp a b ≡ Ordering.gt → cmp b a ≢ Ordering.gt

-- Which of the two is kept, and that neither beats it.
record Kept {A : Type 0} (cmp : A → A → Ordering) (b x k : A) : Type 0 where
  which : (k ≡ b) ⊎ (k ≡ x)
  first : cmp b k ≢ Ordering.gt
  second : cmp x k ≢ Ordering.gt

module _ {A : Type 0} (cmp : A → A → Ordering) (law : IsPreorder cmp) where
  open law use {reflexive, transitive, total}

  Kept-keep_by : (b x : A) (o : Ordering) → cmp b x ≡ o → Kept cmp b x (keep_by o b x)
  Kept-keep_by b x Ordering.lt e = record {
    which = inr refl;
    first = λ g. cc;
    second = reflexive x;
  }
  Kept-keep_by b x Ordering.eq e = record {
    which = inr refl;
    first = λ g. cc;
    second = reflexive x;
  }
  Kept-keep_by b x Ordering.gt e = record {
    which = inl refl;
    first = reflexive b;
    second = total b x e;
  }

  In-Kept : {b x k m : A} (xs : List A) → Kept cmp b x k → In m (k ∷ xs) → In m (b ∷ x ∷ xs)
  In-Kept xs h (inl e) = elim h.which [ inl f ↦ inl (e ∙ f) | inr f ↦ inr (inl (e ∙ f)) ]
  In-Kept xs h (inr i) = inr (inr i)

  -- The result is an element, and no element is greater.
  pub max_by_from_lem :
      (b : A) (xs : List A)
      → In (max_by_from cmp b xs) (b ∷ xs)
        × All (λ x. cmp x (max_by_from cmp b xs) ≢ Ordering.gt) (b ∷ xs)
  max_by_from_lem b [] = (inl refl, (reflexive b, tt))
  max_by_from_lem b (x ∷ xs) =
      let k = keep_by (cmp b x) b x in
      let kept = Kept-keep_by b x (cmp b x) refl in
      let (i, (low, rest)) = max_by_from_lem k xs in
      (
        In-Kept xs kept i,
        (
          transitive b k (max_by_from cmp k xs) kept.first low,
          (transitive x k (max_by_from cmp k xs) kept.second low, rest),
        ),
      )

  pub max_by_lem :
      (xs : List A) (w : A) → max_by cmp xs ≡ some w → In w xs × All (λ x. cmp x w ≢ Ordering.gt) xs
  max_by_lem [] w h = cc
  max_by_lem (x ∷ xs) w h =
      subst (λ v. In v (x ∷ xs) × All (λ y. cmp y v ≢ Ordering.gt) (x ∷ xs)) (some-injective _ _ h)
        (max_by_from_lem x xs)
