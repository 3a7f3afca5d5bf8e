-- ===== src/Probes/Chaos.antt =====
-- What packages/chaos-writer/src/main.rs prints, and that it ends.
use mathlib.Core.Path.{subst}
use native.Mathlib.Decide.{dec_lt}
use hyperiondb.Prelude.{
  sym, ℕ, zero, suc, ◌+◌, ◌≤◌, ◌<◌, ◌≡◌, refl, Bool, true, false, List, [], ◌∷◌, ◌++◌, map, arith,
  inl, inr, Bool-cases, range_from,
}
use hyperiondb.Prelude.Words.{add64}
use hyperiondb.Probes.{
  Faults, Phase, connecting, inserting, ended, Writer, writer_start, try_connect, try_insert, look,
  write_ids,
}

-- The ids of the inserts that were acknowledged.
abbrev pub acked : List (ℕ × Bool) → List ℕ
acked [] = []
acked ((id, true) ∷ rest) = id ∷ acked rest
acked ((id, false) ∷ rest) = acked rest

abbrev pub first : ℕ × Bool → ℕ
first p = p.0

-- The ids tried are 1, 2 and so on, and those that were acknowledged are the ones printed.
record IsHonest (w : Writer) : Type 0 where
  counted : map first w.tried ≡ range_from 1 w.id
  printed : w.printed ≡ acked w.tried
  few : w.id ≤ w.looks

-- A look that leads to no insert, and one that does.
record IsLook (w t : Writer) : Type 0 where
  same_id : t.id ≡ w.id
  same_tried : t.tried ≡ w.tried
  same_printed : t.printed ≡ w.printed
  looks : (w.looks ≤ t.looks) × (t.looks ≤ w.looks + 1)

record IsInsert (w t : Writer) (b : Bool) : Type 0 where
  next_id : t.id ≡ add64 w.id 1
  tried : t.tried ≡ w.tried ++ (add64 w.id 1, b) ∷ []
  printed : t.printed ≡ w.printed ++ acked ((add64 w.id 1, b) ∷ [])
  looks : t.looks ≡ w.looks + 1

module _ (f : Faults) where
  -- The looks that are still needed once the file is there.
  abbrev rank : Phase → ℕ
  rank connecting = 1
  rank inserting = 2
  rank ended = 0

  write_ids-ended : (fuel : ℕ) (w : Writer) → w.phase ≡ ended → (write_ids f fuel w).phase ≡ ended
  unfolding write_ids look
  write_ids-ended zero w e = e
  write_ids-ended (suc fuel) w e =
      subst (λ (p : Phase). (write_ids f fuel (look f p w)).phase ≡ ended) (sym e)
        (write_ids-ended fuel w e)

  module _ (n : ℕ) (stops : (k : ℕ) → n ≤ k → f.stop_file k ≡ true) where
    before : (k : ℕ) → f.stop_file k ≡ false → k < n
    before k s = elim (dec_lt k n) [ yes lt ↦ lt | no ge ↦ absurd (cc (stops k (omega arith), s)) ]

    connecting-rank :
        (w : Writer) (fuel : ℕ)
        → n + 2 ≤ suc fuel + w.looks
        → (rank (look f connecting w).phase ≤ fuel) × ((look f connecting w).looks ≡ w.looks + 1)
    unfolding look try_connect
    connecting-rank w fuel h = elim (Bool-cases (f.stop_file w.looks)) [
      | inl s ↦ rw s (omega arith, refl)
      | inr s ↦
          let early = before w.looks s in
          elim (Bool-cases (f.connects w.looks)) [
            | inl c ↦ rw (s, c) (omega (arith, early), refl)
            | inr c ↦ rw (s, c) (ground (arith, early), refl)
          ]
    ]

    inserting-rank :
        (w : Writer) (fuel : ℕ)
        → 1 ≤ fuel
        → n + 2 ≤ suc fuel + w.looks
        → (rank (look f inserting w).phase ≤ fuel) × ((look f inserting w).looks ≡ w.looks + 1)
    unfolding look try_insert
    inserting-rank w fuel r h = elim (Bool-cases (f.stop_file w.looks)) [
      | inl s ↦ rw s (omega arith, refl)
      | inr s ↦
          let early = before w.looks s in
          elim (Bool-cases (f.acks w.looks (add64 w.id 1))) [
            | inl c ↦ rw (s, c) (ground (arith, early), refl)
            | inr c ↦ rw (s, c) (omega (arith, early), refl)
          ]
    ]

    reaches_end :
        (fuel : ℕ) (p : Phase) (w : Writer)
        → w.phase ≡ p
        → rank p ≤ fuel
        → n + 2 ≤ fuel + w.looks
        → (write_ids f fuel w).phase ≡ ended
    unfolding write_ids
    reaches_end zero connecting w e r h = absurd (omega arith)
    reaches_end zero inserting w e r h = absurd (omega arith)
    reaches_end zero ended w e r h = e
    reaches_end (suc fuel) ended w e r h = write_ids-ended (suc fuel) w e
    reaches_end (suc fuel) connecting w e r h =
        let (low, looks) = connecting-rank w fuel h in
        subst (λ (p : Phase). (write_ids f fuel (look f p w)).phase ≡ ended) (sym e)
          (reaches_end fuel (look f connecting w).phase (look f connecting w) refl low
            (omega (arith, looks)))
    reaches_end (suc fuel) inserting w e r h =
        let (low, looks) = inserting-rank w fuel (omega arith) h in
        subst (λ (p : Phase). (write_ids f fuel (look f p w)).phase ≡ ended) (sym e)
          (reaches_end fuel (look f inserting w).phase (look f inserting w) refl low
            (omega (arith, looks)))

    -- If the file that stops the writer is there from its n-th look on, the writer ends within two looks
    -- more.
    pub write_ids-ends : (write_ids f (n + 2) writer_start).phase ≡ ended
    unfolding writer_start
    write_ids-ends = reaches_end (n + 2) connecting writer_start refl (omega arith) (omega arith)
