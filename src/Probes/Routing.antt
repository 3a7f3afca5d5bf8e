-- ===== src/Probes/Routing.antt =====
-- When packages/failover-probe/src/main.rs succeeds.
use hyperiondb.Prelude.{◌≡◌, ◌⊎◌, ℕ, Bool, true, false, Option, none, some, [], ◌∷◌, ◌++◌}
use hyperiondb.Prelude.Text.{Text, codes}
use hyperiondb.Probes.{Session, bad_conninfo, no_rw_host, ok_line, ProbeEnd, ends_with}

module _ {C : Type 0} (from_str : Text → Option C) (connect : C → Option Session) where
  -- The probe of a host that takes writes: the row that it read and its insert.
  abbrev pub Routed : Text → Text → ProbeEnd → Type 0
  Routed conninfo label e =
      (config : C) × (s : Session) × (port : ℕ) × (in_recovery : Bool) × (node : Text) × (from_str
          conninfo
        ≡ some config)
      × (connect config ≡ some s)
      × (s.row ≡ some (port, in_recovery, node))
      × (s.insert (codes "routed-" ++ label) ≡ true)
      × (e ≡ ends_with ((codes "routed-" ++ label) ∷ []) (ok_line node port in_recovery ∷ []) 0)

  -- Each way in which the probe fails, and what it ends with.
  abbrev pub BadConninfo : Text → ProbeEnd → Type 0
  BadConninfo conninfo e = (from_str conninfo ≡ none) × (e ≡ ends_with [] (bad_conninfo ∷ []) 2)

  abbrev pub NoHost : Text → ProbeEnd → Type 0
  NoHost conninfo e =
      (config : C) × (from_str conninfo ≡ some config)
      × (connect config ≡ none)
      × (e ≡ ends_with [] (no_rw_host ∷ []) 1)

  -- The query or the insert fails, and the probe panics.
  abbrev pub Panics : Text → Text → ProbeEnd → Type 0
  Panics conninfo label e =
      (config : C) × (s : Session) × (from_str conninfo ≡ some config)
      × (connect config ≡ some s)
      × ((s.row ≡ none) ⊎ (s.insert (codes "routed-" ++ label) ≡ false))
      × (e ≡ ends_with [] [] 101)

  abbrev pub Verdict : Text → Text → ProbeEnd → Type 0
  Verdict conninfo label e =
      BadConninfo conninfo e
      ⊎ (NoHost conninfo e ⊎ (Panics conninfo label e ⊎ Routed conninfo label e))
