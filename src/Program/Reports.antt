-- ===== src/Program/Reports.antt =====
-- What the program of src/lib.rs reports, and the tasks that it spawns.
use mathlib.Core.Path.{subst}
use mathlib.Core.List.{append-nil}
use hyperiondb.Prelude.{
  ◌≡◌, ◌≢◌, inl, inr, refl, sym, ap, ◌∙◌, true, false, List, [], ◌∷◌, ◌++◌, Bool-cases,
}
use hyperiondb.Prelude.Text.{Text, text_eq, text_eq_iff}
use hyperiondb.Startup.{Boot}
use hyperiondb.Supervisor.World.{
  World, Effect, heartbeat, watchdog, ran, gossiped, marked, proposed, rejoined,
}
use hyperiondb.Supervisor.Round.{round}
use hyperiondb.Supervisor.Round.Safety.{quorum}
use hyperiondb.Node.{RaftHandle, RuntimeCall, client_write, spawn, status_line, report}
use hyperiondb.Program.{Tick, Progress, handle_at, inputs_of, turn, turns, at_start}

-- The newest of the lines.
abbrev pub newest : Text → List Text → Text
newest line [] = line
newest line (x ∷ xs) = newest x xs

-- Each line differs from the one before it.
abbrev pub Changing : Text → List Text → Type 0
Changing line [] = Unit
Changing line (x ∷ xs) = (x ≢ line) × Changing x xs

newest-append : (line x : Text) (xs : List Text) → newest line (xs ++ x ∷ []) ≡ x
newest-append line x [] = refl
newest-append line x (y ∷ ys) = newest-append y x ys

Changing-append :
    (line x : Text) (xs : List Text)
    → Changing line xs
    → x ≢ newest line xs
    → Changing line (xs ++ x ∷ [])
Changing-append line x [] h ne = (ne, tt)
Changing-append line x (y ∷ ys) (h, hs) ne = (h, Changing-append y x ys hs ne)

-- The lines written are those that changed, and the newest is the one to compare with.
record IsReported (p : Progress) : Type 0 where
  current : newest [] p.statuses ≡ p.last
  changing : Changing [] p.statuses

fresh-IsReported : (p : Progress) → p.last ≡ [] → p.statuses ≡ [] → IsReported p
fresh-IsReported p e f = record { current = rw (e, f) refl; changing = rw f tt }

module _ (b : Boot) (h : RaftHandle) where
  -- The status line behind a round.
  abbrev pub line_of : Tick → Progress → Text
  line_of t p =
      let i = inputs_of (handle_at h t) t in
      status_line b (handle_at h t) (round b.settings i p.loop p.world).1
        (quorum b.settings i p.loop p.world) t.in_recovery

  turn-last : (t : Tick) (p : Progress) → (turn b h t p).last ≡ line_of t p
  unfolding turn report
  turn-last t p = elim (Bool-cases (text_eq (line_of t p) p.last)) [
    | inl e ↦ rw e (sym ((text_eq_iff (line_of t p) p.last).0 e))
    | inr e ↦ rw e refl
  ]

  turn-same :
      (t : Tick) (p : Progress)
      → text_eq (line_of t p) p.last ≡ true
      → (turn b h t p).statuses ≡ p.statuses
  unfolding turn report
  turn-same t p e = rw e (append-nil p.statuses)

  turn-other :
      (t : Tick) (p : Progress)
      → text_eq (line_of t p) p.last ≡ false
      → (turn b h t p).statuses ≡ p.statuses ++ line_of t p ∷ []
  unfolding turn report
  turn-other t p e = rw e refl

  turn-IsReported : (t : Tick) (p : Progress) → IsReported p → IsReported (turn b h t p)
  turn-IsReported t p r = elim (Bool-cases (text_eq (line_of t p) p.last)) [
    | inl e ↦
        let same = turn-same t p e in
        record {
          current =
              ap (newest []) same
              ∙ r.current
              ∙ sym ((text_eq_iff (line_of t p) p.last).0 e)
              ∙ sym (turn-last t p);
          changing = subst (Changing []) (sym same) r.changing;
        }
    | inr e ↦
        let more = turn-other t p e in
        let ne : line_of t p ≢ newest [] p.statuses =
          λ f. cc ((text_eq_iff (line_of t p) p.last).1 (f ∙ r.current), e) in
        record {
          current =
              ap (newest []) more ∙ newest-append [] (line_of t p) p.statuses ∙ sym (turn-last t p);
          changing =
              subst (Changing []) (sym more)
                (Changing-append [] (line_of t p) p.statuses r.changing ne);
        }
  ]

  turns-IsReported : (ts : List Tick) (p : Progress) → IsReported p → IsReported (turns b h ts p)
  unfolding turns
  turns-IsReported [] p r = r
  turns-IsReported (t ∷ ts) p r = turns-IsReported ts (turn b h t p) (turn-IsReported t p r)

  turns-last :
      (ts : List Tick) (t : Tick) (p : Progress)
      → turns b h (ts ++ t ∷ []) p ≡ turn b h t (turns b h ts p)
  unfolding turns
  turns-last [] t p = refl
  turns-last (u ∷ ts) t p = turns-last ts t (turn b h u p)

  -- After any rounds, the line that the last one yields is the newest one written, whether or not it was
  -- written in that round.
  pub status_current :
      (ts : List Tick) (t : Tick) (w : World)
      → newest [] (turns b h (ts ++ t ∷ []) (at_start h w)).statuses
        ≡ line_of t (turns b h ts (at_start h w))
  status_current ts t w =
      let p = at_start h w in
      (turns-IsReported (ts ++ t ∷ []) p (fresh-IsReported p refl refl)).current
      ∙ ap (λ (q : Progress). q.last) (turns-last ts t p)
      ∙ turn-last t (turns b h ts p)

-- The tasks that the program spawns for the effects of the loop, the oldest first.
abbrev pub proposals : List Effect → List RuntimeCall
proposals [] = []
proposals (proposed d ∷ es) = proposals es ++ spawn (client_write d 800) ∷ []
proposals (heartbeat ∷ es) = proposals es
proposals (watchdog ∷ es) = proposals es
proposals (ran q r ∷ es) = proposals es
proposals (gossiped g ∷ es) = proposals es
proposals (marked path r ∷ es) = proposals es
proposals (rejoined dir primary ∷ es) = proposals es
