-- ===== src/Commands/Deadline.antt =====
-- `output_with_timeout` of src/apply.rs: it ends, and leaves no process behind.
use hyperiondb.Prelude.{
  ℕ, zero, suc, ◌+◌, ◌*◌, ◌≤◌, ◌≡◌, ◌≢◌, ◌⊎◌, refl, true, false, none, some, [], ◌∷◌, arith, leb,
  Bool-cases, inl, inr,
}
use hyperiondb.Commands.{
  Child, Poll, exited, alive, broken, kill, wait, wait_for_output, Ended, gone, finished,
  not_started, poll_loop, output_with_timeout,
}

-- The last poll, that of `k`, saw the process exit and its output was taken; or it did not, and the
-- process was killed, waited for, and gives no output.
abbrev pub EndsAt : Child → ℕ → Ended → Type 0
EndsAt c k e =
    (e.polls ≡ k + 1)
    × (((c.try_wait k ≡ exited)
          × (e.calls ≡ wait_for_output ∷ [])
          × (e.output ≡ c.wait_with_output))
        ⊎ ((c.try_wait k ≢ exited) × (e.calls ≡ kill ∷ wait ∷ []) × (e.output ≡ none)))

Poll-cases : (p : Poll) → (p ≡ exited) ⊎ ((p ≡ alive) ⊎ (p ≡ broken))
Poll-cases exited = inl refl
Poll-cases alive = inr (inl refl)
Poll-cases broken = inr (inr refl)

finished-EndsAt : (c : Child) (k : ℕ) → c.try_wait k ≡ exited → EndsAt c k (finished c (suc k))
finished-EndsAt c k e = (omega arith, inl (e, refl, refl))

gone-EndsAt : (c : Child) (k : ℕ) → c.try_wait k ≢ exited → EndsAt c k (gone (suc k))
gone-EndsAt c k e = (omega arith, inr (e, refl, refl))

poll_loop-ends :
    (c : Child) (deadline n k t : ℕ)
    → deadline ≤ t + 20 * n
    → (e : Ended) × (j : ℕ) × (poll_loop c deadline (suc n) k t ≡ some e)
      × EndsAt c j e
      × (j ≤ k + n)
unfolding poll_loop
poll_loop-ends c deadline zero k t due = elim (Poll-cases (c.try_wait k)) [
  | inl e ↦ (_, k, rw (poll_loop, e) refl, finished-EndsAt c k e, omega arith)
  | inr (inl e) ↦
      let late : leb deadline (t + c.passes k) ≡ true = ground arith in
      (_, k, rw (poll_loop, e, late) refl, gone-EndsAt c k (λ f. cc (e, f)), omega arith)
  | inr (inr e) ↦ (_, k, rw (poll_loop, e) refl, gone-EndsAt c k (λ f. cc (e, f)), omega arith)
]
poll_loop-ends c deadline (suc n) k t due = elim (Poll-cases (c.try_wait k)) [
  | inl e ↦ (_, k, rw (poll_loop, e) refl, finished-EndsAt c k e, omega arith)
  | inr (inl e) ↦ elim (Bool-cases (leb deadline (t + c.passes k))) [
    | inl late ↦ (_, k, rw (poll_loop, e, late) refl, gone-EndsAt c k (λ f. cc (e, f)), omega arith)
    | inr early ↦
        let (r, j, ends, over, polls) =
          poll_loop-ends c deadline n (suc k) (t + c.passes k + 20) (omega arith) in
        (r, j, rw (poll_loop, e, early) ends, over, omega arith)
  ]
  | inr (inr e) ↦ (_, k, rw (poll_loop, e) refl, gone-EndsAt c k (λ f. cc (e, f)), omega arith)
]

-- With fuel for one poll in 20 milliseconds of its timeout and one more, a command ends, whatever the
-- polls answer and however long they take: it did not start; or at a poll within that number it was seen
-- to exit and its output was taken, or it was killed, then waited for, and gives no output.
pub output_with_timeout-ends :
    (c : Child) (now timeout n : ℕ)
    → timeout ≤ 20 * n
    → (e : Ended) × (output_with_timeout c now timeout (suc n) ≡ some e)
      × (((c.spawns ≡ false) × (e ≡ not_started)) ⊎ ((j : ℕ) × (j ≤ n) × EndsAt c j e))
unfolding output_with_timeout
output_with_timeout-ends c now timeout n enough = elim (Bool-cases c.spawns) [
  | inl e ↦
      let (r, j, ends, over, polls) = poll_loop-ends c (now + timeout) n 0 now (omega arith) in
      (r, simp e ends, inr (j, omega arith, over))
  | inr e ↦ (not_started, simp e refl, inl (e, refl))
]
