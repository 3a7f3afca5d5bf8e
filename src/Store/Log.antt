-- ===== src/Store/Log.antt =====
-- The log of src/store.rs: what each operation keeps of the entries, and what a restart finds.
use mathlib.Core.Path.{subst}
use hyperiondb.Prelude.{
  ℕ, ◌≤◌, ◌≡◌, ◌⊎◌, refl, inl, inr, false, Option, none, some, List, [], ◌∷◌, ◌∙◌, Option-cases, ap,
  sym, ltb, if◌then◌else◌, arith, ◌==◌,
}
use hyperiondb.Prelude.Maps.{Map, lookup}
use hyperiondb.Prelude.BTree.{
  included, unbounded, after, before, put, lookup-put, lookup-remove_range, Ascending,
  put-Ascending, remove_all-Ascending, last_value, last_value-greatest, last_value-empty,
}
use hyperiondb.Store.{
  Raft, Fs, Serde, Entry, LogStoreState, LogOp, save_vote, save_committed, append, truncate, purge,
  write_state, insert_entries, get_log_state, run_log, calls_back, Outcome, ok, err, write_logs,
  load,
}
use hyperiondb.Store.File.{IsPlace, IsFs, IsSerde, load-persist, persist-durable}

module _ {R : Raft} where
  -- Every entry stands at its own index, and the indexes ascend.
  abbrev pub IsLog : LogStoreState R → Type 0
  IsLog s = Ascending (λ k (e : Entry R). R.index e.log_id ≡ k) 0 s.log

  insert_entries-Ascending :
      (es : List (Entry R)) (m : Map (Entry R))
      → Ascending (λ k (e : Entry R). R.index e.log_id ≡ k) 0 m
      → Ascending (λ k (e : Entry R). R.index e.log_id ≡ k) 0 (insert_entries es m)
  unfolding insert_entries
  insert_entries-Ascending [] m a = a
  insert_entries-Ascending (e ∷ es) m a =
      insert_entries-Ascending es (put (R.index e.log_id) e m)
        (put-Ascending _ (R.index e.log_id) e m refl a)

  -- Every operation keeps the log well-formed.
  pub write_state-IsLog : (op : LogOp R) (s : LogStoreState R) → IsLog s → IsLog (write_state op s)
  unfolding write_state
  write_state-IsLog (save_vote vote) s a = a
  write_state-IsLog (save_committed committed) s a = a
  write_state-IsLog (append entries) s a = insert_entries-Ascending entries s.log a
  write_state-IsLog (truncate id) s a = remove_all-Ascending _ _ s.log a
  write_state-IsLog (purge id) s a = remove_all-Ascending _ _ s.log a

  -- The entry of the last of `es` with the index `k`, or else `old`.
  abbrev pub newest : ℕ → List (Entry R) → Option (Entry R) → Option (Entry R)
  newest k [] old = old
  newest k (e ∷ es) old = newest k es (if R.index e.log_id == k then some e else old)

  lookup-insert_entries :
      (k : ℕ) (es : List (Entry R)) (m : Map (Entry R))
      → lookup k (insert_entries es m) ≡ newest k es (lookup k m)
  unfolding insert_entries
  lookup-insert_entries k [] m = refl
  lookup-insert_entries k (e ∷ es) m =
      lookup-insert_entries k es (put (R.index e.log_id) e m)
      ∙ ap (newest k es) (lookup-put (R.index e.log_id) k e m)

  -- What the log has at the index `k` after an operation, in the words of the operation.
  abbrev pub expected : LogOp R → ℕ → Option (Entry R) → Option (Entry R)
  expected (save_vote vote) k old = old
  expected (save_committed committed) k old = old
  expected (append entries) k old = newest k entries old
  expected (truncate id) k old = if ltb k (R.index id) then old else none
  expected (purge id) k old = if ltb (R.index id) k then old else none

  -- After an operation the log has at each index what the operation promises: `append` overwrites,
  -- `truncate` keeps what is before the given index and `purge` what is behind it.
  pub lookup-write_state :
      (op : LogOp R) (s : LogStoreState R) (k : ℕ)
      → lookup k (write_state op s).log ≡ expected op k (lookup k s.log)
  unfolding write_state after before
  lookup-write_state (save_vote vote) s k = refl
  lookup-write_state (save_committed committed) s k = refl
  lookup-write_state (append entries) s k = lookup-insert_entries k entries s.log
  lookup-write_state (truncate id) s k =
      lookup-remove_range (included (R.index id)) unbounded k s.log ∙ ground arith
  lookup-write_state (purge id) s k =
      lookup-remove_range unbounded (included (R.index id)) k s.log ∙ ground arith

  -- The state after one operation and another.
  abbrev pub write_states : List (LogOp R) → LogStoreState R → LogStoreState R
  write_states [] s = s
  write_states (op ∷ ops) s = write_states ops (write_state op s)

  abbrev pub all_expected : List (LogOp R) → ℕ → Option (Entry R) → Option (Entry R)
  all_expected [] k old = old
  all_expected (op ∷ ops) k old = all_expected ops k (expected op k old)

  -- Any sequence of operations on a well-formed log leaves a well-formed log that has at each index
  -- what the operations promise, one after another, of an index on its own.
  pub write_states-refines :
      (ops : List (LogOp R)) (s : LogStoreState R)
      → IsLog s
      → IsLog (write_states ops s)
        × ((k : ℕ) → lookup k (write_states ops s).log ≡ all_expected ops k (lookup k s.log))
  write_states-refines [] s a = (a, λ k. refl)
  write_states-refines (op ∷ ops) s a =
      let (kept, has) = write_states-refines ops (write_state op s) (write_state-IsLog op s a) in
      (kept, λ k. has k ∙ ap (all_expected ops k) (lookup-write_state op s k))

  -- With an entry in the log, `get_log_state` names the one with the greatest index.
  pub get_log_state-greatest :
      (s : LogStoreState R) (j : ℕ) (e : Entry R)
      → IsLog s
      → lookup j s.log ≡ some e
      → (top : Entry R) × (get_log_state s ≡ (s.last_purged, some top.log_id))
        × (lookup (R.index top.log_id) s.log ≡ some top)
        × (j ≤ R.index top.log_id)
  unfolding get_log_state
  get_log_state-greatest s j e a here = elim (Option-cases (last_value s.log)) [
    | inl none_last ↦
        let gone = last_value-empty s.log none_last j in absurd (ground (arith, gone, here))
    | inr (top, last) ↦
        let (k, found, fits, low, greatest) = last_value-greatest _ 0 s.log top a last in
        (
          top,
          rw (get_log_state, last) refl,
          subst (λ i. lookup i s.log ≡ some top) (sym fits) found,
          omega (arith, greatest j e here, fits),
        )
  ]

  purge-all :
      (s : LogStoreState R) (id : R.LogId)
      → ((j : ℕ) (e : Entry R) → lookup j s.log ≡ some e → j ≤ R.index id)
      → (k : ℕ) → lookup k (write_state (purge id) s).log ≡ none
  purge-all s id all k = lookup-write_state (purge id) s k ∙ elim (Option-cases (lookup k s.log)) [
    | inl e ↦ ground (arith, e)
    | inr (old, e) ↦ ground (arith, all k old e)
  ]

  -- Purging the whole log leaves the purged id as the last one.
  pub get_log_state-purge :
      (s : LogStoreState R) (id : R.LogId)
      → IsLog s
      → ((j : ℕ) (e : Entry R) → lookup j s.log ≡ some e → j ≤ R.index id)
      → get_log_state (write_state (purge id) s) ≡ (some id, some id)
  unfolding write_state get_log_state
  get_log_state-purge s id a all =
      let t = write_state (purge id) s in
      elim (Option-cases (last_value t.log)) [
        | inl gone ↦ rw (get_log_state, gone) refl
        | inr (top, last) ↦
            let (k, found, fits, low, greatest) =
              last_value-greatest _ 0 t.log top (write_state-IsLog (purge id) s a) last in
            let gone = purge-all s id all k in absurd (ground (arith, gone, found))
      ]

calls_back-err :
    {R : Raft} (op : LogOp R) (o : Outcome) → o ≡ err write_logs → calls_back op o ≡ false
unfolding calls_back
calls_back-err (append es) ok e = absurd (cc e)
calls_back-err (append es) (err x) e = refl
calls_back-err (save_vote v) o e = refl
calls_back-err (save_committed c) o e = refl
calls_back-err (truncate id) o e = refl
calls_back-err (purge id) o e = refl

module _ {R : Raft} {fs : Fs} {serde : Serde (LogStoreState R)} (isfs : IsFs fs)
    (isserde : IsSerde serde) where
  -- After any operation of the log store a restart finds its state, or what it would have found
  -- before, but then the operation reports an error and does not call back; and the operation reports an
  -- error, or a start after a crash of the machine finds its state too.
  pub run_log-restart :
      (default s : LogStoreState R) (path : fs.FilePath)
      → IsPlace fs path
      → (op : LogOp R) (d : fs.Disk)
      → let r = run_log fs serde path op s d in
        ((load fs serde default path r.0.disk ≡ some (write_state op s))
          ⊎ ((load fs serde default path r.0.disk ≡ load fs serde default path d)
              × (r.0.outcome ≡ err write_logs)
              × (r.1 ≡ false)))
        × ((r.0.outcome ≡ err write_logs)
            ⊎ (load fs serde default path (isfs.crash r.0.disk) ≡ some (write_state op s)))
  unfolding run_log
  run_log-restart default s path place op d =
      let t = write_state op s in
      (
        elim (load-persist isfs isserde write_logs path place default t d) [
          | inl new ↦ inl new
          | inr (same, failed) ↦ inr (same, failed, calls_back-err op _ failed)
        ],
        elim (persist-durable isfs isserde write_logs path place default t d) [
          | inl (_, _, after_crash) ↦ inr after_crash
          | inr failed ↦ inl failed
        ],
      )
