-- ===== src/Store/Machine.antt =====
-- The state machine of src/store.rs: what applied entries and installed snapshots leave in memory, on
-- the disk and in the decision that the rest of the program sees.
use hyperiondb.Prelude.{
  ◌≡◌, ◌⊎◌, refl, inl, inr, Bool, false, Option, none, some, List, [], ◌∷◌, Bool-cases, ◌∙◌, ap,
  sym, if◌then◌else◌, arith,
}
use hyperiondb.Failover.{Decision}
use hyperiondb.Store.{
  Raft, Fs, Serde, Entry, Payload, blank, normal, membership, SmState, StateMachine, StoredSnapshot,
  apply_entry, apply_entries, build_snapshot, get_current_snapshot, publish, apply,
  install_snapshot, ok, err, write_state_machine, load, LogStoreState, open_store, empty_sm,
  empty_log,
}
use hyperiondb.Store.File.{IsPlace, IsFs, IsSerde, persist-durable}

module _ {R : Raft} where
  abbrev decision_in : Payload R → Option Decision → Option Decision
  decision_in blank old = old
  decision_in (normal value) old = some value
  decision_in (membership m) old = old

  -- The decision of the last of `es` that has one, or else `old`.
  abbrev pub last_decision : List (Entry R) → Option Decision → Option Decision
  last_decision [] old = old
  last_decision (e ∷ es) old = last_decision es (decision_in e.payload old)

  abbrev pub last_id : List (Entry R) → Option R.LogId → Option R.LogId
  last_id [] old = old
  last_id (e ∷ es) old = last_id es (some e.log_id)

  abbrev entry : R.LogId → Payload R → Entry R
  entry id p = record { log_id = id; payload = p }

  apply_entry-decision :
      (id : R.LogId) (p : Payload R) (sm : SmState R) (b : Bool)
      → ((apply_entry (entry id p) (sm, b)).0.decision ≡ decision_in p sm.decision)
        × ((apply_entry (entry id p) (sm, b)).0.last_applied ≡ some id)
        × ((apply_entry (entry id p) (sm, b)).1 ≡ false
            → ((apply_entry (entry id p) (sm, b)).0.decision ≡ sm.decision) × (b ≡ false))
  unfolding apply_entry
  apply_entry-decision id blank sm b = (refl, refl, λ e. (refl, e))
  apply_entry-decision id (normal value) sm b = (refl, refl, λ e. absurd (cc e))
  apply_entry-decision id (membership m) sm b = (refl, refl, λ e. (refl, e))

  -- A batch leaves the decision of its last entry that has one, and the id of its last entry.
  pub apply_entries-last :
      (es : List (Entry R)) (sm : SmState R) (b : Bool)
      → ((apply_entries es (sm, b)).0.decision ≡ last_decision es sm.decision)
        × ((apply_entries es (sm, b)).0.last_applied ≡ last_id es sm.last_applied)
  unfolding apply_entries
  apply_entries-last [] sm b = (refl, refl)
  apply_entries-last (e ∷ es) sm b =
      let r = apply_entry e (sm, b) in
      let (decided, applied) = apply_entries-last es r.0 r.1 in
      let (d, a, _) = apply_entry-decision e.log_id e.payload sm b in
      (decided ∙ ap (last_decision es) d, applied ∙ ap (last_id es) a)

  -- A batch that does not report a change has left the decision alone.
  apply_entries-unchanged :
      (es : List (Entry R)) (sm : SmState R) (b : Bool)
      → (apply_entries es (sm, b)).1 ≡ false
      → ((apply_entries es (sm, b)).0.decision ≡ sm.decision) × (b ≡ false)
  unfolding apply_entries
  apply_entries-unchanged [] sm b e = (refl, e)
  apply_entries-unchanged (x ∷ es) sm b e =
      let r = apply_entry x (sm, b) in
      let (kept, before) = apply_entries-unchanged es r.0 r.1 e in
      let (_, _, same) = apply_entry-decision x.log_id x.payload sm b in
      let (d, c) = same before in (kept ∙ d, c)

module _ {R : Raft} {fs : Fs} {serde : Serde (SmState R)} (isfs : IsFs fs)
    (isserde : IsSerde serde) where
  -- What `publish` shows is on the disk, and after an error nothing new is shown.
  publish-durable :
      (path : fs.FilePath)
      → IsPlace fs path
      → (m : StateMachine R) (shown : Option Decision) (d : fs.Disk) (default : SmState R)
      → let r = publish fs serde path m shown d in
        ((r.outcome ≡ ok)
          × (load fs serde default path r.disk ≡ some m.sm)
          × (load fs serde default path (isfs.crash r.disk) ≡ some m.sm)
          × (r.store ≡ record m { shared = shown }))
        ⊎ ((r.outcome ≡ err write_state_machine) × (r.store ≡ m))
  unfolding publish
  publish-durable path place m shown d default =
      elim (persist-durable isfs isserde write_state_machine path place default m.sm d) [
        | inl (done, new, after_crash) ↦ inl (
          rw (publish, done) refl,
          rw (publish, done) new,
          rw (publish, done) after_crash,
          rw (publish, done) refl,
        )
        | inr failed ↦ inr (rw (publish, failed) refl, rw (publish, failed) refl)
      ]

  -- A state machine whose shared decision is that of its state applies entries. If that succeeds, its
  -- shared decision is again that of its state and is the last one among the entries, or else the old
  -- one, and a restart reads that state, also after a crash of the machine; if not, the shared decision
  -- is the old one.
  pub apply-durable :
      (path : fs.FilePath)
      → IsPlace fs path
      → (es : List (Entry R)) (m : StateMachine R) (d : fs.Disk) (default : SmState R)
      → m.shared ≡ m.sm.decision
      → let r = apply fs serde path es m d in
        ((r.outcome ≡ ok)
          × (load fs serde default path r.disk ≡ some r.store.sm)
          × (load fs serde default path (isfs.crash r.disk) ≡ some r.store.sm)
          × (r.store.shared ≡ r.store.sm.decision)
          × (r.store.shared ≡ last_decision es m.shared))
        ⊎ ((r.outcome ≡ err write_state_machine) × (r.store.shared ≡ m.shared))
  unfolding apply
  apply-durable path place es m d default same =
      let r = apply_entries es (m.sm, false) in
      let shown = if r.1 then r.0.decision else m.shared in
      let (last, _) = apply_entries-last es m.sm false in
      let fits : shown ≡ r.0.decision = elim (Bool-cases r.1) [
        | inl e ↦ rw e refl
        | inr e ↦ let (kept, _) = apply_entries-unchanged es m.sm false e in rw e (same ∙ sym kept)
      ] in
      elim (publish-durable path place (record m { sm = r.0 }) shown d default) [
        | inl (done, new, after_crash, store) ↦ inl (
          done,
          new ∙ ap (λ (x : StateMachine R). some x.sm) (sym store),
          after_crash ∙ ap (λ (x : StateMachine R). some x.sm) (sym store),
          ap (λ (x : StateMachine R). x.shared) store
              ∙ fits
              ∙ ap (λ (x : StateMachine R). x.sm.decision) (sym store),
          ap (λ (x : StateMachine R). x.shared) store
              ∙ fits
              ∙ last
              ∙ ap (last_decision es) (sym same),
        )
        | inr (failed, store) ↦ inr (failed, ap (λ (x : StateMachine R). x.shared) store)
      ]

  build_snapshot-bytes :
      (m : StateMachine R) (snapshot : StoredSnapshot R)
      → (build_snapshot serde m).1 ≡ inr snapshot
      → serde.to_vec m.sm ≡ some snapshot.data_bytes
  unfolding build_snapshot
  build_snapshot-bytes m snapshot built = ground (arith, built)

  -- A snapshot that one state machine builds installs on any other: it then has the state of the first,
  -- shows its decision, keeps the snapshot and is read by a restart, also after a crash of the machine; or
  -- the write fails and its shared decision stays.
  pub install_snapshot-build_snapshot :
      (path : fs.FilePath)
      → IsPlace fs path
      → (m n : StateMachine R) (d : fs.Disk) (default : SmState R) (snapshot : StoredSnapshot R)
      → (build_snapshot serde m).1 ≡ inr snapshot
      → let r = install_snapshot fs serde path snapshot n d in
        ((r.outcome ≡ ok)
          × (r.store.sm ≡ m.sm)
          × (r.store.shared ≡ m.sm.decision)
          × (get_current_snapshot r.store ≡ some snapshot)
          × (load fs serde default path r.disk ≡ some m.sm)
          × (load fs serde default path (isfs.crash r.disk) ≡ some m.sm))
        ⊎ ((r.outcome ≡ err write_state_machine) × (r.store.shared ≡ n.shared))
  unfolding install_snapshot get_current_snapshot
  install_snapshot-build_snapshot path place m n d default snapshot built =
      let read = isserde.reads_back m.sm _ (build_snapshot-bytes m snapshot built) in
      let n₁ : StateMachine R = record n { sm = m.sm; snapshot = some snapshot } in
      rw (install_snapshot, read)
        (elim (publish-durable path place n₁ m.sm.decision d default) [
          | inl (done, new, after_crash, store) ↦ inl (
            done,
            ap (λ (x : StateMachine R). x.sm) store,
            ap (λ (x : StateMachine R). x.shared) store,
            ap (λ (x : StateMachine R). x.snapshot) store,
            new,
            after_crash,
          )
          | inr (failed, store) ↦ inr (failed, ap (λ (x : StateMachine R). x.shared) store)
        ])

  -- After entries that were applied, a restart shows the decision that was shown before it, if it
  -- reads the log.
  pub open_store-apply :
      (log_serde : Serde (LogStoreState R)) (log_path path : fs.FilePath)
      → IsPlace fs path
      → (es : List (Entry R)) (m : StateMachine R) (d : fs.Disk) (log_state : LogStoreState R)
      → m.shared ≡ m.sm.decision
      → (apply fs serde path es m d).outcome ≡ ok
      → load fs log_serde (empty_log R) log_path (apply fs serde path es m d).disk ≡ some log_state
      → (n : StateMachine R) × (open_store fs log_serde serde log_path path
            (apply fs serde path es m d).disk
          ≡ some (log_state, n))
        × (n.shared ≡ last_decision es m.shared)
  unfolding open_store
  open_store-apply log_serde log_path path place es m d log_state same done reads =
      elim (apply-durable path place es m d (empty_sm R) same) [
        | inl (_, new, _, fits, last) ↦ (
          record {
            sm = (apply fs serde path es m d).store.sm;
            snapshot = none;
            snapshot_idx = 0;
            shared = (apply fs serde path es m d).store.sm.decision;
          },
          rw (open_store, reads, new) refl,
          sym fits ∙ last,
        )
        | inr (failed, _) ↦ absurd cc
      ]
