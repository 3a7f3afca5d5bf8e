-- ===== src/Store/Tests.antt =====
-- Tests of src/store.rs.
use hyperiondb.Prelude.{ℕ, ◌≡◌, ◌⊎◌, refl, inr, false, none, some, List, [], ◌∷◌, arith}
use hyperiondb.Prelude.BTree.{remove_all, range, put, after, before, remove}
use hyperiondb.Prelude.Maps.{lookup}
use hyperiondb.Failover.{Decision}
use hyperiondb.Store.{
  not_found, Entry, Payload, blank, normal, membership, LogStoreState, StateMachine, StoredSnapshot,
  empty_log, insert_entries, append, truncate, purge, write_state, run_log, atomic_write, load, ok,
  err, write_logs, write_state_machine, apply, apply_entries, apply_entry, build_snapshot,
  install_snapshot, get_current_snapshot, open_store, publish, persist, sync_dir,
}
use hyperiondb.Store.Log.{IsLog, write_states, all_expected, write_states-refines, run_log-restart}
use hyperiondb.Store.Machine.{apply-durable, install_snapshot-build_snapshot, open_store-apply}
use hyperiondb.Store.Sample.{
  numbers, Disk, files, files-IsFs, log_file, sm_file, log_file-IsPlace, sm_file-IsPlace, log_serde,
  sm_serde, log_serde-IsSerde, sm_serde-IsSerde,
}

abbrev to_node : ℕ → Decision
to_node n = record { seq = n; primary = n }

abbrev at_index : ℕ → Payload numbers → Entry numbers
at_index id p = record { log_id = id; payload = p }

abbrev batch : List (Entry numbers)
batch = at_index 1 blank ∷ at_index 2 (normal (to_node 2)) ∷ at_index 3 (membership 7) ∷ []

abbrev logged : LogStoreState numbers
logged = record {
  vote = some 4;
  last_purged = none;
  committed = some 2;
  log = (1, at_index 1 blank) ∷ (2, at_index 2 blank) ∷ (3, at_index 3 (membership 7)) ∷ [];
}

abbrev disk : Disk
disk = ((λ p. not_found), (λ p. not_found))

abbrev machine : StateMachine numbers
machine = record {
  sm = record { last_applied = some 0; last_membership = 5; decision = some (to_node 9) };
  snapshot = none;
  snapshot_idx = 3;
  shared = some (to_node 9);
}

logged-IsLog : IsLog logged
logged-IsLog = (omega arith, refl, (omega arith, refl, (omega arith, refl, tt)))

write_states-refines_example :
    IsLog (write_states (append batch ∷ purge 1 ∷ truncate 3 ∷ []) logged)
    × ((k : ℕ)
        → lookup k (write_states (append batch ∷ purge 1 ∷ truncate 3 ∷ []) logged).log
          ≡ all_expected (append batch ∷ purge 1 ∷ truncate 3 ∷ []) k (lookup k logged.log))
write_states-refines_example =
    write_states-refines (append batch ∷ purge 1 ∷ truncate 3 ∷ []) logged logged-IsLog

-- Of the entries 1, 2 and 3 only the newest with index 2 is left.
middle_left :
    (write_states (append batch ∷ purge 1 ∷ truncate 3 ∷ []) logged).log
    ≡ (2, at_index 2 (normal (to_node 2))) ∷ []
unfolding write_state insert_entries remove_all range put after before remove
middle_left = refl

run_log-restart_example :
    let r = run_log files log_serde log_file (truncate 2) logged disk in
    ((load files log_serde logged log_file r.0.disk ≡ some (write_state (truncate 2) logged))
      ⊎ ((load files log_serde logged log_file r.0.disk ≡ load files log_serde logged log_file disk)
          × (r.0.outcome ≡ err write_logs)
          × (r.1 ≡ false)))
    × ((r.0.outcome ≡ err write_logs)
        ⊎ (load files log_serde logged log_file (files-IsFs.crash r.0.disk)
            ≡ some (write_state (truncate 2) logged)))
run_log-restart_example =
    run_log-restart files-IsFs log_serde-IsSerde logged logged log_file log_file-IsPlace
      (truncate 2) disk

apply-durable_example :
    let r = apply files sm_serde sm_file batch machine disk in
    ((r.outcome ≡ ok)
      × (load files sm_serde machine.sm sm_file r.disk ≡ some r.store.sm)
      × (load files sm_serde machine.sm sm_file (files-IsFs.crash r.disk) ≡ some r.store.sm)
      × (r.store.shared ≡ r.store.sm.decision)
      × (r.store.shared ≡ some (to_node 2)))
    ⊎ ((r.outcome ≡ err write_state_machine) × (r.store.shared ≡ machine.shared))
apply-durable_example =
    apply-durable files-IsFs sm_serde-IsSerde sm_file sm_file-IsPlace batch machine disk machine.sm
      refl

abbrev built : StoredSnapshot numbers
built = record {
  meta = record { last_log_id = some 0; last_membership = 5; snapshot_id = (some 0, 4) };
  data_bytes = 1 ∷ 5 ∷ 9 ∷ 9 ∷ [];
}

abbrev fresh : StateMachine numbers
fresh = record {
  sm = record { last_applied = none; last_membership = 0; decision = none };
  snapshot = none;
  snapshot_idx = 0;
  shared = none;
}

builds_it : (build_snapshot sm_serde machine).1 ≡ inr built
unfolding build_snapshot
builds_it = refl

install_snapshot-build_snapshot_example :
    let r = install_snapshot files sm_serde sm_file built fresh disk in
    ((r.outcome ≡ ok)
      × (r.store.sm ≡ machine.sm)
      × (r.store.shared ≡ some (to_node 9))
      × (get_current_snapshot r.store ≡ some built)
      × (load files sm_serde fresh.sm sm_file r.disk ≡ some machine.sm)
      × (load files sm_serde fresh.sm sm_file (files-IsFs.crash r.disk) ≡ some machine.sm))
    ⊎ ((r.outcome ≡ err write_state_machine) × (r.store.shared ≡ none))
install_snapshot-build_snapshot_example =
    install_snapshot-build_snapshot files-IsFs sm_serde-IsSerde sm_file sm_file-IsPlace machine
      fresh disk fresh.sm built builds_it

applied : (apply files sm_serde sm_file batch machine disk).outcome ≡ ok
unfolding apply apply_entries apply_entry publish persist atomic_write sync_dir
applied = refl

log_loaded :
    load files log_serde
      (empty_log numbers)
      log_file
      (apply files sm_serde sm_file batch machine disk).disk
    ≡ some (empty_log numbers)
unfolding apply apply_entries apply_entry publish persist atomic_write sync_dir load
log_loaded = refl

open_store-apply_example :
    (n : StateMachine numbers) × (open_store files log_serde sm_serde log_file sm_file
        (apply files sm_serde sm_file batch machine disk).disk
      ≡ some (empty_log numbers, n))
    × (n.shared ≡ some (to_node 2))
open_store-apply_example =
    open_store-apply files-IsFs sm_serde-IsSerde log_serde log_file sm_file sm_file-IsPlace batch
      machine disk (empty_log numbers) refl applied log_loaded
