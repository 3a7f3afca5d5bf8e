-- ===== src/Store.antt =====
-- src/store.rs: the durable log and state machine that Raft keeps. What `openraft`, `serde_json` and
-- the file system do is a parameter: the records `Raft`, `Serde` and `Fs`.
pub mod File
mod Log
mod Machine
pub mod Sample
mod Tests
use hyperiondb.Prelude.{
  ℕ, suc, ◌≡◌, Bool, true, false, Option, none, some, List, [], ◌∷◌, ◌⊎◌, inl, inr, if◌then◌else◌,
  ◌>>=◌,
}
use hyperiondb.Prelude.Words.{add64}
use hyperiondb.Prelude.Maps.{Map}
use hyperiondb.Prelude.BTree.{
  Bound, included, unbounded, put, remove_all, range, keys, values, last_value,
}
use hyperiondb.Failover.{Decision}

-- The types of `openraft`, `LogId::index`, `StoredMembership::new` and its default.
pub record Raft : Type 1 where
  pub LogId : Type 0
  pub index : LogId → ℕ
  pub Vote : Type 0
  pub Membership : Type 0
  pub StoredMembership : Type 0
  pub no_members : StoredMembership
  pub stored : Option LogId → Membership → StoredMembership

-- `std::fs::read`
pub data Read : Type 0 where
  content : List ℕ → Read
  not_found : Read
  failed : Read

-- The calls on files. Each gives the disk that it leaves, and whether it succeeded.
pub record Fs : Type 1 where
  pub FilePath : Type 0
  pub Disk : Type 0
  pub tmp_of : FilePath → FilePath
  pub dir_of : FilePath → Option FilePath
  pub create : FilePath → Disk → Disk × Bool
  pub write_all : FilePath → List ℕ → Disk → Disk × Bool
  pub sync_all : FilePath → Disk → Disk × Bool
  pub rename : FilePath → FilePath → Disk → Disk × Bool
  pub open_dir : FilePath → Disk → Disk × Bool
  pub read : FilePath → Disk → Read

-- `serde_json` for one type.
pub record Serde (T : Type 0) : Type 0 where
  pub to_vec : T → Option (List ℕ)
  pub from_slice : List ℕ → Option T

pub data Payload (R : Raft) : Type 0 where
  blank : Payload R
  normal : Decision → Payload R
  membership : R.Membership → Payload R

pub record Entry (R : Raft) : Type 0 where
  pub log_id : R.LogId
  pub payload : Payload R

pub record LogStoreState (R : Raft) : Type 0 where
  pub vote : Option R.Vote
  pub last_purged : Option R.LogId
  pub committed : Option R.LogId
  pub log : Map (Entry R)

pub record SmState (R : Raft) : Type 0 where
  pub last_applied : Option R.LogId
  pub last_membership : R.StoredMembership
  pub decision : Option Decision

-- The snapshot's id is the text of its two parts in the source.
pub record SnapshotMeta (R : Raft) : Type 0 where
  pub last_log_id : Option R.LogId
  pub last_membership : R.StoredMembership
  pub snapshot_id : Option R.LogId × ℕ

pub record StoredSnapshot (R : Raft) : Type 0 where
  pub meta : SnapshotMeta R
  pub data_bytes : List ℕ

-- `shared` is what the rest of the program sees of the decision.
pub record StateMachine (R : Raft) : Type 0 where
  pub sm : SmState R
  pub snapshot : Option (StoredSnapshot R)
  pub snapshot_idx : ℕ
  pub shared : Option Decision

pub data StoreError : Type 0 where
  write_logs : StoreError
  write_state_machine : StoreError
  read_state_machine : StoreError
  read_snapshot : StoreError

pub data Outcome : Type 0 where
  ok : Outcome
  err : StoreError → Outcome

-- The `?` of a call on files: the rest is done if the call succeeded.
abbrev pub and_then : {D : Type 0} → D × Bool → (D → D × Bool) → D × Bool
and_then (d, true) f = f d
and_then (d, false) f = (d, false)

module _ (fs : Fs) where
  unfoldable pub sync_dir : Option fs.FilePath → fs.Disk → fs.Disk × Bool
  sync_dir none d = (d, true)
  sync_dir (some dir) d = and_then (fs.open_dir dir d) (fs.sync_all dir)

  unfoldable pub atomic_write : fs.FilePath → List ℕ → fs.Disk → fs.Disk × Bool
  atomic_write path bytes d =
      let tmp : fs.FilePath = fs.tmp_of path in
      and_then (fs.create tmp d) (λ d₁. and_then (fs.write_all tmp bytes d₁) (λ d₂.
        and_then (fs.sync_all tmp d₂)
          (λ d₃. and_then (fs.rename tmp path d₃) (λ d₄. sync_dir (fs.dir_of path) d₄))))

  -- `load`: none where it panics.
  unfoldable pub load : {T : Type 0} → Serde T → T → fs.FilePath → fs.Disk → Option T
  load serde default path d = elim (fs.read path d) [
    | content bytes ↦ serde.from_slice bytes
    | not_found ↦ some default
    | failed ↦ none
  ]

  -- `persist` of both stores, by the error that each maps a failure to.
  unfoldable pub persist :
      {T : Type 0} → Serde T → StoreError → fs.FilePath → T → fs.Disk → fs.Disk × Outcome
  persist serde e path state d = elim (serde.to_vec state) [
    | none ↦ (d, err e)
    | some bytes ↦
        let (d₁, written) = atomic_write path bytes d in
        elim written [ true ↦ (d₁, ok) | false ↦ (d₁, err e) ]
  ]

-- A store after an operation, the disk after it and what the operation returned.
pub record Done (S D : Type 0) : Type 0 where
  pub store : S
  pub disk : D
  pub outcome : Outcome

pub data LogOp (R : Raft) : Type 0 where
  save_vote : R.Vote → LogOp R
  save_committed : Option R.LogId → LogOp R
  append : List (Entry R) → LogOp R
  truncate : R.LogId → LogOp R
  purge : R.LogId → LogOp R

-- The operations of `LogStore`.
module _ {R : Raft} where
  unfoldable pub insert_entries : List (Entry R) → Map (Entry R) → Map (Entry R)
  insert_entries [] log = log
  insert_entries (e ∷ es) log = insert_entries es (put (R.index e.log_id) e log)

  abbrev pub remove_range : Bound → Bound → Map (Entry R) → Map (Entry R)
  remove_range lo hi log = remove_all (keys (range lo hi log)) log

  pub try_get_log_entries : Bound → Bound → LogStoreState R → List (Entry R)
  try_get_log_entries lo hi s = values (range lo hi s.log)

  -- `last_purged_log_id` and `last_log_id`
  unfoldable pub get_log_state : LogStoreState R → Option R.LogId × Option R.LogId
  get_log_state s = elim (last_value s.log) [
    | none ↦ (s.last_purged, s.last_purged)
    | some e ↦ (s.last_purged, some e.log_id)
  ]

  -- What each operation writes to the state in memory.
  unfoldable pub write_state : LogOp R → LogStoreState R → LogStoreState R
  write_state (save_vote vote) s = record s { vote = some vote }
  write_state (save_committed committed) s = record s { committed = committed }
  write_state (append entries) s = record s { log = insert_entries entries s.log }
  write_state (truncate id) s = record s {
    log = remove_range (included (R.index id)) unbounded s.log;
  }
  write_state (purge id) s = record s {
    last_purged = some id;
    log = remove_range unbounded (included (R.index id)) s.log;
  }

  -- `append` calls back once its entries are on the disk.
  unfoldable pub calls_back : LogOp R → Outcome → Bool
  calls_back (append entries) ok = true
  calls_back _ _ = false

  module _ (fs : Fs) (serde : Serde (LogStoreState R)) (path : fs.FilePath) where
    -- An operation of the log store, and whether it called back.
    unfoldable pub run_log :
        LogOp R → LogStoreState R → fs.Disk → Done (LogStoreState R) fs.Disk × Bool
    run_log op s d =
        let t = write_state op s in
        let (d₁, o) = persist fs serde write_logs path t d in
        (record { store = t; disk = d₁; outcome = o }, calls_back op o)

-- The operations of `StateMachine`.
module _ {R : Raft} where
  -- One entry, and whether a decision has come.
  unfoldable pub apply_entry : Entry R → SmState R × Bool → SmState R × Bool
  apply_entry e (sm, changed) =
      let sm₁ : SmState R = record sm { last_applied = some e.log_id } in
      elim e.payload [
        | blank ↦ (sm₁, changed)
        | normal value ↦ (record sm₁ { decision = some value }, true)
        | membership members ↦
            (record sm₁ { last_membership = R.stored (some e.log_id) members }, changed)
      ]

  unfoldable pub apply_entries : List (Entry R) → SmState R × Bool → SmState R × Bool
  apply_entries [] r = r
  apply_entries (e ∷ es) r = apply_entries es (apply_entry e r)

  -- The snapshot's id counts the snapshots built.
  unfoldable pub build_snapshot :
      Serde (SmState R) → StateMachine R → StateMachine R × (StoreError ⊎ StoredSnapshot R)
  build_snapshot serde m = elim (serde.to_vec m.sm) [
    | none ↦ (m, inl read_state_machine)
    | some bytes ↦
        let idx = add64 m.snapshot_idx 1 in
        let snapshot : StoredSnapshot R = record {
          meta = record {
            last_log_id = m.sm.last_applied;
            last_membership = m.sm.last_membership;
            snapshot_id = (m.sm.last_applied, idx);
          };
          data_bytes = bytes;
        } in
        (record m { snapshot_idx = idx; snapshot = some snapshot }, inr snapshot)
  ]

  pub applied_state : StateMachine R → Option R.LogId × R.StoredMembership
  applied_state m = (m.sm.last_applied, m.sm.last_membership)

  unfoldable pub get_current_snapshot : StateMachine R → Option (StoredSnapshot R)
  get_current_snapshot m = m.snapshot

  module _ (fs : Fs) (serde : Serde (SmState R)) (path : fs.FilePath) where
    -- `persist`, and then what is published if it succeeded.
    unfoldable pub publish :
        StateMachine R → Option Decision → fs.Disk → Done (StateMachine R) fs.Disk
    publish m shown d =
        let (d₁, o) = persist fs serde write_state_machine path m.sm d in
        elim o [
          | ok ↦ record { store = record m { shared = shown }; disk = d₁; outcome = ok }
          | err e ↦ record { store = m; disk = d₁; outcome = err e }
        ]

    unfoldable pub apply : List (Entry R) → StateMachine R → fs.Disk → Done (StateMachine R) fs.Disk
    apply entries m d =
        let (sm, changed) = apply_entries entries (m.sm, false) in
        publish (record m { sm = sm }) (if changed then sm.decision else m.shared) d

    unfoldable pub install_snapshot :
        StoredSnapshot R → StateMachine R → fs.Disk → Done (StateMachine R) fs.Disk
    install_snapshot snapshot m d = elim (serde.from_slice snapshot.data_bytes) [
      | none ↦ record { store = m; disk = d; outcome = err read_snapshot }
      | some sm ↦ publish (record m { sm = sm; snapshot = some snapshot }) sm.decision d
    ]

-- `LogStoreState::default` and `SmState::default`
module _ (R : Raft) where
  unfoldable pub empty_log : LogStoreState R
  empty_log = record { vote = none; last_purged = none; committed = none; log = [] }

  unfoldable pub empty_sm : SmState R
  empty_sm = record { last_applied = none; last_membership = R.no_members; decision = none }

-- `open`, of the paths of the log and of the state machine.
unfoldable pub open_store :
    {R : Raft} (fs : Fs)
    → Serde (LogStoreState R)
    → Serde (SmState R)
    → fs.FilePath
    → fs.FilePath
    → fs.Disk
    → Option (LogStoreState R × StateMachine R)
open_store {R} fs log_serde sm_serde log_path sm_path d = do
  log_state ← load fs log_serde (empty_log R) log_path d
  sm_state ← load fs sm_serde (empty_sm R) sm_path d
  some (
    log_state,
    record { sm = sm_state; snapshot = none; snapshot_idx = 0; shared = sm_state.decision },
  )
