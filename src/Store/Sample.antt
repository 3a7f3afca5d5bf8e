-- ===== src/Store/Sample.antt =====
-- A file system with the files' names of src/store.rs, numbers for the types of `openraft` and a serializer, for the
-- tests of src/store.rs.
use mathlib.Core.Path.{ap₂, subst}
use mathlib.Core.Option.{some-injective}
use hyperiondb.Prelude.{
  ℕ, zero, suc, ◌≡◌, ◌≢◌, refl, true, Option, none, some, List, [], ◌∷◌, if◌then◌else◌, arith, Bool,
  ◌&&◌, ap, ◌∙◌, inl, inr, Bool-cases,
}
use hyperiondb.Prelude.Maps.{Map}
use hyperiondb.Prelude.Text.{Text, codes, text_eq, text_eq_iff}
use hyperiondb.Failover.{Decision}
use hyperiondb.Store.{
  Raft, Fs, Serde, Read, content, Entry, Payload, blank, normal, membership, LogStoreState, SmState,
}
use hyperiondb.Store.File.{IsPlace, IsFs, IsSerde}

abbrev pub numbers : Raft
numbers = record {
  LogId = ℕ;
  index = λ id. id;
  Vote = ℕ;
  Membership = ℕ;
  StoredMembership = ℕ;
  no_members = 0;
  stored = λ id members. members;
}

-- A file is named by its stem and its extension, as `with_extension` reads it.
abbrev pub Name : Type 0
Name = Text × Text

abbrev pub same_file : Name → Name → Bool
same_file p q = text_eq p.0 q.0 && text_eq p.1 q.1

abbrev pub with_extension : Name → Text → Name
with_extension p extension = (p.0, extension)

abbrev pub at_file : Name → Read → (Name → Read) → Name → Read
at_file p r d q = if same_file p q then r else d q

-- What is read, and what is left when the machine stops; a sync writes out what is read.
abbrev pub Disk : Type 0
Disk = (Name → Read) × (Name → Read)

abbrev pub changed : Name → Read → Disk → Disk
changed p r (cache, stable) = (at_file p r cache, stable)

-- All files are in one directory.
abbrev pub files : Fs
files = record {
  FilePath = Name;
  Disk = Disk;
  tmp_of = λ p. with_extension p (codes "tmp");
  dir_of = λ p. some (codes "raft", []);
  create = λ p d. (changed p (content []) d, true);
  write_all = λ p bytes d. (changed p (content bytes) d, true);
  sync_all = λ p d. ((d.0, d.0), true);
  rename = λ p q d. (changed q (d.0 p) d, true);
  open_dir = λ p d. (d, true);
  read = λ p d. d.0 p;
}

same_file-eq : (p q : Name) → same_file p q ≡ true → p ≡ q
same_file-eq (a, b) (c, e) h =
    ap₂ {C = Name} (λ x y. (x, y)) ((text_eq_iff a c).0 (ground (arith, h)))
      ((text_eq_iff b e).0 (ground (arith, h)))

same_file_self : (p : Name) → same_file p p ≡ true
same_file_self (a, b) = ground (arith, (text_eq_iff a a).1 refl, (text_eq_iff b b).1 refl)

at_file-other : (p q : Name) (r : Read) (d : Name → Read) → p ≢ q → at_file p r d q ≡ d q
at_file-other p q r d away = elim (Bool-cases (same_file p q)) [
  | inl e ↦ absurd (away (same_file-eq p q e))
  | inr e ↦ simp e refl
]

at_file-same : (p : Name) (r : Read) (d : Name → Read) → at_file p r d p ≡ r
at_file-same p r d = simp (same_file_self p) refl

pub files-IsFs : IsFs files
files-IsFs = record {
  crash = λ d. (d.1, d.1);
  Synced = λ p bytes d. d.0 p ≡ content bytes;
  sync-Synced = λ p bytes d _ e. e;
  rename-Synced = λ p q bytes d _ e. at_file-same q (d.0 p) d.0 ∙ e;
  crash-Synced = λ dir q bytes d _ e _ _. e;
  create-elsewhere = λ p q d away. at_file-other p q (content []) d.0 away;
  write-elsewhere = λ p q bytes d away. at_file-other p q (content bytes) d.0 away;
  write-created = λ p bytes d _ _. at_file-same p (content bytes) (at_file p (content []) d.0);
  sync-same = λ p q d. refl;
  open_dir-same = λ p q d. refl;
  rename-done = λ p q d _. at_file-same q (d.0 p) d.0;
  rename-failed = λ p q d e. absurd (cc e);
}

-- The files of node 1.
abbrev pub log_file : Name
log_file = (codes "raft_log_1", codes "json")

abbrev pub sm_file : Name
sm_file = (codes "raft_sm_1", codes "json")

json-IsPlace : (stem : Text) → IsPlace files (stem, codes "json")
json-IsPlace stem = record {
  tmp-path = λ e. absurd (cc (ap (λ (p : Name). text_eq p.1 (codes "tmp")) e));
  dir = (codes "raft", []);
  parent = refl;
}

pub log_file-IsPlace : IsPlace files log_file
log_file-IsPlace = json-IsPlace (codes "raft_log_1")

pub sm_file-IsPlace : IsPlace files sm_file
sm_file-IsPlace = json-IsPlace (codes "raft_sm_1")

abbrev pub option_number : Option ℕ → ℕ
option_number none = 0
option_number (some n) = suc n

abbrev pub number_option : ℕ → Option ℕ
number_option zero = none
number_option (suc n) = some n

number_option-option_number : (o : Option ℕ) → number_option (option_number o) ≡ o
number_option-option_number none = refl
number_option-option_number (some n) = refl

abbrev pub payload_numbers : Payload numbers → ℕ × ℕ × ℕ
payload_numbers blank = (0, 0, 0)
payload_numbers (normal d) = (1, d.seq, d.primary)
payload_numbers (membership n) = (2, n, 0)

abbrev pub numbers_payload : ℕ → ℕ → ℕ → Payload numbers
numbers_payload zero a b = blank
numbers_payload (suc zero) a b = normal (record { seq = a; primary = b })
numbers_payload (suc (suc k)) a b = membership a

abbrev pub entries_numbers : Map (Entry numbers) → List ℕ
entries_numbers [] = []
entries_numbers ((k, e) ∷ m) =
    let (tag, a, b) = payload_numbers e.payload in k ∷ e.log_id ∷ tag ∷ a ∷ b ∷ entries_numbers m

abbrev pub numbers_entries : List ℕ → Map (Entry numbers)
numbers_entries (k ∷ id ∷ tag ∷ a ∷ b ∷ bytes) =
    (k, record { log_id = id; payload = numbers_payload tag a b }) ∷ numbers_entries bytes
numbers_entries _ = []

numbers_payload-payload_numbers :
    (p : Payload numbers)
    → numbers_payload (payload_numbers p).0 (payload_numbers p).1 (payload_numbers p).2 ≡ p
numbers_payload-payload_numbers blank = refl
numbers_payload-payload_numbers (normal d) = refl
numbers_payload-payload_numbers (membership n) = refl

numbers_entries-entries_numbers :
    (m : Map (Entry numbers)) → numbers_entries (entries_numbers m) ≡ m
numbers_entries-entries_numbers [] = refl
numbers_entries-entries_numbers ((k, e) ∷ m) =
    ap₂
      (λ (p : Payload numbers) (rest : Map (Entry numbers)).
        (k, record { log_id = e.log_id; payload = p }) ∷ rest)
      (numbers_payload-payload_numbers e.payload) (numbers_entries-entries_numbers m)

abbrev pub numbers_log : List ℕ → Option (LogStoreState numbers)
numbers_log (v ∷ p ∷ c ∷ bytes) = some (record {
  vote = number_option v;
  last_purged = number_option p;
  committed = number_option c;
  log = numbers_entries bytes;
})
numbers_log _ = none

abbrev pub decision_numbers : Option Decision → List ℕ
decision_numbers none = []
decision_numbers (some d) = d.seq ∷ d.primary ∷ []

abbrev pub sm_numbers : SmState numbers → List ℕ
sm_numbers s = option_number s.last_applied ∷ s.last_membership ∷ decision_numbers s.decision

abbrev pub numbers_sm : List ℕ → Option (SmState numbers)
numbers_sm (a ∷ n ∷ []) =
    some (record { last_applied = number_option a; last_membership = n; decision = none })
numbers_sm (a ∷ n ∷ s ∷ p ∷ []) = some (record {
  last_applied = number_option a;
  last_membership = n;
  decision = some (record { seq = s; primary = p });
})
numbers_sm _ = none

abbrev pub log_serde : Serde (LogStoreState numbers)
log_serde = record {
  to_vec = λ s. some (
      option_number s.vote
      ∷ option_number s.last_purged
      ∷ option_number s.committed
      ∷ entries_numbers s.log);
  from_slice = numbers_log;
}

abbrev pub sm_serde : Serde (SmState numbers)
sm_serde = record { to_vec = λ s. some (sm_numbers s); from_slice = numbers_sm }

numbers_log-to_vec :
    (s : LogStoreState numbers) (bytes : List ℕ)
    → log_serde.to_vec s ≡ some bytes
    → numbers_log bytes ≡ some s
numbers_log-to_vec s bytes e =
    subst (λ (b : List ℕ). numbers_log b ≡ some s) (some-injective _ _ e)
      (rw
        (
          number_option-option_number s.vote,
          number_option-option_number s.last_purged,
          number_option-option_number s.committed,
          numbers_entries-entries_numbers s.log,
        )
        refl)

numbers_sm-sm_numbers :
    (a : Option ℕ) (n : ℕ) (d : Option Decision)
    → numbers_sm (option_number a ∷ n ∷ decision_numbers d)
      ≡ some (record { last_applied = a; last_membership = n; decision = d })
numbers_sm-sm_numbers a n none = rw (number_option-option_number a) refl
numbers_sm-sm_numbers a n (some d) = rw (number_option-option_number a) refl

numbers_sm-to_vec :
    (s : SmState numbers) (bytes : List ℕ)
    → sm_serde.to_vec s ≡ some bytes
    → numbers_sm bytes ≡ some s
numbers_sm-to_vec s bytes e =
    subst (λ (b : List ℕ). numbers_sm b ≡ some s) (some-injective _ _ e)
      (numbers_sm-sm_numbers s.last_applied s.last_membership s.decision)

pub log_serde-IsSerde : IsSerde log_serde
log_serde-IsSerde = record { reads_back = numbers_log-to_vec }

pub sm_serde-IsSerde : IsSerde sm_serde
sm_serde-IsSerde = record { reads_back = numbers_sm-to_vec }
