-- ===== src/Store/File.antt =====
-- The files of src/store.rs: `atomic_write`, `load` and `persist`, for a file system and a `serde_json`
-- that do what they document.
use mathlib.Core.Path.{subst}
use hyperiondb.Prelude.{
  ◌≡◌, ◌≢◌, ◌⊎◌, refl, inl, inr, Bool, true, false, Option, none, some, List, ℕ, Bool-cases, ◌∙◌,
  Option-cases, sym,
}
use hyperiondb.Store.{
  content, Fs, Serde, StoreError, ok, err, and_then, sync_dir, atomic_write, load, persist,
}

-- Where a store has its file: the extension is not that of the temporary file, and it stands in a
-- directory. (`open` joins `raft_log_1.json` and the like to the directory that is configured.)
pub record IsPlace (fs : Fs) (path : fs.FilePath) : Type 0 where
  pub tmp-path : fs.tmp_of path ≢ path
  pub dir : fs.FilePath
  pub parent : fs.dir_of path ≡ some dir

-- What the calls on files do to what is read at `path`: a call on another file leaves it, a written
-- file has what was written, a rename that succeeds brings the contents and one that fails does
-- nothing, and a sync changes nothing that is read while the machine runs. `crash` is what a disk holds
-- after the machine stopped: a file is there with its contents if these were synced under its name or
-- renamed to it since, and its directory was synced after that.
pub record IsFs (fs : Fs) : Type 1 where
  pub crash : fs.Disk → fs.Disk
  pub Synced : fs.FilePath → List ℕ → fs.Disk → Type 0
  pub sync-Synced :
      (p : fs.FilePath) (bytes : List ℕ) (d : fs.Disk)
      → (fs.sync_all p d).1 ≡ true
      → fs.read p d ≡ content bytes
      → Synced p bytes (fs.sync_all p d).0
  pub rename-Synced :
      (p q : fs.FilePath) (bytes : List ℕ) (d : fs.Disk)
      → (fs.rename p q d).1 ≡ true
      → Synced p bytes d
      → Synced q bytes (fs.rename p q d).0
  pub crash-Synced :
      (dir q : fs.FilePath) (bytes : List ℕ) (d : fs.Disk)
      → fs.dir_of q ≡ some dir
      → Synced q bytes d
      → (fs.open_dir dir d).1 ≡ true
      → (fs.sync_all dir (fs.open_dir dir d).0).1 ≡ true
      → fs.read q (crash (fs.sync_all dir (fs.open_dir dir d).0).0) ≡ content bytes
  pub create-elsewhere :
      (p q : fs.FilePath) (d : fs.Disk) → p ≢ q → fs.read q (fs.create p d).0 ≡ fs.read q d
  pub write-elsewhere :
      (p q : fs.FilePath) (bytes : List ℕ) (d : fs.Disk)
      → p ≢ q
      → fs.read q (fs.write_all p bytes d).0 ≡ fs.read q d
  pub write-created :
      (p : fs.FilePath) (bytes : List ℕ) (d : fs.Disk)
      → (fs.create p d).1 ≡ true
      → (fs.write_all p bytes (fs.create p d).0).1 ≡ true
      → fs.read p (fs.write_all p bytes (fs.create p d).0).0 ≡ content bytes
  pub sync-same : (p q : fs.FilePath) (d : fs.Disk) → fs.read q (fs.sync_all p d).0 ≡ fs.read q d
  pub open_dir-same :
      (p q : fs.FilePath) (d : fs.Disk) → fs.read q (fs.open_dir p d).0 ≡ fs.read q d
  pub rename-done :
      (p q : fs.FilePath) (d : fs.Disk)
      → (fs.rename p q d).1 ≡ true
      → fs.read q (fs.rename p q d).0 ≡ fs.read p d
  pub rename-failed :
      (p q : fs.FilePath) (d : fs.Disk)
      → (fs.rename p q d).1 ≡ false
      → fs.read q (fs.rename p q d).0 ≡ fs.read q d

-- What is written is read back.
pub record IsSerde {T : Type 0} (serde : Serde T) : Type 0 where
  pub reads_back :
      (t : T) (bytes : List ℕ) → serde.to_vec t ≡ some bytes → serde.from_slice bytes ≡ some t

pub and_then-elim :
    {D : Type 0} (P : D × Bool → Type 0) (r : D × Bool) (f : D → D × Bool)
    → (r.1 ≡ false → P r)
    → (r.1 ≡ true → P (f r.0))
    → P (and_then r f)
and_then-elim P (d, true) f stop go = go refl
and_then-elim P (d, false) f stop go = stop refl

module _ {fs : Fs} (isfs : IsFs fs) where
  sync_dir-same :
      (dir : Option fs.FilePath) (q : fs.FilePath) (d : fs.Disk)
      → fs.read q (sync_dir fs dir d).0 ≡ fs.read q d
  unfolding sync_dir
  sync_dir-same none q d = refl
  sync_dir-same (some dir) q d =
      and_then-elim (λ r. fs.read q r.0 ≡ fs.read q d) (fs.open_dir dir d) (fs.sync_all dir)
        (λ e. isfs.open_dir-same dir q d)
        (λ e. isfs.sync-same dir q (fs.open_dir dir d).0 ∙ isfs.open_dir-same dir q d)

  -- The file is replaced whole or left alone, and it is replaced if the write reports success.
  pub atomic_write-all_or_nothing :
      (path : fs.FilePath)
      → IsPlace fs path
      → (bytes : List ℕ) (d : fs.Disk)
      → (fs.read path (atomic_write fs path bytes d).0 ≡ content bytes)
        ⊎ ((fs.read path (atomic_write fs path bytes d).0 ≡ fs.read path d)
            × ((atomic_write fs path bytes d).1 ≡ false))
  unfolding atomic_write
  atomic_write-all_or_nothing path place bytes d =
      let tmp = fs.tmp_of path in
      let d₁ = (fs.create tmp d).0 in
      let d₂ = (fs.write_all tmp bytes d₁).0 in
      let d₃ = (fs.sync_all tmp d₂).0 in
      let P : fs.Disk × Bool → Type 0 = λ r.
        (fs.read path r.0 ≡ content bytes)
        ⊎ ((fs.read path r.0 ≡ fs.read path d) × (r.1 ≡ false)) in
      let same₁ = isfs.create-elsewhere tmp path d place.tmp-path in
      let same₂ = isfs.write-elsewhere tmp path bytes d₁ place.tmp-path ∙ same₁ in
      let same₃ = isfs.sync-same tmp path d₂ ∙ same₂ in
      and_then-elim P (fs.create tmp d) _ (λ e. inr (same₁, e))
        (λ e₁.
          and_then-elim P (fs.write_all tmp bytes d₁) _ (λ e. inr (same₂, e))
            (λ e₂.
              and_then-elim P (fs.sync_all tmp d₂) _ (λ e. inr (same₃, e))
                (λ e₃.
                  and_then-elim P (fs.rename tmp path d₃) _
                    (λ e. inr (isfs.rename-failed tmp path d₃ e ∙ same₃, e))
                    (λ e₄. inl (
                      sync_dir-same (fs.dir_of path) path (fs.rename tmp path d₃).0
                      ∙ isfs.rename-done tmp path d₃ e₄
                      ∙ isfs.sync-same tmp tmp d₂
                      ∙ isfs.write-created tmp bytes d e₁ e₂)))))

  synced_dir :
      (dir path : fs.FilePath) (bytes : List ℕ) (d : fs.Disk)
      → fs.dir_of path ≡ some dir
      → isfs.Synced path bytes d
      → (sync_dir fs (fs.dir_of path) d).1 ≡ true
      → fs.read path (isfs.crash (sync_dir fs (fs.dir_of path) d).0) ≡ content bytes
  unfolding sync_dir
  synced_dir dir path bytes d e there =
      let Q : fs.Disk × Bool → Type 0 =
        λ r. r.1 ≡ true → fs.read path (isfs.crash r.0) ≡ content bytes in
      subst (λ (o : Option fs.FilePath). Q (sync_dir fs o d)) (sym e)
        (and_then-elim Q (fs.open_dir dir d) (fs.sync_all dir) (λ f ok. absurd (cc f))
          (λ opened ok. isfs.crash-Synced dir path bytes d e there opened ok))

  -- What a write reports as done is in the file after the machine stops.
  pub atomic_write-crash :
      (path : fs.FilePath)
      → IsPlace fs path
      → (bytes : List ℕ) (d : fs.Disk) → (atomic_write fs path bytes d).1 ≡ true
      → fs.read path (isfs.crash (atomic_write fs path bytes d).0) ≡ content bytes
  unfolding atomic_write
  atomic_write-crash path place bytes d =
      let tmp = fs.tmp_of path in
      let d₁ = (fs.create tmp d).0 in
      let d₂ = (fs.write_all tmp bytes d₁).0 in
      let d₃ = (fs.sync_all tmp d₂).0 in
      let Q : fs.Disk × Bool → Type 0 =
        λ r. r.1 ≡ true → fs.read path (isfs.crash r.0) ≡ content bytes in
      and_then-elim Q (fs.create tmp d) _ (λ e ok. absurd (cc e))
        (λ e₁.
          and_then-elim Q (fs.write_all tmp bytes d₁) _ (λ e ok. absurd (cc e))
            (λ e₂.
              and_then-elim Q (fs.sync_all tmp d₂) _ (λ e ok. absurd (cc e))
                (λ e₃.
                  and_then-elim Q (fs.rename tmp path d₃) _ (λ e ok. absurd (cc e))
                    (λ e₄. synced_dir place.dir path bytes (fs.rename tmp path d₃).0 place.parent (
                      isfs.rename-Synced tmp path bytes d₃ e₄ (
                        isfs.sync-Synced tmp bytes d₂ e₃
                          (isfs.write-created tmp bytes d e₁ e₂)))))))

module _ {fs : Fs} (isfs : IsFs fs) {T : Type 0} {serde : Serde T} (isserde : IsSerde serde) where
  load-content :
      (path : fs.FilePath) (default : T) (bytes : List ℕ) (d : fs.Disk)
      → fs.read path d ≡ content bytes
      → load fs serde default path d ≡ serde.from_slice bytes
  unfolding load
  load-content path default bytes d e = rw (load, e) refl

  load-same :
      (path : fs.FilePath) (default : T) (d₁ d₂ : fs.Disk)
      → fs.read path d₁ ≡ fs.read path d₂
      → load fs serde default path d₁ ≡ load fs serde default path d₂
  unfolding load
  load-same path default d₁ d₂ e = rw (load, e) refl

  persist-written :
      (e : StoreError) (path : fs.FilePath) (t : T) (bytes : List ℕ) (d : fs.Disk)
      → serde.to_vec t ≡ some bytes
      → ((persist fs serde e path t d).0 ≡ (atomic_write fs path bytes d).0)
        × ((atomic_write fs path bytes d).1 ≡ false → (persist fs serde e path t d).1 ≡ err e)
  unfolding persist
  persist-written e path t bytes d made = elim (Bool-cases (atomic_write fs path bytes d).1) [
    | inl f ↦ (rw (persist, made, f) refl, λ g. cc)
    | inr f ↦ (rw (persist, made, f) refl, λ g. rw (persist, made, f) refl)
  ]

  -- What a restart reads after `persist`: the state, or what it would have read before, which it
  -- does only if `persist` reports an error.
  pub load-persist :
      (e : StoreError) (path : fs.FilePath)
      → IsPlace fs path
      → (default t : T) (d : fs.Disk)
      → (load fs serde default path (persist fs serde e path t d).0 ≡ some t)
        ⊎ ((load fs serde default path (persist fs serde e path t d).0
              ≡ load fs serde default path d)
            × ((persist fs serde e path t d).1 ≡ err e))
  unfolding persist
  load-persist e path place default t d = elim (Option-cases (serde.to_vec t)) [
    | inl made ↦ inr (rw (persist, made) refl, rw (persist, made) refl)
    | inr (bytes, made) ↦
        let (kept, fails) = persist-written e path t bytes d made in
        elim (atomic_write-all_or_nothing isfs path place bytes d) [
          | inl done ↦
              inl
                (rw kept (load-content path default bytes _ done) ∙ isserde.reads_back t bytes made)
          | inr (same, failed) ↦ inr (rw kept (load-same path default _ d same), fails failed)
        ]
  ]

  ok-or-err :
      (e : StoreError) (path : fs.FilePath) (t : T) (d : fs.Disk)
      → ((persist fs serde e path t d).1 ≡ ok) ⊎ ((persist fs serde e path t d).1 ≡ err e)
  unfolding persist
  ok-or-err e path t d = elim (Option-cases (serde.to_vec t)) [
    | inl made ↦ inr (rw (persist, made) refl)
    | inr (bytes, made) ↦ elim (Bool-cases (atomic_write fs path bytes d).1) [
      | inl f ↦ inl (rw (persist, made, f) refl)
      | inr f ↦ inr (rw (persist, made, f) refl)
    ]
  ]

  -- A state that `persist` reports as written is what a start after a crash of the machine reads.
  pub load-crash :
      (e : StoreError) (path : fs.FilePath)
      → IsPlace fs path
      → (default t : T) (d : fs.Disk) → (persist fs serde e path t d).1 ≡ ok
      → load fs serde default path (isfs.crash (persist fs serde e path t d).0) ≡ some t
  unfolding persist
  load-crash e path place default t d done = elim (Option-cases (serde.to_vec t)) [
    | inl made ↦
        let fails : (persist fs serde e path t d).1 ≡ err e = rw (persist, made) refl in
        absurd (cc (done, fails))
    | inr (bytes, made) ↦
        let (kept, fails) = persist-written e path t bytes d made in
        elim (Bool-cases (atomic_write fs path bytes d).1) [
          | inl f ↦ rw kept (
              load-content path default bytes _ (atomic_write-crash isfs path place bytes d f)
              ∙ isserde.reads_back t bytes made)
          | inr f ↦ absurd (cc (fails f, done))
        ]
  ]

  -- A state that `persist` reports as written is what a restart reads, also after a crash of the machine.
  pub persist-durable :
      (e : StoreError) (path : fs.FilePath)
      → IsPlace fs path
      → (default t : T) (d : fs.Disk)
      → (((persist fs serde e path t d).1 ≡ ok)
          × (load fs serde default path (persist fs serde e path t d).0 ≡ some t)
          × (load fs serde default path (isfs.crash (persist fs serde e path t d).0) ≡ some t))
        ⊎ ((persist fs serde e path t d).1 ≡ err e)
  persist-durable e path place default t d = elim (ok-or-err e path t d) [
    | inr failed ↦ inr failed
    | inl done ↦ elim (load-persist e path place default t d) [
      | inl new ↦ inl (done, new, load-crash e path place default t d done)
      | inr (same, failed) ↦ inr failed
    ]
  ]
