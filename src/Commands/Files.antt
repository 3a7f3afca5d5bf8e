-- ===== src/Commands/Files.antt =====
-- The status file of src/state.rs and the heartbeat of src/apply.rs: a reader sees a whole file.
use hyperiondb.Prelude.{
  ℕ, ◌≡◌, ◌≢◌, ◌⊎◌, refl, inl, inr, ap, ◌∙◌, Option, some, List, Bool, Bool-cases, ◌>>=◌,
}
use hyperiondb.Prelude.Text.{Text, trim}
use hyperiondb.Store.{Fs, content}
use hyperiondb.Store.File.{IsFs, and_then-elim}
use hyperiondb.Commands.{replace_file, write, read_status}

module _ {fs : Fs} (isfs : IsFs fs) (tmp_of : fs.FilePath → fs.FilePath) (path : fs.FilePath)
    (tmp-path : tmp_of path ≢ path) where
  -- The file has the new contents or its old ones.
  replace_file-whole :
      (bytes : List ℕ) (d : fs.Disk)
      → (fs.read path (replace_file fs tmp_of path bytes d) ≡ content bytes)
        ⊎ (fs.read path (replace_file fs tmp_of path bytes d) ≡ fs.read path d)
  unfolding replace_file
  replace_file-whole bytes d =
      let tmp = tmp_of path in
      let d₁ = (fs.create tmp d).0 in
      let d₂ = (fs.write_all tmp bytes d₁).0 in
      let P : fs.Disk × Bool → Type 0 =
        λ r. (fs.read path r.0 ≡ content bytes) ⊎ (fs.read path r.0 ≡ fs.read path d) in
      let same₁ = isfs.create-elsewhere tmp path d tmp-path in
      let same₂ = isfs.write-elsewhere tmp path bytes d₁ tmp-path ∙ same₁ in
      and_then-elim P (fs.create tmp d) _ (λ e. inr same₁)
        (λ e₁.
          and_then-elim P (fs.write_all tmp bytes d₁) _ (λ e. inr same₂)
            (λ e₂. elim (Bool-cases (fs.rename tmp path d₂).1) [
              | inl done ↦
                  inl (isfs.rename-done tmp path d₂ done ∙ isfs.write-created tmp bytes d e₁ e₂)
              | inr stays ↦ inr (isfs.rename-failed tmp path d₂ stays ∙ same₂)
            ]))

  -- After a write of the status line a reader gets the line, without the spaces around it, or what it
  -- would have got before. (Reading is by UTF-8, as what was written.)
  pub read_status-write :
      (bytes_of : Text → List ℕ) (utf8 : List ℕ → Option Text)
      → ((s : Text) → utf8 (bytes_of s) ≡ some s)
      → (line : Text) (d : fs.Disk)
      → (read_status fs tmp_of utf8 path (write fs tmp_of bytes_of path line d) ≡ some (trim line))
        ⊎ (read_status fs tmp_of utf8 path (write fs tmp_of bytes_of path line d)
            ≡ read_status fs tmp_of utf8 path d)
  unfolding read_status write
  read_status-write bytes_of utf8 law line d = elim (replace_file-whole (bytes_of line) d) [
    | inl new ↦
        inl
          (rw (read_status, new) (ap (λ (o : Option Text). o >>= (λ s. some (trim s))) (law line)))
    | inr same ↦ inr (rw (read_status, same) refl)
  ]
