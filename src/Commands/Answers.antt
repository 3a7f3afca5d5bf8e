-- ===== src/Commands/Answers.antt =====
-- The answers of `psql` in src/apply.rs, read as log positions.
use hyperiondb.Prelude.{
  ℕ, ◌<◌, ◌^◌, ◌≡◌, Bool, Option, some, List, ◌⊎◌, inl, inr, arith, Option-cases, >>=-eq-some,
  if-eq-some,
}
use hyperiondb.Prelude.Text.{Text, trim}
use hyperiondb.Prelude.Text.Decimal.{parse_i64_max0, parse_i64_max0-bound}
use hyperiondb.Config.{Values, Caches}
use hyperiondb.Commands.{
  Command, Output, lsn_of, wal_lsn, probe_command, probe_timeout, peer_wal_lsn,
}

lsn_of-bound : (r : Text ⊎ Text) → lsn_of r < 2 ^ 63
unfolding lsn_of
lsn_of-bound (inl e) = omega arith
lsn_of-bound (inr value) = elim (Option-cases (parse_i64_max0 (trim value))) [
  | inl e ↦ rw (lsn_of, e) (omega arith)
  | inr (n, e) ↦ rw (lsn_of, e) (parse_i64_max0-bound (trim value) n e)
]

module _ (run : Command → ℕ → Option Output) (lossy : List ℕ → Text) where
  -- Whatever `psql` prints and however it ends, a log position read from it is less than 2^63, and
  -- so fits a `u64`.
  pub wal_lsn-bound :
      (psql host port : Text) (in_recovery : Bool) (v : Values) (c : Caches)
      → (wal_lsn run lossy psql host port in_recovery v c < 2 ^ 63)
        × ((n : ℕ) → peer_wal_lsn run lossy psql host port ≡ some n → n < 2 ^ 63)
  unfolding wal_lsn peer_wal_lsn
  wal_lsn-bound psql host port in_recovery v c = (
    lsn_of-bound _,
    (λ n h.
        let (out, ran, h₁) = >>=-eq-some (run (probe_command psql host port) probe_timeout) _ h in
        let (_, parsed) = if-eq-some out.success (parse_i64_max0 (trim (lossy out.stdout))) h₁ in
        parse_i64_max0-bound _ n parsed),
  )
