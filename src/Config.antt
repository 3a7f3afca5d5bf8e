-- ===== src/Config.antt =====
-- src/config.rs: the settings that the extension registers with Postgres, and their reads.
-- What Postgres does with them is a parameter: the values in `Values`, which Postgres keeps within
-- the bounds registered here.
mod Reads
mod Tests
use Prim.Native.String.{String}
use hyperiondb.Prelude.{
  ℕ, ◌-◌, ◌^◌, Bool, true, false, ◌&&◌, Option, none, some, List, [], ◌∷◌, if◌then◌else◌, leb,
}
use hyperiondb.Prelude.Text.{Text, codes, is_empty, text_eq}

-- The kinds of setting: a truth value, a number with its least and greatest value, a text. A truth
-- value and a number have the value that holds until one is set.
pub data Guc : Type 0 where
  bool_guc : Text → Bool → Guc
  int_guc : Text → ℕ → ℕ → ℕ → Guc
  string_guc : Text → Guc

abbrev pub i32_max : ℕ
i32_max = 2 ^ 31 - 1

unfoldable pub init : List Guc
init =
    bool_guc (codes "pg_replica.synchronous") false
    ∷ int_guc (codes "pg_replica.node_id") 0 0 i32_max
    ∷ int_guc (codes "pg_replica.compact_threshold") 64 1 i32_max
    ∷ int_guc (codes "pg_replica.raft_port") 7400 1 65535
    ∷ string_guc (codes "pg_replica.peers")
    ∷ string_guc (codes "pg_replica.pg_addrs")
    ∷ string_guc (codes "pg_replica.psql")
    ∷ string_guc (codes "pg_replica.rejoin_script")
    ∷ string_guc (codes "pg_replica.watchdog_script")
    ∷ string_guc (codes "pg_replica.passfile")
    ∷ string_guc (codes "pg_replica.raft_dir")
    ∷ string_guc (codes "pg_replica.apply_user")
    ∷ string_guc (codes "pg_replica.apply_db")
    ∷ []

-- Whether Postgres takes a number for the setting of this name.
unfoldable pub takes : Text → ℕ → List Guc → Bool
takes name v [] = false
takes name v (bool_guc n d ∷ gs) = takes name v gs
takes name v (int_guc n d lo hi ∷ gs) =
    let rest = takes name v gs in if text_eq n name then leb lo v && leb v hi else rest
takes name v (string_guc n ∷ gs) = takes name v gs

-- The values that are set, and the environment.
pub record Values : Type 0 where
  pub synchronous : Bool
  pub node_id : ℕ
  pub raft_port : ℕ
  pub compact_threshold : ℕ
  pub peers : Option Text
  pub pg_addrs : Option Text
  pub psql : Option Text
  pub rejoin_script : Option Text
  pub watchdog_script : Option Text
  pub passfile : Option Text
  pub raft_dir : Option Text
  pub apply_user : Option Text
  pub apply_db : Option Text
  pub postgres_user : Option Text
  pub postgres_db : Option Text

-- `APPLY_USER_CACHE`, `APPLY_DB_CACHE` and `PASSFILE_CACHE`
pub record Caches : Type 0 where
  pub user : Option Text
  pub db : Option Text
  pub pass : Option Text

abbrev pub or_default : Option Text → Text
or_default none = []
or_default (some s) = s

abbrev pub or_else : Option Text → Option Text → Option Text
or_else none o = o
or_else (some s) o = some s

abbrev pub non_empty : Option Text → Option Text
non_empty none = none
non_empty (some s) = if is_empty s then none else some s

abbrev pub unwrap_or : Option Text → Text → Text
unwrap_or none d = d
unwrap_or (some s) d = s

abbrev pub peers_spec : Values → Text
peers_spec v = or_default v.peers

abbrev pub addrs_spec : Values → Text
addrs_spec v = or_default v.pg_addrs

abbrev pub rejoin_path : Values → Text
rejoin_path v = or_default v.rejoin_script

abbrev pub watchdog_path : Values → Text
watchdog_path v = or_default v.watchdog_script

abbrev pub raft_path : Values → Text
raft_path v = or_default v.raft_dir

unfoldable pub psql_path : Values → Text
psql_path v = unwrap_or (non_empty v.psql) (codes "psql")

-- `OnceLock::get_or_init`: the value, and what the cache then has.
unfoldable pub get_or_init : Option Text → Text → Text
get_or_init cache fresh = unwrap_or cache fresh

unfoldable pub fallback : Option Text → Option Text → Text
fallback set env = unwrap_or (non_empty (or_else (non_empty set) env)) (codes "postgres")

-- A read with its cache: the value and the caches behind it.
unfoldable pub passfile : Values → Caches → Text × Caches
passfile v c = let r = get_or_init c.pass (or_default v.passfile) in (r, record c { pass = some r })

unfoldable pub apply_user : Values → Caches → Text × Caches
apply_user v c =
    let r = get_or_init c.user (fallback v.apply_user v.postgres_user) in
    (r, record c { user = some r })

unfoldable pub apply_db : Values → Caches → Text × Caches
apply_db v c =
    let r = get_or_init c.db (fallback v.apply_db v.postgres_db) in (r, record c { db = some r })
