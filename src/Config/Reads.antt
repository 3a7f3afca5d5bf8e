-- ===== src/Config/Reads.antt =====
-- The reads of src/config.rs: what they fall back on, and what the caches keep.
use hyperiondb.Prelude.{◌<◌, ◌≡◌, refl, true, false, Option, none, some, [], ◌∷◌, arith, ◌%◌, ◌^◌}
use hyperiondb.Prelude.Text.{Text, codes, is_empty}
use hyperiondb.Config.{
  Values, Caches, init, takes, get_or_init, fallback, passfile, apply_user, apply_db, psql_path,
  unwrap_or, non_empty,
}

abbrev pub AreFilled : Caches → Type 0
AreFilled c =
    ((s : Text) → c.user ≡ some s → is_empty s ≡ false)
    × ((s : Text) → c.db ≡ some s → is_empty s ≡ false)

fallback-nonempty : (set env : Option Text) → is_empty (fallback set env) ≡ false
unfolding fallback
fallback-nonempty none none = refl
fallback-nonempty none (some []) = refl
fallback-nonempty none (some (c ∷ s)) = refl
fallback-nonempty (some []) none = refl
fallback-nonempty (some []) (some []) = refl
fallback-nonempty (some []) (some (c ∷ s)) = refl
fallback-nonempty (some (c ∷ s)) env = refl

get_or_init-nonempty :
    (cache : Option Text) (fresh : Text)
    → ((s : Text) → cache ≡ some s → is_empty s ≡ false)
    → is_empty fresh ≡ false
    → is_empty (get_or_init cache fresh) ≡ false
unfolding get_or_init
get_or_init-nonempty none fresh h k = k
get_or_init-nonempty (some s) fresh h k = h s refl

psql-nonempty : (o : Option Text) → is_empty (unwrap_or (non_empty o) (codes "psql")) ≡ false
psql-nonempty none = refl
psql-nonempty (some []) = refl
psql-nonempty (some (c ∷ s)) = refl

-- The user and the database that `psql` connects as and to are never empty, nor is the path of
-- `psql`.
pub reads-nonempty :
    (v : Values) (c : Caches)
    → AreFilled c
    → (is_empty (apply_user v c).0 ≡ false)
      × (is_empty (apply_db v c).0 ≡ false)
      × (is_empty (psql_path v) ≡ false)
unfolding apply_user apply_db psql_path
reads-nonempty v c (user, db) = (
  get_or_init-nonempty c.user _ user (fallback-nonempty v.apply_user v.postgres_user),
  get_or_init-nonempty c.db _ db (fallback-nonempty v.apply_db v.postgres_db),
  psql-nonempty v.psql,
)

-- Once read, the three cached settings keep their value, whatever is set or in the environment later
-- and whatever other cached setting is read between.
pub reads-cached :
    (v w : Values) (c : Caches)
    → let c₁ = (passfile v (apply_db v (apply_user v c).1).1).1 in
      (apply_user w c₁ ≡ ((apply_user v c).0, c₁))
      × (apply_db w c₁ ≡ ((apply_db v c).0, c₁))
      × (passfile w c₁ ≡ ((passfile v c).0, c₁))
unfolding apply_user apply_db passfile get_or_init
reads-cached v w c = (refl, refl, refl)

-- A node id, a port and a threshold that Postgres takes survive the casts to `u64` and `u16`, and the
-- threshold is positive.
pub takes-casts :
    (v : Values)
    → takes (codes "pg_replica.node_id") v.node_id init ≡ true
    → takes (codes "pg_replica.raft_port") v.raft_port init ≡ true
    → takes (codes "pg_replica.compact_threshold") v.compact_threshold init ≡ true
    → (v.node_id % 2 ^ 64 ≡ v.node_id)
      × (v.raft_port % 2 ^ 16 ≡ v.raft_port)
      × (0 < v.raft_port)
      × (0 < v.compact_threshold)
unfolding takes init
takes-casts v node port threshold = ground arith
