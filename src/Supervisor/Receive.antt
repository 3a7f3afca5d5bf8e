-- ===== src/Supervisor/Receive.antt =====
-- src/lib.rs: the start of a round of the loop: a stall is noticed, gossip is taken in, a new
-- decision is adopted, the node's own position is sent and its data directory looked up.
use hyperiondb.Prelude.{
  ℕ, ◌+◌, ◌-◌, ◌%◌, Bool, true, false, not, ◌&&◌, Option, none, some, List, [], ◌∷◌, ltb, leb, ◌==◌,
  if◌then◌else◌,
}
use hyperiondb.Prelude.Text.{Text, text_eq}
use hyperiondb.Prelude.Words.{add64}
use hyperiondb.Prelude.Maps.{Map, lookup, insert}
use hyperiondb.Failover.{Gossip, Decision, encode_gossip, decode_gossip}
use hyperiondb.Supervisor.World.{
  Settings, Supervisor, show_data_directory, heartbeat, watchdog, gossiped, marked, M, ◌>>=◌, ◌>>◌,
  pure, get, modify, when, now, emit, run_sql, succeeded, decided_seq, stall_threshold,
}

-- After a stall nothing that was applied or authorized is taken for granted.
unfoldable pub notice_stall : ℕ → Supervisor → Supervisor
notice_stall t s =
    if ltb stall_threshold (t - s.last_loop)
    then record s {
      applied_read_only = none;
      authorized_since = none;
      reconfirm_pending = true;
      last_loop = t;
    }
    else record s { last_loop = t }

unfoldable pub begin_round : Settings → M (Unit {0})
begin_round c = do
  t ← now
  modify (notice_stall t)
  emit heartbeat
  s ← get
  when (c.has_watchdog_script && s.ticks % 50 == 49) (emit watchdog)

-- `*known_seq = (*known_seq).max(gossip.seq)` on the entry of a peer, 0 at first.
unfoldable pub raise_seq : ℕ → ℕ → Map ℕ → Map ℕ
raise_seq from seq m = elim (lookup from m) [
  | none ↦ insert from seq m
  | some known ↦ insert from (if leb known seq then seq else known) m
]

-- `t` is the time of receipt and `t'` that of the update.
unfoldable pub take_gossip : ℕ → ℕ → Gossip → Supervisor → Supervisor
take_gossip from t g s = record s {
  peers_lsn = insert from (record { lsn = g.lsn; recovery = g.in_recovery; seen = t }) s.peers_lsn;
  peers_reconfirm = insert from g.reconfirm s.peers_reconfirm;
  peers_seq = raise_seq from g.seq s.peers_seq;
}

unfoldable pub receive_one : ℕ → List ℕ → M (Unit {0})
receive_one from payload = do
  t ← now
  modify (λ s. record s { last_heard = insert from t s.last_heard })
  elim (decode_gossip payload) [
    | none ↦ pure tt
    | some g ↦ (do t' ← now; modify (take_gossip from t' g))
  ]

-- The queue of gossip, until it is empty.
unfoldable pub receive : List (ℕ × List ℕ) → M (Unit {0})
receive [] = pure tt
receive ((from, payload) ∷ rest) = do receive_one from payload; receive rest

-- `Decision` derives `PartialEq`.
unfoldable pub same_decision : Decision → Decision → Bool
same_decision a b = a.seq == b.seq && a.primary == b.primary

unfoldable pub differs : Option Decision → Decision → Bool
differs none d = true
differs (some current) d = not (same_decision d current)

unfoldable pub adopt : Option Decision → Supervisor → Supervisor
adopt none s = s
adopt (some d) s =
    if differs s.decided d
    then record s {
      decided = some d;
      promoted = false;
      rejoining = false;
      applied_primary = 0;
      slots_ensured = false;
      reconfirm_pending = false;
      last_proposed = (0, 0);
    }
    else s

-- Every fifth round the position `lsn` is recorded and sent to the peers.
unfoldable pub send_gossip : Settings → (in_recovery : Bool) (lsn : ℕ) → M (Unit {0})
send_gossip c in_recovery lsn = do
  modify (λ s. record s { ticks = add64 s.ticks 1 })
  s ← get
  when (s.ticks % 5 == 0) (do
    t ← now
    modify (λ u. record u {
      peers_lsn =
          insert c.node_id (record { lsn = lsn; recovery = in_recovery; seen = t }) u.peers_lsn;
    })
    emit (gossiped (encode_gossip lsn in_recovery s.reconfirm_pending (decided_seq s))))

-- `Path::exists` of the marker file.
unfoldable pub marker_exists : M Bool
marker_exists s w = (w.marker_exists w.at, s, record w { at = w.at + 1 })

unfoldable pub write_marker : Text → M Bool
write_marker dir s w = (
  w.marker_write w.at,
  s,
  record w { at = w.at + 1; trace = marked dir (w.marker_write w.at) ∷ w.trace },
)

unfoldable pub learn_datadir : M (Unit {0})
learn_datadir = do
  s ← get
  when (not (succeeded s.datadir) && s.ticks % 20 == 1) (do
    r ← run_sql show_data_directory
    elim r [
      | none ↦ pure tt
      | some dir ↦ when (not (text_eq dir [])) (do
        marker ← marker_exists
        modify (λ u. record u { cluster_marker = marker; datadir = some dir }))
    ])

-- A node that knows of a decision marks its data directory.
unfoldable pub mark_cluster : M (Unit {0})
mark_cluster = do
  s ← get
  when (not s.cluster_marker && succeeded s.decided) (elim s.datadir [
    | none ↦ pure tt
    | some dir ↦ (do
      done ← write_marker dir
      when done (modify (λ u. record u { cluster_marker = true })))
  ])
