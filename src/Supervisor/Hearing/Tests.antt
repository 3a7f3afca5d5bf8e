-- ===== src/Supervisor/Hearing/Tests.antt =====
-- A voter's gossip that arrives at a node of three.
use hyperiondb.Prelude.{ℕ, suc, refl, true, false, some, [], ◌∷◌, arith, map, ◌++◌}
use hyperiondb.Failover.{Gossip}
use hyperiondb.Supervisor.Receive.{receive}
use hyperiondb.Supervisor.Sample.{decided_for, calm}
use hyperiondb.Supervisor.Hearing.{Heard, encode, gossip_arrives}
use hyperiondb.Transport.{Server, handle_conn}
use hyperiondb.Transport.Serve.{sent}
use hyperiondb.Transport.Calls.{opened}

abbrev voters_1_2 : Server ℕ
voters_1_2 = record {
  voters = 1 ∷ 2 ∷ [];
  ready = λ n. true;
  accepts = λ n. true;
  respond = λ rpc body n. (suc n, some []);
}

abbrev older : Gossip
older = record { lsn = 20; in_recovery = true; reconfirm = true; seq = 4 }

abbrev newer : Gossip
newer = record { lsn = 30; in_recovery = true; reconfirm = false; seq = 4 }

gossip_arrives_example :
    let c =
      handle_conn voters_1_2 2
        (sent voters_1_2 2 (map encode ((older ∷ []) ++ newer ∷ [])))
        (opened voters_1_2 0) in
    Heard 2 (older ∷ []) newer calm (decided_for 1) (receive c.gossip_in (decided_for 1) calm).1
gossip_arrives_example =
    gossip_arrives voters_1_2 2 (older ∷ []) newer 0 2 (decided_for 1) calm (omega arith) refl
      ((omega arith, omega arith), ((omega arith, omega arith), tt)) (omega arith)
