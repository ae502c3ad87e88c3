-- ===== src/Tests/Replicas.antt =====
-- src/replication: three voters and the reports of two followers, and a log of three transactions.
use shardlite.Common.{ℕ, ◌≤◌, ◌≡◌, ◌≢◌, refl, none, some, [], ◌∷◌, arith, ◌↔◌}
use shardlite.Common.OrdMap.{get}
use shardlite.Replication.Ack.{
  AckTracker, quorum, holders, quorum_lsn, Report, Wake, wait_for_quorum,
}
use shardlite.Replication.Ack.Quorum.{quorum_lsn_lem}
use shardlite.Replication.Ack.Waits.{IsHonest, wait_for_quorum-IsHonest, wait_for_quorum_answers}
use shardlite.Replication.Log.{StreamTxn, ShardLog, FrameLog, serve, accept_log}
use shardlite.Replication.Log.Retention.{IsRetained, accept_log-IsRetained}
use shardlite.Replication.Log.Serving.{IsServed, serve-IsServed}

abbrev tracker : AckTracker
tracker = record {
  voters = 3;
  positions =
      record { shard = 0; node = 2; lsn = 9 } ∷ record { shard = 0; node = 3; lsn = 12 } ∷ [];
  how_long = 1_500_000_000;
  confirmed = 0;
  timed_out = 0;
  waited_us = 0;
}

quorum_lsn_lem_example :
    (12 ≤ quorum_lsn tracker 0) ↔ (quorum tracker ≤ holders tracker.positions 0 12)
quorum_lsn_lem_example = quorum_lsn_lem tracker 0 12 (omega arith) (omega arith)

abbrev catches_up : Report
catches_up = record { node = 2; shard = 0; lsn = 20 }

abbrev report_arrives : Wake
report_arrives = record { reports = catches_up ∷ []; elapsed = 40_000_000 }

abbrev time_is_up : Wake
time_is_up = record { reports = []; elapsed = 1_500_000_000 }

wait_for_quorum-IsHonest_example :
    let p = wait_for_quorum tracker 0 20 0 (report_arrives ∷ []) in IsHonest p.0 0 20 p.1
wait_for_quorum-IsHonest_example = wait_for_quorum-IsHonest tracker 0 20 0 (report_arrives ∷ [])

wait_for_quorum_answers_example :
    (wait_for_quorum tracker 0 30 0 (report_arrives ∷ time_is_up ∷ [])).1 ≢ none
wait_for_quorum_answers_example =
    wait_for_quorum_answers tracker 0 30 0 (report_arrives ∷ []) time_is_up (omega arith)

abbrev txn : ℕ → StreamTxn
txn n = record {
  lsn = n;
  txn = record {
    db_size_pages = 1;
    page_size = 4;
    frames = record { page_no = 1; page = 1 ∷ 2 ∷ 3 ∷ 4 ∷ [] } ∷ [];
    generation = 0;
  };
}

abbrev two_txns : ShardLog
two_txns = record { txns = txn 5 ∷ txn 6 ∷ []; bytes = 8 }

accept_log-IsRetained_example :
    IsRetained 10 (txn 5 ∷ txn 6 ∷ txn 7 ∷ []) (accept_log 10 two_txns (txn 7 ∷ [])).0
accept_log-IsRetained_example = accept_log-IsRetained 10 two_txns (txn 7 ∷ []) refl (omega arith)

abbrev retaining : FrameLog
retaining = record {
  per_shard_bytes = 10;
  shards = (0, two_txns) ∷ [];
  retained = 2;
  evicted = 0;
  served = 0;
  missed = 0;
}

retained_two : get retaining.shards 0 ≡ some two_txns
unfolding get
retained_two = refl

serve-IsServed_example : IsServed 5 two_txns.txns 6 100 (serve retaining 0 6 100).1
serve-IsServed_example =
    serve-IsServed retaining 0 6 100 5 two_txns retained_two (omega arith) (refl, (refl, tt))
