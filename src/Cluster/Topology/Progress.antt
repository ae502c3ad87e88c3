-- ===== src/Cluster/Topology/Progress.antt =====
-- src/cluster/control.rs: the steps of a transfer and of a split, as steps of the topology.
use shardlite.Cluster.Catalog.Operations.{abort_operation}
use shardlite.Cluster.Topology.Commits.{
  restart_fenced_stream-Step, commit_split-Published, commit_transfer-CutOver,
  complete_transfer-Advanced,
}
use shardlite.Cluster.Topology.SplitEffects.{
  begin_split_snapshot-Advanced, split_snapshot_ready-Advanced, record_split_replay-Advanced,
  prepare_split-Advanced, begin_split_fencing-Advanced, split_fenced-Advanced,
  record_split_installed-Advanced, begin_split_cleanup-Advanced, record_split_cleaned-Advanced,
  complete_split-Advanced,
}
use shardlite.Cluster.Topology.Effects.{
  begin_snapshot-Advanced, snapshot_installed-Advanced, record_catch_up-Advanced,
  prepare_transfer-Advanced, begin_fencing-Advanced, record_final_lsn-Advanced,
  record_fenced_bootstrap-Advanced, record_fenced_catch_up-Advanced, begin_cleanup-Advanced,
  abort_operation-Advanced,
}
use shardlite.Cluster.Catalog.Split.{
  begin_split_snapshot, split_snapshot_ready, record_split_replay, prepare_split,
  begin_split_fencing, split_fenced, record_split_installed, commit_split, begin_split_cleanup,
  record_split_cleaned, complete_split,
}
use shardlite.Cluster.Catalog.Transfer.{
  begin_snapshot, snapshot_installed, record_catch_up, prepare_transfer, begin_fencing,
  record_final_lsn, restart_fenced_stream, record_fenced_bootstrap, record_fenced_catch_up,
  commit_transfer, begin_cleanup, complete_transfer,
}
use shardlite.Cluster.Topology.Memberships.{branch-Step, unchanged-Step}
use shardlite.Cluster.Control.Progress.{
  stale_transfer, apply_transfer_in, apply_transfer, stale_split, apply_split_in, apply_split,
  transfer_progress_already_applied, split_progress_already_applied,
}
use shardlite.Cluster.Catalog.{
  out_of_order, ok, err, OperationPhase, planned, snapshotting, catching_up, prepared, fencing,
  installing, committed, cleaning, is_phase, may_abort, Catalog,
}
use shardlite.Common.{ℕ, ◌≡◌, inl, inr, arith, Option-cases}
use shardlite.Common.OrdMap.{get}
use shardlite.Cluster.Topology.{Step, advanced, cut_over, published}
use shardlite.Cluster.Control.{
  TransferProgress, SplitProgress, transfer_begin_snapshot, transfer_snapshot_installed,
  transfer_catch_up, transfer_prepare, transfer_begin_fencing, transfer_final_lsn,
  transfer_restart_fenced, transfer_fenced_bootstrap, transfer_fenced_catch_up, transfer_commit,
  transfer_begin_cleanup, transfer_complete, transfer_abort, split_begin_snapshot, split_is_ready,
  split_replay, split_prepare, split_begin_fence, split_is_fenced, split_replica_installed,
  split_commit, split_begin_clean, split_replica_cleaned, split_complete, split_abort,
}

stale_transfer-Step :
    (c c' : Catalog) (id : ℕ) (current : OperationPhase) (progress : TransferProgress)
    → stale_transfer c id current progress ≡ ok c'
    → Step c c'
stale_transfer-Step c c' id current progress e =
    branch-Step c c' (transfer_progress_already_applied current progress) (ok c)
      (err (out_of_order id)) (unchanged-Step c c') (λ h. absurd (ground arith)) e

apply_transfer_in-Step :
    (c c' : Catalog) (id : ℕ) (current : OperationPhase) (progress : TransferProgress)
    → apply_transfer_in c id current progress ≡ ok c'
    → Step c c'
unfolding apply_transfer_in
apply_transfer_in-Step c c' id current transfer_begin_snapshot e =
    branch-Step c c' (is_phase current planned) (begin_snapshot c id)
      (stale_transfer c id current transfer_begin_snapshot)
      (λ h. advanced id (begin_snapshot-Advanced c c' id h))
      (stale_transfer-Step c c' id current transfer_begin_snapshot) e
apply_transfer_in-Step c c' id current (transfer_snapshot_installed epoch lsn) e =
    branch-Step c c' (is_phase current snapshotting) (snapshot_installed c id epoch lsn)
      (stale_transfer c id current (transfer_snapshot_installed epoch lsn))
      (λ h. advanced id (snapshot_installed-Advanced c c' id epoch lsn h))
      (stale_transfer-Step c c' id current (transfer_snapshot_installed epoch lsn)) e
apply_transfer_in-Step c c' id current (transfer_catch_up epoch lsn) e =
    branch-Step c c' (is_phase current catching_up) (record_catch_up c id epoch lsn)
      (stale_transfer c id current (transfer_catch_up epoch lsn))
      (λ h. advanced id (record_catch_up-Advanced c c' id epoch lsn h))
      (stale_transfer-Step c c' id current (transfer_catch_up epoch lsn)) e
apply_transfer_in-Step c c' id current transfer_prepare e =
    branch-Step c c' (is_phase current catching_up) (prepare_transfer c id)
      (stale_transfer c id current transfer_prepare)
      (λ h. advanced id (prepare_transfer-Advanced c c' id h))
      (stale_transfer-Step c c' id current transfer_prepare) e
apply_transfer_in-Step c c' id current transfer_begin_fencing e =
    branch-Step c c' (is_phase current prepared) (begin_fencing c id)
      (stale_transfer c id current transfer_begin_fencing)
      (λ h. advanced id (begin_fencing-Advanced c c' id h))
      (stale_transfer-Step c c' id current transfer_begin_fencing) e
apply_transfer_in-Step c c' id current (transfer_final_lsn epoch lsn) e =
    branch-Step c c' (is_phase current fencing) (record_final_lsn c id epoch lsn)
      (stale_transfer c id current (transfer_final_lsn epoch lsn))
      (λ h. advanced id (record_final_lsn-Advanced c c' id epoch lsn h))
      (stale_transfer-Step c c' id current (transfer_final_lsn epoch lsn)) e
apply_transfer_in-Step c c' id current (transfer_restart_fenced epoch lsn) e =
    branch-Step c c' (is_phase current fencing) (restart_fenced_stream c id epoch lsn)
      (stale_transfer c id current (transfer_restart_fenced epoch lsn))
      (λ h. restart_fenced_stream-Step c c' id epoch lsn h)
      (stale_transfer-Step c c' id current (transfer_restart_fenced epoch lsn)) e
apply_transfer_in-Step c c' id current (transfer_fenced_bootstrap epoch lsn) e =
    branch-Step c c' (is_phase current fencing) (record_fenced_bootstrap c id epoch lsn)
      (stale_transfer c id current (transfer_fenced_bootstrap epoch lsn))
      (λ h. advanced id (record_fenced_bootstrap-Advanced c c' id epoch lsn h))
      (stale_transfer-Step c c' id current (transfer_fenced_bootstrap epoch lsn)) e
apply_transfer_in-Step c c' id current (transfer_fenced_catch_up epoch lsn) e =
    branch-Step c c' (is_phase current fencing) (record_fenced_catch_up c id epoch lsn)
      (stale_transfer c id current (transfer_fenced_catch_up epoch lsn))
      (λ h. advanced id (record_fenced_catch_up-Advanced c c' id epoch lsn h))
      (stale_transfer-Step c c' id current (transfer_fenced_catch_up epoch lsn)) e
apply_transfer_in-Step c c' id current transfer_commit e =
    branch-Step c c' (is_phase current fencing) (commit_transfer c id)
      (stale_transfer c id current transfer_commit)
      (λ h. cut_over id (commit_transfer-CutOver c c' id h))
      (stale_transfer-Step c c' id current transfer_commit) e
apply_transfer_in-Step c c' id current transfer_begin_cleanup e =
    branch-Step c c' (is_phase current committed) (begin_cleanup c id)
      (stale_transfer c id current transfer_begin_cleanup)
      (λ h. advanced id (begin_cleanup-Advanced c c' id h))
      (stale_transfer-Step c c' id current transfer_begin_cleanup) e
apply_transfer_in-Step c c' id current transfer_complete e =
    branch-Step c c' (is_phase current cleaning) (complete_transfer c id)
      (stale_transfer c id current transfer_complete)
      (λ h. advanced id (complete_transfer-Advanced c c' id h))
      (stale_transfer-Step c c' id current transfer_complete) e
apply_transfer_in-Step c c' id current (transfer_abort reason) e =
    branch-Step c c' (may_abort current) (abort_operation c id reason)
      (stale_transfer c id current (transfer_abort reason))
      (λ h. advanced id (abort_operation-Advanced c c' id reason h))
      (stale_transfer-Step c c' id current (transfer_abort reason)) e

pub apply_transfer-Step :
    (c c' : Catalog) (id : ℕ) (progress : TransferProgress)
    → apply_transfer c id progress ≡ ok c'
    → Step c c'
unfolding apply_transfer
apply_transfer-Step c c' id progress e = elim (Option-cases (get c.operations id)) [
  | inl none_found ↦ absurd (ground arith)
  | inr (op, found) ↦ apply_transfer_in-Step c c' id op.phase progress (ground arith)
]

stale_split-Step :
    (c c' : Catalog) (id : ℕ) (current : OperationPhase) (progress : SplitProgress)
    → stale_split c id current progress ≡ ok c'
    → Step c c'
stale_split-Step c c' id current progress e =
    branch-Step c c' (split_progress_already_applied current progress) (ok c)
      (err (out_of_order id)) (unchanged-Step c c') (λ h. absurd (ground arith)) e

apply_split_in-Step :
    (c c' : Catalog) (id : ℕ) (current : OperationPhase) (progress : SplitProgress)
    → apply_split_in c id current progress ≡ ok c'
    → Step c c'
unfolding apply_split_in
apply_split_in-Step c c' id current split_begin_snapshot e =
    branch-Step c c' (is_phase current planned) (begin_split_snapshot c id)
      (stale_split c id current split_begin_snapshot)
      (λ h. advanced id (begin_split_snapshot-Advanced c c' id h))
      (stale_split-Step c c' id current split_begin_snapshot) e
apply_split_in-Step c c' id current (split_is_ready barrier) e =
    branch-Step c c' (is_phase current snapshotting) (split_snapshot_ready c id barrier)
      (stale_split c id current (split_is_ready barrier))
      (λ h. advanced id (split_snapshot_ready-Advanced c c' id barrier h))
      (stale_split-Step c c' id current (split_is_ready barrier)) e
apply_split_in-Step c c' id current (split_replay sequence) e =
    branch-Step c c' (is_phase current catching_up) (record_split_replay c id sequence)
      (stale_split c id current (split_replay sequence))
      (λ h. advanced id (record_split_replay-Advanced c c' id sequence h))
      (stale_split-Step c c' id current (split_replay sequence)) e
apply_split_in-Step c c' id current split_prepare e =
    branch-Step c c' (is_phase current catching_up) (prepare_split c id)
      (stale_split c id current split_prepare) (λ h. advanced id (prepare_split-Advanced c c' id h))
      (stale_split-Step c c' id current split_prepare) e
apply_split_in-Step c c' id current split_begin_fence e =
    branch-Step c c' (is_phase current prepared) (begin_split_fencing c id)
      (stale_split c id current split_begin_fence)
      (λ h. advanced id (begin_split_fencing-Advanced c c' id h))
      (stale_split-Step c c' id current split_begin_fence) e
apply_split_in-Step c c' id current (split_is_fenced sequence) e =
    branch-Step c c' (is_phase current fencing) (split_fenced c id sequence)
      (stale_split c id current (split_is_fenced sequence))
      (λ h. advanced id (split_fenced-Advanced c c' id sequence h))
      (stale_split-Step c c' id current (split_is_fenced sequence)) e
apply_split_in-Step c c' id current (split_replica_installed node) e =
    branch-Step c c' (is_phase current installing) (record_split_installed c id node)
      (stale_split c id current (split_replica_installed node))
      (λ h. advanced id (record_split_installed-Advanced c c' id node h))
      (stale_split-Step c c' id current (split_replica_installed node)) e
apply_split_in-Step c c' id current split_commit e =
    branch-Step c c' (is_phase current installing) (commit_split c id)
      (stale_split c id current split_commit) (λ h. published id (commit_split-Published c c' id h))
      (stale_split-Step c c' id current split_commit) e
apply_split_in-Step c c' id current split_begin_clean e =
    branch-Step c c' (is_phase current committed) (begin_split_cleanup c id)
      (stale_split c id current split_begin_clean)
      (λ h. advanced id (begin_split_cleanup-Advanced c c' id h))
      (stale_split-Step c c' id current split_begin_clean) e
apply_split_in-Step c c' id current (split_replica_cleaned node) e =
    branch-Step c c' (is_phase current cleaning) (record_split_cleaned c id node)
      (stale_split c id current (split_replica_cleaned node))
      (λ h. advanced id (record_split_cleaned-Advanced c c' id node h))
      (stale_split-Step c c' id current (split_replica_cleaned node)) e
apply_split_in-Step c c' id current split_complete e =
    branch-Step c c' (is_phase current cleaning) (complete_split c id)
      (stale_split c id current split_complete)
      (λ h. advanced id (complete_split-Advanced c c' id h))
      (stale_split-Step c c' id current split_complete) e
apply_split_in-Step c c' id current (split_abort reason) e =
    branch-Step c c' (may_abort current) (abort_operation c id reason)
      (stale_split c id current (split_abort reason))
      (λ h. advanced id (abort_operation-Advanced c c' id reason h))
      (stale_split-Step c c' id current (split_abort reason)) e

pub apply_split-Step :
    (c c' : Catalog) (id : ℕ) (progress : SplitProgress)
    → apply_split c id progress ≡ ok c'
    → Step c c'
unfolding apply_split
apply_split-Step c c' id progress e = elim (Option-cases (get c.operations id)) [
  | inl none_found ↦ absurd (ground arith)
  | inr (op, found) ↦ apply_split_in-Step c c' id op.phase progress (ground arith)
]
