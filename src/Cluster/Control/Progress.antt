-- ===== src/Cluster/Control/Progress.antt =====
-- src/cluster/control.rs: the steps of a transfer and of a split.
use shardlite.Cluster.Catalog.Operations.{abort_operation}
use shardlite.Cluster.Catalog.Split.{
  begin_split_snapshot, split_snapshot_ready, record_split_replay, prepare_split,
  begin_split_fencing, split_fenced, record_split_installed, commit_split, begin_split_cleanup,
  record_split_cleaned, complete_split,
}
use shardlite.Cluster.Catalog.Transfer.{
  begin_snapshot, snapshot_installed, record_catch_up, prepare_transfer, begin_fencing,
  record_final_lsn, restart_fenced_stream, record_fenced_bootstrap, record_fenced_catch_up,
  commit_transfer, begin_cleanup, complete_transfer,
}
use shardlite.Cluster.Catalog.{
  no_operation, out_of_order, Result, ok, err, ◌>>=◌, ok_or, OperationPhase, planned, snapshotting,
  catching_up, prepared, fencing, installing, committed, cleaning, complete, aborted, phase_rank,
  is_phase, may_abort, Catalog,
}
use shardlite.Common.{ℕ, Bool, true, false, leb, if◌then◌else◌}
use shardlite.Common.OrdMap.{get}
use shardlite.Cluster.Control.{
  TransferProgress, SplitProgress, transfer_begin_snapshot, transfer_snapshot_installed,
  transfer_catch_up, transfer_prepare, transfer_begin_fencing, transfer_final_lsn,
  transfer_restart_fenced, transfer_fenced_bootstrap, transfer_fenced_catch_up, transfer_commit,
  transfer_begin_cleanup, transfer_complete, transfer_abort, split_begin_snapshot, split_is_ready,
  split_replay, split_prepare, split_begin_fence, split_is_fenced, split_replica_installed,
  split_commit, split_begin_clean, split_replica_cleaned, split_complete, split_abort,
}

-- The ranks that `transfer_progress_already_applied` gives to the phases.
abbrev pub transfer_rank : OperationPhase → ℕ
transfer_rank planned = 0
transfer_rank snapshotting = 1
transfer_rank catching_up = 2
transfer_rank prepared = 3
transfer_rank fencing = 4
transfer_rank committed = 5
transfer_rank cleaning = 6
transfer_rank complete = 7
transfer_rank aborted = 8
transfer_rank installing = 2

abbrev pub transfer_target : TransferProgress → OperationPhase
transfer_target transfer_begin_snapshot = snapshotting
transfer_target (transfer_snapshot_installed epoch lsn) = catching_up
transfer_target (transfer_catch_up epoch lsn) = catching_up
transfer_target transfer_prepare = prepared
transfer_target transfer_begin_fencing = fencing
transfer_target (transfer_final_lsn epoch lsn) = fencing
transfer_target (transfer_restart_fenced epoch lsn) = fencing
transfer_target (transfer_fenced_bootstrap epoch lsn) = fencing
transfer_target (transfer_fenced_catch_up epoch lsn) = fencing
transfer_target transfer_commit = committed
transfer_target transfer_begin_cleanup = cleaning
transfer_target transfer_complete = complete
transfer_target (transfer_abort reason) = aborted

abbrev aborts_transfer : TransferProgress → Bool
aborts_transfer (transfer_abort reason) = true
aborts_transfer _ = false

unfoldable pub transfer_progress_already_applied : OperationPhase → TransferProgress → Bool
transfer_progress_already_applied phase progress =
    if is_phase phase aborted
    then aborts_transfer progress
    else leb (transfer_rank (transfer_target progress)) (transfer_rank phase)

-- The last two arms of the match: a step that has taken effect is a success, any other an error.
abbrev pub stale_transfer : Catalog → ℕ → OperationPhase → TransferProgress → Result Catalog
stale_transfer c id current progress =
    if transfer_progress_already_applied current progress then ok c else err (out_of_order id)

unfoldable pub apply_transfer_in : Catalog → ℕ → OperationPhase → TransferProgress → Result Catalog
apply_transfer_in c id current transfer_begin_snapshot =
    if is_phase current planned
    then begin_snapshot c id
    else stale_transfer c id current transfer_begin_snapshot
apply_transfer_in c id current (transfer_snapshot_installed epoch lsn) =
    if is_phase current snapshotting
    then snapshot_installed c id epoch lsn
    else stale_transfer c id current (transfer_snapshot_installed epoch lsn)
apply_transfer_in c id current (transfer_catch_up epoch lsn) =
    if is_phase current catching_up
    then record_catch_up c id epoch lsn
    else stale_transfer c id current (transfer_catch_up epoch lsn)
apply_transfer_in c id current transfer_prepare =
    if is_phase current catching_up
    then prepare_transfer c id
    else stale_transfer c id current transfer_prepare
apply_transfer_in c id current transfer_begin_fencing =
    if is_phase current prepared
    then begin_fencing c id
    else stale_transfer c id current transfer_begin_fencing
apply_transfer_in c id current (transfer_final_lsn epoch lsn) =
    if is_phase current fencing
    then record_final_lsn c id epoch lsn
    else stale_transfer c id current (transfer_final_lsn epoch lsn)
apply_transfer_in c id current (transfer_restart_fenced epoch lsn) =
    if is_phase current fencing
    then restart_fenced_stream c id epoch lsn
    else stale_transfer c id current (transfer_restart_fenced epoch lsn)
apply_transfer_in c id current (transfer_fenced_bootstrap epoch lsn) =
    if is_phase current fencing
    then record_fenced_bootstrap c id epoch lsn
    else stale_transfer c id current (transfer_fenced_bootstrap epoch lsn)
apply_transfer_in c id current (transfer_fenced_catch_up epoch lsn) =
    if is_phase current fencing
    then record_fenced_catch_up c id epoch lsn
    else stale_transfer c id current (transfer_fenced_catch_up epoch lsn)
apply_transfer_in c id current transfer_commit =
    if is_phase current fencing
    then commit_transfer c id
    else stale_transfer c id current transfer_commit
apply_transfer_in c id current transfer_begin_cleanup =
    if is_phase current committed
    then begin_cleanup c id
    else stale_transfer c id current transfer_begin_cleanup
apply_transfer_in c id current transfer_complete =
    if is_phase current cleaning
    then complete_transfer c id
    else stale_transfer c id current transfer_complete
apply_transfer_in c id current (transfer_abort reason) =
    if may_abort current
    then abort_operation c id reason
    else stale_transfer c id current (transfer_abort reason)

unfoldable pub apply_transfer : Catalog → ℕ → TransferProgress → Result Catalog
apply_transfer c id progress = do
  op ← ok_or (get c.operations id) (no_operation id)
  apply_transfer_in c id op.phase progress

abbrev pub split_target : SplitProgress → OperationPhase
split_target split_begin_snapshot = snapshotting
split_target (split_is_ready barrier) = catching_up
split_target (split_replay sequence) = catching_up
split_target split_prepare = prepared
split_target split_begin_fence = fencing
split_target (split_is_fenced sequence) = installing
split_target (split_replica_installed node) = installing
split_target split_commit = committed
split_target split_begin_clean = cleaning
split_target (split_replica_cleaned node) = cleaning
split_target split_complete = complete
split_target (split_abort reason) = aborted

abbrev aborts_split : SplitProgress → Bool
aborts_split (split_abort reason) = true
aborts_split _ = false

-- The ranks there are those of `phase_rank`.
unfoldable pub split_progress_already_applied : OperationPhase → SplitProgress → Bool
split_progress_already_applied phase progress =
    if is_phase phase aborted
    then aborts_split progress
    else leb (phase_rank (split_target progress)) (phase_rank phase)

abbrev pub stale_split : Catalog → ℕ → OperationPhase → SplitProgress → Result Catalog
stale_split c id current progress =
    if split_progress_already_applied current progress then ok c else err (out_of_order id)

unfoldable pub apply_split_in : Catalog → ℕ → OperationPhase → SplitProgress → Result Catalog
apply_split_in c id current split_begin_snapshot =
    if is_phase current planned
    then begin_split_snapshot c id
    else stale_split c id current split_begin_snapshot
apply_split_in c id current (split_is_ready barrier) =
    if is_phase current snapshotting
    then split_snapshot_ready c id barrier
    else stale_split c id current (split_is_ready barrier)
apply_split_in c id current (split_replay sequence) =
    if is_phase current catching_up
    then record_split_replay c id sequence
    else stale_split c id current (split_replay sequence)
apply_split_in c id current split_prepare =
    if is_phase current catching_up
    then prepare_split c id
    else stale_split c id current split_prepare
apply_split_in c id current split_begin_fence =
    if is_phase current prepared
    then begin_split_fencing c id
    else stale_split c id current split_begin_fence
apply_split_in c id current (split_is_fenced sequence) =
    if is_phase current fencing
    then split_fenced c id sequence
    else stale_split c id current (split_is_fenced sequence)
apply_split_in c id current (split_replica_installed node) =
    if is_phase current installing
    then record_split_installed c id node
    else stale_split c id current (split_replica_installed node)
apply_split_in c id current split_commit =
    if is_phase current installing then commit_split c id else stale_split c id current split_commit
apply_split_in c id current split_begin_clean =
    if is_phase current committed
    then begin_split_cleanup c id
    else stale_split c id current split_begin_clean
apply_split_in c id current (split_replica_cleaned node) =
    if is_phase current cleaning
    then record_split_cleaned c id node
    else stale_split c id current (split_replica_cleaned node)
apply_split_in c id current split_complete =
    if is_phase current cleaning
    then complete_split c id
    else stale_split c id current split_complete
apply_split_in c id current (split_abort reason) =
    if may_abort current
    then abort_operation c id reason
    else stale_split c id current (split_abort reason)

unfoldable pub apply_split : Catalog → ℕ → SplitProgress → Result Catalog
apply_split c id progress = do
  op ← ok_or (get c.operations id) (no_operation id)
  apply_split_in c id op.phase progress
