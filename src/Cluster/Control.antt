-- ===== src/Cluster/Control.antt =====
-- src/cluster/control.rs: the commands on the catalog. The names of the progress steps carry their
-- operation's kind.
pub mod Progress
pub mod Apply
pub mod Tokens
use shardlite.Cluster.Catalog.{
  empty_text, Error, incompatible, foreign_cluster, empty_address, learner_target, zero_weight,
  bad_policy, already_registered, not_a_member, voter_change_active, empty_voters, same_voters,
  no_voter_change, learner_voter, already_placed, no_copies, incomplete_placements, no_eligible,
  bad_token, too_few_members, active_voter, still_used, last_voter, shard_busy, ids_exhausted,
  no_operation, out_of_order, join_active, drain_active, regressed, short_of, no_placement,
  may_not_receive, already_owns, not_linear, shard_limit, split_active, grows_no_further,
  destination_placed, not_required, missing_nodes, zero_epoch, wrong_epoch, no_snapshot,
  no_final_lsn, stale_cutover, exhausted, may_not_abort, panicked, invalid, Result, ok, err, ◌>>=◌,
  ◌>>◌, guard, ok_or, Compatibility, check, MemberRole, learner, storage, voter, is_learner,
  is_voter_role, MemberState, active, cordoned, draining, is_active, Member, may_receive_placement,
  ScalingPolicy, default_policy, validate_policy, ReplicaSet, VoterTransition, OperationKind, join,
  transfer, split, drain, removal, OperationPhase, planned, snapshotting, catching_up, prepared,
  fencing, installing, committed, cleaning, complete, aborted, kind_rank, phase_rank, is_kind,
  is_phase, terminal, may_abort, CatalogOperation, Catalog, CatalogProposal, is_this, same_opt,
  same_routing, checked_succ, with_operation, same_cluster,
}
use shardlite.Cluster.Rebalance.{RebalanceDecision}
use shardlite.Common.{
  ℕ, zero, suc, ◌+◌, ◌-◌, ◌*◌, ◌/◌, ◌%◌, ◌^◌, ◌<◌, ◌≤◌, ◌≡◌, ◌≢◌, ◌⊎◌, ◌&&◌, ◌||◌, ◌==◌, ◌++◌, refl,
  sym, ap, ◌∙◌, inl, inr, Bool, true, false, not, Option, none, some, List, [], ◌∷◌, map, arith,
  ltb, leb, if◌then◌else◌, length, All, Bool-cases, Option-cases,
}

pub data TransferProgress : Type 0 where
  transfer_begin_snapshot : TransferProgress
  transfer_snapshot_installed : (epoch lsn : ℕ) → TransferProgress
  transfer_catch_up : (epoch durable_lsn : ℕ) → TransferProgress
  transfer_prepare transfer_begin_fencing : TransferProgress
  transfer_final_lsn : (epoch lsn : ℕ) → TransferProgress
  transfer_restart_fenced : (epoch final_lsn : ℕ) → TransferProgress
  transfer_fenced_bootstrap : (epoch durable_lsn : ℕ) → TransferProgress
  transfer_fenced_catch_up : (epoch durable_lsn : ℕ) → TransferProgress
  transfer_commit transfer_begin_cleanup transfer_complete : TransferProgress
  transfer_abort : (reason : List ℕ) → TransferProgress

pub data SplitProgress : Type 0 where
  split_begin_snapshot : SplitProgress
  split_is_ready : (barrier : ℕ) → SplitProgress
  split_replay : (sequence : ℕ) → SplitProgress
  split_prepare split_begin_fence : SplitProgress
  split_is_fenced : (sequence : ℕ) → SplitProgress
  split_replica_installed : (node : ℕ) → SplitProgress
  split_commit split_begin_clean : SplitProgress
  split_replica_cleaned : (node : ℕ) → SplitProgress
  split_complete : SplitProgress
  split_abort : (reason : List ℕ) → SplitProgress

pub data CatalogCommand : Type 0 where
  join_node :
      Option (List ℕ) → Compatibility → (node incarnation : ℕ) → (address : List ℕ) → CatalogCommand
  join_with_token :
      (token : List ℕ)
      → Option (List ℕ)
      → Compatibility
      → (node incarnation : ℕ) → (address : List ℕ) → CatalogCommand
  finish_join : (operation durable_catalog_version : ℕ) → CatalogCommand
  rebalance : CatalogCommand
  transfer_step : (operation : ℕ) → TransferProgress → CatalogCommand
  split_step : (operation : ℕ) → SplitProgress → CatalogCommand
  cordon : (node : ℕ) → Bool → CatalogCommand
  member_policy : (node capacity_weight : ℕ) → (failure_domain : Option (List ℕ)) → CatalogCommand
  scaling_policy_to : ScalingPolicy → CatalogCommand
  drain_node : (node : ℕ) → CatalogCommand
  finish_drain : (operation : ℕ) → CatalogCommand
  remove_node : (node : ℕ) → CatalogCommand
  begin_voters : (voters : List ℕ) → CatalogCommand
  finalize_voters : CatalogCommand

-- `CatalogCommandResult`.
pub record CommandResult : Type 0 where
  pub catalog : Catalog
  pub operation : Option ℕ
  pub rebalance_decision : Option RebalanceDecision
