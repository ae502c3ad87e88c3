-- ===== src/Cluster/Catalog/Operations.antt =====
-- src/cluster/catalog.rs: operations in general, joins and drains.
use shardlite.Cluster.Catalog.{
  still_used, shard_busy, ids_exhausted, no_operation, out_of_order, join_active, drain_active,
  regressed, short_of, may_not_abort, panicked, Result, ok, err, ◌>>=◌, ◌>>◌, guard, ok_or,
  Compatibility, storage, draining, OperationKind, join, drain, OperationPhase, planned,
  catching_up, prepared, committed, complete, aborted, is_kind, is_phase, terminal, may_abort,
  CatalogOperation, Catalog, is_this, checked_succ, with_operation, u64,
}
use shardlite.Cluster.Catalog.Members.{
  validate_join, promote, set_member_state, shard_used, add_learner,
}
use shardlite.Common.{
  ℕ, ◌+◌, ◌&&◌, ◌==◌, Bool, true, false, not, Option, none, some, List, [], ◌∷◌, leb, if◌then◌else◌,
  or_else, is_some,
}
use shardlite.Common.OrdMap.{OrdMap, get, insert}

-- `any` over the operations.
unfoldable pub any_operation : (CatalogOperation → Bool) → OrdMap CatalogOperation → Bool
any_operation test [] = false
any_operation test ((k, op) ∷ ops) = if test op then true else any_operation test ops

abbrev pub active_on : ℕ → CatalogOperation → Bool
active_on shard op = is_this shard op.shard && not (terminal op.phase)

abbrev pub busy : Catalog → Option ℕ → Bool
busy c none = false
busy c (some shard) = any_operation (active_on shard) c.operations

abbrev pub new_operation :
    Catalog → OperationKind → Option ℕ → Option ℕ → Option ℕ → Option ℕ → CatalogOperation
new_operation c kind shard source destination generation = record {
  id = c.next_operation_id;
  kind = kind;
  phase = planned;
  shard = shard;
  source = source;
  destination = destination;
  expected_generation = generation;
  stream_epoch = none;
  snapshot_lsn = none;
  durable_lsn = none;
  final_lsn = none;
  catalog_version = none;
  routing_before = none;
  routing_after = none;
  retain_source_replica = false;
  split_required_nodes = [];
  split_installed_nodes = [];
  split_cleaned_nodes = [];
  created_version = c.version;
  last_error = none;
}

abbrev register : Catalog → CatalogOperation → Option ℕ → Result (Catalog × ℕ)
register c op none = err ids_exhausted
register c op (some next) = ok (
  record c { operations = insert c.operations c.next_operation_id op; next_operation_id = next },
  c.next_operation_id,
)

abbrev pub shard_of : Option ℕ → ℕ
shard_of o = or_else 0 o

unfoldable pub start_operation :
    Catalog → OperationKind → Option ℕ → Option ℕ → Option ℕ → Option ℕ → Result (Catalog × ℕ)
unfolding any_operation
start_operation c kind shard source destination generation = do
  guard (not (busy c shard)) (shard_busy (shard_of shard))
  register c (new_operation c kind shard source destination generation)
      (checked_succ c.next_operation_id)

unfoldable pub operation_in : Catalog → ℕ → OperationKind → OperationPhase → Result CatalogOperation
operation_in c id kind phase = do
  op ← ok_or (get c.operations id) (no_operation id)
  guard (is_kind op.kind kind && is_phase op.phase phase) (out_of_order id)
  ok op

unfoldable pub transition :
    Catalog → ℕ → OperationKind → OperationPhase → OperationPhase → Result Catalog
unfolding operation_in
transition c id kind expected next = do
  op ← operation_in c id kind expected
  ok (with_operation c id (record op { phase = next }))

unfoldable pub abort_operation : Catalog → ℕ → List ℕ → Result Catalog
abort_operation c id reason = do
  op ← ok_or (get c.operations id) (no_operation id)
  guard (may_abort op.phase) (may_not_abort id)
  ok (with_operation c id (record op { phase = aborted; last_error = some reason }))

abbrev joins : ℕ → CatalogOperation → Bool
joins node op = is_kind op.kind join && is_this node op.destination && not (terminal op.phase)

unfoldable pub start_join :
    Catalog → Option (List ℕ) → Compatibility → ℕ → ℕ → List ℕ → Result (Catalog × ℕ)
unfolding validate_join add_learner start_operation
start_join c local compatibility node incarnation address = do
  validate_join c local compatibility
  guard (not (any_operation (joins node) c.operations)) (join_active node)
  c' ← add_learner c node incarnation address
  start_operation c' join none none (some node) none

abbrev pub caught_up : Catalog → ℕ → OperationPhase → Result Catalog
caught_up c id phase =
    if is_phase phase planned then transition c id join planned catching_up else ok c

unfoldable pub record_join_catch_up : Catalog → ℕ → ℕ → Result Catalog
unfolding transition operation_in
record_join_catch_up c id version = do
  first ← ok_or (get c.operations id) (no_operation id)
  c' ← caught_up c id first.phase
  op ← operation_in c' id join catching_up
  guard (leb (or_else 0 op.catalog_version) version)
      (regressed (or_else 0 op.catalog_version) version)
  ok (with_operation c' id (record op { catalog_version = some version }))

-- `saturating_add(1)`.
abbrev pub saturating_succ : ℕ → ℕ
saturating_succ n = if n + 1 == u64 then n else n + 1

unfoldable pub prepare_join : Catalog → ℕ → Result Catalog
unfolding operation_in
prepare_join c id = do
  op ← operation_in c id join catching_up
  guard (leb (saturating_succ op.created_version) (or_else 0 op.catalog_version))
      (short_of (or_else 0 op.catalog_version) (saturating_succ op.created_version))
  ok (with_operation c id (record op { phase = prepared }))

unfoldable pub commit_storage_join : Catalog → ℕ → Result Catalog
unfolding operation_in promote
commit_storage_join c id = do
  op ← operation_in c id join prepared
  node ← ok_or op.destination panicked
  c' ← promote c node storage
  op' ← ok_or (get c'.operations id) panicked
  ok (with_operation c' id (record op' { phase = committed }))

unfoldable pub complete_join : Catalog → ℕ → Result Catalog
unfolding transition
complete_join c id = transition c id join committed complete

abbrev drains : ℕ → CatalogOperation → Bool
drains node op = is_kind op.kind drain && is_this node op.source && not (terminal op.phase)

unfoldable pub start_drain : Catalog → ℕ → Result (Catalog × ℕ)
unfolding set_member_state start_operation
start_drain c node = do
  guard (not (any_operation (drains node) c.operations)) (drain_active node)
  c' ← set_member_state c node draining
  start_operation c' drain none (some node) none none

unfoldable pub complete_drain : Catalog → ℕ → Result Catalog
unfolding operation_in shard_used
complete_drain c id = do
  op ← operation_in c id drain planned
  node ← ok_or op.source panicked
  guard (not (is_some (shard_used node c.placements)))
      (still_used node (or_else 0 (shard_used node c.placements)))
  ok (with_operation c id (record op { phase = complete }))
