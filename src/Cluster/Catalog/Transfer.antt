-- ===== src/Cluster/Catalog/Transfer.antt =====
-- src/cluster/catalog.rs: transfers of a shard's ownership. A missing value is 0 where the code says
-- `unwrap_or_default`, and an `expect` that fails is the error `panicked`.
use shardlite.Cluster.Catalog.Operations.{start_operation, transition, operation_in}
use shardlite.Cluster.Catalog.{
  not_a_member, regressed, short_of, no_placement, may_not_receive, already_owns, zero_epoch,
  wrong_epoch, no_snapshot, no_final_lsn, stale_cutover, exhausted, panicked, Result, ok, err,
  ◌>>=◌, ◌>>◌, guard, ok_or, may_receive_placement, ReplicaSet, transfer, OperationPhase, planned,
  snapshotting, catching_up, prepared, fencing, committed, cleaning, complete, CatalogOperation,
  Catalog, is_this, checked_succ, with_operation,
}
use shardlite.Common.{
  ℕ, ◌&&◌, ◌==◌, ◌++◌, Bool, not, Option, none, some, List, [], ◌∷◌, leb, if◌then◌else◌, is_some,
}
use shardlite.Common.OrdSet.{contains}
use shardlite.Common.OrdMap.{OrdMap, get}
use shardlite.Common.OrdMap
use shardlite.Common.{retain, or_else}

abbrev pub eligible_destination : Catalog → ReplicaSet → ℕ → Result (Unit {0})
eligible_destination c p destination = do
  m ← ok_or (get c.members destination) (not_a_member destination)
  guard (may_receive_placement m) (may_not_receive destination)
  guard (not (p.primary == destination)) (already_owns destination)

abbrev with_retained : Catalog → ℕ → Bool → CatalogOperation → Catalog
with_retained c id retained op =
    with_operation c id (record op { retain_source_replica = retained })

unfoldable pub start_transfer : Catalog → ℕ → ℕ → Result (Catalog × ℕ)
unfolding start_operation
start_transfer c shard destination = do
  p ← ok_or (get c.placements shard) (no_placement shard)
  eligible_destination c p destination
  started ←
      start_operation c transfer (some shard) (some p.primary) (some destination)
        (some p.generation)
  op ← ok_or (get started.0.operations started.1) panicked
  ok (with_retained started.0 started.1 (contains p.replicas destination) op, started.1)

unfoldable pub begin_snapshot : Catalog → ℕ → Result Catalog
unfolding transition
begin_snapshot c id = transition c id transfer planned snapshotting

unfoldable pub snapshot_installed : Catalog → ℕ → ℕ → ℕ → Result Catalog
unfolding operation_in
snapshot_installed c id epoch lsn = do
  guard (not (epoch == 0)) zero_epoch
  op ← operation_in c id transfer snapshotting
  ok (
      with_operation c id (record op {
        stream_epoch = some epoch;
        snapshot_lsn = some lsn;
        durable_lsn = some lsn;
        phase = catching_up;
      }))

-- The common part of `record_catch_up` and `record_fenced_catch_up`, which the code writes twice.
abbrev advance : Catalog → ℕ → OperationPhase → ℕ → ℕ → Result Catalog
advance c id phase epoch durable = do
  op ← operation_in c id transfer phase
  guard (is_this epoch op.stream_epoch) (wrong_epoch epoch)
  guard (leb (or_else 0 op.durable_lsn) durable) (regressed (or_else 0 op.durable_lsn) durable)
  ok (with_operation c id (record op { durable_lsn = some durable }))

unfoldable pub record_catch_up : Catalog → ℕ → ℕ → ℕ → Result Catalog
unfolding operation_in
record_catch_up c id epoch durable = advance c id catching_up epoch durable

unfoldable pub prepare_transfer : Catalog → ℕ → Result Catalog
unfolding transition
prepare_transfer c id = transition c id transfer catching_up prepared

unfoldable pub begin_fencing : Catalog → ℕ → Result Catalog
unfolding transition
begin_fencing c id = transition c id transfer prepared fencing

unfoldable pub record_final_lsn : Catalog → ℕ → ℕ → ℕ → Result Catalog
unfolding operation_in
record_final_lsn c id epoch lsn = do
  op ← operation_in c id transfer fencing
  guard (is_this epoch op.stream_epoch) (wrong_epoch epoch)
  guard (leb (or_else 0 op.durable_lsn) lsn) (regressed (or_else 0 op.durable_lsn) lsn)
  ok (with_operation c id (record op { final_lsn = some lsn }))

abbrev restarted : Catalog → ℕ → CatalogOperation → ℕ → ℕ → Result Catalog
restarted c id op epoch final =
    if is_this epoch op.stream_epoch
    then (if is_this final op.final_lsn && not (is_some op.snapshot_lsn)
        then ok c
        else err (wrong_epoch epoch))
    else ok (
        with_operation c id (record op {
          stream_epoch = some epoch;
          snapshot_lsn = none;
          durable_lsn = none;
          final_lsn = some final;
        }))

unfoldable pub restart_fenced_stream : Catalog → ℕ → ℕ → ℕ → Result Catalog
unfolding operation_in
restart_fenced_stream c id epoch final = do
  guard (not (epoch == 0)) zero_epoch
  op ← operation_in c id transfer fencing
  restarted c id op epoch final

unfoldable pub record_fenced_bootstrap : Catalog → ℕ → ℕ → ℕ → Result Catalog
unfolding operation_in
record_fenced_bootstrap c id epoch durable = do
  op ← operation_in c id transfer fencing
  guard (is_this epoch op.stream_epoch) (wrong_epoch epoch)
  guard (leb (or_else 0 op.final_lsn) durable) (short_of durable (or_else 0 op.final_lsn))
  ok (with_operation c id (record op { snapshot_lsn = some durable; durable_lsn = some durable }))

unfoldable pub record_fenced_catch_up : Catalog → ℕ → ℕ → ℕ → Result Catalog
unfolding operation_in
record_fenced_catch_up c id epoch durable = advance c id fencing epoch durable

-- `sort_unstable`, by insertion.
abbrev place : ℕ → List ℕ → List ℕ
place n [] = n ∷ []
place n (k ∷ ks) = if leb n k then n ∷ k ∷ ks else k ∷ place n ks

abbrev sort_unstable : List ℕ → List ℕ
sort_unstable [] = []
sort_unstable (n ∷ ns) = place n (sort_unstable ns)

-- The source stays a replica until the cleanup.
unfoldable pub moved : ReplicaSet → ℕ → ℕ → ℕ → ReplicaSet
moved p generation source destination =
    let kept = retain (λ n. not (n == destination)) p.replicas in
    record {
      generation = generation;
      primary = destination;
      replicas = if contains kept source then kept else sort_unstable (kept ++ source ∷ []);
    }

unfoldable pub commit_transfer : Catalog → ℕ → Result Catalog
unfolding operation_in moved
commit_transfer c id = do
  op ← operation_in c id transfer fencing
  shard ← ok_or op.shard panicked
  source ← ok_or op.source panicked
  destination ← ok_or op.destination panicked
  expected ← ok_or op.expected_generation panicked
  guard (is_some op.snapshot_lsn) no_snapshot
  final ← ok_or op.final_lsn no_final_lsn
  guard (leb final (or_else 0 op.durable_lsn)) (short_of (or_else 0 op.durable_lsn) final)
  p ← ok_or (get c.placements shard) (no_placement shard)
  guard (p.generation == expected && p.primary == source) stale_cutover
  generation ← ok_or (checked_succ p.generation) exhausted
  ok (
      with_operation
        (record c {
          placements = OrdMap.insert c.placements shard (moved p generation source destination);
        })
        id (record op { phase = committed }))

unfoldable pub begin_cleanup : Catalog → ℕ → Result Catalog
unfolding transition
begin_cleanup c id = transition c id transfer committed cleaning

abbrev pub without_source : ReplicaSet → Option ℕ → ReplicaSet
without_source p source = record p { replicas = retain (λ n. not (is_this n source)) p.replicas }

abbrev pub release_source : Catalog → CatalogOperation → Result Catalog
release_source c op = do
  shard ← ok_or op.shard panicked
  p ← ok_or (get c.placements shard) (no_placement shard)
  ok (record c { placements = OrdMap.insert c.placements shard (without_source p op.source) })

unfoldable pub complete_transfer : Catalog → ℕ → Result Catalog
unfolding operation_in
complete_transfer c id = do
  op ← operation_in c id transfer cleaning
  c' ← if op.retain_source_replica then ok c else release_source c op
  ok (with_operation c' id (record op { phase = complete }))
