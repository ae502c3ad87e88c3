-- ===== src/Cluster/Catalog/Split.antt =====
-- src/cluster/catalog.rs: splits of a shard. As in Transfer.antt a missing value is 0 where the code
-- says `unwrap_or_default`, and an `expect` that fails is the error `panicked`.
use shardlite.Cluster.Catalog.Operations.{start_operation, transition, operation_in, any_operation}
use shardlite.Cluster.Catalog.{
  regressed, no_placement, not_linear, shard_limit, split_active, grows_no_further,
  destination_placed, not_required, missing_nodes, no_final_lsn, stale_cutover, exhausted, panicked,
  Result, ok, err, ◌>>=◌, ◌>>◌, guard, ok_or, ReplicaSet, split, planned, snapshotting, catching_up,
  prepared, fencing, installing, committed, cleaning, complete, is_kind, terminal, CatalogOperation,
  Catalog, same_routing, checked_succ, with_operation,
}
use shardlite.Common.{
  ℕ, ◌&&◌, ◌||◌, ◌==◌, Bool, true, false, not, Option, none, some, List, [], ◌∷◌, ltb, leb, is_some,
}
use shardlite.Common.OrdSet.{contains, extend}
use shardlite.Common.OrdMap.{OrdMap, get, contains_key}
use shardlite.Common.OrdMap
use shardlite.Common.OrdSet
use shardlite.Common.{retain, or_else}
use shardlite.Shard.Routing.{
  Routing, modulo_v1, linear_v1, LinearV1, split_source, split_destination, shard_count, grown,
}
use shardlite.Shard.Routing

-- src/shard/mod.rs.
abbrev pub max_shards : ℕ
max_shards = 256

abbrev pub linear_of : Routing → Result LinearV1
linear_of (modulo_v1 r) = err not_linear
linear_of (linear_v1 r) = ok r

-- The error of the routing module, as one of this module's.
abbrev pub lift : Routing.Result LinearV1 → Result LinearV1
lift (Routing.ok r) = ok r
lift (Routing.err e) = err grows_no_further

abbrev pub splitting : CatalogOperation → Bool
splitting op = is_kind op.kind split && not (terminal op.phase)

abbrev pub copies : ReplicaSet → List ℕ
copies p = OrdSet.insert (extend [] p.replicas) p.primary

abbrev pub planned_split : CatalogOperation → Routing → Routing → List ℕ → CatalogOperation
planned_split op before after required = record op {
  routing_before = some before;
  routing_after = some after;
  split_required_nodes = required;
}

unfoldable pub start_split : Catalog → Result (Catalog × ℕ)
unfolding start_operation
start_split c = do
  current ← linear_of c.routing
  guard (ltb (shard_count current) max_shards) shard_limit
  guard (not (any_operation splitting c.operations)) split_active
  p ← ok_or (get c.placements (split_source current)) (no_placement (split_source current))
  guard (not (contains_key c.placements (split_destination current)))
      (destination_placed (split_destination current))
  next ← lift (grown current)
  started ←
      start_operation c split (some (split_source current)) (some p.primary) (some p.primary)
        (some p.generation)
  op ← ok_or (get started.0.operations started.1) panicked
  ok (
    with_operation started.0 started.1 (planned_split op c.routing (linear_v1 next) (copies p)),
    started.1,
  )

unfoldable pub begin_split_snapshot : Catalog → ℕ → Result Catalog
unfolding transition
begin_split_snapshot c id = transition c id split planned snapshotting

unfoldable pub split_snapshot_ready : Catalog → ℕ → ℕ → Result Catalog
unfolding operation_in
split_snapshot_ready c id barrier = do
  op ← operation_in c id split snapshotting
  ok (
      with_operation c id (record op {
        snapshot_lsn = some barrier;
        durable_lsn = some barrier;
        phase = catching_up;
      }))

unfoldable pub record_split_replay : Catalog → ℕ → ℕ → Result Catalog
unfolding operation_in
record_split_replay c id sequence = do
  op ← operation_in c id split catching_up
  guard (leb (or_else 0 op.durable_lsn) sequence) (regressed (or_else 0 op.durable_lsn) sequence)
  ok (with_operation c id (record op { durable_lsn = some sequence }))

unfoldable pub prepare_split : Catalog → ℕ → Result Catalog
unfolding transition
prepare_split c id = transition c id split catching_up prepared

unfoldable pub begin_split_fencing : Catalog → ℕ → Result Catalog
unfolding transition
begin_split_fencing c id = transition c id split prepared fencing

unfoldable pub split_fenced : Catalog → ℕ → ℕ → Result Catalog
unfolding operation_in
split_fenced c id sequence = do
  op ← operation_in c id split fencing
  guard (leb (or_else 0 op.durable_lsn) sequence) (regressed (or_else 0 op.durable_lsn) sequence)
  ok (
      with_operation c id
        (record op { final_lsn = some sequence; durable_lsn = some sequence; phase = installing }))

unfoldable pub record_split_installed : Catalog → ℕ → ℕ → Result Catalog
unfolding operation_in
record_split_installed c id node = do
  op ← operation_in c id split installing
  guard (contains op.split_required_nodes node) (not_required node)
  ok (
      with_operation c id
        (record op { split_installed_nodes = OrdSet.insert op.split_installed_nodes node }))

unfoldable pub is_subset : List ℕ → List ℕ → Bool
is_subset [] t = true
is_subset (k ∷ s) t = contains t k && is_subset s t

-- `Option`'s order has none below every number.
abbrev pub opt_ltb : Option ℕ → Option ℕ → Bool
opt_ltb none none = false
opt_ltb none (some n) = true
opt_ltb (some k) none = false
opt_ltb (some k) (some n) = ltb k n

abbrev pub destination_of : Routing → Result ℕ
destination_of (modulo_v1 r) = err panicked
destination_of (linear_v1 r) = ok (split_destination r)

abbrev pub split_placement : ℕ → List ℕ → ReplicaSet
split_placement owner required = record {
  generation = 1;
  primary = owner;
  replicas = retain (λ n. not (n == owner)) required;
}

unfoldable pub commit_split : Catalog → ℕ → Result Catalog
unfolding operation_in is_subset
commit_split c id = do
  op ← operation_in c id split installing
  source ← ok_or op.shard panicked
  owner ← ok_or op.source panicked
  generation ← ok_or op.expected_generation panicked
  before ← ok_or op.routing_before panicked
  after ← ok_or op.routing_after panicked
  guard (not (not (is_some op.final_lsn) || opt_ltb op.durable_lsn op.final_lsn)) no_final_lsn
  guard (is_subset op.split_required_nodes op.split_installed_nodes) missing_nodes
  guard (same_routing c.routing before) stale_cutover
  p ← ok_or (get c.placements source) (no_placement source)
  guard (p.primary == owner && p.generation == generation) stale_cutover
  destination ← destination_of before
  epoch ← ok_or (checked_succ c.routing_epoch) exhausted
  ok (
      with_operation
        (record c {
          placements =
              OrdMap.insert c.placements destination
                (split_placement owner op.split_required_nodes);
          routing = after;
          routing_epoch = epoch;
        })
        id (record op { phase = committed }))

unfoldable pub begin_split_cleanup : Catalog → ℕ → Result Catalog
unfolding transition
begin_split_cleanup c id = transition c id split committed cleaning

unfoldable pub record_split_cleaned : Catalog → ℕ → ℕ → Result Catalog
unfolding operation_in
record_split_cleaned c id node = do
  op ← operation_in c id split cleaning
  guard (contains op.split_required_nodes node) (not_required node)
  ok (
      with_operation c id
        (record op { split_cleaned_nodes = OrdSet.insert op.split_cleaned_nodes node }))

unfoldable pub complete_split : Catalog → ℕ → Result Catalog
unfolding operation_in is_subset transition
complete_split c id = do
  op ← operation_in c id split cleaning
  guard (is_subset op.split_required_nodes op.split_cleaned_nodes) missing_nodes
  transition c id split cleaning complete
