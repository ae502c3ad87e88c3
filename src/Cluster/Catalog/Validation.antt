-- ===== src/Cluster/Catalog/Validation.antt =====
-- src/cluster/catalog.rs: `Catalog::validate`. A failed test ends in the error `invalid`, whose text
-- is left out.
use shardlite.Cluster.Catalog.Split.{is_subset, lift}
use shardlite.Cluster.Catalog.{
  empty_text, invalid, Result, ok, err, ◌>>=◌, ◌>>◌, guard, ok_or, is_learner, is_voter_role,
  Member, validate_policy, ReplicaSet, VoterTransition, OperationKind, join, transfer, split, drain,
  removal, OperationPhase, committed, cleaning, complete, aborted, is_phase, terminal,
  CatalogOperation, Catalog, is_this, same_routing, trim,
}
use shardlite.Common.{
  ℕ, ◌&&◌, ◌||◌, ◌==◌, Bool, true, false, not, Option, none, some, List, [], ◌∷◌, ltb,
  if◌then◌else◌, is_some,
}
use shardlite.Common.OrdMap.{OrdMap, get, contains_key}
use shardlite.Common.OrdSet.{contains, insert}
use shardlite.Shard.Routing.{Routing, linear_v1, LinearV1, split_source, grown, active_shards}

abbrev pub catalog_format_version : ℕ
catalog_format_version = 2

abbrev blank : Option (List ℕ) → Bool
blank none = false
blank (some domain) = empty_text (trim domain)

unfoldable pub check_members : OrdMap Member → Result (Unit {0})
check_members [] = ok tt
check_members ((k, m) ∷ ms) = do
  guard (not (m.capacity_weight == 0)) invalid
  guard (not (blank m.failure_domain)) invalid
  check_members ms

unfoldable pub any_voter : OrdMap Member → Bool
any_voter [] = false
any_voter ((k, m) ∷ ms) = if is_voter_role m.role then true else any_voter ms

-- A node of a voter set is a member that is no learner.
unfoldable pub check_full : OrdMap Member → List ℕ → Result (Unit {0})
check_full ms [] = ok tt
check_full ms (n ∷ ns) = do
  m ← ok_or (get ms n) invalid
  guard (not (is_learner m.role)) invalid
  check_full ms ns

-- The code takes the union of both sets in order; this takes one set after the other.
abbrev pub check_transition : OrdMap Member → Option VoterTransition → Result (Unit {0})
check_transition ms none = ok tt
check_transition ms (some t) = do
  guard (not (empty_text t.old_voters) && not (empty_text t.new_voters)) invalid
  check_full ms t.old_voters
  check_full ms t.new_voters

unfoldable pub check_replicas : OrdMap Member → ℕ → List ℕ → Result (Unit {0})
check_replicas ms primary [] = ok tt
check_replicas ms primary (n ∷ ns) = do
  guard (not (n == primary)) invalid
  guard (contains_key ms n) invalid
  check_replicas ms primary ns

unfoldable pub check_placement : Catalog → ℕ → ReplicaSet → Result (Unit {0})
unfolding check_replicas
check_placement c shard p = do
  guard (ltb shard (active_shards c.routing)) invalid
  m ← ok_or (get c.members p.primary) invalid
  guard (not (is_learner m.role)) invalid
  check_replicas c.members p.primary p.replicas

unfoldable pub check_placements : Catalog → OrdMap ReplicaSet → Result (Unit {0})
check_placements c [] = ok tt
check_placements c ((shard, p) ∷ ps) = do check_placement c shard p; check_placements c ps

-- The shards of the active operations before this one, with this one's.
abbrev pub occupied : List ℕ → CatalogOperation → Option ℕ → Result (List ℕ)
occupied shards op none = ok shards
occupied shards op (some shard) =
    if terminal op.phase
    then ok shards
    else if contains shards shard
    then err invalid
    else ok (insert shards shard)

unfoldable pub check_transfer : Catalog → CatalogOperation → Result (Unit {0})
check_transfer c op = do
  shard ← ok_or op.shard invalid
  source ← ok_or op.source invalid
  destination ← ok_or op.destination invalid
  guard (not (source == destination)) invalid
  guard
      (ltb shard (active_shards c.routing)
        && contains_key c.members source
        && contains_key c.members destination
        && is_some op.expected_generation)
      invalid

abbrev pub linear_or_invalid : Option Routing → Result LinearV1
linear_or_invalid (some (linear_v1 r)) = ok r
linear_or_invalid _ = err invalid

unfoldable pub all_members : OrdMap Member → List ℕ → Bool
all_members ms [] = true
all_members ms (n ∷ ns) = contains_key ms n && all_members ms ns

abbrev pub published : OperationPhase → Bool
published p = is_phase p committed || is_phase p cleaning || is_phase p complete

unfoldable pub check_split : Catalog → CatalogOperation → Result (Unit {0})
unfolding is_subset all_members
check_split c op = do
  source ← ok_or op.shard invalid
  owner ← ok_or op.source invalid
  before ← linear_or_invalid op.routing_before
  after ← linear_or_invalid op.routing_after
  guard (split_source before == source) invalid
  next ← lift (grown before)
  guard
      (same_routing (linear_v1 next) (linear_v1 after)
        && is_this owner op.destination
        && is_some op.expected_generation
        && contains_key c.members owner
        && contains op.split_required_nodes owner
        && is_subset op.split_installed_nodes op.split_required_nodes
        && is_subset op.split_cleaned_nodes op.split_required_nodes)
      invalid
  guard (all_members c.members op.split_required_nodes) invalid
  guard (not (published op.phase && not (same_routing c.routing (linear_v1 after)))) invalid
  guard
      (not (published op.phase && not (is_subset op.split_required_nodes op.split_installed_nodes)))
      invalid
  guard
      (not (
        is_phase op.phase complete
        && not (is_subset op.split_required_nodes op.split_cleaned_nodes)))
      invalid
  guard
      (not (
        not (published op.phase)
        && not (is_phase op.phase aborted)
        && not (same_routing c.routing (linear_v1 before))))
      invalid

abbrev pub check_named : Catalog → Option ℕ → Result (Unit {0})
check_named c node = do n ← ok_or node invalid; guard (contains_key c.members n) invalid

-- What a kind of operation has to satisfy besides.
abbrev pub check_kind : Catalog → CatalogOperation → OperationKind → Result (Unit {0})
check_kind c op transfer = check_transfer c op
check_kind c op split = check_split c op
check_kind c op join = check_named c op.destination
check_kind c op drain = check_named c op.source
check_kind c op removal = ok tt

unfoldable pub check_operations : Catalog → List ℕ → OrdMap CatalogOperation → Result (Unit {0})
check_operations c shards [] = ok tt
check_operations c shards ((id, op) ∷ ops) = do
  guard (not (op.id == 0) && op.id == id) invalid
  shards' ← occupied shards op op.shard
  check_kind c op op.kind
  check_operations c shards' ops

unfoldable pub validate : Catalog → Result (Unit {0})
unfolding check_members any_voter check_full check_placements check_operations
validate c = do
  guard (c.format_version == catalog_format_version) invalid
  guard (not (active_shards c.routing == 0)) invalid
  validate_policy c.scaling_policy
  check_members c.members
  guard (any_voter c.members) invalid
  check_transition c.members c.voter_transition
  check_placements c c.placements
  check_operations c [] c.operations
