-- ===== src/Tests/Catalogs.antt =====
-- A cluster of two nodes: a transfer that is ready, a split that is installed, and a drained node.
use shardlite.Cluster.Catalog.Validation.{
  validate, check_members, any_voter, check_full, check_placements, check_placement, check_replicas,
  check_operations,
}
use shardlite.Cluster.Topology.Ownership.{
  Kept, CutBetween, generations_name_owners, change-CutBetween,
}
use shardlite.Cluster.Catalog.Operations.{operation_in}
use shardlite.Cluster.Catalog.Checked.{validate-placement}
use shardlite.Cluster.Catalog.Transfer.{commit_transfer, moved}
use shardlite.Cluster.Topology.Commands.{change-Made}
use shardlite.Cluster.Control.Progress.{apply_transfer, apply_transfer_in}
use shardlite.Cluster.Topology.Soundness.{change-Sound}
use shardlite.Cluster.Control.Apply.{change}
use shardlite.Cluster.Catalog.{
  ok, MemberRole, storage, voter, is_learner, MemberState, active, Member, default_policy,
  validate_policy, ReplicaSet, OperationKind, transfer, split, OperationPhase, fencing, committed,
  is_kind, CatalogOperation, Catalog,
}
use shardlite.Common.{ℕ, ◌<◌, ◌≡◌, ◌≢◌, refl, true, false, none, some, List, [], ◌∷◌, arith}
use shardlite.Common.OrdMap.{get, insert, contains_key}
use shardlite.Common.OrdSet.{contains}
use shardlite.Shard.Routing.{LinearV1, linear_v1, shard_count, base, active_shards}
use shardlite.Cluster.Topology.{Owned, Growing, Made}
use shardlite.Cluster.Topology.Invariant.{Sound}
use shardlite.Cluster.Topology.Readiness.{IsReady, ready_commits}
use shardlite.Cluster.Control.{transfer_step, transfer_commit, CommandResult}

abbrev pub node : ℕ → MemberRole → MemberState → Member
node n role state = record {
  node = n;
  incarnation = 1;
  address = n ∷ [];
  role = role;
  state = state;
  capacity_weight = 1;
  failure_domain = none;
}

abbrev pub linear : ℕ → ℕ → LinearV1
linear level pointer = record { level = level; split_pointer = pointer }

abbrev pub placed : ℕ → List ℕ → ReplicaSet
placed primary replicas = record { generation = 1; primary = primary; replicas = replicas }

abbrev pub two_nodes : Catalog
two_nodes = record {
  format_version = 2;
  cluster_id = 7 ∷ [];
  version = 1;
  routing_epoch = 1;
  compatibility = record {
    directory_format = 1;
    sqlite_version = [];
    page_size = 4096;
    routing_scheme = [];
    hash_scheme = [];
  };
  routing = linear_v1 (linear 0 0);
  scaling_policy = default_policy;
  members = (1, node 1 voter active) ∷ (2, node 2 storage active) ∷ [];
  voter_transition = none;
  placements = (0, placed 1 (2 ∷ [])) ∷ [];
  operations = [];
  next_operation_id = 1;
}

abbrev pub operation : ℕ → OperationKind → OperationPhase → CatalogOperation
operation id kind phase = record {
  id = id;
  kind = kind;
  phase = phase;
  shard = some 0;
  source = some 1;
  destination = some 1;
  expected_generation = some 1;
  stream_epoch = some 3;
  snapshot_lsn = some 5;
  durable_lsn = some 9;
  final_lsn = some 9;
  catalog_version = none;
  routing_before = none;
  routing_after = none;
  retain_source_replica = true;
  split_required_nodes = [];
  split_installed_nodes = [];
  split_cleaned_nodes = [];
  created_version = 1;
  last_error = none;
}

abbrev moving : CatalogOperation
moving = record (operation 1 transfer fencing) { destination = some 2 }

abbrev ready : Catalog
ready = record two_nodes { operations = (1, moving) ∷ []; next_operation_id = 2 }

abbrev handed_over : Catalog
handed_over = record ready {
  placements = (0, record { generation = 2; primary = 2; replicas = 1 ∷ [] }) ∷ [];
  operations = (1, record moving { phase = committed }) ∷ [];
}

abbrev result : Catalog → CommandResult
result c = record { catalog = c; operation = some 1; rebalance_decision = none }

-- A catalog with one operation.
pub one_operation :
    (c : Catalog) (op : CatalogOperation)
    → c.operations ≡ (1, op) ∷ []
    → op.id ≡ 1
    → c.next_operation_id ≡ 2
    → Owned c op
    → (is_kind op.kind split ≡ true → Growing c op)
    → Sound c
unfolding get
one_operation c op ops id next o g = record {
  keyed = λ i q h. ground (arith, ops);
  alone = λ i j shard q r h k s t u v. ground (arith, ops);
  one_split = λ i j q r h k s t. ground (arith, ops);
  owned = λ i q h k e. let same : q ≡ op = ground (arith, ops) in rw same o;
  growing =
      λ i q h k e. let same : q ≡ op = ground (arith, ops) in rw same (g (ground (arith, same)));
}

ready-Sound : Sound ready
unfolding get
ready-Sound =
    one_operation ready moving refl refl refl
      (record { shard = 0; placement = placed 1 (2 ∷ []); facts = (refl, refl, refl, refl) })
      (λ h. absurd (ground arith))

hands_over : change (transfer_step 1 transfer_commit) true ready ≡ ok (result handed_over)
unfolding change apply_transfer apply_transfer_in commit_transfer operation_in moved get insert
    contains
hands_over = refl

placed_before : get ready.placements 0 ≡ some (placed 1 (2 ∷ []))
unfolding get
placed_before = refl

placed_after :
    get handed_over.placements 0 ≡ some (record { generation = 2; primary = 2; replicas = 1 ∷ [] })
unfolding get
placed_after = refl

change-Made_example : Made ready handed_over
change-Made_example =
    change-Made (transfer_step 1 transfer_commit) true ready (result handed_over) hands_over

change-Sound_example : Sound handed_over
change-Sound_example =
    change-Sound (transfer_step 1 transfer_commit) true ready (result handed_over) hands_over
      ready-Sound

generations_name_owners_example : Kept (placed 1 (2 ∷ [])) handed_over.placements 0
generations_name_owners_example =
    generations_name_owners (transfer_step 1 transfer_commit) true ready (result handed_over) 0
      (placed 1 (2 ∷ [])) ready-Sound hands_over placed_before

change-CutBetween_example :
    CutBetween ready handed_over 0
      (placed 1 (2 ∷ []))
      (record { generation = 2; primary = 2; replicas = 1 ∷ [] })
change-CutBetween_example =
    change-CutBetween (transfer_step 1 transfer_commit) true ready (result handed_over) 0
      (placed 1 (2 ∷ [])) (record { generation = 2; primary = 2; replicas = 1 ∷ [] }) ready-Sound
      hands_over placed_before placed_after (λ e. absurd (ground arith))

is_ready : IsReady ready 1 moving 2 1 9
unfolding get
is_ready = record {
  found = refl;
  kind = refl;
  phase = refl;
  destination_named = refl;
  generation_named = refl;
  below = omega arith;
  snapshot = refl;
  final_named = refl;
  durable = omega arith;
}

ready_commits_example :
    (c' : Catalog) × (shard : ℕ) × (p : ReplicaSet) × (apply_transfer ready 1 transfer_commit
      ≡ ok c')
    × (moving.shard ≡ some shard)
    × (get c'.placements shard ≡ some p)
    × (p.primary ≡ 2)
    × (p.generation ≡ 2)
ready_commits_example = ready_commits ready 1 moving 2 1 9 ready-Sound is_ready

pub two_nodes_valid : validate two_nodes ≡ ok tt
unfolding validate check_members any_voter check_full check_placements check_placement
    check_replicas check_operations validate_policy get active_shards shard_count base
two_nodes_valid = refl

validate-placement_example :
    (m : Member) × (0 < active_shards two_nodes.routing)
    × (get two_nodes.members 1 ≡ some m)
    × (is_learner m.role ≡ false)
    × ((n : ℕ) → contains (2 ∷ []) n ≡ true → (n ≢ 1) × (contains_key two_nodes.members n ≡ true))
unfolding get
validate-placement_example =
    validate-placement two_nodes 0 (placed 1 (2 ∷ [])) two_nodes_valid placed_before
