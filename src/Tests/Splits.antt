-- ===== src/Tests/Splits.antt =====
-- Splits and removals of the two-node cluster.
use shardlite.Cluster.Catalog.Operations.{operation_in}
use shardlite.Cluster.Catalog.Members.{
  remove_member, is_voter, voter_sets, voters_of, shard_used, count_voters,
}
use shardlite.Cluster.Topology.Refusals.{second_split_refused, removal_refused}
use shardlite.Cluster.Topology.Keys.{key_owner, commit_split-key_owner}
use shardlite.Cluster.Catalog.Split.{commit_split, is_subset}
use shardlite.Cluster.Catalog.{
  ok, storage, voter, active, draining, validate_policy, split, drain, OperationPhase, installing,
  committed, complete, terminal, CatalogOperation, Catalog,
}
use shardlite.Common.{ℕ, ◌≡◌, ◌≢◌, ◌⊎◌, refl, true, none, some, List, [], ◌∷◌, arith, is_some}
use shardlite.Common.OrdMap.{get, insert, remove}
use shardlite.Common.OrdSet
use shardlite.Common.OrdSet.{contains}
use shardlite.Shard.Routing.{
  Routing, LinearV1, linear_v1, shard_count, base, grown, new_linear, base_for, split_source,
  split_destination, route, route_linear, hash_key, active_shards,
}
use shardlite.Shard.Routing
use shardlite.Shard.Routing.Valid.{IsValid}
use shardlite.Cluster.Topology.Invariant.{Sound}
use shardlite.Cluster.Catalog.Validation.{
  validate, check_members, any_voter, check_full, check_placements, check_placement, check_replicas,
  check_operations, check_split, all_members,
}
use shardlite.Tests.Catalogs.{two_nodes, operation, linear, placed, node, one_operation}

abbrev both : List ℕ
both = 1 ∷ 2 ∷ []

abbrev splitting_into : ℕ → ℕ → OperationPhase → LinearV1 → LinearV1 → CatalogOperation
splitting_into id shard phase before after = record (operation id split phase) {
  shard = some shard;
  routing_before = some (linear_v1 before);
  routing_after = some (linear_v1 after);
  split_required_nodes = both;
  split_installed_nodes = both;
}

abbrev installed : CatalogOperation
installed = splitting_into 1 0 installing (linear 0 0) (linear 1 0)

abbrev about_to_split : Catalog
about_to_split = record two_nodes { operations = (1, installed) ∷ []; next_operation_id = 2 }

abbrev has_split : Catalog
has_split = record two_nodes {
  routing = linear_v1 (linear 1 0);
  routing_epoch = 2;
  placements = (0, placed 1 (2 ∷ [])) ∷ (1, placed 1 (2 ∷ [])) ∷ [];
  operations = (1, record installed { phase = committed }) ∷ [];
  next_operation_id = 2;
}

grows_once : grown (linear 0 0) ≡ Routing.ok (linear 1 0)
unfolding grown base new_linear base_for
grows_once = refl

about-Sound : Sound about_to_split
unfolding get split_destination shard_count base
about-Sound =
    one_operation about_to_split installed refl refl refl
      (record { shard = 0; placement = placed 1 (2 ∷ []); facts = (refl, refl, refl, refl) })
      (λ h. record {
        before = linear 0 0;
        after = linear 1 0;
        facts = (refl, grows_once, omega arith, refl, refl, refl, refl);
      })

splits : commit_split about_to_split 1 ≡ ok has_split
unfolding commit_split operation_in is_subset contains get insert split_destination base
splits = refl

start-IsValid : IsValid (linear 0 0)
start-IsValid = record { level_lt = omega arith; pointer_lt = omega arith }

has_owner : is_some (key_owner about_to_split (97 ∷ [])) ≡ true
unfolding get route route_linear base hash_key
has_owner = refl

commit_split-key_owner_example : key_owner has_split (97 ∷ []) ≡ key_owner about_to_split (97 ∷ [])
commit_split-key_owner_example =
    commit_split-key_owner about_to_split has_split 1 (97 ∷ []) (linear 0 0) about-Sound refl
      start-IsValid splits has_owner

-- The first split is over, and the second one is installed.
abbrev first_split : CatalogOperation
first_split = record installed { phase = complete; split_cleaned_nodes = both }

abbrev second_split : CatalogOperation
second_split = splitting_into 2 0 installing (linear 1 0) (linear 1 1)

abbrev split_again : Catalog
split_again = record has_split {
  operations = (1, first_split) ∷ (2, second_split) ∷ [];
  next_operation_id = 3;
}

abbrev has_split_again : Catalog
has_split_again = record split_again {
  routing = linear_v1 (linear 1 1);
  routing_epoch = 3;
  placements = (0, placed 1 (2 ∷ [])) ∷ (1, placed 1 (2 ∷ [])) ∷ (2, placed 1 (2 ∷ [])) ∷ [];
  operations = (1, first_split) ∷ (2, record second_split { phase = committed }) ∷ [];
}

grows_twice : grown (linear 1 0) ≡ Routing.ok (linear 1 1)
unfolding grown base new_linear base_for
grows_twice = refl

which :
    (i : ℕ) (q : CatalogOperation)
    → get split_again.operations i ≡ some q
    → ((i ≡ 1) × (q ≡ first_split)) ⊎ ((i ≡ 2) × (q ≡ second_split))
unfolding get
which i q h = ground arith

again-Sound : Sound split_again
unfolding get split_destination shard_count base terminal
again-Sound = record {
  keyed = λ i q h. ground (arith, which i q h);
  alone = λ i j shard q r h k s t u v. ground (arith, which i q h, which j r k);
  one_split = λ i j q r h k s t. ground (arith, which i q h, which j r k);
  owned = λ i q h k e.
      let same : q ≡ second_split = ground (arith, which i q h) in
      rw same
        (record { shard = 0; placement = placed 1 (2 ∷ []); facts = (refl, refl, refl, refl) });
  growing = λ i q h k e.
      let same : q ≡ second_split = ground (arith, which i q h) in
      rw same (record {
        before = linear 1 0;
        after = linear 1 1;
        facts = (refl, grows_twice, omega arith, refl, refl, refl, refl);
      });
}

again_valid : validate split_again ≡ ok tt
unfolding validate check_members any_voter check_full check_placements check_placement
    check_replicas check_operations check_split validate_policy get contains all_members is_subset
    insert terminal active_shards shard_count base grown new_linear base_for
again_valid = refl

splits_again : commit_split split_again 2 ≡ ok has_split_again
unfolding commit_split operation_in is_subset contains get insert split_destination base
splits_again = refl

first_found : get split_again.operations 1 ≡ some first_split
unfolding get
first_found = refl

second-IsValid : IsValid (linear 1 0)
second-IsValid = record { level_lt = omega arith; pointer_lt = omega arith }

second_split_refused_example : validate has_split_again ≢ ok tt
second_split_refused_example =
    second_split_refused split_again has_split_again 1 2 first_split (linear 1 0) again-Sound
      again_valid refl second-IsValid first_found refl refl splits_again

-- Node 2 is drained, and holds no copy any more.
abbrev drained : CatalogOperation
drained = record (operation 1 drain complete) { shard = none; source = some 2; destination = none }

abbrev empty_node : Catalog
empty_node = record two_nodes {
  members = (1, node 1 voter active) ∷ (2, node 2 storage draining) ∷ [];
  placements = (0, placed 1 []) ∷ [];
  operations = (1, drained) ∷ [];
  next_operation_id = 2;
}

abbrev without_node : Catalog
without_node = record empty_node { members = (1, node 1 voter active) ∷ [] }

removes : remove_member empty_node 2 ≡ ok without_node
unfolding remove_member is_voter voter_sets voters_of shard_used count_voters get remove contains
    OrdSet.insert
removes = refl

drained_found : get empty_node.operations 1 ≡ some drained
unfolding get
drained_found = refl

removal_refused_example : validate without_node ≢ ok tt
removal_refused_example =
    removal_refused empty_node without_node 2 1 drained drained_found refl removes
