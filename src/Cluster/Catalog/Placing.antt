-- ===== src/Cluster/Catalog/Placing.antt =====
-- src/cluster/catalog.rs: the first catalog, and the first placement of its shards. `current` stands
-- for `Compatibility::current`, which asks SQLite.
use shardlite.Shard.Routing.{active_shards}
use shardlite.Cluster.Catalog.{
  already_placed, no_copies, too_few_members, panicked, Result, ok, ◌>>=◌, ◌>>◌, guard, ok_or,
  Compatibility, check, voter, active, Member, may_receive_placement, default_policy, ReplicaSet,
  Catalog, Routing, same_text,
}
use shardlite.Cluster.Catalog.Validation.{catalog_format_version, validate}
use shardlite.Common.{
  ℕ, zero, suc, ◌+◌, ◌-◌, ◌*◌, ◌&&◌, ◌==◌, Bool, true, false, not, Option, none, some, List, [],
  ◌∷◌, ltb, leb, if◌then◌else◌, length, or_else, retain,
}
use shardlite.Common.OrdMap.{OrdMap, get}
use shardlite.Common.OrdMap

abbrev pub first_voter : ℕ → List ℕ → Member
first_voter node address = record {
  node = node;
  incarnation = 1;
  address = address;
  role = voter;
  state = active;
  capacity_weight = 1;
  failure_domain = none;
}

abbrev pub first_catalog : List ℕ → ℕ → List ℕ → Routing → Compatibility → Catalog
first_catalog cluster_id node address routing compatibility = record {
  format_version = catalog_format_version;
  cluster_id = cluster_id;
  version = 1;
  routing_epoch = 1;
  compatibility = compatibility;
  routing = routing;
  scaling_policy = default_policy;
  members = (node, first_voter node address) ∷ [];
  voter_transition = none;
  placements = [];
  operations = [];
  next_operation_id = 1;
}

unfoldable pub bootstrap :
    (Routing → Result Compatibility)
    → List ℕ
    → ℕ
    → List ℕ
    → Routing
    → Compatibility
    → Result Catalog
unfolding check validate
bootstrap current cluster_id node address routing compatibility = do
  own ← current routing
  check compatibility own
  let c : Catalog = first_catalog cluster_id node address routing compatibility
  validate c
  ok c

-- The nodes that may receive a placement, in order.
unfoldable pub eligible : OrdMap Member → List ℕ
eligible [] = []
eligible ((k, m) ∷ ms) = if may_receive_placement m then m.node ∷ eligible ms else eligible ms

abbrev weight_of : Option Member → ℕ
weight_of none = 0
weight_of (some m) = m.capacity_weight

-- The weight of a member; the callers only ask for members.
abbrev pub weight : OrdMap Member → ℕ → ℕ
weight ms node = weight_of (get ms node)

abbrev pub count_of : OrdMap ℕ → ℕ → ℕ
count_of counts node = or_else 0 (get counts node)

-- That the left node's load is at most the right one's, and on equal loads that it is the smaller:
-- `normalized_load_cmp(..).then_with(..)` is not greater.
unfoldable pub lighter : OrdMap Member → OrdMap ℕ → ℕ → ℕ → Bool
lighter ms counts left right =
    let l = count_of counts left * weight ms right in
    let r = count_of counts right * weight ms left in
    if ltb l r then true else if ltb r l then false else leb left right

-- The element that wins: each one against the winner so far, which stays when the test holds.
unfoldable pub best : (ℕ → ℕ → Bool) → ℕ → List ℕ → ℕ
best le n [] = n
best le n (k ∷ ks) = best le (if le n k then n else k) ks

-- `min_by`, the test being that the left one is not greater.
unfoldable pub min_by : (ℕ → ℕ → Bool) → List ℕ → Option ℕ
unfolding best
min_by le [] = none
min_by le (n ∷ ns) = some (best le n ns)

abbrev domain_of : Option Member → Option (List ℕ)
domain_of none = none
domain_of (some m) = m.failure_domain

abbrev pub same_failure_domain : Option (List ℕ) → Option (List ℕ) → Bool
same_failure_domain (some left) (some right) = same_text left right
same_failure_domain _ _ = false

abbrev shares_domain : OrdMap Member → ℕ → ℕ → Bool
shares_domain ms primary node =
    same_failure_domain (domain_of (get ms primary)) (domain_of (get ms node))

-- The order of the keys `(same_domain, node)`.
abbrev nearer : OrdMap Member → ℕ → ℕ → ℕ → Bool
nearer ms primary left right =
    let l = shares_domain ms primary left in
    let r = shares_domain ms primary right in
    if not l && r then true else if l && not r then false else leb left right

unfoldable pub place_by : (ℕ → ℕ → Bool) → ℕ → List ℕ → List ℕ
place_by le n [] = n ∷ []
place_by le n (k ∷ ks) = if le n k then n ∷ k ∷ ks else k ∷ place_by le n ks

-- `sort_by_key`, by insertion.
unfoldable pub sort_by : (ℕ → ℕ → Bool) → List ℕ → List ℕ
unfolding place_by
sort_by le [] = []
sort_by le (n ∷ ns) = place_by le n (sort_by le ns)

unfoldable pub take : ℕ → List ℕ → List ℕ
take zero ns = []
take (suc n) [] = []
take (suc n) (k ∷ ks) = k ∷ take n ks

abbrev pub replicas_for : OrdMap Member → List ℕ → ℕ → ℕ → List ℕ
replicas_for ms nodes primary copies =
    take (copies - 1) (sort_by (nearer ms primary) (retain (λ n. not (n == primary)) nodes))

abbrev pub first_set : OrdMap Member → List ℕ → ℕ → ℕ → ReplicaSet
first_set ms nodes primary copies = record {
  generation = 1;
  primary = primary;
  replicas = replicas_for ms nodes primary copies;
}

-- The loop over the shards from `shard` on, `left` of them.
unfoldable pub place_shards :
    OrdMap Member → List ℕ → ℕ → ℕ → ℕ → OrdMap ℕ → OrdMap ReplicaSet → Result (OrdMap ReplicaSet)
unfolding min_by
place_shards ms nodes copies shard zero counts placed = ok placed
place_shards ms nodes copies shard (suc left) counts placed = do
  primary ← ok_or (min_by (lighter ms counts) nodes) panicked
  place_shards ms nodes copies (suc shard) left
      (OrdMap.insert counts primary (count_of counts primary + 1))
      (OrdMap.insert placed shard (first_set ms nodes primary copies))

abbrev pub zeros : List ℕ → OrdMap ℕ
zeros [] = []
zeros (n ∷ ns) = OrdMap.insert (zeros ns) n 0

abbrev none_placed : OrdMap ReplicaSet → Bool
none_placed [] = true
none_placed (p ∷ ps) = false

unfoldable pub initialize_placements : Catalog → ℕ → Result Catalog
unfolding eligible place_shards
initialize_placements c copies = do
  guard (none_placed c.placements) already_placed
  guard (not (copies == 0)) no_copies
  let nodes = eligible c.members
  guard (leb copies (length nodes)) (too_few_members copies (length nodes))
  placed ←
      place_shards c.members nodes copies 0 (active_shards c.routing) (zeros nodes) c.placements
  ok (record c { placements = placed })
