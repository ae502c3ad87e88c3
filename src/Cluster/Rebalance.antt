-- ===== src/Cluster/Rebalance.antt =====
-- src/cluster/rebalance.rs: the next movement of a shard. A count of placements and a weight are plain
-- numbers: their products are taken in u128.
use shardlite.Cluster.Catalog.{
  empty_text, incomplete_placements, no_eligible, no_placement, panicked, Result, ok, ◌>>=◌, ◌>>◌,
  guard, ok_or, is_active, Member, ReplicaSet, transfer, split, is_kind, terminal, CatalogOperation,
  Catalog,
}
use shardlite.Cluster.Catalog.Transfer.{start_transfer}
use shardlite.Shard.Routing.{active_shards}
use shardlite.Cluster.Catalog.Placing.{count_of, min_by, lighter, weight, eligible}
use shardlite.Common.{
  ℕ, ◌+◌, ◌*◌, ◌&&◌, ◌||◌, ◌==◌, Bool, true, false, not, Option, none, some, List, [], ◌∷◌, ltb,
  leb, if◌then◌else◌, length, retain,
}
use shardlite.Common.OrdMap.{OrdMap, get}
use shardlite.Common.OrdSet.{contains}
use shardlite.Common.OrdMap

pub data RebalanceDecision : Type 0 where
  balanced : RebalanceDecision
  waiting : ℕ → RebalanceDecision
  needs_split : ℕ → ℕ → RebalanceDecision
  move_shard : (shard source destination expected_generation : ℕ) → RebalanceDecision

abbrev pub find_operation :
    (CatalogOperation → Bool) → OrdMap CatalogOperation → Option CatalogOperation
find_operation test [] = none
find_operation test ((k, op) ∷ ops) = if test op then some op else find_operation test ops

abbrev pub moves_data : CatalogOperation → Bool
moves_data op = (is_kind op.kind transfer || is_kind op.kind split) && not (terminal op.phase)

unfoldable pub primary_counts : OrdMap Member → OrdMap ReplicaSet → OrdMap ℕ
primary_counts [] [] = []
primary_counts ((n, m) ∷ ms) [] = OrdMap.insert (primary_counts ms []) n 0
primary_counts ms ((s, p) ∷ ps) =
    let rest = primary_counts ms ps in OrdMap.insert rest p.primary (count_of rest p.primary + 1)

abbrev away : Option Member → Bool
away none = false
away (some m) = not (is_active m.state)

-- The first shard whose primary is a member that is not active.
unfoldable pub to_evacuate : OrdMap Member → OrdMap ReplicaSet → Option (ℕ × ReplicaSet)
to_evacuate ms [] = none
to_evacuate ms ((s, p) ∷ ps) = if away (get ms p.primary) then some (s, p) else to_evacuate ms ps

-- The one caller excludes a node.
unfoldable pub least_loaded : Catalog → List ℕ → OrdMap ℕ → ℕ → Option ℕ
unfolding min_by
least_loaded c nodes counts exclude =
    min_by (lighter c.members counts) (retain (λ n. not (n == exclude)) nodes)

-- That the left node's load is above the right one's, and on equal loads that it is the smaller: the
-- comparison of `max_by` is greater.
unfoldable pub heavier : OrdMap Member → OrdMap ℕ → ℕ → ℕ → Bool
heavier ms counts left right =
    let l = count_of counts left * weight ms right in
    let r = count_of counts right * weight ms left in
    if ltb r l then true else if ltb l r then false else ltb left right

unfoldable pub most_loaded : Catalog → List ℕ → OrdMap ℕ → Option ℕ
unfolding min_by
most_loaded c nodes counts = min_by (heavier c.members counts) nodes

abbrev owned_shards : ℕ → OrdMap ReplicaSet → List ℕ
owned_shards node [] = []
owned_shards node ((s, p) ∷ ps) =
    if p.primary == node then s ∷ owned_shards node ps else owned_shards node ps

abbrev pub has_replica : OrdMap ReplicaSet → ℕ → ℕ → Bool
has_replica ps node shard = copy_on (get ps shard)
  where
    copy_on : Option ReplicaSet → Bool
    copy_on none = false
    copy_on (some p) = contains p.replicas node

-- The order of the keys `(!contains(destination), shard)`.
abbrev sooner : OrdMap ReplicaSet → ℕ → ℕ → ℕ → Bool
sooner ps destination left right =
    let l = has_replica ps destination left in
    let r = has_replica ps destination right in
    if l && not r then true else if r && not l then false else leb left right

abbrev plan_move : Catalog → ℕ → ℕ → Result RebalanceDecision
plan_move c source destination = do
  shard ←
      ok_or (min_by (sooner c.placements destination) (owned_shards source c.placements)) panicked
  p ← ok_or (get c.placements shard) panicked
  ok (move_shard shard source destination p.generation)

-- Moving one primary has to put the destination below the source's load.
abbrev worthwhile : Catalog → OrdMap ℕ → ℕ → ℕ → Bool
worthwhile c counts source destination = not (
    leb (count_of counts source * weight c.members destination)
      ((count_of counts destination + 1) * weight c.members source))

abbrev pub balance : Catalog → List ℕ → OrdMap ℕ → Result RebalanceDecision
balance c nodes counts = do
  source ← ok_or (most_loaded c nodes counts) panicked
  destination ← ok_or (min_by (lighter c.members counts) nodes) panicked
  if worthwhile c counts source destination then plan_move c source destination else ok balanced

abbrev pub evacuate :
    Catalog → List ℕ → OrdMap ℕ → Option (ℕ × ReplicaSet) → Result RebalanceDecision
evacuate c nodes counts none =
    if ltb (active_shards c.routing) (length nodes)
    then ok (needs_split (active_shards c.routing) (length nodes))
    else balance c nodes counts
evacuate c nodes counts (some (shard, p)) = do
  destination ← ok_or (least_loaded c nodes counts p.primary) (no_placement p.primary)
  ok (move_shard shard p.primary destination p.generation)

abbrev pub decide : Catalog → Option CatalogOperation → Result RebalanceDecision
decide c (some op) = ok (waiting op.id)
decide c none = do
  guard (length c.placements == active_shards c.routing) incomplete_placements
  let nodes = eligible c.members
  guard (not (empty_text nodes)) no_eligible
  let counts : OrdMap ℕ = primary_counts c.members c.placements
  evacuate c nodes counts (to_evacuate c.members c.placements)

unfoldable pub next_rebalance : Catalog → Result RebalanceDecision
unfolding min_by eligible primary_counts to_evacuate least_loaded most_loaded
next_rebalance c = decide c (find_operation moves_data c.operations)

abbrev pub persist_move : Catalog → RebalanceDecision → Result Catalog
persist_move c (move_shard shard source destination generation) = do
  started ← start_transfer c shard destination
  ok started.0
persist_move c _ = ok c

unfoldable pub plan_next : Catalog → Result (Catalog × RebalanceDecision)
unfolding next_rebalance start_transfer
plan_next c = do decision ← next_rebalance c; c' ← persist_move c decision; ok (c', decision)
