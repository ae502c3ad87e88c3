-- ===== src/Cluster/Topology/Invariant.antt =====
-- src/cluster/catalog.rs: what holds of the operations and the placements of every catalog that the
-- commands reach.
use shardlite.Cluster.Catalog.{
  split, committed, phase_rank, is_kind, terminal, CatalogOperation, Catalog,
}
use shardlite.Common.{ℕ, ◌<◌, ◌≡◌, Bool, true, false, some, [], ◌∷◌, arith, ltb}
use shardlite.Common.OrdMap.{OrdMap, get}
use shardlite.Cluster.Catalog.Operations.{any_operation}
use shardlite.Cluster.Catalog.Split.{splitting}
use shardlite.Cluster.Topology.{Owned, Growing, moves_ownership}

-- Before its commit: an operation that may still change an owner or the routing.
abbrev pub early : CatalogOperation → Bool
early op = ltb (phase_rank op.phase) (phase_rank committed)

-- Operations carry their own numbers, below the next one; a shard has at most one operation that is
-- under way; there is at most one split under way; and a transfer or a split before its commit still
-- names the present owner and generation of its shard, the split also the present routing.
pub record Sound (c : Catalog) : Type 0 where
  pub keyed :
      (i : ℕ) (op : CatalogOperation)
      → get c.operations i ≡ some op
      → (op.id ≡ i) × (i < c.next_operation_id)
  pub alone :
      (i j shard : ℕ) (op op' : CatalogOperation)
      → get c.operations i ≡ some op
      → get c.operations j ≡ some op'
      → op.shard ≡ some shard
      → op'.shard ≡ some shard
      → terminal op.phase ≡ false
      → terminal op'.phase ≡ false
      → i ≡ j
  pub one_split :
      (i j : ℕ) (op op' : CatalogOperation)
      → get c.operations i ≡ some op
      → get c.operations j ≡ some op'
      → splitting op ≡ true
      → splitting op' ≡ true
      → i ≡ j
  pub owned :
      (i : ℕ) (op : CatalogOperation)
      → get c.operations i ≡ some op
      → moves_ownership op ≡ true
      → early op ≡ true
      → Owned c op
  pub growing :
      (i : ℕ) (op : CatalogOperation)
      → get c.operations i ≡ some op
      → is_kind op.kind split ≡ true
      → early op ≡ true
      → Growing c op

pub any_operation-false :
    (test : CatalogOperation → Bool) (ops : OrdMap CatalogOperation) (i : ℕ) (op : CatalogOperation)
    → any_operation test ops ≡ false
    → get ops i ≡ some op
    → test op ≡ false
unfolding any_operation get
any_operation-false test [] i op none_such found = absurd (ground arith)
any_operation-false test ((k, o) ∷ ops) i op none_such found =
    ground (arith, any_operation-false test ops i op)

-- A catalog without operations is sound.
pub empty-Sound : (c : Catalog) → c.operations ≡ [] → Sound c
unfolding get
empty-Sound c none_yet = record {
  keyed = λ i op h. absurd (ground arith);
  alone = λ i j shard op op' h. absurd (ground arith);
  one_split = λ i j op op' h. absurd (ground arith);
  owned = λ i op h. absurd (ground arith);
  growing = λ i op h. absurd (ground arith);
}
