-- ===== src/Cluster/Catalog/Checked.antt =====
-- src/cluster/catalog.rs: what `Catalog::validate` assures.
use shardlite.Shard.Routing.{active_shards}
use shardlite.Cluster.Catalog.Validation.{
  check_placements, check_operations, check_replicas, check_placement, validate, check_kind,
  occupied,
}
use shardlite.Cluster.Catalog.{
  ok, is_learner, Member, ReplicaSet, CatalogOperation, Catalog, Result-cases,
}
use shardlite.Common.{
  ℕ, ◌<◌, ◌≡◌, ◌≢◌, inl, inr, true, false, some, List, [], ◌∷◌, arith, Option-cases,
}
use shardlite.Common.OrdMap.{OrdMap, get, contains_key}
use shardlite.Common.OrdSet.{contains}

pub validate-parts :
    (c : Catalog)
    → validate c ≡ ok tt
    → (check_placements c c.placements ≡ ok tt) × (check_operations c [] c.operations ≡ ok tt)
unfolding validate
validate-parts c e = ground arith

placements-get :
    (c : Catalog) (ps : OrdMap ReplicaSet) (shard : ℕ) (p : ReplicaSet)
    → check_placements c ps ≡ ok tt
    → get ps shard ≡ some p
    → check_placement c shard p ≡ ok tt
unfolding check_placements get
placements-get c [] shard p e found = absurd (ground arith)
placements-get c ((s, q) ∷ ps) shard p e found = ground (arith, placements-get c ps shard p)

operations-get :
    (c : Catalog) (shards : List ℕ) (ops : OrdMap CatalogOperation) (i : ℕ) (op : CatalogOperation)
    → check_operations c shards ops ≡ ok tt
    → get ops i ≡ some op
    → (check_kind c op op.kind ≡ ok tt) × (op.id ≡ i) × (0 < i)
unfolding check_operations get
operations-get c shards [] i op e found = absurd (ground arith)
operations-get c shards ((k, o) ∷ ops) i op e found =
    elim (Result-cases (occupied shards o o.shard)) [
      | inr (why, failed) ↦ absurd (ground arith)
      | inl (next, fits) ↦ ground (arith, operations-get c next ops i op)
    ]

pub validate-operation :
    (c : Catalog) (i : ℕ) (op : CatalogOperation)
    → validate c ≡ ok tt
    → get c.operations i ≡ some op
    → (check_kind c op op.kind ≡ ok tt) × (op.id ≡ i) × (0 < i)
validate-operation c i op e found =
    operations-get c [] c.operations i op (validate-parts c e).1 found

replicas-contains :
    (ms : OrdMap Member) (primary : ℕ) (ns : List ℕ) (n : ℕ)
    → check_replicas ms primary ns ≡ ok tt
    → contains ns n ≡ true
    → (n ≢ primary) × (contains_key ms n ≡ true)
unfolding check_replicas contains
replicas-contains ms primary [] n e h = absurd (ground arith)
replicas-contains ms primary (k ∷ ns) n e h = ground (arith, replicas-contains ms primary ns n)

placement_parts :
    (c : Catalog) (shard : ℕ) (p : ReplicaSet)
    → check_placement c shard p ≡ ok tt
    → (m : Member) × (shard < active_shards c.routing)
      × (get c.members p.primary ≡ some m)
      × (is_learner m.role ≡ false)
      × (check_replicas c.members p.primary p.replicas ≡ ok tt)
unfolding check_placement
placement_parts c shard p e = elim (Option-cases (get c.members p.primary)) [
  | inl missing ↦ absurd (ground arith)
  | inr (m, found) ↦ (m, ground arith, found, ground arith, ground arith)
]

-- In a catalog that `validate` accepts, every placed shard is active, its primary is a member that is
-- no learner, and each of its replicas is a member other than the primary.
pub validate-placement :
    (c : Catalog) (shard : ℕ) (p : ReplicaSet)
    → validate c ≡ ok tt
    → get c.placements shard ≡ some p
    → (m : Member) × (shard < active_shards c.routing)
      × (get c.members p.primary ≡ some m)
      × (is_learner m.role ≡ false)
      × ((n : ℕ)
          → contains p.replicas n ≡ true
          → (n ≢ p.primary) × (contains_key c.members n ≡ true))
validate-placement c shard p e found =
    let (m, in_range, member, role, copies) =
      placement_parts c shard p
        (placements-get c c.placements shard p (validate-parts c e).0 found) in
    (m, in_range, member, role, λ n h. replicas-contains c.members p.primary p.replicas n copies h)
