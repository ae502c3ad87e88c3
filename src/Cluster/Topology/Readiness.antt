-- ===== src/Cluster/Topology/Readiness.antt =====
-- src/cluster/control.rs: a transfer whose evidence is complete commits.
use shardlite.Cluster.Catalog.Transfer.{commit_transfer, moved}
use shardlite.Cluster.Control.Progress.{apply_transfer, apply_transfer_in}
use shardlite.Cluster.Catalog.Operations.{operation_in}
use shardlite.Cluster.Catalog.{
  ok, ReplicaSet, OperationKind, transfer, OperationPhase, fencing, committed, is_kind, is_phase,
  CatalogOperation, Catalog, with_operation,
}
use shardlite.Common.{ℕ, ◌+◌, ◌^◌, ◌<◌, ◌≤◌, ◌≡◌, refl, true, some, arith}
use shardlite.Common.OrdMap.{get, insert, get-insert}
use shardlite.Cluster.Control.{transfer_commit}
use shardlite.Cluster.Topology.{is_some, or_else}
use shardlite.Cluster.Topology.Invariant.{Sound}

-- What the commit of a transfer asks for besides a sound catalog.
pub record IsReady (c : Catalog) (id : ℕ) (op : CatalogOperation) (destination generation final : ℕ)
    : Type 0 where
  pub found : get c.operations id ≡ some op
  pub kind : is_kind op.kind transfer ≡ true
  pub phase : is_phase op.phase fencing ≡ true
  pub destination_named : op.destination ≡ some destination
  pub generation_named : op.expected_generation ≡ some generation
  pub below : generation + 1 < 2 ^ 64
  pub snapshot : is_some op.snapshot_lsn ≡ true
  pub final_named : op.final_lsn ≡ some final
  pub durable : final ≤ or_else 0 op.durable_lsn

operation_in-eq :
    (c : Catalog) (id : ℕ) (kind : OperationKind) (phase : OperationPhase) (op : CatalogOperation)
    → get c.operations id ≡ some op
    → is_kind op.kind kind ≡ true
    → is_phase op.phase phase ≡ true
    → operation_in c id kind phase ≡ ok op
unfolding operation_in
operation_in-eq c id kind phase op found k p = ground arith

-- In a sound catalog a fenced transfer with a snapshot, a final position and that position
-- durable at its destination commits, below the last generation: the shard it names is then the
-- destination's, under the next generation.
pub ready_commits :
    (c : Catalog) (id : ℕ) (op : CatalogOperation) (destination generation final : ℕ)
    → Sound c
    → IsReady c id op destination generation final
    → (c' : Catalog) × (shard : ℕ) × (p : ReplicaSet) × (apply_transfer c id transfer_commit
        ≡ ok c')
      × (op.shard ≡ some shard)
      × (get c'.placements shard ≡ some p)
      × (p.primary ≡ destination)
      × (p.generation ≡ generation + 1)
unfolding apply_transfer apply_transfer_in commit_transfer moved
ready_commits c id op destination generation final w r =
    let o = w.owned id op r.found (ground (arith, r.kind)) (ground (arith, r.phase)) in
    let p = moved o.placement (generation + 1) o.placement.primary destination in
    let c' : Catalog =
      with_operation (record c { placements = insert c.placements o.shard p }) id
        (record op { phase = committed }) in
    (
      c',
      o.shard,
      p,
      ground (
        arith,
        o.facts,
        r.found,
        r.kind,
        r.phase,
        r.destination_named,
        r.generation_named,
        r.below,
        r.snapshot,
        r.final_named,
        r.durable,
        operation_in-eq c id transfer fencing op r.found r.kind r.phase,
      ),
      o.facts.0,
      ground (arith, get-insert c.placements o.shard o.shard p),
      refl,
      refl,
    )
