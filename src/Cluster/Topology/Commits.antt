-- ===== src/Cluster/Topology/Commits.antt =====
-- src/cluster/catalog.rs: the commit and the end of a transfer, and the commit of a split, as steps.
use shardlite.Cluster.Catalog.Split.{commit_split, destination_of}
use shardlite.Cluster.Catalog.Transfer.{
  restart_fenced_stream, release_source, complete_transfer, commit_transfer, without_source, moved,
}
use shardlite.Cluster.Catalog.{
  panicked, ok, err, ReplicaSet, transfer, split, fencing, installing, committed, cleaning,
  complete, phase_rank, is_kind, terminal, CatalogOperation, Catalog, is_this, with_operation,
  Result-cases,
}
use shardlite.Common.{
  ℕ, ◌+◌, ◌≤◌, ◌≡◌, ◌⊎◌, refl, inl, inr, true, Option, none, some, arith, Bool-cases, Option-cases,
}
use shardlite.Common.OrdMap.{OrdMap, get, insert, get-insert}
use shardlite.Shard.Routing.{modulo_v1, linear_v1}
use shardlite.Cluster.Topology.{
  Advanced, SameOwners, CutOver, Published, Step, unrelated, advanced, is_some, or_else, LinearV1,
  Routing, linear_v1,
}
use shardlite.Cluster.Topology.Effects.{operation_in-ok}

pub restart_fenced_stream-Step :
    (c c' : Catalog) (id epoch final : ℕ)
    → restart_fenced_stream c id epoch final ≡ ok c'
    → Step c c'
unfolding restart_fenced_stream terminal
restart_fenced_stream-Step c c' id epoch final e = elim (Option-cases (get c.operations id)) [
  | inl none_found ↦ absurd (ground (arith, operation_in-ok c id transfer fencing))
  | inr (op, found) ↦ elim (Bool-cases (is_this epoch op.stream_epoch)) [
    | inl again ↦ unrelated (ground (arith, operation_in-ok c id transfer fencing))
    | inr other ↦ advanced id (record {
      old = op;
      new = record op {
        stream_epoch = some epoch;
        snapshot_lsn = none;
        durable_lsn = none;
        final_lsn = some final;
      };
      same = ground arith;
      moves = ground (arith, operation_in-ok c id transfer fencing);
      commits = λ _. ground (arith, operation_in-ok c id transfer fencing);
    })
  ]
]

owners_without :
    (ps : OrdMap ReplicaSet) (shard : ℕ) (p : ReplicaSet) (source : Option ℕ)
    → get ps shard ≡ some p
    → SameOwners ps (insert ps shard (without_source p source))
owners_without ps shard p source found j =
    ground (arith, get-insert ps shard j (without_source p source))

released :
    (c c' : Catalog) (op : CatalogOperation)
    → release_source c op ≡ ok c'
    → SameOwners c.placements c'.placements
      × (c'.operations ≡ c.operations)
      × (c'.next_operation_id ≡ c.next_operation_id)
      × (c'.routing ≡ c.routing)
released c c' op e = elim (Option-cases op.shard) [
  | inl no_shard ↦ absurd (ground arith)
  | inr (shard, named) ↦ elim (Option-cases (get c.placements shard)) [
    | inl unplaced ↦ absurd (ground arith)
    | inr (p, found) ↦ ground (arith, owners_without c.placements shard p op.source found)
  ]
]

pub complete_transfer-Advanced :
    (c c' : Catalog) (id : ℕ) → complete_transfer c id ≡ ok c' → Advanced c c' id
unfolding complete_transfer terminal
complete_transfer-Advanced c c' id e = elim (Option-cases (get c.operations id)) [
  | inl none_found ↦ absurd (ground (arith, operation_in-ok c id transfer cleaning))
  | inr (op, found) ↦ elim (Result-cases (release_source c op)) [
    | inl (d, ended) ↦ record {
      old = op;
      new = record op { phase = complete };
      same = ground arith;
      moves = ground (arith, operation_in-ok c id transfer cleaning, released c d op ended);
      commits = λ _. ground (arith, operation_in-ok c id transfer cleaning, released c d op ended);
    }
    | inr (why, failed) ↦ record {
      old = op;
      new = record op { phase = complete };
      same = ground arith;
      moves = ground (arith, operation_in-ok c id transfer cleaning);
      commits = λ _. ground (arith, operation_in-ok c id transfer cleaning);
    }
  ]
]

transfer_facts :
    (c c' : Catalog) (id : ℕ)
    → commit_transfer c id ≡ ok c'
    → (op : CatalogOperation) × (p : ReplicaSet) × (shard destination final : ℕ) × (get c.operations
          id
        ≡ some op)
      × (is_kind op.kind transfer ≡ true)
      × (phase_rank op.phase ≡ 4)
      × (op.shard ≡ some shard)
      × (op.source ≡ some p.primary)
      × (op.destination ≡ some destination)
      × (op.expected_generation ≡ some p.generation)
      × (is_some op.snapshot_lsn ≡ true)
      × (op.final_lsn ≡ some final)
      × (final ≤ or_else 0 op.durable_lsn)
      × (get c.placements shard ≡ some p)
      × (c'
          ≡ with_operation
              (record c {
                placements =
                    insert c.placements shard (moved p (p.generation + 1) p.primary destination);
              })
              id
              (record op { phase = committed }))
unfolding commit_transfer
transfer_facts c c' id e = ground (arith, operation_in-ok c id transfer fencing)

pub commit_transfer-CutOver :
    (c c' : Catalog) (id : ℕ) → commit_transfer c id ≡ ok c' → CutOver c c' id
commit_transfer-CutOver c c' id e =
    let (
      op, p, shard, destination, final, found, kind, phase, s, src, dst, gen, snap, fin, le, placed,
      same,
    ) =
      transfer_facts c c' id e in
    record {
      old = op;
      shard = shard;
      placement = p;
      destination = destination;
      final = final;
      evidence = (found, kind, phase, dst, snap, fin, le);
      current = (s, src, gen, placed);
      effect = ground (arith, same);
    }

linear_cases :
    (r : Routing) → ((l : LinearV1) × (r ≡ linear_v1 l)) ⊎ (destination_of r ≡ err panicked)
linear_cases (modulo_v1 r) = inr refl
linear_cases (linear_v1 l) = inl (l, refl)

pub commit_split-Published :
    (c c' : Catalog) (id : ℕ) → commit_split c id ≡ ok c' → Published c c' id
unfolding commit_split
commit_split-Published c c' id e = elim (Option-cases (get c.operations id)) [
  | inl none_found ↦ absurd (ground (arith, operation_in-ok c id split installing))
  | inr (op, found) ↦ elim (Option-cases op.routing_before) [
    | inl missing ↦ absurd (ground (arith, operation_in-ok c id split installing))
    | inr (before, was) ↦ elim (Option-cases op.routing_after) [
      | inl missing ↦ absurd (ground (arith, operation_in-ok c id split installing))
      | inr (after, will) ↦ elim (Option-cases op.source) [
        | inl missing ↦ absurd (ground (arith, operation_in-ok c id split installing))
        | inr (owner, src) ↦ elim (linear_cases before) [
          | inr bad ↦ absurd (ground (arith, operation_in-ok c id split installing))
          | inl (r, linear) ↦ record {
            old = op;
            owner = owner;
            before = r;
            after = after;
            evidence = ground (arith, operation_in-ok c id split installing);
            effect = ground (arith, operation_in-ok c id split installing);
          }
        ]
      ]
    ]
  ]
]
