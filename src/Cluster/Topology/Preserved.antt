-- ===== src/Cluster/Topology/Preserved.antt =====
-- src/cluster/catalog.rs: every topology step keeps a catalog sound.
use shardlite.Cluster.Catalog.{committed, terminal, CatalogOperation, Catalog}
use shardlite.Common.{
  ℕ, ◌+◌, ◌<◌, ◌≡◌, ◌≢◌, ◌⊎◌, refl, inl, inr, true, false, some, arith, Option-cases,
}
use shardlite.Common.OrdMap.{get, get-insert}
use shardlite.Cluster.Topology.{
  Replaces, Owned, Growing, Advanced, CutOver, Published, SameOwners, split_destination, splitting,
  moved, split_placement,
}
use shardlite.Cluster.Topology.Invariant.{Sound}

Owned-same :
    (c c' : Catalog) (op op' : CatalogOperation)
    → SameOwners c.placements c'.placements
    → op'.shard ≡ op.shard
    → op'.source ≡ op.source
    → op'.expected_generation ≡ op.expected_generation
    → Owned c op
    → Owned c' op'
Owned-same c c' op op' same s f g o = elim (Option-cases (get c'.placements o.shard)) [
  | inl lost ↦ absurd (ground (arith, same o.shard, o.facts))
  | inr (p, found) ↦ record {
    shard = o.shard;
    placement = p;
    facts = ground (arith, same o.shard, o.facts);
  }
]

Growing-same :
    (c c' : Catalog) (op op' : CatalogOperation)
    → SameOwners c.placements c'.placements
    → c'.routing ≡ c.routing
    → op'.routing_before ≡ op.routing_before
    → op'.routing_after ≡ op.routing_after
    → op'.shard ≡ op.shard
    → Growing c op
    → Growing c' op'
Growing-same c c' op op' same r b a s g =
    elim (Option-cases (get c'.placements (split_destination g.before))) [
      | inl unplaced ↦ record {
        before = g.before;
        after = g.after;
        facts = ground (arith, g.facts);
      }
      | inr (p, found) ↦ absurd (ground (arith, same (split_destination g.before), g.facts))
    ]

-- The operation at `id` is under way and is replaced by one about the same.
abbrev Replaced : Catalog → Catalog → ℕ → CatalogOperation → CatalogOperation → Type 0
Replaced c c' id old new =
    (get c.operations id ≡ some old)
    × (terminal old.phase ≡ false)
    × (new.id ≡ old.id)
    × (new.kind ≡ old.kind)
    × (new.shard ≡ old.shard)
    × Replaces c c' id new

was :
    (c c' : Catalog) (id i : ℕ) (old new op : CatalogOperation)
    → Replaced c c' id old new
    → get c'.operations i ≡ some op
    → ((i ≡ id) × (op ≡ new)) ⊎ ((i ≢ id) × (get c.operations i ≡ some op))
was c c' id i old new op r h = ground (arith, r, get-insert c.operations id i new)

module _ (c c' : Catalog) (id : ℕ) (old new : CatalogOperation) (r : Replaced c c' id old new)
    (w : Sound c) where
  replaced-keyed :
      (i : ℕ) (op : CatalogOperation)
      → get c'.operations i ≡ some op
      → (op.id ≡ i) × (i < c'.next_operation_id)
  replaced-keyed i op h =
      ground (arith, r, was c c' id i old new op r h, w.keyed i op, w.keyed i old)

  replaced-alone :
      (i j shard : ℕ) (op op' : CatalogOperation)
      → get c'.operations i ≡ some op
      → get c'.operations j ≡ some op'
      → op.shard ≡ some shard
      → op'.shard ≡ some shard
      → terminal op.phase ≡ false
      → terminal op'.phase ≡ false
      → i ≡ j
  replaced-alone i j shard op op' h h' s s' t t' = elim (was c c' id i old new op r h) [
    | inl here ↦ ground (arith, r, was c c' id j old new op' r h', w.alone i j shard old op')
    | inr there ↦ ground (
      arith,
      r,
      was c c' id j old new op' r h',
      w.alone i j shard op op',
      w.alone i j shard op old,
    )
  ]

  replaced-one_split :
      (i j : ℕ) (op op' : CatalogOperation)
      → get c'.operations i ≡ some op
      → get c'.operations j ≡ some op'
      → splitting op ≡ true
      → splitting op' ≡ true
      → i ≡ j
  replaced-one_split i j op op' h h' s s' = elim (was c c' id i old new op r h) [
    | inl here ↦ ground (arith, r, was c c' id j old new op' r h', w.one_split i j old op')
    | inr there ↦
        ground
          (arith, r, was c c' id j old new op' r h', w.one_split i j op op', w.one_split i j op old)
  ]

Advanced-Replaced : (c c' : Catalog) (id : ℕ) (a : Advanced c c' id) → Replaced c c' id a.old a.new
Advanced-Replaced c c' id a = ground (arith, a.moves, a.same)

pub Advanced-Sound : (c c' : Catalog) (id : ℕ) → Advanced c c' id → Sound c → Sound c'
Advanced-Sound c c' id a w =
    let r = Advanced-Replaced c c' id a in
    record {
      keyed = replaced-keyed c c' id a.old a.new r w;
      alone = replaced-alone c c' id a.old a.new r w;
      one_split = replaced-one_split c c' id a.old a.new r w;
      owned = λ i op h k e. elim (was c c' id i a.old a.new op r h) [
        | inl here ↦
            Owned-same c c' a.old op (a.moves.3) (ground (arith, a.same)) (ground (arith, a.same))
              (ground (arith, a.same))
              (w.owned i a.old (ground (arith, a.moves)) (ground (arith, a.same))
                (ground (arith, a.moves)))
        | inr there ↦ Owned-same c c' op op (a.moves.3) refl refl refl (w.owned i op there.1 k e)
      ];
      growing = λ i op h k e. elim (was c c' id i a.old a.new op r h) [
        | inl here ↦
            Growing-same c c' a.old op (a.moves.3) (a.moves.4) (ground (arith, a.same))
              (ground (arith, a.same)) (ground (arith, a.same))
              (w.growing i a.old (ground (arith, a.moves)) (ground (arith, a.same))
                (ground (arith, a.moves)))
        | inr there ↦
            Growing-same c c' op op (a.moves.3) (a.moves.4) refl refl refl
              (w.growing i op there.1 k e)
      ];
    }

CutOver-Replaced :
    (c c' : Catalog) (id : ℕ) (a : CutOver c c' id)
    → Replaced c c' id a.old (record a.old { phase = committed })
unfolding terminal
CutOver-Replaced c c' id a = ground (arith, a.evidence, a.effect)

pub CutOver-Sound : (c c' : Catalog) (id : ℕ) → CutOver c c' id → Sound c → Sound c'
unfolding terminal
CutOver-Sound c c' id a w =
    let new = record a.old { phase = committed } in
    let r = CutOver-Replaced c c' id a in
    record {
      keyed = replaced-keyed c c' id a.old new r w;
      alone = replaced-alone c c' id a.old new r w;
      one_split = replaced-one_split c c' id a.old new r w;
      owned = λ i op h k e. elim (was c c' id i a.old new op r h) [
        | inl here ↦ absurd (ground (arith, here))
        | inr there ↦
            let o = w.owned i op there.1 k e in
            record {
              shard = o.shard;
              placement = o.placement;
              facts = ground (
                arith,
                there,
                o.facts,
                a.current,
                a.evidence,
                a.effect,
                w.alone i id o.shard op a.old,
                get-insert c.placements a.shard o.shard (
                    moved a.placement (a.placement.generation + 1) a.placement.primary
                      a.destination),
              );
            }
      ];
      growing = λ i op h k e. elim (was c c' id i a.old new op r h) [
        | inl here ↦ absurd (ground (arith, here))
        | inr there ↦
            let g = w.growing i op there.1 k e in
            record {
              before = g.before;
              after = g.after;
              facts = ground (
                arith,
                g.facts,
                a.current,
                a.effect,
                get-insert c.placements a.shard (split_destination g.before) (
                    moved a.placement (a.placement.generation + 1) a.placement.primary
                      a.destination),
              );
            }
      ];
    }

Published-Replaced :
    (c c' : Catalog) (id : ℕ) (a : Published c c' id)
    → Replaced c c' id a.old (record a.old { phase = committed })
unfolding terminal
Published-Replaced c c' id a = ground (arith, a.evidence, a.effect)

pub Published-Sound : (c c' : Catalog) (id : ℕ) → Published c c' id → Sound c → Sound c'
unfolding terminal
Published-Sound c c' id a w =
    let new = record a.old { phase = committed } in
    let r = Published-Replaced c c' id a in
    let g = w.growing id a.old (a.evidence.0) (a.evidence.1) (ground (arith, a.evidence)) in
    record {
      keyed = replaced-keyed c c' id a.old new r w;
      alone = replaced-alone c c' id a.old new r w;
      one_split = replaced-one_split c c' id a.old new r w;
      owned = λ i op h k e. elim (was c c' id i a.old new op r h) [
        | inl here ↦ absurd (ground (arith, here))
        | inr there ↦
            let o = w.owned i op there.1 k e in
            record {
              shard = o.shard;
              placement = o.placement;
              facts = ground (
                arith,
                o.facts,
                g.facts,
                a.evidence,
                a.effect,
                get-insert c.placements (split_destination a.before) o.shard
                    (split_placement a.owner a.old.split_required_nodes),
              );
            }
      ];
      growing = λ i op h k e. elim (was c c' id i a.old new op r h) [
        | inl here ↦ absurd (ground (arith, here))
        | inr there ↦ absurd (ground (arith, there, a.evidence, w.one_split i id op a.old))
      ];
    }
