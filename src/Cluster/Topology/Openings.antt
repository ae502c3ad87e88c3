-- ===== src/Cluster/Topology/Openings.antt =====
-- src/cluster/catalog.rs: the operations that are planned, as steps.
use shardlite.Cluster.Catalog.Split.{lift, planned_split, start_split, linear_of, copies}
use shardlite.Cluster.Catalog.{
  ok, Compatibility, MemberState, draining, ReplicaSet, OperationKind, join, transfer, split, drain,
  is_kind, CatalogOperation, Catalog, Result-cases,
}
use shardlite.Cluster.Catalog.Transfer.{start_transfer}
use shardlite.Cluster.Catalog.Members.{set_member_state, add_learner}
use shardlite.Cluster.Catalog.Operations.{
  start_operation, busy, new_operation, start_drain, start_join,
}
use shardlite.Common.{
  ℕ, ◌+◌, ◌≡◌, refl, inl, inr, false, Option, none, some, List, arith, Option-cases,
}
use shardlite.Common.OrdMap.{get, insert, get-insert, insert-insert}
use shardlite.Cluster.Topology.{SameTopology, Opened, contains, Routing, split_source, grown}
use shardlite.Shard.Routing.{modulo_v1, linear_v1, LinearV1}
use shardlite.Shard.Routing

start_operation-ok :
    (c : Catalog) (s : Catalog × ℕ) (kind : OperationKind)
    (shard source destination generation : Option ℕ)
    → start_operation c kind shard source destination generation ≡ ok s
    → (s.1 ≡ c.next_operation_id)
      × (busy c shard ≡ false)
      × (s.0 ≡ record c {
        operations =
            insert c.operations c.next_operation_id
              (new_operation c kind shard source destination generation);
        next_operation_id = c.next_operation_id + 1;
      })
unfolding start_operation
start_operation-ok c s kind shard source destination generation e = ground arith

-- The catalog with the new operation, and the operation in it replaced by one of its own.
began :
    (c : Catalog) (s : Catalog × ℕ) (op : CatalogOperation) (kind : OperationKind)
    (shard source destination generation : Option ℕ)
    → start_operation c kind shard source destination generation ≡ ok s
    → (get s.0.operations s.1 ≡ some (new_operation c kind shard source destination generation))
      × (insert s.0.operations s.1 op ≡ insert c.operations c.next_operation_id op)
      × (s.0.next_operation_id ≡ c.next_operation_id + 1)
      × (s.0.placements ≡ c.placements)
      × (s.0.routing ≡ c.routing)
      × (busy c shard ≡ false)
began c s op kind shard source destination generation e =
    let new = new_operation c kind shard source destination generation in
    ground (
      arith,
      start_operation-ok c s kind shard source destination generation e,
      get-insert c.operations c.next_operation_id c.next_operation_id new,
      insert-insert c.operations c.next_operation_id new op,
    )

abbrev pub transfer_plan : Catalog → ℕ → ℕ → ReplicaSet → CatalogOperation
transfer_plan c shard destination p =
    record (new_operation c transfer (some shard) (some p.primary) (some destination)
      (some p.generation)) { retain_source_replica = contains p.replicas destination }

linear_of-ok : (r : Routing) (l : LinearV1) → linear_of r ≡ ok l → r ≡ linear_v1 l
linear_of-ok (modulo_v1 r) l e = absurd (ground arith)
linear_of-ok (linear_v1 r) l e = ground arith

lift-ok : (r : Routing.Result LinearV1) (l : LinearV1) → lift r ≡ ok l → r ≡ Routing.ok l
lift-ok (Routing.ok r) l e = ground arith
lift-ok (Routing.err r) l e = absurd (ground arith)

pub start_transfer-Opened :
    (c : Catalog) (s : Catalog × ℕ) (shard destination : ℕ)
    → start_transfer c shard destination ≡ ok s
    → Opened c s.0
unfolding start_transfer
start_transfer-Opened c s shard destination e = elim (Option-cases (get c.placements shard)) [
  | inl unplaced ↦ absurd (ground arith)
  | inr (p, found) ↦
      elim (Result-cases (
        start_operation c transfer (some shard) (some p.primary) (some destination)
          (some p.generation))) [
            | inr (why, failed) ↦ absurd (ground arith)
            | inl (t, ok_t) ↦ record {
              new = transfer_plan c shard destination p;
              facts = ground (
                arith,
                began c t (transfer_plan c shard destination p) transfer (some shard)
                    (some p.primary) (some destination) (some p.generation) ok_t,
              );
              owned = λ _. record { shard = shard; placement = p; facts = ground arith };
              unsplit = λ h. absurd (ground arith);
              growing = λ h. absurd (ground arith);
            }
          ]
]

abbrev pub split_plan : Catalog → LinearV1 → LinearV1 → ReplicaSet → CatalogOperation
split_plan c before after p =
    planned_split
      (new_operation c split (some (split_source before)) (some p.primary) (some p.primary)
        (some p.generation))
      (linear_v1 before) (linear_v1 after) (copies p)

pub start_split-Opened : (c : Catalog) (s : Catalog × ℕ) → start_split c ≡ ok s → Opened c s.0
unfolding start_split
start_split-Opened c s e = elim (Result-cases (linear_of c.routing)) [
  | inr (why, failed) ↦ absurd (ground arith)
  | inl (r, linear) ↦ elim (Option-cases (get c.placements (split_source r))) [
    | inl unplaced ↦ absurd (ground arith)
    | inr (p, found) ↦ elim (Result-cases (lift (grown r))) [
      | inr (why, failed) ↦ absurd (ground arith)
      | inl (next, grows) ↦
          elim (Result-cases (
            start_operation c split (some (split_source r)) (some p.primary) (some p.primary)
              (some p.generation))) [
                | inr (why, failed) ↦ absurd (ground arith)
                | inl (t, ok_t) ↦ record {
                  new = split_plan c r next p;
                  facts = ground (
                    arith,
                    linear_of-ok c.routing r linear,
                    began c t (split_plan c r next p) split (some (split_source r)) (some p.primary)
                        (some p.primary) (some p.generation) ok_t,
                  );
                  owned =
                      λ _. record { shard = split_source r; placement = p; facts = ground arith };
                  unsplit = λ _. ground arith;
                  growing = λ _. record {
                    before = r;
                    after = next;
                    facts =
                        ground
                          (arith, linear_of-ok c.routing r linear, lift-ok (grown r) next grows);
                  };
                }
              ]
    ]
  ]
]

moved_member :
    (c c' : Catalog) (node : ℕ) (state : MemberState)
    → set_member_state c node state ≡ ok c'
    → SameTopology c c'
unfolding set_member_state
moved_member c c' node state e = ground arith

added_learner :
    (c c' : Catalog) (node incarnation : ℕ) (address : List ℕ)
    → add_learner c node incarnation address ≡ ok c'
    → SameTopology c c'
unfolding add_learner
added_learner c c' node incarnation address e = ground arith

-- An operation of a kind that moves no data, planned after a change of the members.
without_shard :
    (c d : Catalog) (s : Catalog × ℕ) (kind : OperationKind) (source destination : Option ℕ)
    → SameTopology c d
    → is_kind kind transfer ≡ false
    → is_kind kind split ≡ false
    → start_operation d kind none source destination none ≡ ok s
    → Opened c s.0
without_shard c d s kind source destination same t p e = record {
  new = new_operation d kind none source destination none;
  facts = ground (arith, start_operation-ok d s kind none source destination none e);
  owned = λ h. absurd (ground arith);
  unsplit = λ h. absurd (ground arith);
  growing = λ h. absurd (ground arith);
}

pub start_drain-Opened :
    (c : Catalog) (s : Catalog × ℕ) (node : ℕ) → start_drain c node ≡ ok s → Opened c s.0
unfolding start_drain
start_drain-Opened c s node e = elim (Result-cases (set_member_state c node draining)) [
  | inr (why, failed) ↦ absurd (ground arith)
  | inl (d, moved) ↦
      without_shard c d s drain (some node) none (moved_member c d node draining moved) refl refl
        (ground arith)
]

pub start_join-Opened :
    (c : Catalog) (s : Catalog × ℕ) (local : Option (List ℕ)) (compatibility : Compatibility)
    (node incarnation : ℕ) (address : List ℕ)
    → start_join c local compatibility node incarnation address ≡ ok s
    → Opened c s.0
unfolding start_join
start_join-Opened c s local compatibility node incarnation address e =
    elim (Result-cases (add_learner c node incarnation address)) [
      | inr (why, failed) ↦ absurd (ground arith)
      | inl (d, added) ↦
          without_shard c d s join none (some node)
            (added_learner c d node incarnation address added) refl refl (ground arith)
    ]
