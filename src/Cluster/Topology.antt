-- ===== src/Cluster/Topology.antt =====
-- src/cluster/catalog.rs: what a change does to the placements, the operations and the routing of a
-- catalog, as a step relation that says nothing of how the change computes it.
use shardlite.Cluster.Catalog.Transfer.{moved}
use shardlite.Cluster.Catalog.Operations.{busy, any_operation}
use shardlite.Cluster.Catalog.{
  empty_text, Error, incompatible, foreign_cluster, empty_address, learner_target, zero_weight,
  bad_policy, already_registered, not_a_member, voter_change_active, empty_voters, same_voters,
  no_voter_change, learner_voter, already_placed, no_copies, incomplete_placements, no_eligible,
  bad_token, too_few_members, active_voter, still_used, last_voter, shard_busy, ids_exhausted,
  no_operation, out_of_order, join_active, drain_active, regressed, short_of, no_placement,
  may_not_receive, already_owns, not_linear, shard_limit, split_active, grows_no_further,
  destination_placed, not_required, missing_nodes, zero_epoch, wrong_epoch, no_snapshot,
  no_final_lsn, stale_cutover, exhausted, may_not_abort, panicked, invalid, Result, ok, err, ◌>>=◌,
  ◌>>◌, guard, ok_or, Compatibility, check, MemberRole, learner, storage, voter, is_learner,
  is_voter_role, MemberState, active, cordoned, draining, is_active, Member, may_receive_placement,
  ScalingPolicy, default_policy, validate_policy, ReplicaSet, VoterTransition, OperationKind, join,
  transfer, split, drain, removal, OperationPhase, planned, snapshotting, catching_up, prepared,
  fencing, installing, committed, cleaning, complete, aborted, kind_rank, phase_rank, is_kind,
  is_phase, terminal, may_abort, CatalogOperation, Catalog, CatalogProposal, is_this, same_opt,
  same_routing, checked_succ, with_operation, same_cluster,
}
use shardlite.Common.{
  ℕ, zero, suc, ◌+◌, ◌-◌, ◌*◌, ◌/◌, ◌%◌, ◌^◌, ◌<◌, ◌≤◌, ◌≡◌, ◌≢◌, ◌⊎◌, ◌&&◌, ◌||◌, ◌==◌, ◌++◌, refl,
  sym, ap, ◌∙◌, inl, inr, Bool, true, false, not, Option, none, some, List, [], ◌∷◌, map, arith,
  ltb, leb, if◌then◌else◌, length, All, Bool-cases, Option-cases, is_some,
}
pub mod Effects
pub mod Refusals
pub mod Readiness
pub mod Keys
pub mod Soundness
pub mod Ownership
pub mod Progress
pub mod Commands
pub mod Memberships
pub mod Openings
pub mod Commits
pub mod SplitEffects
pub mod Invariant
pub mod Preserved
use shardlite.Common.OrdMap.{OrdMap, get, insert}
use shardlite.Common.OrdMap
use shardlite.Common.{or_else}
use shardlite.Shard.Routing.{
  Routing, LinearV1, linear_v1, grown, shard_count, split_source, split_destination,
}
use shardlite.Shard.Routing
use shardlite.Cluster.Catalog.Split.{is_subset, split_placement, splitting, max_shards}
use shardlite.Common.OrdSet.{contains}

-- The generation and the primary of a shard.
abbrev pub owner_of : Option ReplicaSet → Option (ℕ × ℕ)
owner_of none = none
owner_of (some p) = some (p.generation, p.primary)

abbrev pub SameOwners : OrdMap ReplicaSet → OrdMap ReplicaSet → Type 0
SameOwners ps ps' = (shard : ℕ) → owner_of (get ps' shard) ≡ owner_of (get ps shard)

-- Everything but the members, the voters, the policy and the version.
abbrev pub SameTopology : Catalog → Catalog → Type 0
SameTopology c c' =
    (c'.placements ≡ c.placements)
    × (c'.operations ≡ c.operations)
    × (c'.next_operation_id ≡ c.next_operation_id)
    × (c'.routing ≡ c.routing)

-- What an operation is about stays.
abbrev pub SameIdentity : CatalogOperation → CatalogOperation → Type 0
SameIdentity op op' =
    (op'.id ≡ op.id)
    × (op'.kind ≡ op.kind)
    × (op'.shard ≡ op.shard)
    × (op'.source ≡ op.source)
    × (op'.destination ≡ op.destination)
    × (op'.expected_generation ≡ op.expected_generation)
    × (op'.routing_before ≡ op.routing_before)
    × (op'.routing_after ≡ op.routing_after)
    × (op'.split_required_nodes ≡ op.split_required_nodes)

-- The operation at `id` is replaced, and no operation is new.
abbrev pub Replaces : Catalog → Catalog → ℕ → CatalogOperation → Type 0
Replaces c c' id op' =
    (c'.operations ≡ insert c.operations id op') × (c'.next_operation_id ≡ c.next_operation_id)

abbrev pub Moves : Catalog → Catalog → ℕ → CatalogOperation → CatalogOperation → Type 0
Moves c c' id op op' =
    (get c.operations id ≡ some op)
    × (terminal op.phase ≡ false)
    × (phase_rank op.phase ≤ phase_rank op'.phase)
    × SameOwners c.placements c'.placements
    × (c'.routing ≡ c.routing)
    × Replaces c c' id op'

-- A transfer or a split does not reach its commit, and does not come back from it, but it may be
-- aborted.
abbrev pub CommitsNothing : CatalogOperation → CatalogOperation → Type 0
CommitsNothing op op' =
    (ltb (phase_rank op.phase) (phase_rank committed)
      ≡ ltb (phase_rank op'.phase) (phase_rank committed))
    ⊎ (is_phase op'.phase aborted ≡ true)

abbrev pub moves_ownership : CatalogOperation → Bool
moves_ownership op = is_kind op.kind transfer || is_kind op.kind split

-- An operation that is under way moves on: its evidence changes, or its phase, never backwards and
-- not into the commit of a transfer or of a split.
pub record Advanced (c c' : Catalog) (id : ℕ) : Type 0 where
  pub old : CatalogOperation
  pub new : CatalogOperation
  pub same : SameIdentity old new
  pub moves : Moves c c' id old new
  pub commits : moves_ownership old ≡ true → CommitsNothing old new

-- The operation works on a shard that has an owner, under its present generation.
pub record Owned (c : Catalog) (op : CatalogOperation) : Type 0 where
  pub shard : ℕ
  pub placement : ReplicaSet
  pub facts :
      (op.shard ≡ some shard)
      × (get c.placements shard ≡ some placement)
      × (op.source ≡ some placement.primary)
      × (op.expected_generation ≡ some placement.generation)

-- The operation splits the next shard of the present routing, and the new shard is unplaced.
pub record Growing (c : Catalog) (op : CatalogOperation) : Type 0 where
  pub before : LinearV1
  pub after : LinearV1
  pub facts :
      (c.routing ≡ linear_v1 before)
      × (grown before ≡ Routing.ok after)
      × (shard_count before < max_shards)
      × (op.routing_before ≡ some (linear_v1 before))
      × (op.routing_after ≡ some (linear_v1 after))
      × (op.shard ≡ some (split_source before))
      × (get c.placements (split_destination before) ≡ none)

-- A new operation is planned. `start_transfer` and `start_split` name a shard, the others none.
pub record Opened (c c' : Catalog) : Type 0 where
  pub new : CatalogOperation
  pub facts :
      (c'.operations ≡ insert c.operations c.next_operation_id new)
      × (c'.next_operation_id ≡ c.next_operation_id + 1)
      × (c'.placements ≡ c.placements)
      × (c'.routing ≡ c.routing)
      × (new.id ≡ c.next_operation_id)
      × (phase_rank new.phase ≡ 0)
      × (busy c new.shard ≡ false)
  pub owned : moves_ownership new ≡ true → Owned c new
  pub unsplit : is_kind new.kind split ≡ true → any_operation splitting c.operations ≡ false
  pub growing : is_kind new.kind split ≡ true → Growing c new

-- A fenced transfer takes effect.
pub record CutOver (c c' : Catalog) (id : ℕ) : Type 0 where
  pub old : CatalogOperation
  pub shard : ℕ
  pub placement : ReplicaSet
  pub destination : ℕ
  pub final : ℕ
  pub evidence :
      (get c.operations id ≡ some old)
      × (is_kind old.kind transfer ≡ true)
      × (phase_rank old.phase ≡ phase_rank fencing)
      × (old.destination ≡ some destination)
      × (is_some old.snapshot_lsn ≡ true)
      × (old.final_lsn ≡ some final)
      × (final ≤ or_else 0 old.durable_lsn)
  pub current :
      (old.shard ≡ some shard)
      × (old.source ≡ some placement.primary)
      × (old.expected_generation ≡ some placement.generation)
      × (get c.placements shard ≡ some placement)
  pub effect :
      (c'.placements
        ≡ insert c.placements shard
            (moved placement (placement.generation + 1) placement.primary destination))
      × (c'.routing ≡ c.routing)
      × Replaces c c' id (record old { phase = committed })

-- A split that all its nodes have installed takes effect.
pub record Published (c c' : Catalog) (id : ℕ) : Type 0 where
  pub old : CatalogOperation
  pub owner : ℕ
  pub before : LinearV1
  pub after : Routing
  pub evidence :
      (get c.operations id ≡ some old)
      × (is_kind old.kind split ≡ true)
      × (phase_rank old.phase ≡ phase_rank installing)
      × (is_some old.final_lsn ≡ true)
      × (is_subset old.split_required_nodes old.split_installed_nodes ≡ true)
      × (old.source ≡ some owner)
      × (old.routing_before ≡ some (linear_v1 before))
      × (old.routing_after ≡ some after)
  pub effect :
      (c'.placements
        ≡ insert c.placements
            (split_destination before)
            (split_placement owner old.split_required_nodes))
      × (c'.routing ≡ after)
      × Replaces c c' id (record old { phase = committed })

pub data Step (c c' : Catalog) : Type 0 where
  unrelated : SameTopology c c' → Step c c'
  opened : Opened c c' → Step c c'
  advanced : (id : ℕ) → Advanced c c' id → Step c c'
  cut_over : (id : ℕ) → CutOver c c' id → Step c c'
  published : (id : ℕ) → Published c c' id → Step c c'

-- A step that is about no transfer and no split that is under way.
pub data Quiet (c c' : Catalog) : Type 0 where
  aside : SameTopology c c' → Quiet c c'
  plans : Opened c c' → Quiet c c'
  membership : (id : ℕ) → (a : Advanced c c' id) → moves_ownership a.old ≡ false → Quiet c c'

pub data Quiets : Catalog → Catalog → Type 0 where
  rest : (c : Catalog) → Quiets c c
  then_quiet : (c d e : Catalog) → Quiets c d → Quiet d e → Quiets c e

-- One step of any sort, or quiet steps only.
pub data Made (c c' : Catalog) : Type 0 where
  at_once : Step c c' → Made c c'
  quietly : Quiets c c' → Made c c'

pub data Steps : Catalog → Catalog → Type 0 where
  stay : (c : Catalog) → Steps c c
  then_step : (c d e : Catalog) → Steps c d → Step d e → Steps c e

Quiet-Step : (c c' : Catalog) → Quiet c c' → Step c c'
Quiet-Step c c' (aside s) = unrelated s
Quiet-Step c c' (plans o) = opened o
Quiet-Step c c' (membership id a m) = advanced id a

Quiets-Steps : (c c' : Catalog) → Quiets c c' → Steps c c'
Quiets-Steps _ _ (rest c) = stay c
Quiets-Steps _ _ (then_quiet c d c' q s) = then_step c d c' (Quiets-Steps c d q) (Quiet-Step d c' s)

pub Made-Steps : (c c' : Catalog) → Made c c' → Steps c c'
Made-Steps c c' (at_once s) = then_step c c c' (stay c) s
Made-Steps c c' (quietly q) = Quiets-Steps c c' q
