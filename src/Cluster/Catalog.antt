-- ===== src/Cluster/Catalog.antt =====
-- src/cluster/catalog.rs: the catalog's data and its small operations. Every version, epoch and id is
-- a u64. A function that changes the catalog returns the new one or an error: its callers work on a
-- copy, which an error discards. A text or a cluster id is its bytes.
pub mod Members
pub mod Operations
pub mod Transfer
pub mod Split
pub mod Validation
pub mod Placing
pub mod Checked
use shardlite.Common.{
  ℕ, zero, suc, ◌+◌, ◌-◌, ◌*◌, ◌/◌, ◌%◌, ◌^◌, ◌<◌, ◌≤◌, ◌≡◌, ◌≢◌, ◌⊎◌, ◌&&◌, ◌||◌, ◌==◌, ◌++◌, refl,
  sym, ap, ◌∙◌, inl, inr, Bool, true, false, not, Option, none, some, List, [], ◌∷◌, map, arith,
  ltb, leb, if◌then◌else◌, length, All, Bool-cases, Option-cases,
}
use Prim.Native.Nat.{max}
use shardlite.Common.Decimal.{u64}
use shardlite.Common.OrdMap.{OrdMap, get, insert}
use shardlite.Common.Text.{same_text, trim}
use shardlite.Shard.Routing.{Routing, modulo_v1, linear_v1}

abbrev pub empty_text : List ℕ → Bool
empty_text [] = true
empty_text (x ∷ xs) = false

pub data Error : Type 0 where
  incompatible : Error
  foreign_cluster empty_address learner_target zero_weight bad_policy : Error
  already_registered not_a_member : ℕ → Error
  voter_change_active empty_voters same_voters no_voter_change : Error
  learner_voter : ℕ → Error
  already_placed no_copies incomplete_placements no_eligible bad_token : Error
  too_few_members : ℕ → ℕ → Error
  active_voter : ℕ → Error
  still_used : ℕ → ℕ → Error
  last_voter : Error
  shard_busy : ℕ → Error
  ids_exhausted : Error
  no_operation : ℕ → Error
  out_of_order : ℕ → Error
  join_active drain_active : ℕ → Error
  regressed : ℕ → ℕ → Error
  short_of : ℕ → ℕ → Error
  no_placement : ℕ → Error
  may_not_receive already_owns : ℕ → Error
  not_linear shard_limit split_active grows_no_further : Error
  destination_placed : ℕ → Error
  not_required : ℕ → Error
  missing_nodes : Error
  zero_epoch : Error
  wrong_epoch : ℕ → Error
  no_snapshot no_final_lsn stale_cutover exhausted : Error
  may_not_abort : ℕ → Error
  panicked : Error
  invalid : Error

pub data Result {ℓ} (A : Type ℓ) : Type ℓ where
  ok : A → Result A
  err : Error → Result A

pub Result-cases {ℓ} :
    {A : Type ℓ} (r : Result A) → ((a : A) × (r ≡ ok a)) ⊎ ((e : Error) × (r ≡ err e))
Result-cases (ok a) = inl (a, refl)
Result-cases (err e) = inr (e, refl)

-- `?` on a result that is used, and on one that only has to succeed.
abbrev pub ◌>>=◌ {ℓ κ} : {A : Type ℓ} {B : Type κ} → Result A → (A → Result B) → Result B
err why >>= next = err why
ok a >>= next = next a

-- An early return with an error, when the test fails.
abbrev pub guard : Bool → Error → Result (Unit {0})
guard test why = if test then ok tt else err why

abbrev pub ◌>>◌ {κ} : {B : Type κ} → Result (Unit {0}) → Result B → Result B
err why >> rest = err why
ok u >> rest = rest

infixl 5 ◌>>◌ ◌>>=◌
-- `ok_or_else`, and `expect`, whose error is a panic.
abbrev pub ok_or {ℓ} : {A : Type ℓ} → Option A → Error → Result A
ok_or none e = err e
ok_or (some a) e = ok a

pub record Compatibility : Type 0 where
  pub directory_format : ℕ
  pub sqlite_version : List ℕ
  pub page_size : ℕ
  pub routing_scheme : List ℕ
  pub hash_scheme : List ℕ

-- Which value differs is left out of the error.
unfoldable pub check : Compatibility → Compatibility → Result (Unit {0})
check c d =
    guard
      (c.directory_format == d.directory_format
        && same_text c.sqlite_version d.sqlite_version
        && c.page_size == d.page_size
        && same_text c.routing_scheme d.routing_scheme
        && same_text c.hash_scheme d.hash_scheme)
      incompatible

pub data MemberRole : Type 0 where
  learner storage voter : MemberRole

abbrev pub is_learner : MemberRole → Bool
is_learner learner = true
is_learner _ = false

abbrev pub is_voter_role : MemberRole → Bool
is_voter_role voter = true
is_voter_role _ = false

pub data MemberState : Type 0 where
  active cordoned draining : MemberState

abbrev pub is_active : MemberState → Bool
is_active active = true
is_active _ = false

pub record Member : Type 0 where
  pub node : ℕ
  pub incarnation : ℕ
  pub address : List ℕ
  pub role : MemberRole
  pub state : MemberState
  pub capacity_weight : ℕ
  pub failure_domain : Option (List ℕ)

unfoldable pub may_receive_placement : Member → Bool
may_receive_placement m = not (is_learner m.role) && is_active m.state

pub record ScalingPolicy : Type 0 where
  pub split_log_max_rows : ℕ
  pub split_backfill_batch_rows : ℕ
  pub max_split_source_bytes : ℕ
  pub max_transfer_source_bytes : ℕ
  pub max_concurrent_topology_operations : ℕ

abbrev pub default_policy : ScalingPolicy
default_policy = record {
  split_log_max_rows = 100_000;
  split_backfill_batch_rows = 2_048;
  max_split_source_bytes = 0;
  max_transfer_source_bytes = 0;
  max_concurrent_topology_operations = 1;
}

unfoldable pub validate_policy : ScalingPolicy → Result (Unit {0})
validate_policy p = do
  guard (not (p.split_log_max_rows == 0)) bad_policy
  guard (not (p.split_backfill_batch_rows == 0)) bad_policy
  guard (p.max_concurrent_topology_operations == 1) bad_policy

pub record ReplicaSet : Type 0 where
  pub generation : ℕ
  pub primary : ℕ
  pub replicas : List ℕ

pub record VoterTransition : Type 0 where
  pub old_voters : List ℕ
  pub new_voters : List ℕ

pub data OperationKind : Type 0 where
  join transfer split drain removal : OperationKind

pub data OperationPhase : Type 0 where
  planned snapshotting catching_up prepared fencing installing committed cleaning complete aborted :
      OperationPhase

-- Each kind and phase as a number, for the comparisons and for their order.
abbrev pub kind_rank : OperationKind → ℕ
kind_rank join = 0
kind_rank transfer = 1
kind_rank split = 2
kind_rank drain = 3
kind_rank removal = 4

abbrev pub phase_rank : OperationPhase → ℕ
phase_rank planned = 0
phase_rank snapshotting = 1
phase_rank catching_up = 2
phase_rank prepared = 3
phase_rank fencing = 4
phase_rank installing = 5
phase_rank committed = 6
phase_rank cleaning = 7
phase_rank complete = 8
phase_rank aborted = 9

abbrev pub is_kind : OperationKind → OperationKind → Bool
is_kind k l = kind_rank k == kind_rank l

abbrev pub is_phase : OperationPhase → OperationPhase → Bool
is_phase p q = phase_rank p == phase_rank q

unfoldable pub terminal : OperationPhase → Bool
terminal p = is_phase p complete || is_phase p aborted

unfoldable pub may_abort : OperationPhase → Bool
may_abort p =
    is_phase p planned || is_phase p snapshotting || is_phase p catching_up || is_phase p prepared

pub record CatalogOperation : Type 0 where
  pub id : ℕ
  pub kind : OperationKind
  pub phase : OperationPhase
  pub shard : Option ℕ
  pub source : Option ℕ
  pub destination : Option ℕ
  pub expected_generation : Option ℕ
  pub stream_epoch : Option ℕ
  pub snapshot_lsn : Option ℕ
  pub durable_lsn : Option ℕ
  pub final_lsn : Option ℕ
  pub catalog_version : Option ℕ
  pub routing_before : Option Routing
  pub routing_after : Option Routing
  pub retain_source_replica : Bool
  pub split_required_nodes : List ℕ
  pub split_installed_nodes : List ℕ
  pub split_cleaned_nodes : List ℕ
  pub created_version : ℕ
  pub last_error : Option (List ℕ)

pub record Catalog : Type 0 where
  pub format_version : ℕ
  pub cluster_id : List ℕ
  pub version : ℕ
  pub routing_epoch : ℕ
  pub compatibility : Compatibility
  pub routing : Routing
  pub scaling_policy : ScalingPolicy
  pub members : OrdMap Member
  pub voter_transition : Option VoterTransition
  pub placements : OrdMap ReplicaSet
  pub operations : OrdMap CatalogOperation
  pub next_operation_id : ℕ

pub record CatalogProposal : Type 0 where
  pub term : ℕ
  pub expected_version : ℕ
  pub catalog : Catalog

abbrev pub is_this : ℕ → Option ℕ → Bool
is_this n none = false
is_this n (some k) = k == n

abbrev pub same_opt : Option ℕ → Option ℕ → Bool
same_opt none none = true
same_opt (some n) (some k) = n == k
same_opt _ _ = false

-- The derived equality.
abbrev pub same_routing : Routing → Routing → Bool
same_routing (modulo_v1 r) (modulo_v1 s) = r.shard_count == s.shard_count
same_routing (linear_v1 r) (linear_v1 s) = r.level == s.level && r.split_pointer == s.split_pointer
same_routing _ _ = false

-- `checked_add(1)` in u64.
abbrev pub checked_succ : ℕ → Option ℕ
checked_succ n = if n + 1 == u64 then none else some (n + 1)

abbrev pub with_operation : Catalog → ℕ → CatalogOperation → Catalog
with_operation c id op = record c { operations = insert c.operations id op }

abbrev pub same_cluster : Option (List ℕ) → List ℕ → Bool
same_cluster none id = true
same_cluster (some other) id = same_text other id
