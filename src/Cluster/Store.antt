-- ===== src/Cluster/Store.antt =====
-- src/cluster/catalog.rs: `CatalogStore`. A file holds the value that was written to it. `Write` is the
-- outcome of a write or of a removal: it succeeds, or it fails and leaves the file as it was, or only
-- the fsync of the directory fails: then the file is already replaced or removed, and the call
-- fails all the same. Equality is the derived one.
pub mod Votes
pub mod Changes
pub mod Backed
pub mod Starts
pub mod Promises
use shardlite.Common.Text.{same_text}
use shardlite.Cluster.Catalog.Operations.{saturating_succ}
use shardlite.Cluster.Catalog.{
  empty_text, Error, incompatible, foreign_cluster, empty_address, learner_target, zero_weight,
  bad_policy, already_registered, not_a_member, voter_change_active, empty_voters, same_voters,
  no_voter_change, learner_voter, already_placed, no_copies, incomplete_placements, no_eligible,
  bad_token, too_few_members, active_voter, still_used, last_voter, shard_busy, ids_exhausted,
  no_operation, out_of_order, join_active, drain_active, regressed, short_of, no_placement,
  may_not_receive, already_owns, not_linear, shard_limit, split_active, grows_no_further,
  destination_placed, not_required, missing_nodes, zero_epoch, wrong_epoch, no_snapshot,
  no_final_lsn, stale_cutover, exhausted, may_not_abort, panicked, invalid, Result, ok, err, ◌>>=◌,
  ◌>>◌, guard, ok_or, Compatibility, check, MemberRole, learner, storage, voter, is_learner,
  is_voter_role, MemberState, active, cordoned, draining, is_active, Member, may_receive_placement,
  ScalingPolicy, default_policy, validate_policy, ReplicaSet, VoterTransition, OperationKind, join,
  transfer, split, drain, removal, OperationPhase, planned, snapshotting, catching_up, prepared,
  fencing, installing, committed, cleaning, complete, aborted, kind_rank, phase_rank, is_kind,
  is_phase, terminal, may_abort, CatalogOperation, Catalog, CatalogProposal, is_this, same_opt,
  same_routing, checked_succ, with_operation, same_cluster,
}
use shardlite.Common.{
  ℕ, zero, suc, ◌+◌, ◌-◌, ◌*◌, ◌/◌, ◌%◌, ◌^◌, ◌<◌, ◌≤◌, ◌≡◌, ◌≢◌, ◌⊎◌, ◌&&◌, ◌||◌, ◌==◌, ◌++◌, refl,
  sym, ap, ◌∙◌, inl, inr, Bool, true, false, not, Option, none, some, List, [], ◌∷◌, map, arith,
  ltb, leb, if◌then◌else◌, length, All, Bool-cases, Option-cases,
}
use shardlite.Common.{is_some}
use native.Mathlib.Decide.{ℕ_discrete}
use shardlite.Cluster.Durability.{CatalogPosition}
use shardlite.Cluster.Catalog.Validation.{validate}

pub Catalog-discrete : Discrete Catalog
Catalog-discrete = hlevel (ℕ_discrete)

pub Proposal-discrete : Discrete CatalogProposal
Proposal-discrete = hlevel (ℕ_discrete, Catalog-discrete)

abbrev holds {ℓ} : {A : Type ℓ} → Dec A → Bool
holds (yes a) = true
holds (no f) = false

unfoldable pub same_catalog : Catalog → Catalog → Bool
unfolding Catalog-discrete
same_catalog c d = holds (Catalog-discrete c d)

unfoldable pub same_proposal : CatalogProposal → CatalogProposal → Bool
unfolding Proposal-discrete
same_proposal p q = holds (Proposal-discrete p q)

holds_lem {ℓ} : {A : Type ℓ} (d : Dec A) → holds d ≡ true → A
holds_lem (yes a) e = a
holds_lem (no f) e = absurd (ground arith)

pub same_catalog-eq : (c d : Catalog) → same_catalog c d ≡ true → c ≡ d
unfolding same_catalog
same_catalog-eq c d e = holds_lem (Catalog-discrete c d) e

pub same_proposal-eq : (p q : CatalogProposal) → same_proposal p q ≡ true → p ≡ q
unfolding same_proposal
same_proposal-eq p q e = holds_lem (Proposal-discrete p q) e

pub record CatalogStore : Type 0 where
  pub current : Catalog
  pub prepared_proposal : Option CatalogProposal
  pub file : Catalog
  pub prepared_file : Option CatalogProposal

pub data Write : Type 0 where
  stored : Write
  unstored : Write
  unsynced : Write

-- Errors of the store itself.
abbrev pub write_failed : Error
write_failed = panicked

unfoldable pub validate_proposal : Catalog → CatalogProposal → Result (Unit {0})
validate_proposal c p = do
  guard (p.expected_version == c.version && p.catalog.version == saturating_succ c.version)
      stale_cutover
  guard (same_text p.catalog.cluster_id c.cluster_id) foreign_cluster
  guard (leb c.routing_epoch p.catalog.routing_epoch)
      (regressed c.routing_epoch p.catalog.routing_epoch)
  check c.compatibility p.catalog.compatibility
  validate p.catalog

abbrev store_of : Catalog → Option CatalogProposal → CatalogStore
store_of c p = record { current = c; prepared_proposal = p; file = c; prepared_file = p }

-- The file that is left, and the store.
abbrev pub create_written : Write → Catalog → Option Catalog × Result CatalogStore
create_written stored c = (some c, ok (store_of c none))
create_written unstored c = (none, err write_failed)
create_written unsynced c = (some c, err write_failed)

abbrev pub create_valid :
    Bool → Write → Catalog → Result (Unit {0}) → Option Catalog × Result CatalogStore
create_valid exists write c (err why) = (none, err why)
create_valid exists write c (ok u) =
    if exists then (none, err already_placed) else create_written write c

-- The file that it writes, and the store.
unfoldable pub create : Bool → Write → Catalog → Option Catalog × Result CatalogStore
create exists write c = create_valid exists write c (validate c)

-- `remove_prepared`: the file that is left, and whether the call succeeds. A file that is not there is
-- no error.
abbrev pub removed_file : Write → Option CatalogProposal → Option CatalogProposal × Bool
removed_file outcome none = (none, true)
removed_file stored (some p) = (none, true)
removed_file unstored (some p) = (some p, false)
removed_file unsynced (some p) = (none, false)

abbrev pub opened_after :
    Catalog → Option CatalogProposal × Bool → Option CatalogProposal × Result CatalogStore
opened_after c (left, true) = (left, ok (store_of c none))
opened_after c (left, false) = (left, err write_failed)

-- What `open` makes of the two files: the prepared file that it leaves, and the store. A prepared value
-- that is the committed one is dropped, and its file is removed.
abbrev pub open_prepared :
    Write → Catalog → Option CatalogProposal → Option CatalogProposal × Result CatalogStore
open_prepared deleted c none = (none, ok (store_of c none))
open_prepared deleted c (some p) =
    if same_catalog c p.catalog
    then opened_after c (removed_file deleted (some p))
    else (some p, (do validate_proposal c p; ok (store_of c (some p))))

abbrev pub open_valid :
    Write
    → Catalog
    → Option CatalogProposal
    → Result (Unit {0})
    → Option CatalogProposal × Result CatalogStore
open_valid deleted c prepared_file (err why) = (prepared_file, err why)
open_valid deleted c prepared_file (ok u) = open_prepared deleted c prepared_file

unfoldable pub open_catalog :
    Write → Catalog → Option CatalogProposal → Option CatalogProposal × Result CatalogStore
open_catalog deleted c prepared_file = open_valid deleted c prepared_file (validate c)

abbrev pub with_current : CatalogStore → Catalog → CatalogStore
with_current s c = record s { current = c; file = c }

abbrev pub committing : Write → CatalogStore → Catalog → CatalogStore × Result (Unit {0})
committing stored s c = (with_current s c, ok tt)
committing unstored s c = (s, err write_failed)
committing unsynced s c = (record s { file = c }, err write_failed)

abbrev pub install_checked : Write → Catalog → CatalogStore → CatalogStore × Result (Unit {0})
install_checked written c s =
    if not (same_text c.cluster_id s.current.cluster_id)
    then (s, err foreign_cluster)
    else if ltb c.version s.current.version
    then (s, err (regressed s.current.version c.version))
    else if c.version == s.current.version
    then (s, if same_catalog c s.current then ok tt else err invalid)
    else if is_some s.prepared_proposal
    then (s, err stale_cutover)
    else committing written s c

abbrev pub or_fail :
    CatalogStore
    → Result (Unit {0})
    → CatalogStore × Result (Unit {0})
    → CatalogStore × Result (Unit {0})
or_fail s (ok u) next = next
or_fail s (err why) next = (s, err why)

unfoldable pub install_committed : Write → Catalog → CatalogStore → CatalogStore × Result (Unit {0})
install_committed written c s = or_fail s (validate c) (install_checked written c s)

-- `next.version.checked_add(1)` and `validate` on the changed copy.
abbrev pub next_value : Result Catalog → Result Catalog
next_value changed = do
  c ← changed
  version ← ok_or (checked_succ c.version) exhausted
  let d : Catalog = record c { version = version }
  validate d
  ok d

abbrev pub apply_next : Write → CatalogStore → Result Catalog → CatalogStore × Result (Unit {0})
apply_next written s (err why) = (s, err why)
apply_next written s (ok c) = committing written s c

-- The output of the change is left out.
unfoldable pub apply :
    Write → ℕ → (Catalog → Result Catalog) → CatalogStore → CatalogStore × Result (Unit {0})
apply written expected change s =
    if not (s.current.version == expected)
    then (s, err stale_cutover)
    else if is_some s.prepared_proposal
    then (s, err stale_cutover)
    else apply_next written s (next_value (change s.current))

unfoldable pub propose : ℕ → ℕ → (Catalog → Result Catalog) → CatalogStore → Result CatalogProposal
propose term expected change s = do
  guard (s.current.version == expected) stale_cutover
  c ← next_value (change s.current)
  ok (record { term = term; expected_version = expected; catalog = c })

abbrev pub keep_prepared : Write → CatalogProposal → CatalogStore → CatalogStore × Result (Unit {0})
keep_prepared stored p s = (record s { prepared_proposal = some p; prepared_file = some p }, ok tt)
keep_prepared unstored p s = (s, err write_failed)
keep_prepared unsynced p s = (record s { prepared_file = some p }, err write_failed)

abbrev pub prepare_over :
    Write
    → CatalogProposal
    → CatalogStore
    → Option CatalogProposal
    → CatalogStore × Result (Unit {0})
prepare_over written p s none = keep_prepared written p s
prepare_over written p s (some q) =
    if same_proposal q p
    then (s, ok tt)
    else if ltb p.term q.term
    then (s, err stale_cutover)
    else if q.term == p.term
    then (s, err stale_cutover)
    else keep_prepared written p s

unfoldable pub prepare : Write → CatalogProposal → CatalogStore → CatalogStore × Result (Unit {0})
prepare written p s =
    if s.current.version == p.catalog.version && same_catalog s.current p.catalog
    then (s, ok tt)
    else or_fail s (validate_proposal s.current p) (prepare_over written p s s.prepared_proposal)

abbrev pub dropped : CatalogStore → Option CatalogProposal × Bool → CatalogStore × Result (Unit {0})
dropped s (left, true) = (record s { prepared_proposal = none; prepared_file = left }, ok tt)
dropped s (left, false) = (record s { prepared_file = left }, err write_failed)

-- `remove_prepared`, and then the memory.
abbrev pub drop_prepared : Write → CatalogStore → CatalogStore × Result (Unit {0})
drop_prepared deleted s = dropped s (removed_file deleted s.prepared_file)

abbrev pub is_proposal : ℕ → ℕ → Option CatalogProposal → Bool
is_proposal term version none = false
is_proposal term version (some p) = p.term == term && p.catalog.version == version

abbrev pub commit_written :
    Write → Write → CatalogStore → Catalog → CatalogStore × Result (Unit {0})
commit_written stored deleted s c = drop_prepared deleted (with_current s c)
commit_written unstored deleted s c = (s, err write_failed)
commit_written unsynced deleted s c = (record s { file = c }, err write_failed)

abbrev pub commit_found :
    Write → Write → ℕ → ℕ → CatalogStore → Option CatalogProposal → CatalogStore × Result (Unit {0})
commit_found written deleted term version s none = (s, err stale_cutover)
commit_found written deleted term version s (some p) =
    if not (p.term == term && p.catalog.version == version)
    then (s, err stale_cutover)
    else commit_written written deleted s p.catalog

unfoldable pub commit_prepared :
    Write → Write → ℕ → ℕ → CatalogStore → CatalogStore × Result (Unit {0})
commit_prepared written deleted term version s =
    if s.current.version == version
    then (if is_proposal term version s.prepared_proposal
        then drop_prepared deleted s
        else (s, ok tt))
    else commit_found written deleted term version s s.prepared_proposal

abbrev position : (Catalog → List ℕ) → Catalog → CatalogPosition
position digest c = record { version = c.version; digest = digest c }

-- `digest` is the hash of the encoded catalog.
unfoldable pub durability_position : (Catalog → List ℕ) → CatalogStore → CatalogPosition
durability_position digest s = of_prepared s.prepared_proposal
  where
    of_prepared : Option CatalogProposal → CatalogPosition
    of_prepared none = position digest s.current
    of_prepared (some p) = position digest p.catalog
