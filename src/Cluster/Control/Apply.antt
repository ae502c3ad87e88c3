-- ===== src/Cluster/Control/Apply.antt =====
-- src/cluster/control.rs: `CatalogControl::apply`, the change that a command makes to the catalog.
-- `accepted` is the answer of the token store, and counts where the code consumes a token. The two
-- early returns of `apply`, on voter changes that are done already, come before this.
use shardlite.Cluster.Control.Progress.{apply_transfer, apply_split}
use shardlite.Cluster.Catalog.Members.{
  remove_member, validate_join, set_member_state, set_member_policy, set_scaling_policy,
  begin_voter_change, finalize_voter_change,
}
use shardlite.Cluster.Catalog.Split.{start_split}
use shardlite.Cluster.Catalog.Operations.{
  start_join, record_join_catch_up, start_drain, prepare_join, commit_storage_join, complete_join,
  complete_drain,
}
use shardlite.Common.Text.{same_text}
use shardlite.Cluster.Catalog.{
  already_registered, bad_token, active_voter, no_operation, Result, ok, ◌>>=◌, ◌>>◌, guard, ok_or,
  Compatibility, is_voter_role, MemberState, active, cordoned, Member, join, transfer, drain,
  complete, is_kind, is_phase, terminal, CatalogOperation, Catalog, is_this,
}
use shardlite.Common.{
  ℕ, ◌&&◌, ◌==◌, Bool, true, false, not, Option, none, some, List, if◌then◌else◌,
}
use shardlite.Common.OrdMap.{get}
use shardlite.Cluster.Control.{
  CatalogCommand, join_node, join_with_token, finish_join, rebalance, transfer_step, split_step,
  cordon, member_policy, scaling_policy_to, drain_node, finish_drain, remove_node, begin_voters,
  finalize_voters, CommandResult,
}
use shardlite.Cluster.Rebalance.{
  RebalanceDecision, balanced, waiting, needs_split, move_shard, find_operation, plan_next,
}

abbrev pub answer : Catalog → Option ℕ → CommandResult
answer c operation = record { catalog = c; operation = operation; rebalance_decision = none }

abbrev pub started : Result (Catalog × ℕ) → Result CommandResult
started r = do s ← r; ok (answer s.0 (some s.1))

abbrev pub changed : Result Catalog → Option ℕ → Result CommandResult
changed r operation = do c ← r; ok (answer c operation)

abbrev pub id_of : Option CatalogOperation → Option ℕ
id_of none = none
id_of (some op) = some op.id

abbrev joined : ℕ → CatalogOperation → Bool
joined node op = is_kind op.kind join && is_this node op.destination

abbrev rejoin : Catalog → ℕ → CommandResult
rejoin c node = answer c (id_of (find_operation (joined node) c.operations))

abbrev pub same_member : Member → ℕ → List ℕ → Bool
same_member m incarnation address = m.incarnation == incarnation && same_text m.address address

unfoldable pub admit :
    Catalog
    → Option Member
    → Bool
    → Option (List ℕ)
    → Compatibility
    → ℕ
    → ℕ
    → List ℕ
    → Result CommandResult
unfolding start_join
admit c none accepted local compatibility node incarnation address = do
  guard accepted bad_token
  started (start_join c local compatibility node incarnation address)
admit c (some m) accepted local compatibility node incarnation address = do
  guard (same_member m incarnation address) (already_registered node)
  guard accepted bad_token
  ok (rejoin c node)

abbrev pub run_join : Catalog → ℕ → ℕ → Result Catalog
run_join c id version = do
  caught ← record_join_catch_up c id version
  ready ← prepare_join caught id
  stored ← commit_storage_join ready id
  complete_join stored id

abbrev pub finished_join : Catalog → ℕ → ℕ → Result Catalog
finished_join c id version = do
  op ← ok_or (get c.operations id) (no_operation id)
  if is_phase op.phase complete then ok c else run_join c id version

abbrev active_transfer : ℕ → CatalogOperation → Bool
active_transfer shard op =
    is_kind op.kind transfer && is_this shard op.shard && not (terminal op.phase)

abbrev planned_answer : Catalog → Option ℕ → RebalanceDecision → CommandResult
planned_answer c operation decision = record {
  catalog = c;
  operation = operation;
  rebalance_decision = some decision;
}

abbrev pub after_plan : Catalog → RebalanceDecision → Result CommandResult
after_plan c balanced = ok (planned_answer c none balanced)
after_plan c (waiting id) = ok (planned_answer c (some id) (waiting id))
after_plan c (needs_split shards members) = do
  s ← start_split c
  ok (planned_answer s.0 (some s.1) (needs_split shards members))
after_plan c (move_shard shard source destination generation) = ok (
    planned_answer c (id_of (find_operation (active_transfer shard) c.operations))
      (move_shard shard source destination generation))

abbrev pub rebalanced : Catalog → Result CommandResult
rebalanced c = do p ← plan_next c; after_plan p.0 p.1

abbrev pub drains_now : ℕ → CatalogOperation → Bool
drains_now node op = is_kind op.kind drain && is_this node op.source && not (terminal op.phase)

abbrev pub drain_once : Catalog → ℕ → Option CatalogOperation → Result CommandResult
drain_once c node none = started (start_drain c node)
drain_once c node (some op) = ok (answer c (some op.id))

abbrev votes : Option Member → Bool
votes none = false
votes (some m) = is_voter_role m.role

abbrev pub removed : Catalog → ℕ → Result Catalog
removed c node = do
  guard (not (votes (get c.members node))) (active_voter node)
  remove_member c node

abbrev pub cordon_state : Bool → MemberState
cordon_state true = cordoned
cordon_state false = active

unfoldable pub change : CatalogCommand → Bool → Catalog → Result CommandResult
unfolding admit validate_join apply_transfer apply_split set_member_state set_member_policy
    set_scaling_policy complete_drain begin_voter_change finalize_voter_change
change (join_node local compatibility node incarnation address) accepted c =
    admit c (get c.members node) true local compatibility node incarnation address
change (join_with_token token local compatibility node incarnation address) accepted c = do
  validate_join c local compatibility
  admit c (get c.members node) accepted local compatibility node incarnation address
change (finish_join id version) accepted c = changed (finished_join c id version) (some id)
change rebalance accepted c = rebalanced c
change (transfer_step id progress) accepted c = changed (apply_transfer c id progress) (some id)
change (split_step id progress) accepted c = changed (apply_split c id progress) (some id)
change (cordon node on) accepted c = changed (set_member_state c node (cordon_state on)) none
change (member_policy node w domain) accepted c = changed (set_member_policy c node w domain) none
change (scaling_policy_to policy) accepted c = changed (set_scaling_policy c policy) none
change (drain_node node) accepted c =
    drain_once c node (find_operation (drains_now node) c.operations)
change (finish_drain id) accepted c = changed (complete_drain c id) (some id)
change (remove_node node) accepted c = changed (removed c node) none
change (begin_voters voters) accepted c = changed (begin_voter_change c voters) none
change finalize_voters accepted c = changed (finalize_voter_change c) none
