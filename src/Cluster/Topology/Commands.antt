-- ===== src/Cluster/Topology/Commands.antt =====
-- src/cluster/control.rs: every command is one topology step, or quiet steps only.
use shardlite.Cluster.Catalog.Members.{
  set_member_state, set_member_policy, set_scaling_policy, begin_voter_change,
  finalize_voter_change,
}
use shardlite.Cluster.Control.Progress.{apply_transfer, apply_split}
use shardlite.Cluster.Topology.Memberships.{
  remove_member-SameTopology, record_join_catch_up-Quiets, set_member_state-SameTopology,
  prepare_join-Membership, commit_storage_join-Membership, complete_join-Membership,
  set_member_policy-SameTopology, set_scaling_policy-SameTopology, complete_drain-Membership,
  begin_voter_change-SameTopology, finalize_voter_change-SameTopology, record_join_catch_up-Quiets,
  Membership-Quiet, prepare_join-Membership, complete_drain-Membership,
  commit_storage_join-Membership, complete_join-Membership,
}
use shardlite.Cluster.Catalog.Split.{start_split}
use shardlite.Cluster.Catalog.Transfer.{start_transfer}
use shardlite.Cluster.Topology.Openings.{
  start_join-Opened, start_drain-Opened, start_transfer-Opened, start_split-Opened,
}
use shardlite.Cluster.Topology.Progress.{apply_transfer-Step, apply_split-Step}
use shardlite.Cluster.Catalog.Operations.{
  start_join, start_drain, record_join_catch_up, prepare_join, commit_storage_join, complete_drain,
}
use shardlite.Cluster.Control.Apply.{
  changed, started, admit, finished_join, after_plan, drain_once, change, rebalanced, removed,
  cordon_state, drains_now,
}
use shardlite.Cluster.Catalog.{
  Result, ok, err, Compatibility, Member, complete, is_phase, CatalogOperation, Catalog,
  Result-cases,
}
use shardlite.Common.{
  ℕ, ◌≡◌, refl, inl, inr, Bool, true, Option, none, some, List, arith, Bool-cases, Option-cases,
  subst,
}
use shardlite.Common.OrdMap.{get}
use shardlite.Cluster.Topology.{
  Steps, unrelated, Opened, Quiet, Quiets, SameTopology, Made, Made-Steps, then_quiet, plans, rest,
  at_once, quietly,
}
use shardlite.Cluster.Control.{
  CatalogCommand, join_node, join_with_token, finish_join, rebalance, transfer_step, split_step,
  cordon, member_policy, scaling_policy_to, drain_node, finish_drain, remove_node, begin_voters,
  finalize_voters, CommandResult,
}
use shardlite.Cluster.Rebalance.{
  RebalanceDecision, balanced, waiting, needs_split, move_shard, persist_move, plan_next,
  next_rebalance, find_operation,
}

one_step : (c c' : Catalog) → Quiet c c' → Quiets c c'
one_step c c' s = then_quiet c c c' (rest c) s

changed-ok :
    (r : Result Catalog) (operation : Option ℕ) (out : CommandResult)
    → changed r operation ≡ ok out
    → r ≡ ok out.catalog
changed-ok (ok c) operation out e = ground arith
changed-ok (err why) operation out e = absurd (ground arith)

started-Quiets :
    (c : Catalog) (r : Result (Catalog × ℕ)) (out : CommandResult)
    → ((s : Catalog × ℕ) → r ≡ ok s → Opened c s.0)
    → started r ≡ ok out
    → Quiets c out.catalog
started-Quiets c (ok s) out f e =
    let same : s.0 ≡ out.catalog = ground arith in
    subst (λ d. Quiets c d) same (one_step c s.0 (plans (f s refl)))
started-Quiets c (err why) out f e = absurd (ground arith)

unchanged-Quiets : (c : Catalog) (out : CommandResult) → c ≡ out.catalog → Quiets c out.catalog
unchanged-Quiets c out same = subst (λ d. Quiets c d) same (rest c)

admit-Quiets :
    (c : Catalog) (found : Option Member) (accepted : Bool) (local : Option (List ℕ))
    (compatibility : Compatibility) (node incarnation : ℕ) (address : List ℕ) (out : CommandResult)
    → admit c found accepted local compatibility node incarnation address ≡ ok out
    → Quiets c out.catalog
unfolding admit
admit-Quiets c none accepted local compatibility node incarnation address out e =
    started-Quiets c (start_join c local compatibility node incarnation address) out
      (λ s h. start_join-Opened c s local compatibility node incarnation address h) (ground arith)
admit-Quiets c (some m) accepted local compatibility node incarnation address out e =
    unchanged-Quiets c out (ground arith)

finished_join-Quiets :
    (c c' : Catalog) (id version : ℕ) → finished_join c id version ≡ ok c' → Quiets c c'
finished_join-Quiets c c' id version e = elim (Option-cases (get c.operations id)) [
  | inl none_found ↦ absurd (ground arith)
  | inr (op, found) ↦ elim (Bool-cases (is_phase op.phase complete)) [
    | inl done ↦ let same : c ≡ c' = ground arith in subst (λ d. Quiets c d) same (rest c)
    | inr still ↦ elim (Result-cases (record_join_catch_up c id version)) [
      | inr (why, failed) ↦ absurd (ground arith)
      | inl (d1, s1) ↦ elim (Result-cases (prepare_join d1 id)) [
        | inr (why, failed) ↦ absurd (ground arith)
        | inl (d2, s2) ↦ elim (Result-cases (commit_storage_join d2 id)) [
          | inr (why, failed) ↦ absurd (ground arith)
          | inl (d3, s3) ↦
              then_quiet c d3 c'
                (then_quiet c d2 d3
                  (then_quiet c d1 d2 (record_join_catch_up-Quiets c d1 id version s1)
                    (Membership-Quiet d1 d2 id (prepare_join-Membership d1 d2 id s2)))
                  (Membership-Quiet d2 d3 id (commit_storage_join-Membership d2 d3 id s3)))
                (Membership-Quiet d3 c' id (complete_join-Membership d3 c' id (ground arith)))
        ]
      ]
    ]
  ]
]

persist_move-Quiets :
    (c c' : Catalog) (decision : RebalanceDecision) → persist_move c decision ≡ ok c' → Quiets c c'
persist_move-Quiets c c' (move_shard shard source destination generation) e =
    elim (Result-cases (start_transfer c shard destination)) [
      | inr (why, failed) ↦ absurd (ground arith)
      | inl (s, began) ↦
          let same : s.0 ≡ c' = ground arith in
          subst (λ d. Quiets c d) same
            (one_step c s.0 (plans (start_transfer-Opened c s shard destination began)))
    ]
persist_move-Quiets c c' balanced e =
    let same : c ≡ c' = ground arith in subst (λ d. Quiets c d) same (rest c)
persist_move-Quiets c c' (waiting id) e =
    let same : c ≡ c' = ground arith in subst (λ d. Quiets c d) same (rest c)
persist_move-Quiets c c' (needs_split a b) e =
    let same : c ≡ c' = ground arith in subst (λ d. Quiets c d) same (rest c)

after_plan-Quiets :
    (b c : Catalog) (decision : RebalanceDecision) (out : CommandResult)
    → Quiets b c
    → after_plan c decision ≡ ok out
    → Quiets b out.catalog
after_plan-Quiets b c (needs_split shards members) out before e =
    elim (Result-cases (start_split c)) [
      | inr (why, failed) ↦ absurd (ground arith)
      | inl (s, began) ↦
          let same : s.0 ≡ out.catalog = ground arith in
          subst (λ d. Quiets b d) same
            (then_quiet b c s.0 before (plans (start_split-Opened c s began)))
    ]
after_plan-Quiets b c balanced out before e =
    let same : c ≡ out.catalog = ground arith in subst (λ d. Quiets b d) same before
after_plan-Quiets b c (waiting id) out before e =
    let same : c ≡ out.catalog = ground arith in subst (λ d. Quiets b d) same before
after_plan-Quiets b c (move_shard s f d g) out before e =
    let same : c ≡ out.catalog = ground arith in subst (λ x. Quiets b x) same before

rebalanced-Quiets :
    (c : Catalog) (out : CommandResult) → rebalanced c ≡ ok out → Quiets c out.catalog
unfolding plan_next
rebalanced-Quiets c out e = elim (Result-cases (next_rebalance c)) [
  | inr (why, failed) ↦ absurd (ground arith)
  | inl (decision, decided) ↦ elim (Result-cases (persist_move c decision)) [
    | inr (why, failed) ↦ absurd (ground arith)
    | inl (d, kept) ↦
        after_plan-Quiets c d decision out (persist_move-Quiets c d decision kept) (ground arith)
  ]
]

drain_once-Quiets :
    (c : Catalog) (node : ℕ) (found : Option CatalogOperation) (out : CommandResult)
    → drain_once c node found ≡ ok out
    → Quiets c out.catalog
drain_once-Quiets c node none out e =
    started-Quiets c (start_drain c node) out (λ s h. start_drain-Opened c s node h) (ground arith)
drain_once-Quiets c node (some op) out e = unchanged-Quiets c out (ground arith)

removed-SameTopology : (c c' : Catalog) (node : ℕ) → removed c node ≡ ok c' → SameTopology c c'
removed-SameTopology c c' node e = remove_member-SameTopology c c' node (ground arith)

-- A result that only changes members, voters or policy.
aside-Made :
    (c : Catalog) (r : Result Catalog) (out : CommandResult)
    → ((c' : Catalog) → r ≡ ok c' → SameTopology c c')
    → changed r none ≡ ok out
    → Made c out.catalog
aside-Made c r out f e = at_once (unrelated (f out.catalog (changed-ok r none out e)))

-- A command of `CatalogControl::apply` that succeeds makes one topology step from the catalog it is
-- given: an operation is planned; one that is under way moves forwards under the same owners and
-- routing, and, being a transfer or a split, not into its commit; a fenced transfer is cut over on
-- the evidence that the given catalog holds of it; a split is published on the evidence that the
-- given catalog holds of it; or nothing of these changes. The commands that make several changes
-- make only quiet ones: operations planned, operations moved that are no transfer and no split, or
-- nothing of these.
pub change-Made :
    (command : CatalogCommand) (accepted : Bool) (c : Catalog) (out : CommandResult)
    → change command accepted c ≡ ok out
    → Made c out.catalog
unfolding change
change-Made (join_node local compatibility node incarnation address) accepted c out e =
    quietly
      (admit-Quiets c (get c.members node) true local compatibility node incarnation address out e)
change-Made (join_with_token token local compatibility node incarnation address) accepted c out e =
    quietly (
      admit-Quiets c (get c.members node) accepted local compatibility node incarnation address out
        (ground arith))
change-Made (finish_join id version) accepted c out e = quietly (
    finished_join-Quiets c out.catalog id version
      (changed-ok (finished_join c id version) (some id) out e))
change-Made rebalance accepted c out e = quietly (rebalanced-Quiets c out e)
change-Made (transfer_step id progress) accepted c out e = at_once (
    apply_transfer-Step c out.catalog id progress
      (changed-ok (apply_transfer c id progress) (some id) out e))
change-Made (split_step id progress) accepted c out e = at_once (
    apply_split-Step c out.catalog id progress
      (changed-ok (apply_split c id progress) (some id) out e))
change-Made (cordon node on) accepted c out e =
    aside-Made c (set_member_state c node (cordon_state on)) out
      (λ d. set_member_state-SameTopology c d node (cordon_state on)) e
change-Made (member_policy node w domain) accepted c out e =
    aside-Made c (set_member_policy c node w domain) out
      (λ d. set_member_policy-SameTopology c d node w domain) e
change-Made (scaling_policy_to policy) accepted c out e =
    aside-Made c (set_scaling_policy c policy) out (λ d. set_scaling_policy-SameTopology c d policy)
      e
change-Made (drain_node node) accepted c out e =
    quietly (drain_once-Quiets c node (find_operation (drains_now node) c.operations) out e)
change-Made (finish_drain id) accepted c out e = quietly (
    one_step c out.catalog (
      Membership-Quiet c out.catalog id (
        complete_drain-Membership c out.catalog id
          (changed-ok (complete_drain c id) (some id) out e))))
change-Made (remove_node node) accepted c out e =
    aside-Made c (removed c node) out (λ d. removed-SameTopology c d node) e
change-Made (begin_voters voters) accepted c out e =
    aside-Made c (begin_voter_change c voters) out (λ d. begin_voter_change-SameTopology c d voters)
      e
change-Made finalize_voters accepted c out e =
    aside-Made c (finalize_voter_change c) out (λ d. finalize_voter_change-SameTopology c d) e

pub change-Steps :
    (command : CatalogCommand) (accepted : Bool) (c : Catalog) (out : CommandResult)
    → change command accepted c ≡ ok out
    → Steps c out.catalog
change-Steps command accepted c out e =
    Made-Steps c out.catalog (change-Made command accepted c out e)
