-- ===== src/Cluster/Topology/Memberships.antt =====
-- src/cluster/catalog.rs: the steps of a join and of a drain, and the changes of members, voters and
-- policy, as steps.
use shardlite.Cluster.Catalog.{
  Result, ok, MemberRole, storage, MemberState, ScalingPolicy, join, drain, planned, catching_up,
  prepared, committed, complete, is_phase, terminal, CatalogOperation, Catalog, with_operation,
  Result-cases,
}
use shardlite.Cluster.Catalog.Members.{
  promote, set_member_policy, set_scaling_policy, begin_voter_change, finalize_voter_change,
  remove_member, set_member_state,
}
use shardlite.Cluster.Catalog.Operations.{
  prepare_join, complete_join, complete_drain, commit_storage_join, operation_in, transition,
  record_join_catch_up, caught_up,
}
use shardlite.Common.{
  ℕ, ◌≡◌, inl, inr, Bool, true, false, Option, some, List, arith, if◌then◌else◌, Option-cases,
}
use shardlite.Common.OrdMap.{get}
use shardlite.Cluster.Topology.{
  SameTopology, Advanced, Step, unrelated, moves_ownership, Quiet, Quiets, membership, then_quiet,
  rest, aside,
}
use shardlite.Cluster.Topology.Effects.{operation_in-ok}

-- An operation moves on that is no transfer and no split.
abbrev pub Membership : Catalog → Catalog → ℕ → Type 0
Membership c c' id = (a : Advanced c c' id) × (moves_ownership a.old ≡ false)

pub Membership-Quiet : (c c' : Catalog) (id : ℕ) → Membership c c' id → Quiet c c'
Membership-Quiet c c' id m = membership id m.0 m.1

pub prepare_join-Membership :
    (c c' : Catalog) (id : ℕ) → prepare_join c id ≡ ok c' → Membership c c' id
unfolding prepare_join terminal
prepare_join-Membership c c' id e = elim (Option-cases (get c.operations id)) [
  | inl none_found ↦ absurd (ground (arith, operation_in-ok c id join catching_up))
  | inr (op, found) ↦ (
    record {
      old = op;
      new = record op { phase = prepared };
      same = ground arith;
      moves = ground (arith, operation_in-ok c id join catching_up);
      commits = λ m. absurd (ground (arith, m, operation_in-ok c id join catching_up));
    },
    ground (arith, operation_in-ok c id join catching_up),
  )
]

pub complete_join-Membership :
    (c c' : Catalog) (id : ℕ) → complete_join c id ≡ ok c' → Membership c c' id
unfolding complete_join terminal transition
complete_join-Membership c c' id e = elim (Option-cases (get c.operations id)) [
  | inl none_found ↦ absurd (ground (arith, operation_in-ok c id join committed))
  | inr (op, found) ↦ (
    record {
      old = op;
      new = record op { phase = complete };
      same = ground arith;
      moves = ground (arith, operation_in-ok c id join committed);
      commits = λ m. absurd (ground (arith, m, operation_in-ok c id join committed));
    },
    ground (arith, operation_in-ok c id join committed),
  )
]

pub complete_drain-Membership :
    (c c' : Catalog) (id : ℕ) → complete_drain c id ≡ ok c' → Membership c c' id
unfolding complete_drain terminal
complete_drain-Membership c c' id e = elim (Option-cases (get c.operations id)) [
  | inl none_found ↦ absurd (ground (arith, operation_in-ok c id drain planned))
  | inr (op, found) ↦ (
    record {
      old = op;
      new = record op { phase = complete };
      same = ground arith;
      moves = ground (arith, operation_in-ok c id drain planned);
      commits = λ m. absurd (ground (arith, m, operation_in-ok c id drain planned));
    },
    ground (arith, operation_in-ok c id drain planned),
  )
]

pub promote-SameTopology :
    (c c' : Catalog) (node : ℕ) (role : MemberRole)
    → promote c node role ≡ ok c'
    → SameTopology c c'
unfolding promote
promote-SameTopology c c' node role e = ground arith

pub commit_storage_join-Membership :
    (c c' : Catalog) (id : ℕ) → commit_storage_join c id ≡ ok c' → Membership c c' id
unfolding commit_storage_join terminal
commit_storage_join-Membership c c' id e = elim (Option-cases (get c.operations id)) [
  | inl none_found ↦ absurd (ground (arith, operation_in-ok c id join prepared))
  | inr (op, found) ↦ elim (Option-cases op.destination) [
    | inl missing ↦ absurd (ground (arith, operation_in-ok c id join prepared))
    | inr (node, named) ↦ elim (Result-cases (promote c node storage)) [
      | inr (why, failed) ↦ absurd (ground (arith, operation_in-ok c id join prepared))
      | inl (d, up) ↦ (
        record {
          old = op;
          new = record op { phase = committed };
          same = ground arith;
          moves =
              ground (
                arith,
                operation_in-ok c id join prepared,
                promote-SameTopology c d node storage up,
              );
          commits = λ m. absurd (
              ground (
                arith,
                m,
                operation_in-ok c id join prepared,
                promote-SameTopology c d node storage up,
              ));
        },
        ground
            (arith, operation_in-ok c id join prepared, promote-SameTopology c d node storage up),
      )
    ]
  ]
]

caught :
    (c c' : Catalog) (id version : ℕ) (op : CatalogOperation)
    → operation_in c id join catching_up ≡ ok op
    → c' ≡ with_operation c id (record op { catalog_version = some version })
    → Membership c c' id
unfolding terminal
caught c c' id version op e same = (
  record {
    old = op;
    new = record op { catalog_version = some version };
    same = ground arith;
    moves = ground (arith, operation_in-ok c id join catching_up op e);
    commits = λ m. absurd (ground (arith, m, operation_in-ok c id join catching_up op e));
  },
  ground (arith, operation_in-ok c id join catching_up op e),
)

begun :
    (c c' : Catalog) (id : ℕ)
    → transition c id join planned catching_up ≡ ok c'
    → Membership c c' id
unfolding transition terminal
begun c c' id e = elim (Option-cases (get c.operations id)) [
  | inl none_found ↦ absurd (ground (arith, operation_in-ok c id join planned))
  | inr (op, found) ↦ (
    record {
      old = op;
      new = record op { phase = catching_up };
      same = ground arith;
      moves = ground (arith, operation_in-ok c id join planned);
      commits = λ m. absurd (ground (arith, m, operation_in-ok c id join planned));
    },
    ground (arith, operation_in-ok c id join planned),
  )
]

-- In an `if` each branch that succeeds is a step.
pub branch-Step :
    (c c' : Catalog) (test : Bool) (yes_case no_case : Result Catalog)
    → (yes_case ≡ ok c' → Step c c')
    → (no_case ≡ ok c' → Step c c')
    → (if test then yes_case else no_case) ≡ ok c'
    → Step c c'
branch-Step c c' true yes_case no_case f g e = f e
branch-Step c c' false yes_case no_case f g e = g e

pub unchanged-Step : (c c' : Catalog) → ok c ≡ ok c' → Step c c'
unchanged-Step c c' e = unrelated (ground arith)

branch-Quiet :
    (c c' : Catalog) (test : Bool) (yes_case no_case : Result Catalog)
    → (yes_case ≡ ok c' → Quiet c c')
    → (no_case ≡ ok c' → Quiet c c')
    → (if test then yes_case else no_case) ≡ ok c'
    → Quiet c c'
branch-Quiet c c' true yes_case no_case f g e = f e
branch-Quiet c c' false yes_case no_case f g e = g e

pub record_join_catch_up-Quiets :
    (c c' : Catalog) (id version : ℕ) → record_join_catch_up c id version ≡ ok c' → Quiets c c'
unfolding record_join_catch_up
record_join_catch_up-Quiets c c' id version e = elim (Option-cases (get c.operations id)) [
  | inl none_found ↦ absurd (ground arith)
  | inr (first, found) ↦ elim (Result-cases (caught_up c id first.phase)) [
    | inr (why, failed) ↦ absurd (ground arith)
    | inl (d, ready) ↦ elim (Result-cases (operation_in d id join catching_up)) [
      | inr (why, failed) ↦ absurd (ground arith)
      | inl (op, there) ↦
          then_quiet c d c'
            (then_quiet c c d (rest c) (
              branch-Quiet c d (is_phase first.phase planned)
                (transition c id join planned catching_up) (ok c)
                (λ h. Membership-Quiet c d id (begun c d id h)) (λ h. aside (ground arith)) ready))
            (Membership-Quiet d c' id (caught d c' id version op there (ground arith)))
    ]
  ]
]

pub set_member_policy-SameTopology :
    (c c' : Catalog) (node w : ℕ) (domain : Option (List ℕ))
    → set_member_policy c node w domain ≡ ok c'
    → SameTopology c c'
unfolding set_member_policy
set_member_policy-SameTopology c c' node w domain e = ground arith

pub set_scaling_policy-SameTopology :
    (c c' : Catalog) (policy : ScalingPolicy)
    → set_scaling_policy c policy ≡ ok c'
    → SameTopology c c'
unfolding set_scaling_policy
set_scaling_policy-SameTopology c c' policy e = ground arith

pub begin_voter_change-SameTopology :
    (c c' : Catalog) (new : List ℕ) → begin_voter_change c new ≡ ok c' → SameTopology c c'
unfolding begin_voter_change
begin_voter_change-SameTopology c c' new e = ground arith

pub finalize_voter_change-SameTopology :
    (c c' : Catalog) → finalize_voter_change c ≡ ok c' → SameTopology c c'
unfolding finalize_voter_change
finalize_voter_change-SameTopology c c' e = ground arith

pub remove_member-SameTopology :
    (c c' : Catalog) (node : ℕ) → remove_member c node ≡ ok c' → SameTopology c c'
unfolding remove_member
remove_member-SameTopology c c' node e = ground arith

pub set_member_state-SameTopology :
    (c c' : Catalog) (node : ℕ) (state : MemberState)
    → set_member_state c node state ≡ ok c'
    → SameTopology c c'
unfolding set_member_state
set_member_state-SameTopology c c' node state e = ground arith
