-- ===== src/Cluster/Catalog/Members.antt =====
-- src/cluster/catalog.rs: members and voters.
use shardlite.Cluster.Catalog.{
  empty_text, foreign_cluster, empty_address, learner_target, zero_weight, already_registered,
  not_a_member, voter_change_active, empty_voters, same_voters, no_voter_change, learner_voter,
  active_voter, still_used, last_voter, Result, ok, err, ◌>>=◌, ◌>>◌, guard, ok_or, Compatibility,
  check, MemberRole, learner, storage, voter, is_learner, is_voter_role, MemberState, active,
  Member, ScalingPolicy, validate_policy, ReplicaSet, VoterTransition, Catalog, same_cluster,
}
use shardlite.Common.OrdSet
use shardlite.Common.{
  ℕ, suc, ◌&&◌, ◌||◌, ◌==◌, Bool, false, not, Option, none, some, List, [], ◌∷◌, if◌then◌else◌,
  is_some,
}
use shardlite.Common.OrdMap.{OrdMap, get, insert, remove}
use shardlite.Common.OrdSet.{contains, extend}
use shardlite.Common.Text.{same_text, trim}

unfoldable pub validate_join : Catalog → Option (List ℕ) → Compatibility → Result (Unit {0})
unfolding check
validate_join c local compatibility = do
  guard (same_cluster local c.cluster_id) foreign_cluster
  check c.compatibility compatibility

abbrev pub new_learner : ℕ → ℕ → List ℕ → Member
new_learner node incarnation address = record {
  node = node;
  incarnation = incarnation;
  address = address;
  role = learner;
  state = active;
  capacity_weight = 1;
  failure_domain = none;
}

abbrev pub learn : Catalog → ℕ → ℕ → List ℕ → Option Member → Result Catalog
learn c node incarnation address (some m) =
    if m.incarnation == incarnation && same_text m.address address
    then ok c
    else err (already_registered node)
learn c node incarnation address none =
    ok (record c { members = insert c.members node (new_learner node incarnation address) })

unfoldable pub add_learner : Catalog → ℕ → ℕ → List ℕ → Result Catalog
add_learner c node incarnation address = do
  guard (not (empty_text (trim address))) empty_address
  learn c node incarnation address (get c.members node)

unfoldable pub promote : Catalog → ℕ → MemberRole → Result Catalog
promote c node role = do
  m ← ok_or (get c.members node) (not_a_member node)
  guard (not (is_learner role)) learner_target
  ok (record c { members = insert c.members node (record m { role = role }) })

unfoldable pub set_member_state : Catalog → ℕ → MemberState → Result Catalog
set_member_state c node state = do
  m ← ok_or (get c.members node) (not_a_member node)
  ok (record c { members = insert c.members node (record m { state = state }) })

abbrev trimmed : Option (List ℕ) → Option (List ℕ)
trimmed none = none
trimmed (some domain) = if empty_text (trim domain) then none else some (trim domain)

unfoldable pub set_member_policy : Catalog → ℕ → ℕ → Option (List ℕ) → Result Catalog
set_member_policy c node weight domain = do
  guard (not (weight == 0)) zero_weight
  m ← ok_or (get c.members node) (not_a_member node)
  ok (record c {
    members =
        insert c.members node
          (record m { capacity_weight = weight; failure_domain = trimmed domain });
  })

unfoldable pub set_scaling_policy : Catalog → ScalingPolicy → Result Catalog
set_scaling_policy c policy = do validate_policy policy; ok (record c { scaling_policy = policy })

-- The nodes of the members that vote, as the set that `collect` builds.
unfoldable pub voters_of : OrdMap Member → List ℕ
voters_of [] = []
voters_of ((k, m) ∷ ms) =
    if is_voter_role m.role then OrdSet.insert (voters_of ms) m.node else voters_of ms

abbrev pub sets_of : Catalog → Option VoterTransition → List ℕ × Option (List ℕ)
sets_of c (some t) = (t.old_voters, some t.new_voters)
sets_of c none = (voters_of c.members, none)

unfoldable pub voter_sets : Catalog → List ℕ × Option (List ℕ)
voter_sets c = sets_of c c.voter_transition

abbrev pub in_next : Option (List ℕ) → ℕ → Bool
in_next none node = false
in_next (some s) node = contains s node

unfoldable pub is_voter : Catalog → ℕ → Bool
unfolding voter_sets
is_voter c node = contains (voter_sets c).0 node || in_next (voter_sets c).1 node

-- Every new voter has to be a member that is no learner.
unfoldable pub check_voters : OrdMap Member → List ℕ → Result (Unit {0})
check_voters ms [] = ok tt
check_voters ms (n ∷ ns) = do
  m ← ok_or (get ms n) (not_a_member n)
  guard (not (is_learner m.role)) (learner_voter n)
  check_voters ms ns

unfoldable pub begin_voter_change : Catalog → List ℕ → Result Catalog
unfolding check_voters voter_sets
begin_voter_change c new = do
  guard (not (is_some c.voter_transition)) voter_change_active
  guard (not (empty_text new)) empty_voters
  check_voters c.members new
  guard (not (same_text (voter_sets c).0 new)) same_voters
  ok (record c {
    voter_transition = some (record { old_voters = (voter_sets c).0; new_voters = new });
  })

abbrev pub new_role : List ℕ → Member → MemberRole
new_role new m =
    if contains new m.node then voter else if is_voter_role m.role then storage else m.role

unfoldable pub assign_roles : List ℕ → OrdMap Member → OrdMap Member
assign_roles new [] = []
assign_roles new ((k, m) ∷ ms) = (k, record m { role = new_role new m }) ∷ assign_roles new ms

unfoldable pub finalize_voter_change : Catalog → Result Catalog
unfolding assign_roles
finalize_voter_change c = do
  t ← ok_or c.voter_transition no_voter_change
  ok (record c { voter_transition = none; members = assign_roles t.new_voters c.members })

abbrev pub holds_copy : ℕ → ReplicaSet → Bool
holds_copy node p = p.primary == node || contains p.replicas node

-- The first shard of which the node holds a copy.
unfoldable pub shard_used : ℕ → OrdMap ReplicaSet → Option ℕ
shard_used node [] = none
shard_used node ((s, p) ∷ ps) = if holds_copy node p then some s else shard_used node ps

abbrev unused : ℕ → Option ℕ → Result (Unit {0})
unused node none = ok tt
unused node (some shard) = err (still_used node shard)

unfoldable pub count_voters : OrdMap Member → ℕ
count_voters [] = 0
count_voters ((k, m) ∷ ms) = if is_voter_role m.role then suc (count_voters ms) else count_voters ms

unfoldable pub remove_member : Catalog → ℕ → Result Catalog
unfolding is_voter shard_used count_voters
remove_member c node = do
  m ← ok_or (get c.members node) (not_a_member node)
  guard (not (is_voter c node)) (active_voter node)
  unused node (shard_used node c.placements)
  guard (not (is_voter_role m.role && count_voters c.members == 1)) last_voter
  ok (record c { members = remove c.members node })
