-- ===== src/Cluster/Election/Quorums.antt =====
-- Quorums of voters, also across a change of the voters, and what they hold.
use shardlite.Common.{ℕ, ◌≤◌, ◌≡◌, true, some, List, arith, subst}
use shardlite.Common.OrdSet.{contains, IsOrdered}
use shardlite.Common.Count.{Shared, IsMajority, majorities_meet}
use shardlite.Cluster.Durability.{Durability, may_lead, lsn}
use shardlite.Cluster.Durability.Order.{may_lead-MayLead}
use shardlite.Cluster.Election.{Election, has_quorum}

pub quorum-current :
    (e : Election) (s : List ℕ) → has_quorum e s ≡ true → IsMajority e.current_voters s
unfolding has_quorum
quorum-current e s h = ground arith

quorum-next :
    (e : Election) (s next : List ℕ)
    → has_quorum e s ≡ true
    → e.next_voters ≡ some next
    → IsMajority next s
unfolding has_quorum
quorum-next e s next h n = ground arith

-- The voters may change in two steps, and no quorum misses one of the step before or after: a
-- quorum of the joint configuration, old and new, shares a voter with every quorum of the old
-- voters and with every quorum of the new voters. The quorums are sets in ascending order.
pub joint_quorums_meet :
    (old joint final : Election) (next s t u : List ℕ)
    → old.current_voters ≡ joint.current_voters
    → joint.next_voters ≡ some next
    → final.current_voters ≡ next
    → IsOrdered s
    → IsOrdered t
    → IsOrdered u
    → has_quorum old s ≡ true
    → has_quorum joint t ≡ true
    → has_quorum final u ≡ true
    → Shared joint.current_voters s t × Shared next t u
joint_quorums_meet old joint final next s t u before both after hs ht hu qs qt qu = (
  majorities_meet joint.current_voters s t hs ht
      (subst (λ v. IsMajority v s) before (quorum-current old s qs)) (quorum-current joint t qt),
  majorities_meet next t u ht hu (quorum-next joint t next qt both)
      (subst (λ v. IsMajority v u) after (quorum-current final u qu)),
)

-- No confirmed write is lost by an election: if a quorum of the voters holds a position of a
-- shard, and a quorum of the voters agreed that the candidate may lead, each with respect to what
-- it holds, then the candidate holds that position too. Both quorums are sets in ascending order.
pub leader_holds_confirmed :
    (e : Election) (held : ℕ → Durability) (candidate : Durability) (acks votes : List ℕ)
    (shard position : ℕ)
    → IsOrdered acks
    → IsOrdered votes
    → has_quorum e acks ≡ true
    → has_quorum e votes ≡ true
    → ((k : ℕ) → contains acks k ≡ true → position ≤ lsn (held k) shard)
    → ((k : ℕ) → contains votes k ≡ true → may_lead candidate (held k) ≡ true)
    → position ≤ lsn candidate shard
leader_holds_confirmed e held candidate acks votes shard position ha hv qa qv confirmed agreed =
    let (k, _, a, v) =
      majorities_meet e.current_voters acks votes ha hv (quorum-current e acks qa)
        (quorum-current e votes qv) in
    let m = may_lead-MayLead candidate (held k) (agreed k v) in
    omega (arith, confirmed k a, m.dominates shard)
