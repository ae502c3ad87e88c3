-- ===== src/Tests/Elections.antt =====
-- src/cluster/election.rs: a node alone, and one of three.
use shardlite.Cluster.Election.Answers.{Requested}
use shardlite.Common.{
  ◌-◌, ◌<◌, ◌≤◌, ◌≡◌, ◌≢◌, ◌⊎◌, refl, inr, true, false, none, some, [], ◌∷◌, arith, if◌then◌else◌,
}
use shardlite.Common.OrdSet.{contains, common, insert}
use shardlite.Common.Count.{Shared}
use shardlite.Common.OrdMap.{get}
use shardlite.Cluster.Term.{body, unvoted, advance_to, grant_vote, persist}
use shardlite.Cluster.Term.Votes.{IsDurable}
use shardlite.Cluster.Durability.{Durability, may_lead, lsn, compare_to, compare_shards}
use shardlite.Cluster.Election.{
  Election, VoteRequest, VoteReply, Heartbeat, HeartbeatReply, follower, candidate, leader,
  no_reason, has_quorum, is_configured_voter, is_leader, ok, term_of,
}
use shardlite.Cluster.Election.Machine.{
  tick, on_vote_request, on_vote_reply, on_heartbeat_reply, consider, observe_term,
}
use shardlite.Cluster.Election.Protocol.{Nobody, NoRequest, Frame, Move}
use shardlite.Cluster.Election.Refine.{own_ballots, wins_of, granted_ballots, tick-Moves}
use shardlite.Cluster.Election.Requests.{IsTraced, on_vote_request-Moves}
use shardlite.Cluster.Election.Replies.{GrantedBy, on_vote_reply-Moves}
use shardlite.Cluster.Election.Grants.{granted_vote_recorded}
use shardlite.Cluster.Election.Quorums.{joint_quorums_meet, leader_holds_confirmed}
use shardlite.Cluster.Election.Timing.{lease_needs_quorum}

abbrev one_of_three : Election
one_of_three = record {
  cfg = record {
    node = 1;
    peers = 2 ∷ 3 ∷ [];
    election_timeout = 1_500_000_000;
    heartbeat_interval = 300_000_000;
  };
  terms = record { file = none; state = unvoted };
  role = follower;
  leader = none;
  last_contact = 0;
  last_heartbeat = 0;
  votes = [];
  acks = [];
  lease_start = 0;
  stepdown_backoff = none;
  current_voters = 1 ∷ 2 ∷ 3 ∷ [];
  next_voters = none;
}

abbrev standing_one : Election
standing_one = record one_of_three { role = candidate; votes = 1 ∷ [] }

abbrev leading_one : Election
leading_one = record one_of_three { role = leader; votes = 1 ∷ 2 ∷ [] }

abbrev empty_node : Durability
empty_node = record {
  catalog = record { version = 0; digest = [] };
  epoch = 1;
  shards = (0, 4) ∷ [];
}

tick-Moves_example :
    let p = tick true true one_of_three 9_000_000_000 empty_node in
    Frame one_of_three p.0
    × Move Nobody NoRequest one_of_three p.0 (own_ballots 1 p.1) (wins_of 1 p.1)
tick-Moves_example =
    tick-Moves true true one_of_three 9_000_000_000 empty_node (omega arith) (omega arith)

abbrev asks : VoteRequest
asks = record { term = 1; candidate = 2; durability = empty_node }

abbrev grants : VoteReply
grants = record { term = 1; granted = true; reason = no_reason }

on_vote_request-Moves_example :
    let p = on_vote_request true true one_of_three asks 5 empty_node in
    Frame one_of_three p.0
    × Move Nobody (Requested 2 1) one_of_three p.0 (granted_ballots 1 2 p.1) []
    × IsTraced one_of_three asks 5 p
on_vote_request-Moves_example =
    on_vote_request-Moves true true one_of_three asks 5 empty_node (omega arith) (omega arith)

voted_yes : (on_vote_request true true one_of_three asks 5 empty_node).1 ≡ ok grants
unfolding on_vote_request consider observe_term advance_to grant_vote persist is_configured_voter
    compare_to compare_shards
voted_yes = unfold contains in unfold lsn in unfold get in refl

fresh_node : IsDurable one_of_three.terms
fresh_node = (inr (refl, refl), (omega arith, λ n e. cc))

granted_vote_recorded_example :
    (grants.term ≡ asks.term)
    × (is_configured_voter one_of_three asks.candidate ≡ true)
    × (may_lead asks.durability empty_node ≡ true)
    × ((on_vote_request true true one_of_three asks 5 empty_node).0.terms.file
        ≡ some (body (record { term = asks.term; voted_for = some asks.candidate })))
granted_vote_recorded_example =
    granted_vote_recorded true true one_of_three asks 5 empty_node grants fresh_node (omega arith)
      (omega arith) voted_yes refl

abbrev yes : VoteReply
yes = record { term = 0; granted = true; reason = no_reason }

on_vote_reply-Moves_example :
    let p = on_vote_reply true standing_one 3 yes 7 in
    Frame standing_one p.0
    × Move (GrantedBy standing_one 3 yes) NoRequest standing_one p.0 [] (wins_of 1 p.1)
on_vote_reply-Moves_example = on_vote_reply-Moves true standing_one 3 yes 7 (omega arith)

abbrev beat : Heartbeat
beat = record { term = 4; leader = 3; placement = record { term = 4; assignments = [] } }

abbrev acknowledged : HeartbeatReply
acknowledged = record { term = 0; ok = true; cordoned = false; prefers = [] }

lease_needs_quorum_example :
    let e' =
      if is_configured_voter leading_one 2
      then record leading_one { acks = insert leading_one.acks 2 }
      else leading_one in
    let t = (tick true true leading_one 800_000_000 empty_node).0 in
    let r = (on_heartbeat_reply true leading_one 2 acknowledged 800_000_000).0 in
    (is_leader t.role ≡ true
      → ((800_000_000 - leading_one.lease_start < leading_one.cfg.election_timeout)
          ⊎ (has_quorum leading_one (insert leading_one.acks leading_one.cfg.node) ≡ true))
        × (t.acks ≡ leading_one.acks))
    × (r.lease_start ≢ leading_one.lease_start
        → (acknowledged.ok ≡ true)
          × (has_quorum e' (insert e'.acks e'.cfg.node) ≡ true)
          × (r.lease_start ≡ 800_000_000)
          × (r.acks ≡ []))
    × (has_quorum e' (insert e'.acks e'.cfg.node) ≡ true
        → acknowledged.ok ≡ true
        → acknowledged.term ≤ term_of leading_one
        → (r.lease_start ≡ 800_000_000) × (r.acks ≡ []))
    × (r.lease_start ≡ leading_one.lease_start
        → is_leader r.role ≡ true
        → (r.acks ≡ leading_one.acks)
          ⊎ (r.acks ≡ [])
          ⊎ ((acknowledged.ok ≡ true)
              × (is_configured_voter leading_one 2 ≡ true)
              × (r.acks ≡ insert leading_one.acks 2)))
lease_needs_quorum_example =
    lease_needs_quorum true true leading_one 800_000_000 2 empty_node acknowledged refl

abbrev joint : Election
joint = record one_of_three { next_voters = some (3 ∷ 4 ∷ 5 ∷ []) }

abbrev final : Election
final = record one_of_three { current_voters = 3 ∷ 4 ∷ 5 ∷ [] }

old_quorum : has_quorum one_of_three (1 ∷ 3 ∷ []) ≡ true
unfolding has_quorum common
old_quorum = unfold contains in refl

joint_quorum : has_quorum joint (1 ∷ 3 ∷ 4 ∷ []) ≡ true
unfolding has_quorum common
joint_quorum = unfold contains in refl

final_quorum : has_quorum final (4 ∷ 5 ∷ []) ≡ true
unfolding has_quorum common
final_quorum = unfold contains in refl

joint_quorums_meet_example :
    Shared (1 ∷ 2 ∷ 3 ∷ []) (1 ∷ 3 ∷ []) (1 ∷ 3 ∷ 4 ∷ [])
    × Shared (3 ∷ 4 ∷ 5 ∷ []) (1 ∷ 3 ∷ 4 ∷ []) (4 ∷ 5 ∷ [])
joint_quorums_meet_example =
    joint_quorums_meet one_of_three joint final (3 ∷ 4 ∷ 5 ∷ []) (1 ∷ 3 ∷ []) (1 ∷ 3 ∷ 4 ∷ [])
      (4 ∷ 5 ∷ []) refl refl refl (omega arith, tt) (omega arith, (omega arith, tt))
      (omega arith, tt) old_quorum joint_quorum final_quorum

four_held : 4 ≤ lsn empty_node 0
unfolding lsn get
four_held = omega arith

may_lead_itself : may_lead empty_node empty_node ≡ true
unfolding may_lead compare_to compare_shards lsn get
may_lead_itself = refl

leader_holds_confirmed_example : 4 ≤ lsn empty_node 0
leader_holds_confirmed_example =
    leader_holds_confirmed one_of_three (λ k. empty_node) empty_node (1 ∷ 3 ∷ []) (1 ∷ 3 ∷ []) 0 4
      (omega arith, tt) (omega arith, tt) old_quorum old_quorum (λ k c. four_held)
      (λ k c. may_lead_itself)
