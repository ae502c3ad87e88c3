-- ===== src/Cluster/Election/Machine.antt =====
-- src/cluster/election.rs: the handlers. Each returns the new state and its answer; a flag for each
-- write of the term file says whether it succeeds, and a failed write ends the handler with an error.
use shardlite.Common.{
  ℕ, ◌+◌, ◌-◌, ◌*◌, ◌%◌, ◌&&◌, ◌||◌, ◌==◌, Bool, true, false, not, Option, none, some, [], ltb, leb,
  if◌then◌else◌,
}
use shardlite.Common.Decimal.{u64}
use shardlite.Common.OrdSet.{insert}
use shardlite.Cluster.Term.{TermStore, TermError, advance_to, grant_vote}
use shardlite.Cluster.Term
use shardlite.Cluster.Durability.{Durability, is_at_least, compare_to}
use shardlite.Cluster.Election.{
  Election, follower, candidate, leader, Reason, no_reason, not_configured, stale_term,
  not_up_to_date, already_voted, Why, higher_candidate, higher_voter, higher_leader, higher_peer,
  lease_expired, operator, VoteRequest, VoteReply, Heartbeat, HeartbeatReply, Action, request_votes,
  heartbeat, became_leader, stepped_down, term_store, Result, ok, err, term_of, is_leader,
  has_quorum, is_configured_voter, timeout,
}

unfoldable pub step_down : Election → Why → ℕ → Election × Action
step_down e why now = (
  record e { role = follower; leader = none; last_contact = now; votes = []; acks = [] },
  stepped_down (term_of e) why,
)

unfoldable pub become_leader : Election → ℕ → Election × Action
become_leader e now = (
  record e {
    role = leader;
    leader = some e.cfg.node;
    lease_start = now;
    last_contact = now;
    last_heartbeat = now - e.cfg.heartbeat_interval;
    acks = [];
  },
  became_leader (term_of e),
)

abbrev pub done {ℓ} : {A : Type ℓ} → Election × A → Election × Result A
done p = (p.0, ok p.1)

abbrev pub act : Election × Action → Election × Result (Option Action)
act p = (p.0, ok (some p.1))

abbrev pub idle : Election → Election × Result (Option Action)
idle e = (e, ok none)

abbrev pub observed : Election → Why → ℕ → TermStore × Term.Result Bool → Election × Result Action
observed e why now (terms, Term.err x) = (record e { terms = terms }, err (term_store x))
observed e why now (terms, Term.ok changed) =
    let e' = record e { terms = terms; votes = [] } in
    if is_leader e.role
    then done (step_down e' why now)
    else (record e' { role = follower; leader = none }, ok (stepped_down terms.state.term why))

-- Adopt a higher term.
unfoldable pub observe_term : Bool → Election → ℕ → ℕ → Why → Election × Result Action
unfolding step_down
observe_term disk e term now why = observed e why now (advance_to disk e.terms term)

abbrev pub as_option : Election × Result Action → Election × Result (Option Action)
as_option (e, ok a) = (e, ok (some a))
as_option (e, err x) = (e, err x)

abbrev pub campaigned :
    Election → ℕ → ℕ → TermStore × Term.Result Bool → Election × Result (Option Action)
campaigned e next now (terms, Term.err x) = (record e { terms = terms }, err (term_store x))
campaigned e next now (terms, Term.ok granted) =
    let e' = record e {
      terms = terms;
      role = candidate;
      leader = none;
      last_contact = now;
      votes = insert [] e.cfg.node;
    } in
    if has_quorum e' e'.votes
    then act (become_leader e' now)
    else (e', ok (some (request_votes next)))

abbrev pub standing :
    Bool → Election → ℕ → ℕ → TermStore × Term.Result Bool → Election × Result (Option Action)
standing disk e next now (terms, Term.err x) = (record e { terms = terms }, err (term_store x))
standing disk e next now (terms, Term.ok changed) =
    campaigned e next now (grant_vote disk terms next e.cfg.node)

-- A u64 term: in release builds the addition wraps.
unfoldable pub stand_for_election : Bool → Bool → Election → ℕ → Election × Result (Option Action)
unfolding become_leader
stand_for_election disk disk' e now =
    let next = (term_of e + 1) % u64 in standing disk' e next now (advance_to disk e.terms next)

abbrev waits : Option ℕ → ℕ → Bool
waits none now = false
waits (some until) now = ltb now until

unfoldable pub tick : Bool → Bool → Election → ℕ → Durability → Election × Result (Option Action)
unfolding step_down
tick disk disk' e now durability =
    if is_leader e.role
    then (if leb e.cfg.election_timeout (now - e.lease_start)
          && not (has_quorum e (insert e.acks e.cfg.node))
        then act (step_down e lease_expired now)
        else if leb e.cfg.heartbeat_interval (now - e.last_heartbeat)
        then (record e { last_heartbeat = now }, ok (some (heartbeat (term_of e))))
        else idle e)
    else if waits e.stepdown_backoff now
    then idle e
    else (let e' = record e { stepdown_backoff = none } in
        if leb (timeout e') (now - e'.last_contact)
        then stand_for_election disk disk' e' now
        else idle e')

unfoldable pub request_step_down : Election → ℕ → Election × Option Action
unfolding step_down
request_step_down e now =
    if is_leader e.role
    then (let p =
          step_down (record e { stepdown_backoff = some (now + e.cfg.election_timeout * 2) })
            operator now in
        (p.0, some p.1))
    else (e, none)

abbrev pub refuse : Election → Reason → Election × Result VoteReply
refuse e reason = (e, ok (record { term = term_of e; granted = false; reason = reason }))

abbrev pub voted : Election → ℕ → ℕ → TermStore × Term.Result Bool → Election × Result VoteReply
voted e term now (terms, Term.err x) = (record e { terms = terms }, err (term_store x))
voted e term now (terms, Term.ok true) = (
  record e { terms = terms; last_contact = now },
  ok (record { term = terms.state.term; granted = true; reason = no_reason }),
)
voted e term now (terms, Term.ok false) =
    refuse (record e { terms = terms }) (already_voted terms.state.voted_for term)

-- The part of `on_vote_request` after a higher term was adopted.
unfoldable pub consider :
    Bool → Election → VoteRequest → ℕ → Durability → Election × Result VoteReply
consider disk e req now mine =
    if not (is_configured_voter e req.candidate)
    then refuse e (not_configured req.candidate)
    else if ltb req.term (term_of e)
    then refuse e (stale_term req.term (term_of e))
    else if not (is_at_least (compare_to req.durability mine))
    then refuse e (not_up_to_date (compare_to req.durability mine))
    else voted e req.term now (grant_vote disk e.terms req.term req.candidate)

abbrev pub then_consider :
    Bool → VoteRequest → ℕ → Durability → Election × Result Action → Election × Result VoteReply
then_consider disk req now mine (e, err x) = (e, err x)
then_consider disk req now mine (e, ok a) = consider disk e req now mine

unfoldable pub on_vote_request :
    Bool → Bool → Election → VoteRequest → ℕ → Durability → Election × Result VoteReply
unfolding consider observe_term
on_vote_request disk disk' e req now mine =
    if ltb (term_of e) req.term
    then then_consider disk' req now mine
        (observe_term disk e req.term now (higher_candidate req.candidate))
    else consider disk' e req now mine

unfoldable pub on_vote_reply :
    Bool → Election → ℕ → VoteReply → ℕ → Election × Result (Option Action)
unfolding observe_term become_leader
on_vote_reply disk e from reply now =
    if ltb (term_of e) reply.term
    then as_option (observe_term disk e reply.term now (higher_voter from))
    else elim e.role [
      | candidate ↦
          if not (reply.term == term_of e) || not reply.granted
          then idle e
          else (let e' =
                if is_configured_voter e from
                then record e { votes = insert e.votes from }
                else e in
              if has_quorum e' e'.votes then act (become_leader e' now) else idle e')
      | _ ↦ idle e
    ]

-- There is a leader in this term, and it is not this node.
abbrev pub settle : Heartbeat → ℕ → Election → Election × Result HeartbeatReply
settle hb now e = (
  record e { role = follower; leader = some hb.leader; last_contact = now },
  ok (record { term = term_of e; ok = true; cordoned = false; prefers = [] }),
)

abbrev pub then_settle : Heartbeat → ℕ → Election × Result Action → Election × Result HeartbeatReply
then_settle hb now (e, err x) = (e, err x)
then_settle hb now (e, ok a) = settle hb now e

unfoldable pub on_heartbeat : Bool → Election → Heartbeat → ℕ → Election × Result HeartbeatReply
unfolding observe_term
on_heartbeat disk e hb now =
    if ltb hb.term (term_of e)
    then (e, ok (record { term = term_of e; ok = false; cordoned = false; prefers = [] }))
    else if ltb (term_of e) hb.term
    then then_settle hb now (observe_term disk e hb.term now (higher_leader hb.leader))
    else settle hb now e

unfoldable pub on_heartbeat_reply :
    Bool → Election → ℕ → HeartbeatReply → ℕ → Election × Result (Option Action)
unfolding observe_term
on_heartbeat_reply disk e from reply now =
    if ltb (term_of e) reply.term
    then as_option (observe_term disk e reply.term now (higher_peer from))
    else if not (is_leader e.role) || not reply.ok
    then idle e
    else (let e' =
          if is_configured_voter e from then record e { acks = insert e.acks from } else e in
        if has_quorum e' (insert e'.acks e'.cfg.node)
        then idle (record e' { lease_start = now; last_contact = now; acks = [] })
        else idle e')
