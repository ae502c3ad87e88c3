-- ===== src/Cluster/Election/Grants.antt =====
-- What a granted vote guarantees.
use shardlite.Common.{
  ℕ, ◌<◌, ◌≡◌, refl, sym, ap, ◌∙◌, inl, inr, Bool, true, some, arith, ltb, Bool-cases, subst,
}
use shardlite.Common.Decimal.{u64}
use shardlite.Cluster.Term.{TermStore, body}
use shardlite.Cluster.Term.Votes.{IsDurable, grant_vote-granted}
use shardlite.Cluster.Durability.{Durability, may_lead}
use shardlite.Cluster.Election.{
  Election, VoteRequest, VoteReply, Result, ok, err, Action, term_of, is_configured_voter,
  higher_candidate,
}
use shardlite.Cluster.Election.Machine.{consider, on_vote_request, observe_term, then_consider}
use shardlite.Cluster.Election.Protocol.{Frame, vote_of}
use shardlite.Cluster.Election.Refine.{observe_term-Frame}
use shardlite.Cluster.Election.Requests.{on_vote_request-Moves}

-- The conditions of a vote, and its record in memory.
abbrev IsVote : Election → VoteRequest → Durability → Election → Type 0
IsVote e req mine e' =
    (is_configured_voter e req.candidate ≡ true)
    × (may_lead req.durability mine ≡ true)
    × (term_of e' ≡ req.term)
    × (vote_of e' ≡ some req.candidate)

consider-IsVote :
    (disk : Bool) (e : Election) (req : VoteRequest) (now : ℕ) (mine : Durability) {r : VoteReply}
    → (consider disk e req now mine).1 ≡ ok r
    → r.granted ≡ true
    → IsVote e req mine (consider disk e req now mine).0 × (r.term ≡ req.term)
unfolding consider may_lead
consider-IsVote disk e req now mine h g =
    let rec = grant_vote-granted disk e.terms req.term req.candidate in
    (
      (ground (arith, rec), ground (arith, rec), ground (arith, rec), ground (arith, rec)),
      ground (arith, rec),
    )

configured-Frame :
    (e e' : Election) (node : ℕ)
    → Frame e e'
    → is_configured_voter e' node ≡ is_configured_voter e node
unfolding is_configured_voter
configured-Frame e e' node f = rw (f.current, f.next) refl

then-IsVote :
    (disk : Bool) (e : Election) (req : VoteRequest) (now : ℕ) (mine : Durability)
    (p : Election × Result Action) {r : VoteReply}
    → Frame e p.0
    → (then_consider disk req now mine p).1 ≡ ok r
    → r.granted ≡ true
    → IsVote e req mine (then_consider disk req now mine p).0 × (r.term ≡ req.term)
then-IsVote disk e req now mine (e1, err x) f h g = absurd (cc)
then-IsVote disk e req now mine (e1, ok a) f h g =
    let ((c, m, t, v), k) = consider-IsVote disk e1 req now mine h g in
    ((sym (configured-Frame e e1 req.candidate f) ∙ c, m, t, v), k)

request-IsVote :
    (disk disk' : Bool) (e : Election) (req : VoteRequest) (now : ℕ) (mine : Durability)
    {r : VoteReply}
    → req.term < u64
    → (on_vote_request disk disk' e req now mine).1 ≡ ok r
    → r.granted ≡ true
    → IsVote e req mine (on_vote_request disk disk' e req now mine).0 × (r.term ≡ req.term)
unfolding on_vote_request
request-IsVote disk disk' e req now mine {r} fits h g =
    elim (Bool-cases (ltb (term_of e) req.term)) [
      | inl higher ↦
          let p = observe_term disk e req.term now (higher_candidate req.candidate) in
          let same : on_vote_request disk disk' e req now mine
              ≡ then_consider disk' req now mine p =
            rw (higher, on_vote_request) refl in
          subst (λ q. IsVote e req mine q.0 × (r.term ≡ req.term)) (sym same)
            (then-IsVote disk' e req now mine p
              (observe_term-Frame disk e req.term now (higher_candidate req.candidate) fits)
              (sym (ap (λ q. q.1) same) ∙ h) g)
      | inr low ↦
          let same : on_vote_request disk disk' e req now mine ≡ consider disk' e req now mine =
            rw (low, on_vote_request) refl in
          subst (λ q. IsVote e req mine q.0 × (r.term ≡ req.term)) (sym same)
            (consider-IsVote disk' e req now mine (sym (ap (λ q. q.1) same) ∙ h) g)
    ]

voted-file :
    (s : TermStore) {c : ℕ}
    → IsDurable s
    → s.state.voted_for ≡ some c
    → s.file ≡ some (body s.state)
voted-file s (inl f, r) h = f
voted-file s (inr (f, u), r) h = absurd (cc)

-- A node that grants a vote grants it in the term asked for, to a configured voter that may lead
-- with respect to what this node holds; and before it answers, the term file holds that term and
-- that vote. Before the request the file says what the node knows, and the request's numbers are
-- u64.
pub granted_vote_recorded :
    (disk disk' : Bool) (e : Election) (req : VoteRequest) (now : ℕ) (mine : Durability)
    (r : VoteReply)
    → IsDurable e.terms
    → req.term < u64
    → req.candidate < u64
    → (on_vote_request disk disk' e req now mine).1 ≡ ok r
    → r.granted ≡ true
    → (r.term ≡ req.term)
      × (is_configured_voter e req.candidate ≡ true)
      × (may_lead req.durability mine ≡ true)
      × ((on_vote_request disk disk' e req now mine).0.terms.file
          ≡ some (body (record { term = req.term; voted_for = some req.candidate })))
granted_vote_recorded disk disk' e req now mine r durable fits small h g =
    let ((c, m, t, v), k) = request-IsVote disk disk' e req now mine fits h g in
    let e' = (on_vote_request disk disk' e req now mine).0 in
    let kept = (on_vote_request-Moves disk disk' e req now mine fits small).0.terms in
    let state : e'.terms.state ≡ record { term = req.term; voted_for = some req.candidate } = cc in
    (k, c, m, voted-file e'.terms (kept.durable durable) v ∙ ap (λ s. some (body s)) state)
