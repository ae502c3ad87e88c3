-- ===== src/Cluster/Election/Requests.antt =====
-- Vote requests, vote replies and heartbeats make moves of the protocol.
use shardlite.Common.{
  ℕ, ◌<◌, ◌≡◌, refl, sym, ap, ◌∙◌, inl, inr, Bool, [], arith, ltb, Bool-cases, subst, ltb→lt,
  ltb→ge, if◌then◌else◌, ◌≤◌, ◌⊎◌,
}
use shardlite.Common.Decimal.{u64}
use shardlite.Cluster.Term.{advance_to, grant_vote}
use shardlite.Cluster.Term.Votes.{Kept-trans, advance_to-ok}
use shardlite.Cluster.Durability.{Durability, is_at_least, compare_to}
use shardlite.Cluster.Election.{
  Election, follower, term_of, Result, ok, err, Action, VoteRequest, Why, higher_candidate,
  VoteReply, none, false, true, is_leader, TermError, term_store, TermStore, Reason,
  is_configured_voter, not_configured, stale_term, not_up_to_date,
}
use shardlite.Cluster.Election.Machine.{
  observe_term, consider, on_vote_request, then_consider, refuse, voted, step_down, observed,
}
use shardlite.Cluster.Election.Protocol.{Nobody, Frame, Move}
use shardlite.Cluster.Election.Refine.{
  answer, observe_term-Frame, observe_term-Move, granted_ballots,
}
use shardlite.Cluster.Election.Answers.{
  Requested, consider-Frame, consider-Voter, Voter-Move, Voter-followed,
}

Frame_trans : {e f g : Election} → Frame e f → Frame f g → Frame e g
Frame_trans {e} {f} {g} p q = record {
  cfg = q.cfg ∙ p.cfg;
  current = q.current ∙ p.current;
  next = q.next ∙ p.next;
  terms = Kept-trans e.terms f.terms g.terms p.terms q.terms;
}

-- After an adopted term the node follows in that term.
observe_term-ok :
    (disk : Bool) (e : Election) (term now : ℕ) (why : Why) {a : Action}
    → term_of e < term
    → (observe_term disk e term now why).1 ≡ ok a
    → ((observe_term disk e term now why).0.role ≡ follower)
      × (term_of (observe_term disk e term now why).0 ≡ term)
unfolding observe_term
observe_term-ok disk e term now why lt h = elim (answer (advance_to disk e.terms term).1) [
  | inl (b, good) ↦ ground (arith, advance_to-ok disk e.terms term lt good)
  | inr (x, bad) ↦ absurd (ground arith)
]

adopting :
    (disk disk' : Bool) (e : Election) (req : VoteRequest) (now : ℕ) (mine : Durability)
    → term_of e < req.term
    → req.term < u64
    → req.candidate < u64
    → (why : Why) (p : Election × Result Action) → p ≡ observe_term disk e req.term now why
    → let q = then_consider disk' req now mine p in
      Frame e q.0
      × Move Nobody
          (Requested req.candidate req.term)
          e
          q.0
          (granted_ballots e.cfg.node req.candidate q.1)
          []
adopting disk disk' e req now mine lt h k why (e1, err x) same =
    let s = ap (λ r. r.0) same in
    rw s (observe_term-Frame disk e req.term now why h, observe_term-Move disk e req.term now why)
adopting disk disk' e req now mine lt h k why (e1, ok a) same =
    let s = ap (λ r. r.0) same in
    let f : Frame e e1 = rw s (observe_term-Frame disk e req.term now why h) in
    let (role, term) = observe_term-ok disk e req.term now why lt (sym (ap (λ r. r.1) same)) in
    (
      Frame_trans f (consider-Frame disk' e1 req now mine h k),
      subst
          (λ n.
            Move Nobody (Requested req.candidate req.term) e (consider disk' e1 req now mine).0
              (granted_ballots n req.candidate (consider disk' e1 req now mine).1) [])
          (ap (λ g. g.node) f.cfg)
          (Voter-followed e f.cfg (ground (arith, s, role))
            (consider-Voter disk' e1 req now mine (ground (arith, s, term)))),
    )

abbrev pub is_granted : Result VoteReply → Bool
is_granted (ok reply) = reply.granted
is_granted (err x) = false

-- The node after it followed a higher term, but for its term file and the time of the last contact.
abbrev pub followed : Election → Election
followed e = record e {
  role = follower;
  leader = none;
  votes = [];
  acks = if is_leader e.role then [] else e.acks;
}

-- Only the term file and the time of the last contact differ, and the latter is set by a vote.
abbrev pub Touched : Election → ℕ → Election × Result VoteReply → Type 0
Touched f now p =
    p.0
    ≡ record f { terms = p.0.terms; last_contact = if is_granted p.1 then now else f.last_contact }

-- What a request leaves: a vote's contact, and, of a higher term, what following it leaves, unless
-- the term file could not be written.
abbrev pub IsTraced : Election → VoteRequest → ℕ → Election × Result VoteReply → Type 0
IsTraced e req now p =
    ((req.term ≤ term_of e) × Touched e now p)
    ⊎ ((term_of e < req.term)
        × ((x : TermError) × (p.1 ≡ err (term_store x)))
        × (p.0 ≡ record e { terms = p.0.terms }))
    ⊎ ((term_of e < req.term)
        × Touched
            (record (followed e) {
              last_contact = if is_leader e.role then now else e.last_contact;
            })
            now p)

voted-Touched :
    (e : Election) (term now : ℕ) (r : TermStore × shardlite.Cluster.Term.Result Bool)
    → Touched e now (voted e term now r)
voted-Touched e term now (ts, shardlite.Cluster.Term.err x) = refl
voted-Touched e term now (ts, shardlite.Cluster.Term.ok true) = refl
voted-Touched e term now (ts, shardlite.Cluster.Term.ok false) = refl

refuse-Touched : (e : Election) (now : ℕ) (why : Reason) → Touched e now (refuse e why)
refuse-Touched e now why = refl

consider-Touched :
    (disk : Bool) (e : Election) (req : VoteRequest) (now : ℕ) (mine : Durability)
    → Touched e now (consider disk e req now mine)
unfolding consider
consider-Touched disk e req now mine = elim (Bool-cases (is_configured_voter e req.candidate)) [
  | inr stranger ↦ rw stranger (refuse-Touched e now (not_configured req.candidate))
  | inl known ↦ elim (Bool-cases (ltb req.term (term_of e))) [
    | inl old ↦ rw (known, old) (refuse-Touched e now (stale_term req.term (term_of e)))
    | inr fine ↦ elim (Bool-cases (is_at_least (compare_to req.durability mine))) [
      | inr behind ↦
          rw (known, fine, behind)
            (refuse-Touched e now (not_up_to_date (compare_to req.durability mine)))
      | inl enough ↦
          rw (known, fine, enough)
            (voted-Touched e req.term now (grant_vote disk e.terms req.term req.candidate))
    ]
  ]
]

followed-IsTraced :
    (disk' : Bool) (e : Election) (req : VoteRequest) (now : ℕ) (mine : Durability) (why : Why)
    → term_of e < req.term
    → (r : TermStore × shardlite.Cluster.Term.Result Bool)
    → IsTraced e req now (then_consider disk' req now mine (observed e why now r))
unfolding step_down
followed-IsTraced disk' e req now mine why lt (ts, shardlite.Cluster.Term.err x) =
    inr (inl (lt, (x, refl), refl))
followed-IsTraced disk' e req now mine why lt (ts, shardlite.Cluster.Term.ok changed) =
    elim (Bool-cases (is_leader e.role)) [
      | inl led ↦
          rw (led, IsTraced, Touched, followed)
            (inr (
              inr (
                lt,
                consider-Touched disk'
                    (record e {
                      terms = ts;
                      role = follower;
                      leader = none;
                      last_contact = now;
                      votes = [];
                      acks = [];
                    })
                    req now mine,
              )))
      | inr idle_now ↦
          rw (idle_now, IsTraced, Touched, followed)
            (inr (
              inr (
                lt,
                consider-Touched disk'
                    (record e { terms = ts; votes = []; role = follower; leader = none }) req now
                    mine,
              )))
    ]

request-IsTraced :
    (disk disk' : Bool) (e : Election) (req : VoteRequest) (now : ℕ) (mine : Durability) (why : Why)
    → term_of e < req.term
    → IsTraced e req now (then_consider disk' req now mine (observe_term disk e req.term now why))
unfolding observe_term
request-IsTraced disk disk' e req now mine why lt =
    followed-IsTraced disk' e req now mine why lt (advance_to disk e.terms req.term)

-- A vote request keeps the configuration, and the term file durable, and makes a move of the
-- protocol: a vote that is granted is in the term the node is then in, and is recorded as its vote.
-- Apart from the term file, a request of no higher term leaves the node as it was, but for the time
-- of its last contact, which is now exactly if it granted the vote; a request of a higher term makes
-- it a follower of no leader and without votes, a leader also without acknowledgements and with
-- the contact of now, and adds again only the contact of a vote, unless the term file could not be
-- written, which changes nothing else. The term asked for and the candidate are u64.
pub on_vote_request-Moves :
    (disk disk' : Bool) (e : Election) (req : VoteRequest) (now : ℕ) (mine : Durability)
    → req.term < u64
    → req.candidate < u64
    → let p = on_vote_request disk disk' e req now mine in
      Frame e p.0
      × Move Nobody
          (Requested req.candidate req.term)
          e
          p.0
          (granted_ballots e.cfg.node req.candidate p.1)
          []
      × IsTraced e req now p
unfolding on_vote_request
on_vote_request-Moves disk disk' e req now mine h k = elim (Bool-cases (ltb (term_of e) req.term)) [
  | inl higher ↦
      let lt = ltb→lt (term_of e) req.term higher in
      let why = higher_candidate req.candidate in
      let (f, m) = adopting disk disk' e req now mine lt h k why _ refl in
      rw (higher, on_vote_request) (f, m, request-IsTraced disk disk' e req now mine why lt)
  | inr same ↦
      let le = ltb→ge (term_of e) req.term same in
      rw (same, on_vote_request)
        (
          consider-Frame disk' e req now mine h k,
          Voter-Move (consider-Voter disk' e req now mine le),
          inl (le, consider-Touched disk' e req now mine),
        )
]
