-- ===== src/Cluster/Election/Safety/Theorem.antt =====
-- At most one node leads, or ever wins an election, in a term.
use shardlite.Common.{ℕ, ◌<◌, ◌≡◌, refl, sym, true, List, [], arith, subst}
use shardlite.Common.Decimal.{u64}
use shardlite.Common.Count.{majorities_meet}
use shardlite.Cluster.Term.Votes.{IsDurable, Kept-refl}
use shardlite.Cluster.Term.History.{open_store-file}
use shardlite.Cluster.Election.{Election, follower, term_of, is_leader, VoteReply}
use shardlite.Cluster.Election.Machine.{
  tick, on_vote_request, on_vote_reply, on_heartbeat, on_heartbeat_reply, request_step_down,
}
use shardlite.Cluster.Election.Protocol.{Ballot, Frame, Move, settles, Nobody, NoRequest}
use shardlite.Cluster.Election.Refine.{own_ballots, wins_of, granted_ballots, tick-Moves}
use shardlite.Cluster.Election.Answers.{Requested, request_step_down-Frame, request_step_down-Move}
use shardlite.Cluster.Election.Requests.{on_vote_request-Moves}
use shardlite.Cluster.Election.Replies.{GrantedBy, on_vote_reply-Moves}
use shardlite.Cluster.Election.Heartbeats.{on_heartbeat-Moves, on_heartbeat_reply-Moves}
use shardlite.Cluster.Election.Safety.{
  System, In, ballot, win, restarted, Step, ticks, asked, answered, beaten, acknowledged, relieved,
  restarts, Reach, here, next,
}
use shardlite.Cluster.Election.Safety.Invariant.{IsValid}
use shardlite.Cluster.Election.Safety.Moves.{Heard, Asked}
use shardlite.Cluster.Election.Safety.Preserved.{moves-IsValid}

Nobody-Heard : (B : List Ballot) (i : ℕ) (e : Election) → Heard Nobody B i e
Nobody-Heard B i e k h = absurd (h refl)

NoRequest-Asked : (B : List Ballot) → Asked NoRequest B
NoRequest-Asked B c t h = absurd (h refl)

Requested-Asked : (B : List Ballot) (c t : ℕ) → In (ballot c c t) B → Asked (Requested c t) B
Requested-Asked B c t h k u (p, q) = rw p (rw q h)

GrantedBy-Heard :
    (B : List Ballot) (i from : ℕ) (e : Election) (reply : VoteReply)
    → (reply.granted ≡ true → In (ballot from i reply.term) B)
    → Heard (GrantedBy e from reply) B i e
GrantedBy-Heard B i from e reply h k (p, g, t) = rw p (subst (λ u. In (ballot from i u) B) t (h g))

restarted-Frame : (e : Election) (now : ℕ) → IsDurable e.terms → Frame e (restarted e now)
restarted-Frame e now d = record {
  cfg = refl;
  current = refl;
  next = refl;
  terms = rw (open_store-file e.terms d) (Kept-refl e.terms);
}

Step-IsValid : {V : List ℕ} {s t : System} → IsValid V s → Step s t → IsValid V t
Step-IsValid {V} {s} v (ticks i disk disk' now d small fits) =
    let me = (v.node i).cfg in
    let p = tick disk disk' (s.nodes i) now d in
    let (f, m) =
      tick-Moves disk disk' (s.nodes i) now d (subst (λ n. n < u64) (sym me) small) fits in
    moves-IsValid s i p.0 (own_ballots i p.1) (wins_of i p.1) v f
      (Nobody-Heard s.ballots i (s.nodes i)) (NoRequest-Asked s.ballots)
      (subst (λ n. Move Nobody NoRequest (s.nodes i) p.0 (own_ballots n p.1) (wins_of n p.1)) me m)
Step-IsValid {V} {s} v (asked i disk disk' req now mine fits small own) =
    let me = (v.node i).cfg in
    let p = on_vote_request disk disk' (s.nodes i) req now mine in
    let (f, m, traced) = on_vote_request-Moves disk disk' (s.nodes i) req now mine fits small in
    moves-IsValid s i p.0 (granted_ballots i req.candidate p.1) [] v f
      (Nobody-Heard s.ballots i (s.nodes i)) (Requested-Asked s.ballots req.candidate req.term own)
      (subst
        (λ n.
          Move Nobody (Requested req.candidate req.term) (s.nodes i) p.0
            (granted_ballots n req.candidate p.1) [])
        me m)
Step-IsValid {V} {s} v (answered i disk from reply now fits cast) =
    let me = (v.node i).cfg in
    let p = on_vote_reply disk (s.nodes i) from reply now in
    let (f, m) = on_vote_reply-Moves disk (s.nodes i) from reply now fits in
    moves-IsValid s i p.0 [] (wins_of i p.1) v f
      (GrantedBy-Heard s.ballots i from (s.nodes i) reply cast) (NoRequest-Asked s.ballots)
      (subst
        (λ n. Move (GrantedBy (s.nodes i) from reply) NoRequest (s.nodes i) p.0 [] (wins_of n p.1))
        me m)
Step-IsValid {V} {s} v (beaten i disk hb now fits) =
    let (f, m) = on_heartbeat-Moves disk (s.nodes i) hb now fits in
    moves-IsValid s i (on_heartbeat disk (s.nodes i) hb now).0 [] [] v f
      (Nobody-Heard s.ballots i (s.nodes i)) (NoRequest-Asked s.ballots) m
Step-IsValid {V} {s} v (acknowledged i disk from reply now fits) =
    let (f, m) = on_heartbeat_reply-Moves disk (s.nodes i) from reply now fits in
    moves-IsValid s i (on_heartbeat_reply disk (s.nodes i) from reply now).0 [] [] v f
      (Nobody-Heard s.ballots i (s.nodes i)) (NoRequest-Asked s.ballots) m
Step-IsValid {V} {s} v (relieved i now) =
    moves-IsValid s i (request_step_down (s.nodes i) now).0 [] [] v
      (request_step_down-Frame (s.nodes i) now) (Nobody-Heard s.ballots i (s.nodes i))
      (NoRequest-Asked s.ballots) (request_step_down-Move (s.nodes i) now)
Step-IsValid {V} {s} v (restarts i now) =
    moves-IsValid s i (restarted (s.nodes i) now) [] [] v
      (restarted-Frame (s.nodes i) now (v.node i).durable) (Nobody-Heard s.ballots i (s.nodes i))
      (NoRequest-Asked s.ballots) (settles refl refl refl)

-- Every node follows, with the voters and its own number, and with a term file that says what it knows; whatever votes it
-- cast in the past, the history of votes and wins begins here.
pub record IsInitial (V : List ℕ) (s : System) : Type 0 where
  pub numbered : (i : ℕ) → (s.nodes i).cfg.node ≡ i
  pub voting : (i : ℕ) → (s.nodes i).current_voters ≡ V
  pub durable : (i : ℕ) → IsDurable (s.nodes i).terms
  pub following : (i : ℕ) → (s.nodes i).role ≡ follower
  pub no_ballots : s.ballots ≡ []
  pub no_wins : s.wins ≡ []

never {ℓ} : {A : Type ℓ} (a : A) → ¬ In a []
never a x = x refl

IsInitial-IsValid : (V : List ℕ) (s : System) → IsInitial V s → IsValid V s
IsInitial-IsValid V s h = record {
  node = λ i. record {
    cfg = h.numbered i;
    voters = h.voting i;
    durable = h.durable i;
    counting = λ c. absurd (let f = h.following i in cc);
    leading = λ l. absurd (let f = h.following i in ground (arith, f));
  };
  cast = λ k c t x. absurd (never _ (subst (λ l. In (ballot k c t) l) h.no_ballots x));
  asked = λ k c t x. absurd (never _ (subst (λ l. In (ballot k c t) l) h.no_ballots x));
  once = λ k c d t x y. absurd (never _ (subst (λ l. In (ballot k c t) l) h.no_ballots x));
  backed = λ i t x. absurd (never _ (subst (λ l. In (win i t) l) h.no_wins x));
}

Reach-IsValid : {V : List ℕ} {s t : System} → IsValid V s → Reach s t → IsValid V t
Reach-IsValid v here = v
Reach-IsValid v (next r x) = Step-IsValid (Reach-IsValid v r) x

wins_agree :
    (V : List ℕ) (s : System) (i j t : ℕ)
    → IsValid V s
    → In (win i t) s.wins
    → In (win j t) s.wins
    → i ≡ j
wins_agree V s i j t v x y =
    let (p, op, mp, ap') = v.backed i t x in
    let (q, oq, mq, aq) = v.backed j t y in
    let (k, _, kp, kq) = majorities_meet V p q op oq mp mq in v.once k i j t (ap' k kp) (aq k kq)

-- There is at most one leader in a term. In every state that a cluster with one fixed set of
-- current voters reaches from nodes that follow, and whose term files say what they know, by any
-- sequence of ticks, delivered, lost, repeated and reordered messages, failed writes of term
-- files, step-downs and restarts: two nodes that lead in the same term are the same node, and two
-- elections ever won in the same term were won by the same node. The terms of messages and the
-- numbers of nodes are u64, and a vote or a request for one that is delivered was cast or sent.
pub one_leader_per_term :
    (V : List ℕ) (s t : System) (i j : ℕ)
    → IsInitial V s
    → Reach s t
    → (is_leader (t.nodes i).role ≡ true
        → is_leader (t.nodes j).role ≡ true
        → term_of (t.nodes i) ≡ term_of (t.nodes j)
        → i ≡ j)
      × ((term : ℕ) → In (win i term) t.wins → In (win j term) t.wins → i ≡ j)
one_leader_per_term V s t i j h r =
    let v = Reach-IsValid (IsInitial-IsValid V s h) r in
    (
      λ a b same.
          wins_agree V t i j (term_of (t.nodes j)) v
            (subst (λ u. In (win i u) t.wins) same ((v.node i).leading a)) ((v.node j).leading b),
      λ term a b. wins_agree V t i j term v a b,
    )
