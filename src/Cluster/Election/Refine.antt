-- ===== src/Cluster/Election/Refine.antt =====
-- Each handler makes a move of the protocol.
use shardlite.Common.{
  ℕ, ◌+◌, ◌%◌, ◌<◌, ◌≡◌, ◌⊎◌, refl, ap, inl, inr, Bool, false, Option, none, some, List, [], ◌∷◌,
  arith, if◌then◌else◌,
}
use shardlite.Common.Decimal.{u64}
use shardlite.Cluster.Term.{TermStore, TermError, advance_to, grant_vote, State}
use shardlite.Cluster.Term
use shardlite.Cluster.Term.Votes.{
  advance_to-err, advance_to-ok, grant_vote-err, Kept-refl, advance_to-Kept, Kept-trans,
  grant_vote-Kept, grant_vote-fresh,
}
use shardlite.Cluster.Durability.{Durability}
use shardlite.Cluster.Election.{
  Election, follower, term_of, is_leader, has_quorum, Result, ok, err, Action, request_votes,
  became_leader, VoteReply, Why,
}
use shardlite.Cluster.Election.Machine.{
  become_leader, observe_term, stand_for_election, campaigned, tick,
}
use shardlite.Cluster.Election.Protocol.{
  Nobody, NoRequest, Ballot, Win, Frame, Move, Counted, settles, stays, tears, votes_for, campaigns,
  counts,
}

-- The vote that a node casts for itself, as its action shows it.
abbrev pub own_ballots : ℕ → Result (Option Action) → List Ballot
own_ballots node (ok (some (request_votes t))) =
    record { voter = node; candidate = node; term = t } ∷ []
own_ballots node (ok (some (became_leader t))) =
    record { voter = node; candidate = node; term = t } ∷ []
own_ballots node _ = []

abbrev pub wins_of : ℕ → Result (Option Action) → List Win
wins_of node (ok (some (became_leader t))) = record { winner = node; term = t } ∷ []
wins_of node _ = []

-- The vote that a reply grants.
abbrev pub granted_ballots : ℕ → ℕ → Result VoteReply → List Ballot
granted_ballots voter c (ok r) =
    if r.granted then record { voter = voter; candidate = c; term = r.term } ∷ [] else []
granted_ballots voter c (err x) = []

pub answer :
    (r : Term.Result Bool) → ((b : Bool) × (r ≡ Term.ok b)) ⊎ ((x : TermError) × (r ≡ Term.err x))
answer (Term.ok b) = inl (b, refl)
answer (Term.err x) = inr (x, refl)

pub frame_refl : (e : Election) → Frame e e
frame_refl e = record { cfg = refl; current = refl; next = refl; terms = Kept-refl e.terms }

pub observe_term-terms :
    (disk : Bool) (e : Election) (term now : ℕ) (why : Why)
    → (observe_term disk e term now why).0.terms ≡ (advance_to disk e.terms term).0
unfolding observe_term
observe_term-terms disk e term now why = ground arith

pub observe_term-Frame :
    (disk : Bool) (e : Election) (term now : ℕ) (why : Why)
    → term < u64
    → Frame e (observe_term disk e term now why).0
unfolding observe_term
observe_term-Frame disk e term now why h = record {
  cfg = ground arith;
  current = ground arith;
  next = ground arith;
  terms = rw (observe_term-terms disk e term now why) (advance_to-Kept disk e.terms term h);
}

-- A node that adopts a term follows; if the write fails nothing changes.
pub observe_term-Move :
    {heard : ℕ → Type 0} {asked : ℕ → ℕ → Type 0} (disk : Bool) (e : Election) (term now : ℕ)
    (why : Why)
    → Move heard asked e (observe_term disk e term now why).0 [] []
unfolding observe_term
observe_term-Move disk e term now why = elim (answer (advance_to disk e.terms term).1) [
  | inl (b, e1) ↦ settles refl refl (ground arith)
  | inr (x, e1) ↦
      stays refl refl (ground (arith, advance_to-err disk e.terms term e1)) (ground arith)
        (ground arith)
]

stand-terms :
    (disk disk' : Bool) (e : Election) (now : ℕ)
    → let s = (advance_to disk e.terms ((term_of e + 1) % u64)).0 in
      ((stand_for_election disk disk' e now).0.terms ≡ s)
      ⊎ ((stand_for_election disk disk' e now).0.terms
          ≡ (grant_vote disk' s ((term_of e + 1) % u64) e.cfg.node).0)
unfolding stand_for_election
stand-terms disk disk' e now = ground arith

stand-Frame :
    (disk disk' : Bool) (e : Election) (now : ℕ)
    → e.cfg.node < u64
    → Frame e (stand_for_election disk disk' e now).0
unfolding stand_for_election
stand-Frame disk disk' e now h =
    let next : ℕ = (term_of e + 1) % u64 in
    let first = advance_to-Kept disk e.terms next (omega arith) in
    record {
      cfg = ground arith;
      current = ground arith;
      next = ground arith;
      terms = elim (stand-terms disk disk' e now) [
        | inl same ↦ rw same first
        | inr more ↦ rw more (
            Kept-trans e.terms (advance_to disk e.terms next).0 _ first (
              grant_vote-Kept disk' (advance_to disk e.terms next).0 next e.cfg.node (omega arith)
                h))
      ];
    }

campaigned-Counted :
    (e : Election) (next now : ℕ) (terms : TermStore) (b : Bool)
    → let p = campaigned e next now (terms, Term.ok b) in Counted p.0 (wins_of e.cfg.node p.1)
unfolding become_leader has_quorum
campaigned-Counted e next now terms b = ground arith

stand-Move :
    (disk disk' : Bool) (e : Election) (now : ℕ)
    → term_of e + 1 < u64
    → is_leader e.role ≡ false
    → let p = stand_for_election disk disk' e now in
      Move Nobody NoRequest e p.0 (own_ballots e.cfg.node p.1) (wins_of e.cfg.node p.1)
unfolding stand_for_election
stand-Move disk disk' e now fits role =
    let next : ℕ = (term_of e + 1) % u64 in
    let adv = advance_to disk e.terms next in
    let gr = grant_vote disk' adv.0 next e.cfg.node in
    elim (answer adv.1) [
      | inr (x, bad) ↦
          stays (ground arith) (ground arith) (ground (arith, advance_to-err disk e.terms next bad))
            (ground arith) (ground arith)
      | inl (b, good) ↦
          let s = advance_to-ok disk e.terms next (omega arith) good in
          elim (answer gr.1) [
            | inr (x, bad) ↦
                tears (ground arith) (ground arith)
                  (ground (arith, grant_vote-err disk' adv.0 next e.cfg.node bad, s)) (ground arith)
                  role
            | inl (c, fine) ↦
                let t = grant_vote-fresh disk' adv.0 next e.cfg.node s fine in
                campaigns (ground arith) (ground (arith, t)) (ground (arith, t)) (ground arith)
                  (ground (arith, campaigned-Counted e next now gr.0 c))
          ]
    ]

-- With the back-off lapsed, the rest of the state is as it was.
abbrev lapsed : Election → Election
lapsed e = record e { stepdown_backoff = none }

tick-cases :
    (disk disk' : Bool) (e : Election) (now : ℕ) (d : Durability)
    → (tick disk disk' e now d ≡ stand_for_election disk disk' (lapsed e) now)
        × (is_leader e.role ≡ false)
      ⊎ ((tick disk disk' e now d).0.terms ≡ e.terms)
        × ((tick disk disk' e now d).0.cfg ≡ e.cfg)
        × ((tick disk disk' e now d).0.current_voters ≡ e.current_voters)
        × ((tick disk disk' e now d).0.next_voters ≡ e.next_voters)
        × (own_ballots e.cfg.node (tick disk disk' e now d).1 ≡ [])
        × (wins_of e.cfg.node (tick disk disk' e now d).1 ≡ [])
        × (((tick disk disk' e now d).0.role ≡ follower)
            ⊎ (((tick disk disk' e now d).0.role ≡ e.role)
                × ((tick disk disk' e now d).0.votes ≡ e.votes)))
unfolding tick
tick-cases disk disk' e now d = ground arith

from_lapsed : (e : Election) {e' : Election} → Frame (lapsed e) e' → Frame e e'
from_lapsed e f = record { cfg = f.cfg; current = f.current; next = f.next; terms = f.terms }

pub tick-Frame :
    (disk disk' : Bool) (e : Election) (now : ℕ) (d : Durability)
    → e.cfg.node < u64
    → Frame e (tick disk disk' e now d).0
tick-Frame disk disk' e now d h = elim (tick-cases disk disk' e now d) [
  | inl (same, _) ↦ rw same (from_lapsed e (stand-Frame disk disk' (lapsed e) now h))
  | inr (t, c, v, n, _, _, _) ↦ record {
    cfg = c;
    current = v;
    next = n;
    terms = rw t (Kept-refl e.terms);
  }
]

moved_from_lapsed :
    (e : Election) {e' : Election} {b : List Ballot} {w : List Win}
    → Move Nobody NoRequest (lapsed e) e' b w
    → Move Nobody NoRequest e e' b w
moved_from_lapsed e (settles b w r) = settles b w r
moved_from_lapsed e (stays b w t r v) = stays b w t r v
moved_from_lapsed e (tears b w t r l) = tears b w t r l
moved_from_lapsed e (votes_for c a b w v r) = votes_for c a b w v r
moved_from_lapsed e (campaigns b t v l c) = campaigns b t v l c
moved_from_lapsed e (counts f h b r t v c) = counts f h b r t v c

pub tick-Move :
    (disk disk' : Bool) (e : Election) (now : ℕ) (d : Durability)
    → term_of e + 1 < u64
    → let p = tick disk disk' e now d in
      Move Nobody NoRequest e p.0 (own_ballots e.cfg.node p.1) (wins_of e.cfg.node p.1)
tick-Move disk disk' e now d h = elim (tick-cases disk disk' e now d) [
  | inl (same, role) ↦ rw same (moved_from_lapsed e (stand-Move disk disk' (lapsed e) now h role))
  | inr (t, c, v, n, b, w, inl f) ↦ settles b w f
  | inr (t, c, v, n, b, w, inr (r, k)) ↦ stays b w (ap (λ s. s.state.term) t) r k
]

-- A tick keeps the configuration, and the term file durable, and makes a move of the protocol: a
-- vote that it casts is for itself in a new term, and it wins only with a quorum of the votes
-- counted. The node is a u64, and the next term too.
pub tick-Moves :
    (disk disk' : Bool) (e : Election) (now : ℕ) (d : Durability)
    → e.cfg.node < u64
    → term_of e + 1 < u64
    → let p = tick disk disk' e now d in
      Frame e p.0
      × Move Nobody NoRequest e p.0 (own_ballots e.cfg.node p.1) (wins_of e.cfg.node p.1)
tick-Moves disk disk' e now d h fits =
    (tick-Frame disk disk' e now d h, tick-Move disk disk' e now d fits)
