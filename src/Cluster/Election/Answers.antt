-- ===== src/Cluster/Election/Answers.antt =====
-- The handlers of messages make moves of the protocol.
use shardlite.Common.{
  ℕ, ◌<◌, ◌≤◌, ◌≡◌, ◌⊎◌, refl, ap, ◌∙◌, inl, inr, Bool, true, false, some, List, [], ◌∷◌, arith,
}
use shardlite.Common.Decimal.{u64}
use shardlite.Cluster.Term.{grant_vote}
use shardlite.Cluster.Term.Votes.{
  Kept-refl, grant_vote-Kept, grant_vote-granted, grant_vote-err, grant_vote-refused,
}
use shardlite.Cluster.Durability.{Durability}
use shardlite.Cluster.Election.{Election, follower, term_of, VoteRequest, ElectionConfig}
use shardlite.Cluster.Election.Machine.{request_step_down, consider, voted}
use shardlite.Cluster.Election.Protocol.{
  Nobody, NoRequest, Ballot, Frame, Move, settles, stays, votes_for, vote_of,
}
use shardlite.Cluster.Election.Refine.{answer, frame_refl, granted_ballots}

-- An outcome that leaves the term store and the voters alone.
pub quiet-Frame :
    {e e' : Election}
    → e'.cfg ≡ e.cfg
    → e'.current_voters ≡ e.current_voters
    → e'.next_voters ≡ e.next_voters
    → e'.terms ≡ e.terms
    → Frame e e'
quiet-Frame {e} c v n t = record {
  cfg = c;
  current = v;
  next = n;
  terms = rw t (Kept-refl e.terms);
}

step_down-cases :
    (e : Election) (now : ℕ)
    → ((request_step_down e now).0.role ≡ follower) ⊎ ((request_step_down e now).0 ≡ e)
unfolding request_step_down
step_down-cases e now = ground arith

pub request_step_down-Frame : (e : Election) (now : ℕ) → Frame e (request_step_down e now).0
unfolding request_step_down
request_step_down-Frame e now =
    quiet-Frame (ground arith) (ground arith) (ground arith) (ground arith)

pub request_step_down-Move :
    (e : Election) (now : ℕ) → Move Nobody NoRequest e (request_step_down e now).0 [] []
request_step_down-Move e now = elim (step_down-cases e now) [
  | inl f ↦ settles refl refl f
  | inr same ↦ rw same (stays refl refl refl refl refl)
]

-- `consider` either answers without a trace, or reaches the vote.
pub consider-cases :
    (disk : Bool) (e : Election) (req : VoteRequest) (now : ℕ) (mine : Durability)
    → let p = consider disk e req now mine in
      ((p.0 ≡ e) × (granted_ballots e.cfg.node req.candidate p.1 ≡ []))
      ⊎ ((p ≡ voted e req.term now (grant_vote disk e.terms req.term req.candidate))
          × (term_of e ≤ req.term))
unfolding consider
consider-cases disk e req now mine = ground arith

voted-terms :
    (disk : Bool) (e : Election) (term c now : ℕ)
    → (voted e term now (grant_vote disk e.terms term c)).0.terms
      ≡ (grant_vote disk e.terms term c).0
voted-terms disk e term c now = ground arith

pub voted-Frame :
    (disk : Bool) (e : Election) (term c now : ℕ)
    → term < u64
    → c < u64
    → Frame e (voted e term now (grant_vote disk e.terms term c)).0
voted-Frame disk e term c now h k = record {
  cfg = ground arith;
  current = ground arith;
  next = ground arith;
  terms = rw (voted-terms disk e term c now) (grant_vote-Kept disk e.terms term c h k);
}

-- A request of one candidate in one term.
abbrev pub Requested : ℕ → ℕ → ℕ → ℕ → Type 0
Requested c t k u = (k ≡ c) × (u ≡ t)

-- The moves of a voter that is asked: no trace, or a vote in the term that it is in.
pub data Voter (asked : ℕ → ℕ → Type 0) (e e' : Election) (ballots : List Ballot) : Type 0 where
  abstains :
      ballots ≡ []
      → term_of e' ≡ term_of e
      → e'.role ≡ e.role
      → e'.votes ≡ e.votes
      → Voter asked e e' ballots
  grants :
      (c : ℕ)
      → asked c (term_of e')
      → ballots ≡ record { voter = e.cfg.node; candidate = c; term = term_of e' } ∷ []
      → vote_of e' ≡ some c
      → e'.role ≡ e.role
      → e'.votes ≡ e.votes
      → term_of e' ≡ term_of e
      → Voter asked e e' ballots

voted-Voter :
    (disk : Bool) (e : Election) (term c now : ℕ)
    → term ≡ term_of e
    → let p = voted e term now (grant_vote disk e.terms term c) in
      Voter (Requested c term) e p.0 (granted_ballots e.cfg.node c p.1)
voted-Voter disk e term c now same =
    let gr = grant_vote disk e.terms term c in
    elim (answer gr.1) [
      | inr (x, bad) ↦
          let t = grant_vote-err disk e.terms term c bad in
          abstains (ground arith) (ground (arith, t)) (ground arith) (ground arith)
      | inl (true, good) ↦
          let t = grant_vote-granted disk e.terms term c good in
          grants c (refl, ground (arith, t)) (ground (arith, t)) (ground (arith, t)) (ground arith)
            (ground arith) (ground (arith, t))
      | inl (false, no_vote) ↦
          let t = grant_vote-refused disk e.terms term c no_vote in
          abstains (ground arith) (ground (arith, t)) (ground arith) (ground arith)
    ]

pub consider-Frame :
    (disk : Bool) (e : Election) (req : VoteRequest) (now : ℕ) (mine : Durability)
    → req.term < u64
    → req.candidate < u64
    → Frame e (consider disk e req now mine).0
consider-Frame disk e req now mine h k = elim (consider-cases disk e req now mine) [
  | inl (same, _) ↦ rw same (frame_refl e)
  | inr (same, _) ↦ rw same (voted-Frame disk e req.term req.candidate now h k)
]

pub consider-Voter :
    (disk : Bool) (e : Election) (req : VoteRequest) (now : ℕ) (mine : Durability)
    → req.term ≤ term_of e
    → let p = consider disk e req now mine in
      Voter (Requested req.candidate req.term) e p.0 (granted_ballots e.cfg.node req.candidate p.1)
consider-Voter disk e req now mine le = elim (consider-cases disk e req now mine) [
  | inl (same, no_ballot) ↦ rw no_ballot (rw same (abstains refl refl refl refl))
  | inr (same, ge) ↦ rw same (voted-Voter disk e req.term req.candidate now (omega arith))
]

pub Voter-Move :
    {asked : ℕ → ℕ → Type 0} {e e' : Election} {b : List Ballot}
    → Voter asked e e' b
    → Move Nobody asked e e' b []
Voter-Move (abstains b t r v) = stays b refl t r v
Voter-Move (grants c a b v r k t) = votes_for c a b refl v (inr (r, k, t))

-- The same moves of a node that has just become a follower.
pub Voter-followed :
    {asked : ℕ → ℕ → Type 0} (e0 : Election) {e e' : Election} {b : List Ballot}
    → e.cfg ≡ e0.cfg
    → e.role ≡ follower
    → Voter asked e e' b
    → Move Nobody asked e0 e' b []
Voter-followed e0 same f (abstains b t r v) = settles b refl (r ∙ f)
Voter-followed e0 {e} {e'} same f (grants c a b v r k t) =
    votes_for c a
      (b
        ∙ ap
            (λ (g : ElectionConfig).
              record { voter = g.node; candidate = c; term = term_of e' } ∷ [])
            same)
      refl v (inl (r ∙ f))
