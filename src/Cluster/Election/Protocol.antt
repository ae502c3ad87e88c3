-- ===== src/Cluster/Election/Protocol.antt =====
-- The protocol behind the handlers: what one call does to a node's term, vote, role and ballots.
use shardlite.Common.{ℕ, ◌+◌, ◌≡◌, ◌⊎◌, true, false, Option, some, List, [], ◌∷◌, ◌≢◌}
use shardlite.Common.OrdSet.{insert}
use shardlite.Cluster.Term.Votes.{Kept}
use shardlite.Cluster.Election.{Election, follower, candidate, term_of, is_leader, has_quorum}

-- A vote that was cast: the voter, the candidate and the term.
pub record Ballot : Type 0 where
  pub voter : ℕ
  pub candidate : ℕ
  pub term : ℕ

-- An election that was won.
pub record Win : Type 0 where
  pub winner : ℕ
  pub term : ℕ

abbrev pub vote_of : Election → Option ℕ
vote_of e = e.terms.state.voted_for

-- What no call changes, and that the term only grows and votes only extend.
pub record Frame (e e' : Election) : Type 0 where
  pub cfg : e'.cfg ≡ e.cfg
  pub current : e'.current_voters ≡ e.current_voters
  pub next : e'.next_voters ≡ e.next_voters
  pub terms : Kept e.terms e'.terms

-- The node leads only with a quorum of the votes that it counted.
abbrev pub Counted : Election → List Win → Type 0
Counted e' wins =
    ((e'.role ≡ candidate) × (wins ≡ []))
    ⊎ ((has_quorum e' e'.votes ≡ true)
        × (wins ≡ record { winner = e'.cfg.node; term = term_of e' } ∷ []))

-- No vote is counted.
abbrev pub Nobody : ℕ → Type 0
Nobody k = k ≢ k

abbrev pub NoRequest : ℕ → ℕ → Type 0
NoRequest c t = c ≢ c

-- `asked c t` says that the node may vote for `c` in term `t`, and `heard k` says that the node may count a vote of `k`.
pub data Move (heard : ℕ → Type 0) (asked : ℕ → ℕ → Type 0) (e e' : Election)
    (ballots : List Ballot) (wins : List Win) : Type 0 where
  -- The node follows.
  settles : ballots ≡ [] → wins ≡ [] → e'.role ≡ follower → Move heard asked e e' ballots wins
  -- The term, the vote, the role and the votes counted stay.
  stays :
      ballots ≡ []
      → wins ≡ []
      → term_of e' ≡ term_of e
      → e'.role ≡ e.role
      → e'.votes ≡ e.votes
      → Move heard asked e e' ballots wins
  -- Standing for election advanced the term, and the write of its own vote failed.
  tears :
      ballots ≡ []
      → wins ≡ []
      → term_of e' ≡ term_of e + 1
      → e'.role ≡ e.role
      → is_leader e.role ≡ false
      → Move heard asked e e' ballots wins
  -- A vote for a candidate, in the term the node is now in.
  votes_for :
      (c : ℕ)
      → asked c (term_of e')
      → ballots ≡ record { voter = e.cfg.node; candidate = c; term = term_of e' } ∷ []
      → wins ≡ []
      → vote_of e' ≡ some c
      → (e'.role ≡ follower)
        ⊎ ((e'.role ≡ e.role) × (e'.votes ≡ e.votes) × (term_of e' ≡ term_of e))
      → Move heard asked e e' ballots wins
  -- A new term, with a vote for itself, which is the only one counted.
  campaigns :
      ballots ≡ record { voter = e.cfg.node; candidate = e.cfg.node; term = term_of e' } ∷ []
      → term_of e' ≡ term_of e + 1
      → vote_of e' ≡ some e.cfg.node
      → e'.votes ≡ insert [] e.cfg.node
      → Counted e' wins
      → Move heard asked e e' ballots wins
  -- A vote from `from` arrived, and is counted if it is a voter's.
  counts :
      (from : ℕ)
      → heard from
      → ballots ≡ []
      → e.role ≡ candidate
      → term_of e' ≡ term_of e
      → (e'.votes ≡ insert e.votes from) ⊎ (e'.votes ≡ e.votes)
      → Counted e' wins
      → Move heard asked e e' ballots wins
