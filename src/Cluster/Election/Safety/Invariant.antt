-- ===== src/Cluster/Election/Safety/Invariant.antt =====
-- The invariant of the cluster.
use shardlite.Common.{ℕ, ◌<◌, ◌≤◌, ◌≡◌, ◌⊎◌, true, some, List}
use shardlite.Common.OrdSet.{contains, IsOrdered}
use shardlite.Common.Count.{IsMajority}
use shardlite.Cluster.Term.Votes.{IsDurable}
use shardlite.Cluster.Election.{Election, candidate, term_of, is_leader}
use shardlite.Cluster.Election.Protocol.{Ballot, Win, vote_of}
use shardlite.Cluster.Election.Safety.{System, In, ballot, win}

-- The votes that a node counts were cast for it in its term; or nobody can have voted for it in its
-- term, since it failed to vote for itself.
abbrev pub IsCounting : List Ballot → ℕ → Election → Type 0
IsCounting ballots i e =
    (IsOrdered e.votes
      × ((k : ℕ) → contains e.votes k ≡ true → In (ballot k i (term_of e)) ballots))
    ⊎ ((k : ℕ) → ¬ In (ballot k i (term_of e)) ballots)

pub record NodeIsValid (V : List ℕ) (ballots : List Ballot) (wins : List Win) (i : ℕ) (e : Election)
    : Type 0 where
  pub cfg : e.cfg.node ≡ i
  pub voters : e.current_voters ≡ V
  pub durable : IsDurable e.terms
  pub counting : e.role ≡ candidate → IsCounting ballots i e
  pub leading : is_leader e.role ≡ true → In (win i (term_of e)) wins

-- A vote is from a past term of its voter, or it is the voter's vote.
abbrev pub IsCast : Election → ℕ → ℕ → Type 0
IsCast e c t = (t < term_of e) ⊎ ((t ≡ term_of e) × (vote_of e ≡ some c))

-- A majority of the voters voted for the winner.
abbrev pub IsBacked : List ℕ → List Ballot → ℕ → ℕ → Type 0
IsBacked voters ballots i term =
    (s : List ℕ) × IsOrdered s
    × IsMajority voters s
    × ((k : ℕ) → contains s k ≡ true → In (ballot k i term) ballots)

pub record IsValid (voters : List ℕ) (s : System) : Type 0 where
  pub node : (i : ℕ) → NodeIsValid voters s.ballots s.wins i (s.nodes i)
  pub cast : (k i t : ℕ) → In (ballot k i t) s.ballots → IsCast (s.nodes k) i t
  pub asked : (k i t : ℕ) → In (ballot k i t) s.ballots → t ≤ term_of (s.nodes i)
  pub once : (k i j t : ℕ) → In (ballot k i t) s.ballots → In (ballot k j t) s.ballots → i ≡ j
  pub backed : (i t : ℕ) → In (win i t) s.wins → IsBacked voters s.ballots i t
