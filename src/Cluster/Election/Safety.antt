-- ===== src/Cluster/Election/Safety.antt =====
-- The cluster as a whole: nodes with one fixed set of voters, and an environment that delivers
-- messages in any order, any number of times or never, moves every clock freely, fails any write of
-- a term file and restarts any node. Heartbeats, their replies and refused votes may even be forged;
-- a vote request has to be one that its candidate sent, and a granted vote one that its voter cast.
pub mod Invariant
pub mod Moves
pub mod Preserved
pub mod Theorem
use shardlite.Common.{
  ℕ, zero, suc, ◌+◌, ◌-◌, ◌*◌, ◌/◌, ◌%◌, ◌^◌, ◌<◌, ◌≤◌, ◌≡◌, ◌≢◌, ◌⊎◌, ◌&&◌, ◌||◌, ◌==◌, ◌++◌, refl,
  sym, ap, ◌∙◌, inl, inr, Bool, true, false, not, Option, none, some, List, [], ◌∷◌, map, arith,
  ltb, leb, if◌then◌else◌, length, All, Bool-cases, Option-cases,
}
use shardlite.Common.Decimal.{u64}
use shardlite.Cluster.Term.{TermStore, open_store}
use shardlite.Cluster.Term.History.{or_old}
use shardlite.Cluster.Durability.{Durability}
use shardlite.Cluster.Election.{
  Election, follower, term_of, VoteRequest, VoteReply, Heartbeat, HeartbeatReply,
}
use shardlite.Cluster.Election.Machine.{
  tick, on_vote_request, on_vote_reply, on_heartbeat, on_heartbeat_reply, request_step_down,
}
use shardlite.Cluster.Election.Protocol.{Ballot, Win}
use shardlite.Cluster.Election.Refine.{own_ballots, wins_of, granted_ballots}

-- The nodes by number, every vote ever cast and every election ever won.
pub record System : Type 0 where
  pub nodes : ℕ → Election
  pub ballots : List Ballot
  pub wins : List Win

abbrev pub In {ℓ} : {A : Type ℓ} → A → List A → Type ℓ
In a [] = a ≢ a
In a (x ∷ xs) = (a ≡ x) ⊎ In a xs

abbrev pub ballot : ℕ → ℕ → ℕ → Ballot
ballot voter candidate term = record { voter = voter; candidate = candidate; term = term }

abbrev pub win : ℕ → ℕ → Win
win winner term = record { winner = winner; term = term }

abbrev pub update : (ℕ → Election) → ℕ → Election → ℕ → Election
update f i e j = if i == j then e else f j

-- The state after node `i` made a call.
abbrev pub after : System → ℕ → Election → List Ballot → List Win → System
after s i e ballots wins = record {
  nodes = update s.nodes i e;
  ballots = ballots ++ s.ballots;
  wins = wins ++ s.wins;
}

-- A restarted node opens its term file and follows.
abbrev pub restarted : Election → ℕ → Election
restarted e now = record e {
  terms = or_old e.terms (open_store e.terms.file);
  role = follower;
  leader = none;
  last_contact = now;
  last_heartbeat = now;
  votes = [];
  acks = [];
  lease_start = now;
  stepdown_backoff = none;
}

pub data Step (s : System) : System → Type 0 where
  ticks :
      (i : ℕ) (disk disk' : Bool) (now : ℕ) (d : Durability)
      → i < u64
      → term_of (s.nodes i) + 1 < u64
      → Step s (
          after s i
            (tick disk disk' (s.nodes i) now d).0
            (own_ballots i (tick disk disk' (s.nodes i) now d).1)
            (wins_of i (tick disk disk' (s.nodes i) now d).1))
  asked :
      (i : ℕ) (disk disk' : Bool) (req : VoteRequest) (now : ℕ) (mine : Durability)
      → req.term < u64
      → req.candidate < u64
      → In (ballot req.candidate req.candidate req.term) s.ballots
      → Step s (
          after s i
            (on_vote_request disk disk' (s.nodes i) req now mine).0
            (granted_ballots i req.candidate
              (on_vote_request disk disk' (s.nodes i) req now mine).1)
            [])
  answered :
      (i : ℕ) (disk : Bool) (from : ℕ) (reply : VoteReply) (now : ℕ)
      → reply.term < u64
      → (reply.granted ≡ true → In (ballot from i reply.term) s.ballots)
      → Step s (
          after s i
            (on_vote_reply disk (s.nodes i) from reply now).0
            []
            (wins_of i (on_vote_reply disk (s.nodes i) from reply now).1))
  beaten :
      (i : ℕ) (disk : Bool) (hb : Heartbeat) (now : ℕ)
      → hb.term < u64
      → Step s (after s i (on_heartbeat disk (s.nodes i) hb now).0 [] [])
  acknowledged :
      (i : ℕ) (disk : Bool) (from : ℕ) (reply : HeartbeatReply) (now : ℕ)
      → reply.term < u64
      → Step s (after s i (on_heartbeat_reply disk (s.nodes i) from reply now).0 [] [])
  relieved : (i now : ℕ) → Step s (after s i (request_step_down (s.nodes i) now).0 [] [])
  restarts : (i now : ℕ) → Step s (after s i (restarted (s.nodes i) now) [] [])

pub data Reach (s : System) : System → Type 0 where
  here : Reach s s
  next : {t u : System} → Reach s t → Step t u → Reach s u
