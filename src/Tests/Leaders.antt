-- ===== src/Tests/Leaders.antt =====
-- A cluster whose only voter is node 1, and the election that it wins.
use shardlite.Common.{ℕ, ◌≡◌, refl, inr, true, none, [], ◌∷◌, arith}
use shardlite.Common.OrdSet.{insert, contains, common}
use shardlite.Cluster.Term.{unvoted, advance_to, grant_vote, persist}
use shardlite.Cluster.Durability.{Durability}
use shardlite.Cluster.Election.{Election, follower, term_of, is_leader, has_quorum, timeout}
use shardlite.Cluster.Election.Machine.{tick, stand_for_election, become_leader}
use shardlite.Cluster.Election.Refine.{own_ballots, wins_of}
use shardlite.Cluster.Election.Safety.{System, In, win, after, Reach, here, next, ticks}
use shardlite.Cluster.Election.Safety.Theorem.{IsInitial, one_leader_per_term}

abbrev lone : ℕ → Election
lone i = record {
  cfg = record {
    node = i;
    peers = [];
    election_timeout = 1_500_000_000;
    heartbeat_interval = 300_000_000;
  };
  terms = record { file = none; state = unvoted };
  role = follower;
  leader = none;
  last_contact = 0;
  last_heartbeat = 0;
  votes = [];
  acks = [];
  lease_start = 0;
  stepdown_backoff = none;
  current_voters = 1 ∷ [];
  next_voters = none;
}

abbrev nothing_held : Durability
nothing_held = record { catalog = record { version = 0; digest = [] }; epoch = 1; shards = [] }

abbrev start : System
start = record { nodes = lone; ballots = []; wins = [] }

abbrev won : System
won =
    after start 1 (tick true true (lone 1) 9_000_000_000 nothing_held).0
      (own_ballots 1 (tick true true (lone 1) 9_000_000_000 nothing_held).1)
      (wins_of 1 (tick true true (lone 1) 9_000_000_000 nothing_held).1)

start-IsInitial : IsInitial (1 ∷ []) start
start-IsInitial = record {
  numbered = λ i. refl;
  voting = λ i. refl;
  durable = λ i. (inr (refl, refl), (omega arith, λ n e. cc));
  following = λ i. refl;
  no_ballots = refl;
  no_wins = refl;
}

won-Reach : Reach start won
won-Reach = next here (ticks 1 true true 9_000_000_000 nothing_held (omega arith) (omega arith))

-- The tick past the timeout wins the election of term 1.
wins_won : won.wins ≡ win 1 1 ∷ []
unfolding tick stand_for_election become_leader advance_to grant_vote persist has_quorum timeout
    common
wins_won = unfold insert in unfold contains in refl

one_leader_per_term_example :
    (is_leader (won.nodes 1).role ≡ true
      → is_leader (won.nodes 2).role ≡ true
      → term_of (won.nodes 1) ≡ term_of (won.nodes 2)
      → ◌≡◌ {A = ℕ} 1 2)
    × ((term : ℕ) → In (win 1 term) won.wins → In (win 2 term) won.wins → ◌≡◌ {A = ℕ} 1 2)
one_leader_per_term_example = one_leader_per_term (1 ∷ []) start won 1 2 start-IsInitial won-Reach
