-- ===== src/Cluster/Election.antt =====
-- src/cluster/election.rs: the state, the messages and the small operations. Instants and durations
-- are nanoseconds since an origin before every deadline; the text of a reason is a constructor.
pub mod Machine
pub mod Protocol
pub mod Refine
pub mod Answers
pub mod Requests
pub mod Replies
pub mod Heartbeats
pub mod Grants
pub mod Timing
pub mod Safety
pub mod Quorums
use shardlite.Common.{
  ℕ, zero, suc, ◌+◌, ◌-◌, ◌*◌, ◌/◌, ◌%◌, ◌^◌, ◌<◌, ◌≤◌, ◌≡◌, ◌≢◌, ◌⊎◌, ◌&&◌, ◌||◌, ◌==◌, ◌++◌, refl,
  sym, ap, ◌∙◌, inl, inr, Bool, true, false, not, Option, none, some, List, [], ◌∷◌, map, arith,
  ltb, leb, if◌then◌else◌, length, All, Bool-cases, Option-cases,
}
use Prim.Native.Nat.{bit_xor, max}
use shardlite.Common.{retain}
use shardlite.Common.Decimal.{u64}
use shardlite.Common.OrdSet.{contains, insert, extend, common}
use shardlite.Cluster.Term.{TermStore, TermError}
use shardlite.Cluster.Durability.{Durability, Comparison}
use shardlite.Cluster.Placement.{Placement}

pub record ElectionConfig : Type 0 where
  pub node : ℕ
  pub peers : List ℕ
  pub election_timeout : ℕ
  pub heartbeat_interval : ℕ

abbrev pub millis : ℕ → ℕ
millis n = n * 1_000_000

unfoldable pub floor : ℕ → List ℕ → ElectionConfig
floor node peers = record {
  node = node;
  peers = peers;
  election_timeout = millis 1500;
  heartbeat_interval = millis 300;
}

pub data Role : Type 0 where
  follower candidate leader : Role

pub data Reason : Type 0 where
  no_reason : Reason
  not_configured : ℕ → Reason
  stale_term : ℕ → ℕ → Reason
  not_up_to_date : Comparison → Reason
  already_voted : Option ℕ → ℕ → Reason

pub data Why : Type 0 where
  higher_candidate higher_voter higher_leader higher_peer : ℕ → Why
  lease_expired operator : Why

pub record VoteRequest : Type 0 where
  pub term : ℕ
  pub candidate : ℕ
  pub durability : Durability

pub record VoteReply : Type 0 where
  pub term : ℕ
  pub granted : Bool
  pub reason : Reason

pub record Heartbeat : Type 0 where
  pub term : ℕ
  pub leader : ℕ
  pub placement : Placement

pub record HeartbeatReply : Type 0 where
  pub term : ℕ
  pub ok : Bool
  pub cordoned : Bool
  pub prefers : List ℕ

pub data Action : Type 0 where
  request_votes : ℕ → Action
  heartbeat : ℕ → Action
  became_leader : ℕ → Action
  stepped_down : ℕ → Why → Action

pub data Error : Type 0 where
  term_store : TermError → Error
  cluster_config : Error

pub data Result {ℓ} (A : Type ℓ) : Type ℓ where
  ok : A → Result A
  err : Error → Result A

pub record Election : Type 0 where
  pub cfg : ElectionConfig
  pub terms : TermStore
  pub role : Role
  pub leader : Option ℕ
  pub last_contact : ℕ
  pub last_heartbeat : ℕ
  pub votes : List ℕ
  pub acks : List ℕ
  pub lease_start : ℕ
  pub stepdown_backoff : Option ℕ
  pub current_voters : List ℕ
  pub next_voters : Option (List ℕ)

abbrev pub term_of : Election → ℕ
term_of e = e.terms.state.term

abbrev pub is_leader : Role → Bool
is_leader leader = true
is_leader _ = false

unfoldable pub validate : ElectionConfig → Result (Unit {0})
validate cfg =
    if ltb cfg.election_timeout (cfg.heartbeat_interval * 3) then err cluster_config else ok tt

abbrev initial : ElectionConfig → TermStore → ℕ → Result (Unit {0}) → Result Election
initial cfg terms now (err e) = err e
initial cfg terms now (ok _) = ok (record {
  cfg = cfg;
  terms = terms;
  role = follower;
  leader = none;
  last_contact = now;
  last_heartbeat = now;
  votes = [];
  acks = [];
  lease_start = now;
  stepdown_backoff = none;
  current_voters = insert (extend [] cfg.peers) cfg.node;
  next_voters = none;
})

unfoldable pub new : ElectionConfig → TermStore → ℕ → Result Election
unfolding validate
new cfg terms now = initial cfg terms now (validate cfg)

abbrev pub is_empty : List ℕ → Bool
is_empty [] = true
is_empty (x ∷ xs) = false

-- The members of the current and of the next configuration.
abbrev pub configured : List ℕ → Option (List ℕ) → List ℕ
configured current none = current
configured current (some next) = extend current next

abbrev empty_next : Option (List ℕ) → Bool
empty_next none = false
empty_next (some next) = is_empty next

unfoldable pub set_voter_configuration :
    Election → List ℕ → Option (List ℕ) → Election × Result (Unit {0})
set_voter_configuration e current next =
    if is_empty current || empty_next next then (e, err cluster_config) else (
      record e {
        current_voters = current;
        next_voters = next;
        votes = retain (contains (configured current next)) e.votes;
        acks = retain (contains (configured current next)) e.acks;
      },
      ok tt,
    )

abbrev next_contains : Option (List ℕ) → ℕ → Bool
next_contains none node = false
next_contains (some voters) node = contains voters node

unfoldable pub is_configured_voter : Election → ℕ → Bool
is_configured_voter e node = contains e.current_voters node || next_contains e.next_voters node

abbrev pub majority : List ℕ → List ℕ → Bool
majority acknowledgements voters = leb (length voters / 2 + 1) (common acknowledgements voters)

abbrev pub next_majority : List ℕ → Option (List ℕ) → Bool
next_majority acknowledgements none = true
next_majority acknowledgements (some voters) = majority acknowledgements voters

unfoldable pub has_quorum : Election → List ℕ → Bool
has_quorum e acknowledgements =
    majority acknowledgements e.current_voters && next_majority acknowledgements e.next_voters

-- `h ^= h >> 31` over the wrapping products, spread over one more timeout. A timeout is a positive
-- number of nanoseconds below 2^64.
unfoldable pub timeout : Election → ℕ
timeout e =
    let base = e.cfg.election_timeout in
    let h =
      bit_xor ((e.cfg.node * 0x9E37_79B9_7F4A_7C15) % u64)
        ((term_of e * 0xBF58_476D_1CE4_E5B9) % u64) in
    base + bit_xor h (h / 2 ^ 31) % (max base 1 % u64)
