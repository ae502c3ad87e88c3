-- ===== src/Tests/Terms.antt =====
-- src/cluster/term.rs, fence.rs and durability.rs: a node in its second term, and messages around a
-- change of leaders.
use shardlite.Common.OrdSet.{contains}
use shardlite.Common.{
  ℕ, ◌≤◌, ◌≡◌, ◌==◌, refl, inl, inr, true, none, some, List, [], ◌∷◌, arith, ltb, if◌then◌else◌,
  ◌↔◌,
}
use shardlite.Cluster.Term.{State, TermStore, body, read, open_store, grant_vote, unvoted}
use shardlite.Cluster.Term
use shardlite.Cluster.Term.History
use shardlite.Common.OrdMap.{get, insert}
use shardlite.Common.Text.{same_text}
use shardlite.Cluster.Term.Format.{InRange, read-body}
use shardlite.Cluster.Term.Votes.{IsDurable, grant_vote-IsDurable}
use shardlite.Cluster.Term.History.{
  Op, votes, restarts, run, open_store-file, votes_once, run-term-le,
}
use shardlite.Cluster.Fence.{
  Fence, FenceToken, validate, open_for, step_down, open_term, close_shard, is_open,
  check_may_write, count,
}
use shardlite.Cluster.Fence
use shardlite.Cluster.Fence.Gate.{open_term-open_for, open_term-close_shard}
use shardlite.Cluster.Fence.Tokens.{step_down_fences, validate_fences}
use shardlite.Cluster.Fence.Tokens
use shardlite.Cluster.Durability.{Durability, with_shard, may_lead, compare_to, behind, lsn}
use shardlite.Cluster.Durability
use shardlite.Cluster.Durability.Order.{MayLead, may_lead_iff}

abbrev voted_two : State
voted_two = record { term = 2; voted_for = some 3 }

voted_two-InRange : InRange voted_two
voted_two-InRange = (omega arith, λ n e. ground arith)

read-body_example : read (body voted_two) ≡ Term.ok voted_two
read-body_example = read-body voted_two voted_two-InRange

abbrev store_two : TermStore
store_two = record { file = some (body voted_two); state = voted_two }

store_two-IsDurable : IsDurable store_two
store_two-IsDurable = (inl refl, voted_two-InRange)

abbrev fresh : TermStore
fresh = record { file = none; state = unvoted }

fresh-IsDurable : IsDurable fresh
fresh-IsDurable = (inr (refl, refl), (omega arith, λ n e. cc))

open_store-file_example : open_store store_two.file ≡ Term.ok store_two
open_store-file_example = open_store-file store_two store_two-IsDurable

first_vote : (grant_vote true fresh 1 3).1 ≡ Term.ok true
unfolding grant_vote Term.persist
first_vote = refl

-- The node was restarted from its file, and voted again for the same candidate.
second_vote :
    (grant_vote true (run (grant_vote true fresh 1 3).0 (restarts ∷ [])) 1 3).1 ≡ Term.ok true
unfolding grant_vote Term.persist run History.apply
second_vote =
    let voted : TermStore = (grant_vote true fresh 1 3).0 in
    let same : open_store voted.file ≡ Term.ok voted =
      open_store-file voted
        (grant_vote-IsDurable true fresh 1 3 (omega arith) (omega arith) fresh-IsDurable) in
    rw same refl

votes_once_example : ◌≡◌ {A = ℕ} 3 3
votes_once_example =
    votes_once fresh (restarts ∷ []) true true 1 3 3 fresh-IsDurable (omega arith) (omega arith)
      (tt, tt) first_vote second_vote

abbrev fence : Fence
fence = record {
  node = 1;
  highest = 4;
  rejected = 0;
  gated = 0;
  stale_opens = 0;
  led = (0, 4) ∷ (2, 4) ∷ [];
}

open_term-open_for_example :
    (open_term (open_for fence (1 ∷ []) 5) 1 ≡ (
      if ltb 5 fence.highest
      then open_term fence 1
      else if contains (1 ∷ []) 1
      then some 5
      else none))
    × ((open_for fence (1 ∷ []) 5).stale_opens
        ≡ (if ltb 5 fence.highest then count fence.stale_opens else fence.stale_opens))
open_term-open_for_example = open_term-open_for fence (1 ∷ []) 5 1

open_term-close_shard_example :
    (open_term (close_shard fence 2).0 0 ≡ (if 2 == 0 then none else open_term fence 0))
    × ((close_shard fence 2).1 ≡ is_open fence 2)
open_term-close_shard_example = open_term-close_shard fence 2 0

abbrev later : List Tokens.Op
later = Tokens.opens (0 ∷ []) 4 ∷ Tokens.opens (1 ∷ []) 7 ∷ []

open_seven : open_term (Tokens.run (step_down fence 6) later) 1 ≡ some 7
unfolding open_term Tokens.run Tokens.apply step_down open_for Fence.insert_all
open_seven = unfold get in unfold insert in refl

step_down_fences_example : 6 ≤ 7
step_down_fences_example = step_down_fences fence 6 later 1 7 open_seven

validate_fences_example :
    (validate
      (Tokens.run (validate fence (record { term = 6; node = 2 })).0 later)
      (record { term = 5; node = 3 })).1
    ≡ Fence.err (
        Fence.fenced
          (record { term = 5; node = 3 })
          (Tokens.run (validate fence (record { term = 6; node = 2 })).0 later).highest)
validate_fences_example =
    validate_fences fence (record { term = 6; node = 2 }) (record { term = 5; node = 3 }) later
      (omega arith)

abbrev ahead : Durability
ahead = record {
  catalog = record { version = 1; digest = 9 ∷ [] };
  epoch = 1;
  shards = (0, 10) ∷ (1, 4) ∷ [];
}

abbrev voter : Durability
voter = record {
  catalog = record { version = 1; digest = 9 ∷ [] };
  epoch = 1;
  shards = (0, 8) ∷ (1, 6) ∷ [];
}

may_lead_iff_example : (may_lead ahead voter ≡ true) ↔ MayLead ahead voter
may_lead_iff_example = may_lead_iff ahead voter (omega arith, tt)

behind_voter : compare_to ahead voter ≡ behind 1 4 6
unfolding compare_to same_text Durability.compare_shards lsn get
behind_voter = refl
