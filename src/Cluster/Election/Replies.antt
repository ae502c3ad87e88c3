-- ===== src/Cluster/Election/Replies.antt =====
-- Vote replies make moves of the protocol.
use shardlite.Common.{
  ℕ, ◌<◌, ◌≡◌, ◌⊎◌, refl, ◌∙◌, inl, inr, Bool, true, Option, List, [], arith, if◌then◌else◌,
}
use shardlite.Common.Decimal.{u64}
use shardlite.Common.OrdSet.{insert}
use shardlite.Cluster.Election.{
  Election, candidate, term_of, has_quorum, Result, ok, err, Action, VoteReply, Why, higher_voter,
}
use shardlite.Cluster.Election.Machine.{
  become_leader, observe_term, on_vote_reply, as_option, act, idle,
}
use shardlite.Cluster.Election.Protocol.{NoRequest, Frame, Move, stays, counts}
use shardlite.Cluster.Election.Refine.{frame_refl, observe_term-Frame, observe_term-Move, wins_of}
use shardlite.Cluster.Election.Answers.{quiet-Frame}

-- Adopting a term wins nothing.
pub observed_wins :
    (disk : Bool) (e : Election) (term now n : ℕ) (why : Why)
    → wins_of n (as_option (observe_term disk e term now why)).1 ≡ []
unfolding observe_term
observed_wins disk e term now n why = ground arith

pub as_option-state : (p : Election × Result Action) → (as_option p).0 ≡ p.0
as_option-state (e, ok a) = refl
as_option-state (e, err x) = refl

-- The votes are counted anew, and the node wins if they are a quorum.
abbrev tally : Election → ℕ → Election × Result (Option Action)
tally e now = if has_quorum e e.votes then act (become_leader e now) else idle e

tally-cases :
    (e : Election) (now : ℕ)
    → ((has_quorum e e.votes ≡ true) × (tally e now ≡ act (become_leader e now)))
      ⊎ (tally e now ≡ idle e)
tally-cases e now = ground arith

has_quorum-leader :
    (e : Election) (now : ℕ)
    → has_quorum (become_leader e now).0 (become_leader e now).0.votes ≡ has_quorum e e.votes
unfolding become_leader has_quorum
has_quorum-leader e now = refl

-- The vote of `from` counts if the reply grants it in the node's own term.
abbrev pub GrantedBy : Election → ℕ → VoteReply → ℕ → Type 0
GrantedBy e from reply k = (k ≡ from) × (reply.granted ≡ true) × (reply.term ≡ term_of e)

counted-Moves :
    (e : Election) (vs : List ℕ) (from : ℕ) (reply : VoteReply) (now : ℕ)
    → (reply.granted ≡ true) × (reply.term ≡ term_of e)
    → (vs ≡ insert e.votes from) ⊎ (vs ≡ e.votes)
    → e.role ≡ candidate
    → let p = tally (record e { votes = vs }) now in
      Frame e p.0 × Move (GrantedBy e from reply) NoRequest e p.0 [] (wins_of e.cfg.node p.1)
unfolding become_leader
counted-Moves e vs from reply now granting which role =
    elim (tally-cases (record e { votes = vs }) now) [
      | inl (won, same) ↦ rw same (
        quiet-Frame refl refl refl refl,
        counts from (refl, granting.0, granting.1) refl role refl which
            (inr (has_quorum-leader (record e { votes = vs }) now ∙ won, refl)),
      )
      | inr same ↦ rw same (
        quiet-Frame refl refl refl refl,
        counts from (refl, granting.0, granting.1) refl role refl which (inl (role, refl)),
      )
    ]

reply-cases :
    (disk : Bool) (e : Election) (from : ℕ) (reply : VoteReply) (now : ℕ)
    → let p = on_vote_reply disk e from reply now in
      (p ≡ as_option (observe_term disk e reply.term now (higher_voter from)))
      ⊎ (p ≡ idle e)
      ⊎ ((e.role ≡ candidate)
          × (reply.granted ≡ true)
          × (reply.term ≡ term_of e)
          × ((p ≡ tally (record e { votes = insert e.votes from }) now) ⊎ (p ≡ tally e now)))
unfolding on_vote_reply
reply-cases disk e from reply now = ground arith

-- A vote reply keeps the configuration, and the term file durable, and makes a move of the
-- protocol: at most the sender's vote is added, by a candidate and if the reply grants it in the
-- node's own term, and the node wins only with a quorum of the votes counted. The term of the
-- reply is a u64.
pub on_vote_reply-Moves :
    (disk : Bool) (e : Election) (from : ℕ) (reply : VoteReply) (now : ℕ)
    → reply.term < u64
    → let p = on_vote_reply disk e from reply now in
      Frame e p.0 × Move (GrantedBy e from reply) NoRequest e p.0 [] (wins_of e.cfg.node p.1)
on_vote_reply-Moves disk e from reply now h = elim (reply-cases disk e from reply now) [
  | inl same ↦
      rw
        (
          same,
          observed_wins disk e reply.term now e.cfg.node (higher_voter from),
          as_option-state (observe_term disk e reply.term now (higher_voter from)),
        )
        (
          observe_term-Frame disk e reply.term now (higher_voter from) h,
          observe_term-Move disk e reply.term now (higher_voter from),
        )
  | inr (inl same) ↦ rw same (frame_refl e, stays refl refl refl refl refl)
  | inr (inr (role, granted, term, inl same)) ↦
      rw same (counted-Moves e (insert e.votes from) from reply now (granted, term) (inl refl) role)
  | inr (inr (role, granted, term, inr same)) ↦
      rw same (counted-Moves e e.votes from reply now (granted, term) (inr refl) role)
]
