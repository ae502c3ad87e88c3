-- ===== src/Cluster/Election/Heartbeats.antt =====
-- Heartbeats and their replies make moves of the protocol.
use shardlite.Common.{ℕ, ◌<◌, ◌≡◌, ◌⊎◌, refl, ap, inl, inr, Bool, [], arith}
use shardlite.Common.Decimal.{u64}
use shardlite.Cluster.Term.{TermStore}
use shardlite.Cluster.Election.{
  Election, follower, Heartbeat, HeartbeatReply, higher_leader, higher_peer,
}
use shardlite.Cluster.Election.Machine.{observe_term, on_heartbeat, on_heartbeat_reply, as_option}
use shardlite.Cluster.Election.Protocol.{Nobody, NoRequest, Frame, Move, settles, stays}
use shardlite.Cluster.Election.Refine.{frame_refl, observe_term-Frame, observe_term-Move, wins_of}
use shardlite.Cluster.Election.Answers.{quiet-Frame}
use shardlite.Cluster.Election.Replies.{as_option-state}

heartbeat-cases :
    (disk : Bool) (e : Election) (hb : Heartbeat) (now : ℕ)
    → let p = on_heartbeat disk e hb now in
      let o = observe_term disk e hb.term now (higher_leader hb.leader) in
      (p.0 ≡ e)
      ⊎ ((p.0 ≡ o.0)
          ⊎ ((p.0.cfg ≡ e.cfg)
              × (p.0.current_voters ≡ e.current_voters)
              × (p.0.next_voters ≡ e.next_voters)
              × ((p.0.terms ≡ e.terms) ⊎ (p.0.terms ≡ o.0.terms))
              × (p.0.role ≡ follower)))
unfolding on_heartbeat
heartbeat-cases disk e hb now = ground arith

-- A heartbeat keeps the configuration, and the term file durable, and makes a move of the
-- protocol that casts no vote and wins nothing. The term of the heartbeat is a u64.
pub on_heartbeat-Moves :
    (disk : Bool) (e : Election) (hb : Heartbeat) (now : ℕ)
    → hb.term < u64
    → let p = on_heartbeat disk e hb now in Frame e p.0 × Move Nobody NoRequest e p.0 [] []
on_heartbeat-Moves disk e hb now h =
    let f = observe_term-Frame disk e hb.term now (higher_leader hb.leader) h in
    elim (heartbeat-cases disk e hb now) [
      | inl same ↦ rw same (frame_refl e, stays refl refl refl refl refl)
      | inr (inl same) ↦ rw same (f, observe_term-Move disk e hb.term now (higher_leader hb.leader))
      | inr (inr (c, v, n, inl t, role)) ↦ (quiet-Frame c v n t, settles refl refl role)
      | inr (inr (c, v, n, inr t, role)) ↦
          (record { cfg = c; current = v; next = n; terms = rw t f.terms }, settles refl refl role)
    ]

heartbeat_reply-cases :
    (disk : Bool) (e : Election) (from : ℕ) (reply : HeartbeatReply) (now : ℕ)
    → let p = on_heartbeat_reply disk e from reply now in
      (p ≡ as_option (observe_term disk e reply.term now (higher_peer from)))
      ⊎ ((p.0.cfg ≡ e.cfg)
          × (p.0.current_voters ≡ e.current_voters)
          × (p.0.next_voters ≡ e.next_voters)
          × (p.0.terms ≡ e.terms)
          × (p.0.role ≡ e.role)
          × (p.0.votes ≡ e.votes)
          × (wins_of e.cfg.node p.1 ≡ []))
unfolding on_heartbeat_reply
heartbeat_reply-cases disk e from reply now = ground arith

-- A reply to a heartbeat keeps the configuration, and the term file durable, and makes a move of
-- the protocol that casts no vote and wins nothing. The term of the reply is a u64.
pub on_heartbeat_reply-Moves :
    (disk : Bool) (e : Election) (from : ℕ) (reply : HeartbeatReply) (now : ℕ)
    → reply.term < u64
    → let p = on_heartbeat_reply disk e from reply now in
      Frame e p.0 × Move Nobody NoRequest e p.0 [] []
on_heartbeat_reply-Moves disk e from reply now h =
    elim (heartbeat_reply-cases disk e from reply now) [
      | inl same ↦
          rw (same, as_option-state (observe_term disk e reply.term now (higher_peer from)))
            (
              observe_term-Frame disk e reply.term now (higher_peer from) h,
              observe_term-Move disk e reply.term now (higher_peer from),
            )
      | inr (c, v, n, t, r, k, w) ↦
          (quiet-Frame c v n t, stays refl refl (ap (λ (s : TermStore). s.state.term) t) r k)
    ]
