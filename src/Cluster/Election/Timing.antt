-- ===== src/Cluster/Election/Timing.antt =====
-- The randomised election timeout, and the lease of a leader.
use shardlite.Common.{
  ℕ, ◌-◌, ◌*◌, ◌/◌, ◌%◌, ◌^◌, ◌<◌, ◌≤◌, ◌≡◌, ◌≢◌, ◌⊎◌, Bool, true, arith, if◌then◌else◌,
}
use Prim.Native.Nat.{max, bit_xor}
use native.Mathlib.Nat.{mod-lt}
use shardlite.Common.Decimal.{u64}
use shardlite.Common.OrdSet.{insert}
use shardlite.Cluster.Durability.{Durability}
use shardlite.Cluster.Election.{
  Election, timeout, has_quorum, is_leader, term_of, is_configured_voter, HeartbeatReply, [],
}
use shardlite.Cluster.Election.Machine.{tick, on_heartbeat_reply, observe_term, step_down}

spread_lt : (h b : ℕ) → 0 < b → b < u64 → h % (max b 1 % u64) < b
spread_lt h b pos fits = let e : max b 1 % u64 ≡ b = omega arith in rw e (mod-lt h {m = b} pos)

-- The timeout is at least the configured one and less than twice that, for every node and term, if the
-- configured one is positive and below 2^64 nanoseconds.
pub timeout_bounds :
    (e : Election)
    → 0 < e.cfg.election_timeout
    → e.cfg.election_timeout < u64
    → (e.cfg.election_timeout ≤ timeout e) × (timeout e < e.cfg.election_timeout * 2)
unfolding timeout
timeout_bounds e pos fits =
    let h : ℕ =
      bit_xor ((e.cfg.node * 0x9E37_79B9_7F4A_7C15) % u64)
        ((term_of e * 0xBF58_476D_1CE4_E5B9) % u64) in
    (omega arith, omega (arith, spread_lt (bit_xor h (h / 2 ^ 31)) e.cfg.election_timeout pos fits))

-- A leader leads on the strength of a quorum only. If it still leads after a tick, its lease is
-- younger than the election timeout or a quorum, itself included, has acknowledged since it was
-- renewed, and the tick keeps the acknowledgements. If a reply to a heartbeat changes the start of
-- its lease, the reply is positive, the acknowledgements, its own and the sender's included if that
-- is a voter, are a quorum, the lease starts now, and no acknowledgement is left. If it does not
-- change it and the node still leads, the acknowledgements are as before, or none is left, or the
-- reply is positive, and its sender, a voter, is added. A positive reply of no higher term that
-- completes a quorum does renew the lease, and no acknowledgement is left.
pub lease_needs_quorum :
    (disk disk' : Bool) (e : Election) (now from : ℕ) (d : Durability) (reply : HeartbeatReply)
    → is_leader e.role ≡ true
    → let e' = if is_configured_voter e from then record e { acks = insert e.acks from } else e in
      let t = (tick disk disk' e now d).0 in
      let r = (on_heartbeat_reply disk e from reply now).0 in
      (is_leader t.role ≡ true
        → ((now - e.lease_start < e.cfg.election_timeout)
            ⊎ (has_quorum e (insert e.acks e.cfg.node) ≡ true))
          × (t.acks ≡ e.acks))
      × (r.lease_start ≢ e.lease_start
          → (reply.ok ≡ true)
            × (has_quorum e' (insert e'.acks e'.cfg.node) ≡ true)
            × (r.lease_start ≡ now)
            × (r.acks ≡ []))
      × (has_quorum e' (insert e'.acks e'.cfg.node) ≡ true
          → reply.ok ≡ true
          → reply.term ≤ term_of e
          → (r.lease_start ≡ now) × (r.acks ≡ []))
      × (r.lease_start ≡ e.lease_start
          → is_leader r.role ≡ true
          → (r.acks ≡ e.acks)
            ⊎ (r.acks ≡ [])
            ⊎ ((reply.ok ≡ true)
                × (is_configured_voter e from ≡ true)
                × (r.acks ≡ insert e.acks from)))
unfolding tick on_heartbeat_reply observe_term step_down
lease_needs_quorum disk disk' e now from d reply lead =
    (λ h. ground arith, λ h. ground arith, λ q k t. ground arith, λ h l. ground arith)
