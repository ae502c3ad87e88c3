-- ===== src/Cluster/Durability/Order.antt =====
-- What the election restriction promises: a candidate that may lead holds all that the voter holds.
use shardlite.Common.{
  ℕ, ◌<◌, ◌≤◌, ◌≡◌, ◌≢◌, ◌⊎◌, refl, sym, inl, Bool, true, false, some, [], ◌∷◌, arith, ltb, All,
  All-map, ◌↔◌,
}
use shardlite.Common.{or_else, any}
use shardlite.Common.Text.{same_text, same_text_refl}
use shardlite.Common.OrdMap.{OrdMap, get, IsOrdered, entries-get}
use shardlite.Cluster.Durability.{
  Durability, at_least, behind, lsn, compare_shards, compare_to, may_lead,
}

-- A voter that holds a positive position on some shard.
abbrev pub holds_data : Durability → Bool
holds_data d = any (λ e. ltb 0 e.1) d.shards

-- The candidate's position is at least the voter's on every shard.
abbrev pub Dominates : Durability → Durability → Type 0
Dominates self voter = (shard : ℕ) → lsn voter shard ≤ lsn self shard

compare_shards-covers :
    (self : Durability) (m : OrdMap ℕ) (shard : ℕ)
    → compare_shards self m ≡ at_least
    → or_else 0 (get m shard) ≤ lsn self shard
unfolding compare_shards get
compare_shards-covers self [] shard h = omega arith
compare_shards-covers self ((k, v) ∷ m) shard h = ground (arith, compare_shards-covers self m shard)

compare_shards-at_least :
    (self : Durability) (m : OrdMap ℕ)
    → All (λ e. e.1 ≤ lsn self e.0) m
    → compare_shards self m ≡ at_least
unfolding compare_shards
compare_shards-at_least self [] h = refl
compare_shards-at_least self ((k, v) ∷ m) h = ground (arith, compare_shards-at_least self m h.1)

-- What a voter checks, in words of its own: the candidate's catalog is no older, and the same if it
-- is of the same age; its stream is the voter's, if the voter holds data; no shard is behind.
pub record MayLead (self voter : Durability) : Type 0 where
  pub newer : voter.catalog.version ≤ self.catalog.version
  pub agrees :
      self.catalog.version ≡ voter.catalog.version
      → self.catalog.version ≢ 0
      → same_text self.catalog.digest voter.catalog.digest ≡ true
  pub one_stream : (self.epoch ≡ voter.epoch) ⊎ (holds_data voter ≡ false)
  pub dominates : Dominates self voter

pub may_lead-MayLead : (self voter : Durability) → may_lead self voter ≡ true → MayLead self voter
unfolding may_lead
may_lead-MayLead self voter h = record {
  newer = ground arith;
  agrees = λ e n. ground arith;
  one_stream = ground arith;
  dominates = λ shard. unfold lsn in compare_shards-covers self voter.shards shard (ground arith);
}

entry-Dominates :
    (self voter : Durability)
    → Dominates self voter
    → (k v : ℕ) → get voter.shards k ≡ some v
    → v ≤ lsn self k
unfolding lsn
entry-Dominates self voter d k v e = ground (arith, d k)

MayLead-may_lead :
    (self voter : Durability)
    → IsOrdered voter.shards
    → MayLead self voter
    → may_lead self voter ≡ true
unfolding may_lead
MayLead-may_lead self voter o m =
    let covered = compare_shards-at_least self voter.shards (
      All-map (λ e. get voter.shards e.0 ≡ some e.1) (λ e. e.1 ≤ lsn self e.0) voter.shards
        (λ e p. entry-Dominates self voter m.dominates e.0 e.1 p) (entries-get voter.shards o)) in
    ground (arith, covered, m.newer, m.agrees, m.one_stream)

-- A candidate may lead exactly when it meets every condition of the restriction, if the voter's
-- shards are listed in ascending order.
pub may_lead_iff :
    (self voter : Durability)
    → IsOrdered voter.shards
    → (may_lead self voter ≡ true) ↔ MayLead self voter
may_lead_iff self voter o = (may_lead-MayLead self voter, MayLead-may_lead self voter o)

pub MayLead-refl : (d : Durability) → MayLead d d
MayLead-refl d = record {
  newer = omega arith;
  agrees = λ e n. same_text_refl d.catalog.digest;
  one_stream = inl refl;
  dominates = λ shard. omega arith;
}

first_behind :
    (self : Durability) (m n : OrdMap ℕ) (shard theirs ours : ℕ)
    → All (λ e. get n e.0 ≡ some e.1) m
    → compare_shards self m ≡ behind shard theirs ours
    → (get n shard ≡ some ours) × (theirs ≡ lsn self shard) × (theirs < ours)
unfolding compare_shards
first_behind self [] n shard theirs ours a h = cc
first_behind self ((k, v) ∷ m) n shard theirs ours a h =
    ground (arith, first_behind self m n shard theirs ours a.1)

compare_shards-behind :
    (self : Durability) (m : OrdMap ℕ) (shard theirs ours : ℕ)
    → IsOrdered m
    → compare_shards self m ≡ behind shard theirs ours
    → (get m shard ≡ some ours) × (theirs ≡ lsn self shard) × (theirs < ours)
compare_shards-behind self m shard theirs ours o h =
    first_behind self m m shard theirs ours (entries-get m o) h

-- A comparison that reports the candidate behind names a shard, the candidate's position and the
-- voter's, and the candidate's is the smaller: leading would lose writes that the voter holds.
-- The voter's shards are listed in ascending order.
pub compare_to-behind :
    (self voter : Durability) (shard theirs ours : ℕ)
    → IsOrdered voter.shards
    → compare_to self voter ≡ behind shard theirs ours
    → (lsn voter shard ≡ ours) × (lsn self shard ≡ theirs) × (theirs < ours)
unfolding compare_to
compare_to-behind self voter shard theirs ours o h =
    let (at, same, lt) =
      compare_shards-behind self voter.shards shard theirs ours o (ground arith) in
    (unfold lsn in ground arith, sym same, lt)
