-- ===== src/Cluster/Durability.antt =====
-- src/cluster/durability.rs: how up to date a node is. A digest is its bytes.
pub mod Order
use shardlite.Common.{
  ℕ, zero, suc, ◌+◌, ◌-◌, ◌*◌, ◌/◌, ◌%◌, ◌^◌, ◌<◌, ◌≤◌, ◌≡◌, ◌≢◌, ◌⊎◌, ◌&&◌, ◌||◌, ◌==◌, ◌++◌, refl,
  sym, ap, ◌∙◌, inl, inr, Bool, true, false, not, Option, none, some, List, [], ◌∷◌, map, arith,
  ltb, leb, if◌then◌else◌, length, All, Bool-cases, Option-cases,
}
use shardlite.Common.{or_else, any}
use shardlite.Common.Text.{same_text}
use shardlite.Common.OrdMap.{OrdMap, get, insert}

pub record CatalogPosition : Type 0 where
  pub version : ℕ
  pub digest : List ℕ

pub record Durability : Type 0 where
  pub catalog : CatalogPosition
  pub epoch : ℕ
  pub shards : OrdMap ℕ

pub data Comparison : Type 0 where
  at_least : Comparison
  behind : ℕ → ℕ → ℕ → Comparison
  incomparable : ℕ → ℕ → Comparison
  catalog_behind : ℕ → ℕ → Comparison
  catalog_conflict : ℕ → Comparison

abbrev zeros : ℕ → List ℕ
zeros zero = []
zeros (suc n) = 0 ∷ zeros n

unfoldable pub new : ℕ → Durability
new epoch = record {
  catalog = record { version = 0; digest = zeros 32 };
  epoch = epoch;
  shards = [];
}

-- `with`.
unfoldable pub with_shard : Durability → ℕ → ℕ → Durability
with_shard d shard lsn = record d { shards = insert d.shards shard lsn }

unfoldable pub lsn : Durability → ℕ → ℕ
lsn d shard = or_else 0 (get d.shards shard)

-- The loop over the voter's shards, in ascending order: the first that the candidate is behind on.
unfoldable pub compare_shards : Durability → OrdMap ℕ → Comparison
compare_shards self [] = at_least
compare_shards self ((shard, ours) ∷ r) =
    if ltb (lsn self shard) ours then behind shard (lsn self shard) ours else compare_shards self r

unfoldable pub compare_to : Durability → Durability → Comparison
compare_to self voter =
    if ltb self.catalog.version voter.catalog.version
    then catalog_behind self.catalog.version voter.catalog.version
    else if self.catalog.version == voter.catalog.version
        && not (self.catalog.version == 0)
        && not (same_text self.catalog.digest voter.catalog.digest)
    then catalog_conflict self.catalog.version
    else if not (self.epoch == voter.epoch) && any (λ e. ltb 0 e.1) voter.shards
    then incomparable self.epoch voter.epoch
    else compare_shards self voter.shards

abbrev pub is_at_least : Comparison → Bool
is_at_least at_least = true
is_at_least _ = false

unfoldable pub may_lead : Durability → Durability → Bool
unfolding compare_to
may_lead self voter = is_at_least (compare_to self voter)
