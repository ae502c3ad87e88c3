-- ===== src/Shard/Routing/Valid.antt =====
-- The states of the linear router that its constructors build, and what the shifts amount to there.
use native.Mathlib.Nat.{pow-le-pow_right, one-le-pow}
use shardlite.Common.{ℕ, ◌+◌, ◌^◌, ◌<◌, ◌≤◌, ◌≡◌, arith}
use shardlite.Shard.Routing.{LinearV1, ok, base, shard_count, new_linear}

pub record IsValid (r : LinearV1) : Type 0 where
  pub level_lt : r.level < 32
  pub pointer_lt : r.split_pointer < 2 ^ r.level

pub pow_bounds : (k : ℕ) → k < 32 → (0 < 2 ^ k) × (2 ^ k ≤ 2 ^ 31)
pow_bounds k h = (
  one-le-pow k 2 (omega arith),
  pow-le-pow_right {n = 2} (omega arith) {i = k} {j = 31} (omega arith),
)

pub base-eq : (r : LinearV1) → r.level < 32 → base r ≡ 2 ^ r.level
unfolding base
base-eq r h = omega (arith, pow_bounds r.level h)

pub shard_count-eq : (r : LinearV1) → IsValid r → shard_count r ≡ 2 ^ r.level + r.split_pointer
unfolding shard_count
shard_count-eq r v = omega (arith, pow_bounds r.level v.level_lt)

-- `new` succeeds exactly on the valid states, and returns what it is given.
pub new_linear-ok : (r : LinearV1) → IsValid r → new_linear r.level r.split_pointer ≡ ok r
unfolding new_linear
new_linear-ok r v = ground (arith, pow_bounds r.level v.level_lt)

pub new_linear-IsValid :
    (l p : ℕ) {r : LinearV1}
    → new_linear l p ≡ ok r
    → IsValid r × (r.level ≡ l) × (r.split_pointer ≡ p)
unfolding new_linear
new_linear-IsValid l p h = ground (arith, pow_bounds l)
