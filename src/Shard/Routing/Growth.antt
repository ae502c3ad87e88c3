-- ===== src/Shard/Routing/Growth.antt =====
-- Growth of the linear router: one shard more, and one bucket split.
use shardlite.Shard.Routing.Routes.{route_linear-eq, mod-double}
use native.Mathlib.Nat.{two-pow-succ, pow-le-pow_right, mod-lt}
use shardlite.Common.{
  ◌+◌, ◌^◌, ◌<◌, ◌≡◌, arith, ◌==◌, if◌then◌else◌, ◌⊎◌, Bool-cases, ltb, inl, inr, ap, ℕ,
}
use shardlite.Shard.Routing.{
  LinearV1, ok, grown, shard_count, err, split_destination, level_exceeds, base, route_linear,
  split_source,
}
use shardlite.Shard.Routing.Valid.{IsValid, pow_bounds, new_linear-ok, shard_count-eq, base-eq}

-- What a growth step does: the pointer moves on, and at the end of its round the level does.
abbrev pub next_state : LinearV1 → LinearV1
next_state r =
    if r.split_pointer + 1 == 2 ^ r.level
    then record { level = r.level + 1; split_pointer = 0 }
    else record { level = r.level; split_pointer = r.split_pointer + 1 }

next_state-IsValid :
    (r : LinearV1)
    → IsValid r
    → r.level < 31 ⊎ (r.split_pointer + 1 < 2 ^ r.level)
    → IsValid (next_state r)
next_state-IsValid r v h = ground (arith, pow_bounds r.level v.level_lt, pow_bounds (r.level + 1))

grown-eq :
    (r : LinearV1)
    → IsValid r
    → r.level < 31 ⊎ (r.split_pointer + 1 < 2 ^ r.level)
    → grown r ≡ ok (next_state r)
unfolding grown
grown-eq r v h =
    ground (
      arith,
      pow_bounds r.level v.level_lt,
      new_linear-ok (next_state r) (next_state-IsValid r v h),
    )

shard_count-next :
    (r : LinearV1)
    → IsValid r
    → r.level < 31 ⊎ (r.split_pointer + 1 < 2 ^ r.level)
    → shard_count (next_state r) ≡ shard_count r + 1
shard_count-next r v h = ground (
  arith,
  shard_count-eq r v,
  shard_count-eq (next_state r) (next_state-IsValid r v h),
  two-pow-succ r.level,
)

room :
    (r : LinearV1)
    → IsValid r
    → shard_count r + 1 < 2 ^ 32
    → r.level < 31 ⊎ (r.split_pointer + 1 < 2 ^ r.level)
room r v h = elim (Bool-cases (ltb r.level 31)) [
  | inl lt ↦ inl (ground arith)
  | inr ge ↦ inr (
      let e : r.level ≡ 31 = ground arith in
      rw e (omega (arith, shard_count-eq r v, ap (λ (l : ℕ). 2 ^ l) e)))
]

-- From a valid state with room for one shard more below 2^32, `grown` succeeds, the new state is
-- valid, and it has exactly one shard more.
pub grown_adds_one :
    (r : LinearV1)
    → IsValid r
    → shard_count r + 1 < 2 ^ 32
    → (s : LinearV1) × (grown r ≡ ok s) × IsValid s × (shard_count s ≡ shard_count r + 1)
grown_adds_one r v h =
    let free = room r v h in
    (next_state r, grown-eq r v free, next_state-IsValid r v free, shard_count-next r v free)

at_top : (r : LinearV1) → IsValid r → shard_count r + 1 ≡ 2 ^ 32 → r.level ≡ 31
at_top r v h = elim (Bool-cases (ltb r.level 31)) [
  | inl lt ↦ absurd (
      omega (
        arith,
        shard_count-eq r v,
        pow-le-pow_right {n = 2} (omega arith) {i = r.level} {j = 30} (ground arith),
      ))
  | inr ge ↦ ground arith
]

-- At the last state, 2^32 - 1 shards, `grown` is refused: the level would leave the u32 space.
pub grown_full :
    (r : LinearV1) → IsValid r → shard_count r + 1 ≡ 2 ^ 32 → grown r ≡ err (level_exceeds 32)
unfolding grown
grown_full r v h =
    let e : r.level ≡ 31 = at_top r v h in
    let p : r.split_pointer + 1 ≡ 2 ^ 31 =
      omega (arith, shard_count-eq r v, ap (λ (l : ℕ). 2 ^ l) e) in
    ground (arith, base-eq r v.level_lt, ap (λ (l : ℕ). 2 ^ l) e)

step_route :
    (r : LinearV1) (h : ℕ)
    → IsValid r
    → (r.level < 31) ⊎ (r.split_pointer + 1 < 2 ^ r.level)
    → (route_linear (next_state r) h ≡ route_linear r h)
      ⊎ ((route_linear r h ≡ split_source r)
          × (route_linear (next_state r) h ≡ split_destination r))
unfolding split_destination base
step_route r h v free = ground (
  arith,
  pow_bounds r.level v.level_lt,
  two-pow-succ r.level,
  route_linear-eq r h v,
  route_linear-eq (next_state r) h (next_state-IsValid r v free),
  mod-double h (2 ^ r.level),
  mod-lt h {m = 2 ^ r.level},
)

-- From a valid state with room for one shard more below 2^32, a growth step moves a key only from
-- the split source to the new shard: every hash either keeps its shard, or went to the source and
-- now goes to the destination.
pub grown_moves :
    (r s : LinearV1) (h : ℕ)
    → IsValid r
    → shard_count r + 1 < 2 ^ 32
    → grown r ≡ ok s
    → (route_linear s h ≡ route_linear r h)
      ⊎ ((route_linear r h ≡ split_source r) × (route_linear s h ≡ split_destination r))
grown_moves r s h v fits e =
    let free = room r v fits in
    let same : s ≡ next_state r = cc (grown-eq r v free) in rw same (step_route r h v free)
