-- ===== src/Shard/Routing/Reach.antt =====
-- The linear router sends keys to active shards only, and to each of them; the canonical state for
-- a number of shards; and its agreement with the modulo router.
use native.Mathlib.Nat.{mod-lt, mod-eq_of_lt, two-pow-succ, mod-eq-sub-mod, pow-le-pow_right}
use shardlite.Common.{
  ℕ, zero, suc, ◌/◌, ◌<◌, ◌≡◌, arith, ◌^◌, suc, ◌≤◌, ◌*◌, ◌-◌, Bool-cases, ltb, inl, ltb→lt, inr,
  ltb→ge, sym, ◌∙◌, ap,
}
use shardlite.Shard.Routing.{
  LinearV1, route_linear, shard_count, for_shard_count, log2, log2_from, route_modulo, ok,
}
use shardlite.Shard.Routing.Valid.{IsValid, pow_bounds, shard_count-eq, new_linear-ok}
use shardlite.Shard.Routing.Routes.{mod-double, route_linear-eq}

-- A valid linear router sends every hash to an active shard, and every active shard is the route
-- of some hash (its own number).
pub route_linear_onto :
    (r : LinearV1)
    → IsValid r
    → ((h : ℕ) → route_linear r h < shard_count r)
      × ((s : ℕ) → s < shard_count r → route_linear r s ≡ s)
route_linear_onto r v = (
  λ h. ground (
    arith,
    route_linear-eq r h v,
    shard_count-eq r v,
    mod-double h (2 ^ r.level),
    mod-lt h {m = 2 ^ r.level},
    pow_bounds r.level v.level_lt,
  ),
  λ s lt. ground (
    arith,
    route_linear-eq r s v,
    shard_count-eq r v,
    pow_bounds r.level v.level_lt,
    mod-eq_of_lt {n = s} {m = 2 ^ r.level},
    mod-eq_of_lt {n = s} {m = 2 ^ r.level * 2},
    mod-lt s {m = 2 ^ r.level},
    mod-eq-sub-mod {n = s} {m = 2 ^ r.level},
    mod-eq_of_lt {n = s - 2 ^ r.level} {m = 2 ^ r.level},
  ),
)

-- While no bucket of the round is split, a valid linear router is the modulo router.
pub route_linear-modulo :
    (r : LinearV1) (h : ℕ)
    → IsValid r
    → r.split_pointer ≡ 0
    → route_linear r h ≡ route_modulo (record { shard_count = shard_count r }) h
unfolding route_modulo
route_linear-modulo r h v e = ground (
  arith,
  route_linear-eq r h v,
  shard_count-eq r v,
  pow_bounds r.level v.level_lt,
  mod-lt h {m = 2 ^ r.level},
)

-- The halving loop finds the level: between `2 ^ l` and `2 ^ (l + 1)`.
log2_from_bounds :
    (bits n : ℕ)
    → 0 < n
    → n < 2 ^ suc bits
    → (2 ^ log2_from bits n ≤ n) × (n < 2 ^ suc (log2_from bits n))
unfolding log2_from
log2_from_bounds zero n pos h = omega arith
log2_from_bounds (suc bits) n pos h = ground (
  arith,
  log2_from_bounds bits (n / 2),
  two-pow-succ (suc bits),
  two-pow-succ (log2_from bits (n / 2)),
  two-pow-succ (suc (log2_from bits (n / 2))),
)

log2_bounds : (n : ℕ) → 0 < n → n < 2 ^ 32 → (2 ^ log2 n ≤ n) × (n < 2 ^ suc (log2 n))
unfolding log2
log2_bounds n pos h = log2_from_bounds 32 n pos (omega (arith, two-pow-succ 32))

IsValid-of_bounds :
    (n l : ℕ)
    → 2 ^ l ≤ n
    → n < 2 ^ suc l
    → n < 2 ^ 32
    → IsValid (record { level = l; split_pointer = n - 2 ^ l })
IsValid-of_bounds n l lo hi fits = record {
  level_lt = elim (Bool-cases (ltb l 32)) [
    | inl lt ↦ ltb→lt l 32 lt
    | inr ge ↦
        absurd
          (omega (arith, pow-le-pow_right {n = 2} (omega arith) {i = 32} {j = l} (ltb→ge l 32 ge)))
  ];
  pointer_lt = omega (arith, two-pow-succ l);
}

-- For every positive number of shards below 2^32 there is a valid state, which `for_shard_count`
-- builds and which has exactly that number of shards.
pub for_shard_count_lem :
    (n : ℕ)
    → 0 < n
    → n < 2 ^ 32
    → (r : LinearV1) × (for_shard_count n ≡ ok r) × IsValid r × (shard_count r ≡ n)
unfolding for_shard_count
for_shard_count_lem n pos fits =
    let b = log2_bounds n pos fits in
    let r : LinearV1 = record { level = log2 n; split_pointer = n - 2 ^ log2 n } in
    let v : IsValid r = IsValid-of_bounds n (log2 n) b.0 b.1 fits in
    (
      r,
      ground (arith, new_linear-ok r v, pow_bounds (log2 n) v.level_lt),
      v,
      omega (arith, shard_count-eq r v),
    )

same_level :
    (r s : LinearV1) → IsValid r → IsValid s → shard_count r ≡ shard_count s → ¬ (r.level < s.level)
same_level r s v w e lt = omega (
  arith,
  shard_count-eq r v,
  shard_count-eq s w,
  two-pow-succ r.level,
  pow-le-pow_right {n = 2} (omega arith) {i = suc r.level} {j = s.level} lt,
)

state_unique : (r s : LinearV1) → IsValid r → IsValid s → shard_count r ≡ shard_count s → r ≡ s
state_unique r s v w e =
    let l : r.level ≡ s.level = omega (arith, same_level r s v w e, same_level s r w v (sym e)) in
    ground (arith, shard_count-eq r v, shard_count-eq s w, l, ap (λ (k : ℕ). 2 ^ k) l)

-- The state is canonical: counting the shards of a valid state and building the state for that
-- number gives the state back.
pub for_shard_count-shard_count :
    (r : LinearV1) → IsValid r → for_shard_count (shard_count r) ≡ ok r
for_shard_count-shard_count r v =
    let (s, built, w, count) =
      for_shard_count_lem (shard_count r)
        (omega (arith, shard_count-eq r v, pow_bounds r.level v.level_lt))
        (omega (arith, shard_count-eq r v, v.pointer_lt, pow_bounds r.level v.level_lt)) in
    built ∙ ap ok (state_unique s r w v count)
