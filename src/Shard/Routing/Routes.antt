-- ===== src/Shard/Routing/Routes.antt =====
-- Where a hash goes, in terms of the two powers of two that the router divides by.
use native.Mathlib.Nat.{mod-lt, mod-mod_of_dvd, dvd-mul_right, mod-eq_of_lt, mod-eq-sub-mod}
use shardlite.Common.{
  ℕ, ◌+◌, ◌<◌, ◌≡◌, ◌%◌, if◌then◌else◌, ltb, ◌*◌, ◌⊎◌, ◌^◌, Bool-cases, arith, inl, inr, ◌-◌,
}
use shardlite.Shard.Routing.{LinearV1, route_linear}
use shardlite.Shard.Routing.Valid.{IsValid, pow_bounds}

-- The remainder by the double is the remainder, or that and the divisor.
pub mod-double : (h b : ℕ) → 0 < b → (h % (b * 2) ≡ h % b) ⊎ (h % (b * 2) ≡ h % b + b)
mod-double h b pos = elim (Bool-cases (ltb (h % (b * 2)) b)) [
  | inl low ↦ inl (
      ground (
        arith,
        mod-mod_of_dvd b {b = b * 2} h (dvd-mul_right b 2),
        mod-eq_of_lt {n = h % (b * 2)} {m = b},
      ))
  | inr high ↦ inr (
      ground (
        arith,
        mod-mod_of_dvd b {b = b * 2} h (dvd-mul_right b 2),
        mod-eq-sub-mod {n = h % (b * 2)} {m = b},
        mod-eq_of_lt {n = h % (b * 2) - b} {m = b},
        mod-lt h {m = b * 2},
      ))
]

pub route_linear-eq :
    (r : LinearV1) (h : ℕ)
    → IsValid r
    → route_linear r h
      ≡ (if ltb (h % 2 ^ r.level) r.split_pointer then h % (2 ^ r.level * 2) else h % 2 ^ r.level)
unfolding route_linear
route_linear-eq r h v = ground (
  arith,
  pow_bounds r.level v.level_lt,
  mod-lt h {m = 2 ^ r.level},
  mod-lt h {m = 2 ^ r.level * 2},
)
