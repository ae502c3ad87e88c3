-- ===== src/Shard/Routing.antt =====
-- src/shard/routing.rs. A hash is a u64 and a shard number a u32, both as plain numbers.
pub mod Valid
pub mod Routes
pub mod Growth
pub mod Reach
use Prim.Native.Nat.{bit_xor}
use shardlite.Common.{
  ℕ, zero, suc, ◌+◌, ◌-◌, ◌*◌, ◌%◌, ◌/◌, ◌^◌, ◌<◌, ◌≤◌, ◌≡◌, refl, Bool, true, false, List, [], ◌∷◌,
  arith, ltb, leb, ◌==◌, if◌then◌else◌, Option, none, some,
}

pub data RoutingError : Type 0 where
  no_shards : RoutingError
  pointer_outside : ℕ → ℕ → ℕ → RoutingError
  level_exceeds : ℕ → RoutingError
  level_exhausted : RoutingError

pub data Result {ℓ} (A : Type ℓ) : Type ℓ where
  ok : A → Result A
  err : RoutingError → Result A

infixl 5 ◌>>=◌
abbrev pub ◌>>=◌ {ℓ κ} : {A : Type ℓ} {B : Type κ} → Result A → (A → Result B) → Result B
ok a >>= f = f a
err e >>= f = err e

abbrev pub u64 : ℕ
u64 = 2 ^ 64

abbrev pub u32 : ℕ
u32 = 2 ^ 32

abbrev offset : ℕ
offset = 0xcbf2_9ce4_8422_2325

abbrev prime : ℕ
prime = 0x0000_0100_0000_01b3

hash_from : ℕ → List ℕ → ℕ
hash_from hash [] = hash
hash_from hash (byte ∷ key) = hash_from ((bit_xor hash byte * prime) % u64) key

unfoldable pub hash_key : List ℕ → ℕ
unfolding hash_from
hash_key key = hash_from offset key

pub record ModuloV1 : Type 0 where
  pub shard_count : ℕ

unfoldable pub new_modulo : ℕ → Result ModuloV1
new_modulo shard_count =
    if shard_count == 0 then err no_shards else ok (record { shard_count = shard_count })

unfoldable pub route_modulo : ModuloV1 → ℕ → ℕ
route_modulo r hash = (hash % r.shard_count) % u32

pub record LinearV1 : Type 0 where
  pub level : ℕ
  pub split_pointer : ℕ

abbrev pub one : LinearV1
one = record { level = 0; split_pointer = 0 }

-- `1u32.checked_shl(level)`: refused from 32 on.
unfoldable pub base_for : ℕ → Result ℕ
base_for level = if ltb level 32 then ok (2 ^ level % u32) else err (level_exceeds level)

unfoldable pub new_linear : ℕ → ℕ → Result LinearV1
unfolding base_for
new_linear level split_pointer = do
  base ← base_for level
  if leb base split_pointer
      then err (pointer_outside split_pointer base level)
      else ok (record { level = level; split_pointer = split_pointer })

-- `31 - n.leading_zeros()` of a positive u32: the index of its highest bit, by halving.
log2_from : ℕ → ℕ → ℕ
log2_from zero n = 0
log2_from (suc bits) n = let rest = log2_from bits (n / 2) in if leb n 1 then 0 else suc rest

unfoldable pub log2 : ℕ → ℕ
unfolding log2_from
log2 n = log2_from 32 n

unfoldable pub for_shard_count : ℕ → Result LinearV1
unfolding new_linear log2
for_shard_count active_shards =
    if active_shards == 0
    then err no_shards
    else (let level = log2 active_shards in new_linear level (active_shards - 2 ^ level % u32))

-- `1u32 << level`.
unfoldable pub base : LinearV1 → ℕ
base r = 2 ^ r.level % u32

-- `base + split_pointer`, in u32.
unfoldable pub shard_count : LinearV1 → ℕ
unfolding base
shard_count r = (base r + r.split_pointer) % u32

abbrev pub split_source : LinearV1 → ℕ
split_source r = r.split_pointer

unfoldable pub split_destination : LinearV1 → ℕ
unfolding base
split_destination r = (base r + r.split_pointer) % u32

-- `level` is a u8, so `checked_add(1)` fails at 255.
unfoldable pub grown : LinearV1 → Result LinearV1
unfolding base new_linear
grown r =
    let next = (r.split_pointer + 1) % u32 in
    if next == base r
    then (if r.level == 255 then err level_exhausted else new_linear (r.level + 1) 0)
    else new_linear r.level next

-- `hash` is a u64, and so is `base * 2`.
unfoldable pub route_linear : LinearV1 → ℕ → ℕ
unfolding base
route_linear r hash =
    let first = (hash % base r) % u32 in
    if ltb first r.split_pointer then (hash % (base r * 2 % u64)) % u32 else first

pub data Routing : Type 0 where
  modulo_v1 : ModuloV1 → Routing
  linear_v1 : LinearV1 → Routing

unfoldable pub route : Routing → List ℕ → ℕ
unfolding route_modulo route_linear
route (modulo_v1 r) key = route_modulo r (hash_key key)
route (linear_v1 r) key = route_linear r (hash_key key)

unfoldable pub active_shards : Routing → ℕ
unfolding shard_count
active_shards (modulo_v1 r) = r.shard_count
active_shards (linear_v1 r) = shard_count r
