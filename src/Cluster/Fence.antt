-- ===== src/Cluster/Fence.antt =====
-- src/cluster/fence.rs. Each function is one atomic step: the source holds the gate's mutex, or
-- makes one atomic operation. The counters are u64, and `fetch_add` wraps.
pub mod Tokens
pub mod Gate
use shardlite.Common.{
  ℕ, zero, suc, ◌+◌, ◌-◌, ◌*◌, ◌/◌, ◌%◌, ◌^◌, ◌<◌, ◌≤◌, ◌≡◌, ◌≢◌, ◌⊎◌, ◌&&◌, ◌||◌, ◌==◌, ◌++◌, refl,
  sym, ap, ◌∙◌, inl, inr, Bool, true, false, not, Option, none, some, List, [], ◌∷◌, map, arith,
  ltb, leb, if◌then◌else◌, length, All, Bool-cases, Option-cases, max,
}
use shardlite.Common.{is_some}
use shardlite.Common.Decimal.{u64}
use shardlite.Common.OrdMap.{OrdMap, get, insert, remove, keys}

pub record FenceToken : Type 0 where
  pub term : ℕ
  pub node : ℕ

pub record FenceStats : Type 0 where
  pub highest_seen : ℕ
  pub rejected : ℕ
  pub gated_writes : ℕ
  pub stale_opens : ℕ

pub record Fence : Type 0 where
  pub node : ℕ
  pub highest : ℕ
  pub rejected : ℕ
  pub gated : ℕ
  pub stale_opens : ℕ
  pub led : OrdMap ℕ

pub data FenceError : Type 0 where
  fenced : FenceToken → ℕ → FenceError
  not_leader : ℕ → FenceError

pub data Result {ℓ} (A : Type ℓ) : Type ℓ where
  ok : A → Result A
  err : FenceError → Result A

abbrev pub count : ℕ → ℕ
count n = (n + 1) % u64

unfoldable pub new : ℕ → ℕ → Fence
new node term = record {
  node = node;
  highest = term;
  rejected = 0;
  gated = 0;
  stale_opens = 0;
  led = [];
}

unfoldable pub stats : Fence → FenceStats
stats f = record {
  highest_seen = f.highest;
  rejected = f.rejected;
  gated_writes = f.gated;
  stale_opens = f.stale_opens;
}

-- `fetch_max` raises the bar, and the comparison is with the value before.
unfoldable pub validate : Fence → FenceToken → Fence × Result (Unit {0})
validate f token =
    let raised = record f { highest = max f.highest token.term } in
    if ltb token.term f.highest
    then (record raised { rejected = count f.rejected }, err (fenced token f.highest))
    else (raised, ok tt)

unfoldable pub insert_all : OrdMap ℕ → List ℕ → ℕ → OrdMap ℕ
insert_all m [] term = m
insert_all m (s ∷ shards) term = insert_all (insert m s term) shards term

unfoldable pub open_for : Fence → List ℕ → ℕ → Fence
unfolding insert_all
open_for f shards term =
    let raised = record f { highest = max f.highest term } in
    if ltb term f.highest
    then record raised { stale_opens = count f.stale_opens }
    else record raised { led = insert_all [] shards term }

unfoldable pub step_down : Fence → ℕ → Fence
step_down f term = record f { highest = max f.highest term; led = [] }

unfoldable pub close : Fence → Fence
close f = record f { led = [] }

-- The flag says whether the shard's gate was open.
unfoldable pub close_shard : Fence → ℕ → Fence × Bool
close_shard f shard = (record f { led = remove f.led shard }, is_some (get f.led shard))

unfoldable pub is_open : Fence → ℕ → Bool
is_open f shard = is_some (get f.led shard)

unfoldable pub leads_anything : Fence → Bool
leads_anything f = elim f.led [ [] ↦ false | e ∷ r ↦ true ]

unfoldable pub led_shards : Fence → List ℕ
led_shards f = keys f.led

unfoldable pub open_term : Fence → ℕ → Option ℕ
open_term f shard = get f.led shard

unfoldable pub check_may_write : Fence → ℕ → Fence × Result FenceToken
unfolding open_term
check_may_write f shard = elim (open_term f shard) [
  | some term ↦ (f, ok (record { term = term; node = f.node }))
  | none ↦ (record f { gated = count f.gated }, err (not_leader f.highest))
]
