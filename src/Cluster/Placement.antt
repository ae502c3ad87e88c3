-- ===== src/Cluster/Placement.antt =====
-- src/cluster/placement.rs: which node leads which shard.
pub mod Owners
pub mod Agreement
use shardlite.Common.{
  ℕ, zero, suc, ◌+◌, ◌-◌, ◌*◌, ◌/◌, ◌%◌, ◌^◌, ◌<◌, ◌≤◌, ◌≡◌, ◌≢◌, ◌⊎◌, ◌&&◌, ◌||◌, ◌==◌, ◌++◌, refl,
  sym, ap, ◌∙◌, inl, inr, Bool, true, false, not, Option, none, some, List, [], ◌∷◌, map, arith,
  ltb, leb, if◌then◌else◌, length, All, Bool-cases, Option-cases, max, min,
}
use mathlib.Core.List.{filter_map}
use shardlite.Common.{or_else, get_elem?, retain}
use shardlite.Common.OrdMap.{OrdMap, get, insert}
use shardlite.Common.OrdSet.{contains, extend}

pub record Placement : Type 0 where
  pub term : ℕ
  pub assignments : OrdMap ℕ

-- `sort_unstable` and `dedup`.
abbrev pub sorted : List ℕ → List ℕ
sorted members = extend [] members

-- `members[i]`: the index is below the length wherever this is called.
abbrev pub member_at : List ℕ → ℕ → ℕ
member_at members i = or_else 0 (get_elem? members i)

-- `for s in s..s + n`.
unfoldable pub assign : ℕ → ℕ → List ℕ → OrdMap ℕ → OrdMap ℕ
assign zero s members m = m
assign (suc n) s members m =
    assign n (s + 1) members (insert m s (member_at members (s % length members)))

unfoldable pub balanced : ℕ → List ℕ → ℕ → Placement
unfolding assign
balanced shard_count members term = elim (sorted members) [
  | [] ↦ record { term = term; assignments = [] }
  | h ∷ r ↦ record { term = term; assignments = assign shard_count 0 (h ∷ r) [] }
]

-- The owner of a shard, and whether it took a turn of the round robin.
unfoldable pub choose : List ℕ → Option ℕ → ℕ → ℕ × Bool
choose members none rr = (member_at members (rr % length members), true)
choose members (some pref) rr =
    if contains members pref then (pref, false) else (member_at members (rr % length members), true)

-- The loop with the count `rr` of round-robin turns taken.
unfoldable pub assign_preferred : ℕ → ℕ → ℕ → List ℕ → OrdMap ℕ → OrdMap ℕ → OrdMap ℕ
unfolding choose
assign_preferred zero s rr members preferences m = m
assign_preferred (suc n) s rr members preferences m =
    let (owner, turn) = choose members (get preferences s) rr in
    assign_preferred n (s + 1) (if turn then rr + 1 else rr) members preferences (insert m s owner)

unfoldable pub with_preferences : ℕ → List ℕ → OrdMap ℕ → ℕ → Placement
unfolding assign_preferred
with_preferences shard_count members preferences term = elim (sorted members) [
  | [] ↦ record { term = term; assignments = [] }
  | h ∷ r ↦ record {
    term = term;
    assignments = assign_preferred shard_count 0 0 (h ∷ r) preferences [];
  }
]

owned_by : ℕ → OrdMap ℕ → List ℕ
owned_by node [] = []
owned_by node ((s, owner) ∷ m) = if owner == node then s ∷ owned_by node m else owned_by node m

unfoldable pub shards_for : Placement → ℕ → List ℕ
unfolding owned_by
shards_for p node = owned_by node p.assignments

unfoldable pub owner : Placement → ℕ → Option ℕ
owner p shard = get p.assignments shard

unfoldable pub leaders : Placement → List ℕ
leaders p = sorted (map (λ e. e.1) p.assignments)

greatest : List ℕ → ℕ
greatest [] = 0
greatest (n ∷ []) = n
greatest (n ∷ k ∷ r) = max n (greatest (k ∷ r))

least : List ℕ → ℕ
least [] = 0
least (n ∷ []) = n
least (n ∷ k ∷ r) = min n (least (k ∷ r))

unfoldable pub imbalance : Placement → List ℕ → ℕ
unfolding greatest least shards_for
imbalance p members =
    let counts = map (λ n. length (shards_for p n)) members in greatest counts - least counts
