-- ===== src/Tests/Placements.antt =====
-- src/cluster/placement.rs: four shards on two nodes, one of them preferred for a shard.
use shardlite.Common.{ℕ, ◌<◌, ◌≤◌, ◌≡◌, ◌⊎◌, none, some, [], ◌∷◌, arith, length}
use shardlite.Common.OrdMap.{OrdMap, get}
use shardlite.Common.OrdSet.{contains, extend, insert}
use shardlite.Cluster.Placement.{sorted, owner, balanced, with_preferences}
use shardlite.Cluster.Placement.Owners.{IsChoice, owner-with_preferences}
use shardlite.Cluster.Placement.Agreement.{placements_agree}

abbrev preferred : OrdMap ℕ
preferred = (1, 5) ∷ (2, 9) ∷ []

two_members : 0 < length (sorted (5 ∷ 3 ∷ []))
two_members = unfold extend in unfold insert in omega arith

owner-with_preferences_example :
    ((2 < 4)
      × ((o : ℕ) × (owner (with_preferences 4 (5 ∷ 3 ∷ []) preferred 2) 2 ≡ some o)
          × IsChoice (5 ∷ 3 ∷ []) (get preferred 2) o))
    ⊎ ((4 ≤ 2) × (owner (with_preferences 4 (5 ∷ 3 ∷ []) preferred 2) 2 ≡ none))
owner-with_preferences_example = owner-with_preferences 4 (5 ∷ 3 ∷ []) preferred 2 2 two_members

either_order : (k : ℕ) → contains (5 ∷ 3 ∷ []) k ≡ contains (3 ∷ 5 ∷ 3 ∷ []) k
unfolding contains
either_order k = ground arith

placements_agree_example :
    (balanced 4 (5 ∷ 3 ∷ []) 2 ≡ balanced 4 (3 ∷ 5 ∷ 3 ∷ []) 2)
    × (with_preferences 4 (5 ∷ 3 ∷ []) preferred 2
        ≡ with_preferences 4 (3 ∷ 5 ∷ 3 ∷ []) preferred 2)
placements_agree_example = placements_agree 4 (5 ∷ 3 ∷ []) (3 ∷ 5 ∷ 3 ∷ []) preferred 2 either_order
