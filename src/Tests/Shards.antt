-- ===== src/Tests/Shards.antt =====
-- src/shard: routers with two to four shards, and a cache of two connections.
use shardlite.Common.{ℕ, ◌<◌, ◌≡◌, ◌≢◌, ◌⊎◌, refl, some, [], ◌∷◌, arith, length, none}
use shardlite.Shard.Routing.{
  LinearV1, ModuloV1, for_shard_count, grown, shard_count, route_linear, route_modulo, split_source,
  split_destination,
}
use shardlite.Shard.Routing
use shardlite.Shard.Routing.Valid.{IsValid}
use shardlite.Shard.Routing.Growth.{grown_moves}
use shardlite.Shard.Routing.Reach.{route_linear_onto, for_shard_count-shard_count}
use shardlite.Shard.Lru.{Lru, Slot, Event, Opened, find, get_or_open}
use shardlite.Shard.Lru
use shardlite.Shard.Lru.Access
use shardlite.Shard.Lru.Access.{victim, kept, entry_after, get_or_open_contents, get_or_open_event}
use shardlite.Shard.Lru.Bounds.{get_or_open-IsValid, get_or_open-evicts_coldest}
use shardlite.Shard.Lru.Slots.{used_of}

abbrev three : LinearV1
three = record { level = 1; split_pointer = 1 }

abbrev four : LinearV1
four = record { level = 2; split_pointer = 0 }

three-IsValid : IsValid three
three-IsValid = record { level_lt = omega arith; pointer_lt = omega arith }

four-IsValid : IsValid four
four-IsValid = record { level_lt = omega arith; pointer_lt = omega arith }

three-grown : grown three ≡ Routing.ok four
unfolding grown Routing.new_linear Routing.base_for Routing.base
three-grown = refl

grown_moves_example :
    (route_linear four 7 ≡ route_linear three 7)
    ⊎ ((route_linear three 7 ≡ split_source three)
        × (route_linear four 7 ≡ split_destination three))
grown_moves_example =
    grown_moves three four 7 three-IsValid
      (unfold shard_count in unfold Routing.base in omega arith) three-grown

route_linear_onto_example :
    ((h : ℕ) → route_linear three h < shard_count three)
    × ((s : ℕ) → s < shard_count three → route_linear three s ≡ s)
route_linear_onto_example = route_linear_onto three three-IsValid

for_shard_count-shard_count_example : for_shard_count (shard_count three) ≡ Routing.ok three
for_shard_count-shard_count_example = for_shard_count-shard_count three three-IsValid

abbrev full : Lru ℕ
full = record {
  capacity = 2;
  tick = 5;
  entries = record { id = 7; used = 5; value = 70 } ∷ record { id = 8; used = 3; value = 80 } ∷ [];
  evictions = 0;
  opens = 2;
}

abbrev opened : Opened ℕ ℕ
opened = Lru.ok 90

full-IsValid : Access.IsValid full
unfolding find
full-IsValid = record {
  capacity_pos = omega arith;
  within = omega arith;
  ids = (refl, (refl, tt));
  ticks = (omega arith, (omega arith, tt), (omega arith, tt, tt));
}

get_or_open-IsValid_example : Access.IsValid (get_or_open full 9 opened).0
get_or_open-IsValid_example = get_or_open-IsValid full 9 opened full-IsValid (omega arith)

get_or_open_contents_example :
    find 8 (get_or_open full 9 opened).0.entries
    ≡ entry_after 9 8 opened (find 9 full.entries) (kept (victim full 9) 8 (find 8 full.entries))
get_or_open_contents_example = get_or_open_contents full 9 8 opened full-IsValid (omega arith)

holds_eight : find 8 full.entries ≡ some 80
unfolding find
holds_eight = refl

drops_eight : find 8 (get_or_open full 9 opened).0.entries ≡ none
unfolding Lru.make_room Lru.drop_id
drops_eight =
    unfold get_or_open in unfold find in unfold Lru.coldest in unfold Lru.coldest_from in refl

get_or_open-evicts_coldest_example :
    (u : ℕ) × (used_of 8 full.entries ≡ some u)
    × ((j w : ℕ) → j ≢ 8 → used_of j full.entries ≡ some w → u < w)
    × (length full.entries ≡ full.capacity)
    × (find 9 full.entries ≡ none)
get_or_open-evicts_coldest_example =
    get_or_open-evicts_coldest full 9 8 80 opened full-IsValid (omega arith) holds_eight drops_eight
