-- ===== src/Cluster/Topology/Keys.antt =====
-- src/cluster/catalog.rs: the node that owns a key, over the commit of a split.
use shardlite.Cluster.Topology.Commits.{commit_split-Published}
use shardlite.Cluster.Catalog.Split.{commit_split, split_placement}
use shardlite.Cluster.Catalog.{ok, ReplicaSet, Catalog}
use shardlite.Common.{ℕ, ◌+◌, ◌^◌, ◌<◌, ◌≡◌, refl, inl, inr, true, Option, none, some, List, arith}
use shardlite.Common.OrdMap.{get, get-insert}
use shardlite.Shard.Routing.{
  Routing, LinearV1, linear_v1, shard_count, grown, route_linear, route, hash_key,
}
use shardlite.Shard.Routing
use shardlite.Shard.Routing.Valid.{IsValid}
use shardlite.Shard.Routing.Growth.{grown_moves}
use shardlite.Cluster.Topology.{Published, LinearV1, is_some, linear_v1, split_destination}
use shardlite.Cluster.Topology.Invariant.{Sound}

abbrev primary_of : Option ReplicaSet → Option ℕ
primary_of none = none
primary_of (some p) = some p.primary

-- The primary of the shard to which the catalog routes the key.
abbrev pub key_owner : Catalog → List ℕ → Option ℕ
key_owner c key = primary_of (get c.placements (route c.routing key))

route_of_linear :
    (routing : Routing) (l : LinearV1) (key : List ℕ)
    → routing ≡ linear_v1 l
    → route routing key ≡ route_linear l (hash_key key)
unfolding route
route_of_linear routing l key e = rw e refl

Published-key_owner :
    (c c' : Catalog) (id : ℕ) (key : List ℕ) (r : LinearV1)
    → Published c c' id
    → Sound c
    → c.routing ≡ linear_v1 r
    → IsValid r
    → is_some (key_owner c key) ≡ true
    → key_owner c' key ≡ key_owner c key
Published-key_owner c c' id key r a w linear v placed =
    let g = w.growing id a.old a.evidence.0 a.evidence.1 (ground (arith, a.evidence)) in
    let o =
      w.owned id a.old a.evidence.0 (ground (arith, a.evidence)) (ground (arith, a.evidence)) in
    let hash = hash_key key in
    let here : r ≡ g.before = ground (arith, g.facts) in
    let there : a.before ≡ r = ground (arith, here, g.facts, a.evidence) in
    let fits : shard_count r + 1 < 2 ^ 32 = ground (arith, here, g.facts) in
    let grows : grown r ≡ Routing.ok g.after = ground (arith, here, g.facts) in
    let before : route c.routing key ≡ route_linear r hash =
      route_of_linear c.routing r key linear in
    let after : route c'.routing key ≡ route_linear g.after hash =
      route_of_linear c'.routing g.after key (ground (arith, g.facts, a.evidence, a.effect)) in
    let new = split_placement a.owner a.old.split_required_nodes in
    elim (grown_moves r g.after hash v fits grows) [
      | inl same ↦ ground (
        arith,
        same,
        before,
        after,
        there,
        here,
        g.facts,
        a.effect,
        get-insert c.placements (split_destination a.before) (route c'.routing key) new,
      )
      | inr moves ↦ ground (
        arith,
        moves,
        before,
        after,
        there,
        here,
        g.facts,
        o.facts,
        a.evidence,
        a.effect,
        get-insert c.placements (split_destination a.before) (route c'.routing key) new,
      )
    ]

-- Committing a split leaves every key whose shard is placed with the node that owned it, though the
-- routing sends some of the keys to the new shard. The catalog has to be sound and its routing valid.
pub commit_split-key_owner :
    (c c' : Catalog) (id : ℕ) (key : List ℕ) (r : LinearV1)
    → Sound c
    → c.routing ≡ linear_v1 r
    → IsValid r
    → commit_split c id ≡ ok c'
    → is_some (key_owner c key) ≡ true
    → key_owner c' key ≡ key_owner c key
commit_split-key_owner c c' id key r w linear v e placed =
    Published-key_owner c c' id key r (commit_split-Published c c' id e) w linear v placed
