-- ===== src/Cluster/Topology/Refusals.antt =====
-- src/cluster/catalog.rs: changes after which `Catalog::validate` refuses the catalog, so that no
-- proposal can carry them.
use shardlite.Cluster.Topology.Commits.{commit_split-Published}
use shardlite.Cluster.Catalog.Split.{commit_split}
use shardlite.Cluster.Catalog.Checked.{validate-operation}
use shardlite.Cluster.Catalog.Members.{remove_member}
use shardlite.Cluster.Catalog.Validation.{
  check_transfer, check_split, check_kind, validate, published, linear_or_invalid,
}
use shardlite.Cluster.Catalog.{
  ok, OperationKind, join, transfer, split, drain, removal, committed, is_kind, CatalogOperation,
  Catalog, is_this, same_routing, Result-cases,
}
use shardlite.Common.{
  ℕ, ◌+◌, ◌^◌, ◌<◌, ◌≡◌, ◌≢◌, ◌&&◌, ◌||◌, refl, inl, inr, Bool, true, some, arith,
}
use shardlite.Common.OrdMap.{get, remove, get-insert, get-remove, contains_key}
use shardlite.Shard.Routing.{Routing, LinearV1, linear_v1, modulo_v1, shard_count, grown, base}
use shardlite.Shard.Routing
use shardlite.Shard.Routing.Valid.{IsValid}
use shardlite.Shard.Routing.Growth.{grown_adds_one}
use shardlite.Cluster.Topology.{Published}
use shardlite.Cluster.Topology.Invariant.{Sound}

-- The nodes that an operation of any phase has to keep among the members.
abbrev pub names_node : CatalogOperation → ℕ → Bool
names_node op node =
    (is_kind op.kind join && is_this node op.destination)
    || (is_kind op.kind drain && is_this node op.source)
    || (is_kind op.kind transfer && (is_this node op.source || is_this node op.destination))

kind_names :
    (c : Catalog) (op : CatalogOperation) (kind : OperationKind) (node : ℕ)
    → op.kind ≡ kind
    → check_kind c op kind ≡ ok tt
    → names_node op node ≡ true
    → contains_key c.members node ≡ true
unfolding check_transfer
kind_names c op join node k e h = ground arith
kind_names c op transfer node k e h = ground arith
kind_names c op split node k e h = absurd (ground arith)
kind_names c op drain node k e h = ground arith
kind_names c op removal node k e h = absurd (ground arith)

removed_is :
    (c c' : Catalog) (node : ℕ)
    → remove_member c node ≡ ok c'
    → (c'.members ≡ remove c.members node) × (c'.operations ≡ c.operations)
unfolding remove_member
removed_is c c' node e = ground arith

-- Once an operation names a node (a join as its destination, a drain as its source, a transfer as
-- either), and whatever the operation's phase, removing that member gives a catalog that
-- `validate` refuses.
pub removal_refused :
    (c c' : Catalog) (node i : ℕ) (op : CatalogOperation)
    → get c.operations i ≡ some op
    → names_node op node ≡ true
    → remove_member c node ≡ ok c'
    → validate c' ≢ ok tt
removal_refused c c' node i op found named e valid = ground (
  arith,
  removed_is c c' node e,
  get-remove c.members node node,
  kind_names c' op op.kind node refl
      (validate-operation c' i op valid (ground (arith, removed_is c c' node e))).0,
)

kind_splits :
    (c : Catalog) (op : CatalogOperation) (kind : OperationKind)
    → is_kind kind split ≡ true
    → check_kind c op kind ≡ ok tt
    → check_split c op ≡ ok tt
kind_splits c op join k e = absurd (ground arith)
kind_splits c op transfer k e = absurd (ground arith)
kind_splits c op split k e = e
kind_splits c op drain k e = absurd (ground arith)
kind_splits c op removal k e = absurd (ground arith)

split_routed :
    (c : Catalog) (op : CatalogOperation) (l : LinearV1)
    → check_split c op ≡ ok tt
    → published op.phase ≡ true
    → linear_or_invalid op.routing_after ≡ ok l
    → same_routing c.routing (linear_v1 l) ≡ true
unfolding check_split
split_routed c op l e p linear = ground arith

-- A split that has been published pins the routing of every catalog that `validate` accepts.
pub validate-split :
    (c : Catalog) (i : ℕ) (op : CatalogOperation)
    → validate c ≡ ok tt
    → get c.operations i ≡ some op
    → is_kind op.kind split ≡ true
    → published op.phase ≡ true
    → (l : LinearV1) × (linear_or_invalid op.routing_after ≡ ok l)
      × (same_routing c.routing (linear_v1 l) ≡ true)
unfolding check_split
validate-split c i op e found k p =
    let checked = kind_splits c op op.kind k (validate-operation c i op e found).0 in
    elim (Result-cases (linear_or_invalid op.routing_after)) [
      | inr (why, failed) ↦ absurd (ground arith)
      | inl (l, linear) ↦ (l, linear, split_routed c op l checked p linear)
    ]

same_count :
    (r s l : LinearV1)
    → same_routing (linear_v1 r) (linear_v1 l) ≡ true
    → same_routing (linear_v1 s) (linear_v1 l) ≡ true
    → shard_count r ≡ shard_count s
unfolding shard_count base
same_count r s l e f = ground arith

still_there :
    (c c' : Catalog) (i j : ℕ) (op : CatalogOperation) (a : Published c c' j)
    → get c.operations i ≡ some op
    → published op.phase ≡ true
    → get c'.operations i ≡ some op
still_there c c' i j op a found p =
    ground (
      arith,
      a.evidence,
      a.effect,
      get-insert c.operations j i (record a.old { phase = committed }),
    )

-- Once a split has been published, committing another one gives a catalog that `validate`
-- refuses. The catalog before is sound and accepted, and its linear routing is valid.
pub second_split_refused :
    (c c' : Catalog) (i j : ℕ) (op : CatalogOperation) (r : LinearV1)
    → Sound c
    → validate c ≡ ok tt
    → c.routing ≡ linear_v1 r
    → IsValid r
    → get c.operations i ≡ some op
    → is_kind op.kind split ≡ true
    → published op.phase ≡ true
    → commit_split c j ≡ ok c'
    → validate c' ≢ ok tt
second_split_refused c c' i j op r w valid linear v found k p e valid' =
    let a = commit_split-Published c c' j e in
    let g = w.growing j a.old a.evidence.0 a.evidence.1 (ground (arith, a.evidence)) in
    let (l, after, routed) = validate-split c i op valid found k p in
    let (m, after', routed') =
      validate-split c' i op valid' (still_there c c' i j op a found p) k p in
    let here : r ≡ g.before = ground (arith, g.facts) in
    let fits : shard_count r + 1 < 2 ^ 32 = ground (arith, here, g.facts) in
    let grows : grown r ≡ Routing.ok g.after = ground (arith, here, g.facts) in
    let (s, grows', valid_s, more) = grown_adds_one r v fits in
    let routing' : c'.routing ≡ linear_v1 g.after = ground (arith, a.evidence, a.effect, g.facts) in
    absurd
      (ground (arith, more, grows, grows', same_count r g.after l (ground arith) (ground arith)))
