-- ===== src/Cluster/Topology/Soundness.antt =====
-- src/cluster/control.rs: every command keeps a catalog sound.
use shardlite.Cluster.Topology.Commands.{change-Steps}
use shardlite.Cluster.Topology.Preserved.{Advanced-Sound, CutOver-Sound, Published-Sound}
use shardlite.Cluster.Catalog.{ok, terminal, CatalogOperation, Catalog}
use shardlite.Common.{ℕ, ◌≡◌, ◌≢◌, ◌⊎◌, inl, inr, Bool, true, false, some, arith}
use shardlite.Common.OrdMap.{get, get-insert}
use shardlite.Cluster.Catalog.Operations.{active_on}
use shardlite.Cluster.Catalog.Split.{splitting}
use shardlite.Cluster.Topology.{
  Step, Steps, stay, then_step, unrelated, opened, advanced, cut_over, published, Owned, Growing,
  Opened, SameTopology,
}
use shardlite.Cluster.Topology.Invariant.{Sound, any_operation-false}
use shardlite.Cluster.Control.{CatalogCommand, CommandResult}
use shardlite.Cluster.Control.Apply.{change}

new_or_old :
    (c c' : Catalog) (o : Opened c c') (i : ℕ) (op : CatalogOperation)
    → get c'.operations i ≡ some op
    → ((i ≡ c.next_operation_id) × (op ≡ o.new))
      ⊎ ((i ≢ c.next_operation_id) × (get c.operations i ≡ some op))
new_or_old c c' o i op h =
    ground (arith, o.facts, get-insert c.operations c.next_operation_id i o.new)

-- The new operation's shard is no other active operation's.
unshared :
    (c c' : Catalog) (o : Opened c c') (i shard : ℕ) (op : CatalogOperation)
    → o.new.shard ≡ some shard
    → get c.operations i ≡ some op
    → op.shard ≡ some shard
    → terminal op.phase ≡ true
unshared c c' o i shard op named found s = ground (
  arith,
  o.facts,
  any_operation-false (active_on shard) c.operations i op (ground (arith, o.facts)) found,
)

unsplit_others :
    (c c' : Catalog) (o : Opened c c') (i : ℕ) (op : CatalogOperation)
    → splitting o.new ≡ true
    → get c.operations i ≡ some op
    → splitting op ≡ false
unsplit_others c c' o i op s found =
    any_operation-false splitting c.operations i op (o.unsplit (ground arith)) found

Owned-after :
    (c c' : Catalog) (op : CatalogOperation)
    → c'.placements ≡ c.placements
    → Owned c op
    → Owned c' op
Owned-after c c' op same o = record {
  shard = o.shard;
  placement = o.placement;
  facts = ground (arith, o.facts);
}

Growing-after :
    (c c' : Catalog) (op : CatalogOperation)
    → c'.placements ≡ c.placements
    → c'.routing ≡ c.routing
    → Growing c op
    → Growing c' op
Growing-after c c' op same r g = record {
  before = g.before;
  after = g.after;
  facts = ground (arith, g.facts);
}

Opened-Sound : (c c' : Catalog) → Opened c c' → Sound c → Sound c'
Opened-Sound c c' o w = record {
  keyed = λ i op h. ground (arith, o.facts, new_or_old c c' o i op h, w.keyed i op);
  alone = λ i j shard op op' h h' s s' t t'. elim (new_or_old c c' o i op h) [
    | inl here ↦ ground (arith, here, new_or_old c c' o j op' h', unshared c c' o j shard op')
    | inr there ↦ ground (
      arith,
      there,
      new_or_old c c' o j op' h',
      unshared c c' o i shard op,
      w.alone i j shard op op',
    )
  ];
  one_split = λ i j op op' h h' s s'. elim (new_or_old c c' o i op h) [
    | inl here ↦ ground (arith, here, new_or_old c c' o j op' h', unsplit_others c c' o j op')
    | inr there ↦ ground (
      arith,
      there,
      new_or_old c c' o j op' h',
      unsplit_others c c' o i op,
      w.one_split i j op op',
    )
  ];
  owned = λ i op h k e. elim (new_or_old c c' o i op h) [
    | inl here ↦ rw (here.1) (Owned-after c c' o.new (o.facts.2) (o.owned (ground (arith, here))))
    | inr there ↦ Owned-after c c' op (o.facts.2) (w.owned i op there.1 k e)
  ];
  growing = λ i op h k e. elim (new_or_old c c' o i op h) [
    | inl here ↦
        rw (here.1)
          (Growing-after c c' o.new (o.facts.2) (o.facts.3) (o.growing (ground (arith, here))))
    | inr there ↦ Growing-after c c' op (o.facts.2) (o.facts.3) (w.growing i op there.1 k e)
  ];
}

unrelated-Sound : (c c' : Catalog) → SameTopology c c' → Sound c → Sound c'
unrelated-Sound c c' same w = record {
  keyed = λ i op h. ground (arith, same, w.keyed i op);
  alone = λ i j shard op op' h h'.
      w.alone i j shard op op' (ground (arith, same)) (ground (arith, same));
  one_split =
      λ i j op op' h h'. w.one_split i j op op' (ground (arith, same)) (ground (arith, same));
  owned = λ i op h k e. Owned-after c c' op same.0 (w.owned i op (ground (arith, same)) k e);
  growing =
      λ i op h k e. Growing-after c c' op same.0 same.3 (w.growing i op (ground (arith, same)) k e);
}

-- Every topology step keeps a catalog sound.
pub Step-Sound : (c c' : Catalog) → Step c c' → Sound c → Sound c'
Step-Sound c c' (unrelated s) w = unrelated-Sound c c' s w
Step-Sound c c' (opened o) w = Opened-Sound c c' o w
Step-Sound c c' (advanced id a) w = Advanced-Sound c c' id a w
Step-Sound c c' (cut_over id a) w = CutOver-Sound c c' id a w
Step-Sound c c' (published id a) w = Published-Sound c c' id a w

pub Steps-Sound : (c c' : Catalog) → Steps c c' → Sound c → Sound c'
Steps-Sound _ _ (stay c) w = w
Steps-Sound _ _ (then_step c d c' s t) w = Step-Sound d c' t (Steps-Sound c d s w)

-- Every command that succeeds keeps a catalog sound: its operations carry their own numbers, no shard
-- has two operations under way, no two splits are under way, and a transfer or a split that is not
-- yet committed still names the present owner and generation of its shard, the split also the present
-- routing.
pub change-Sound :
    (command : CatalogCommand) (accepted : Bool) (c : Catalog) (out : CommandResult)
    → change command accepted c ≡ ok out
    → Sound c
    → Sound out.catalog
change-Sound command accepted c out e w =
    Steps-Sound c out.catalog (change-Steps command accepted c out e) w
