-- ===== src/Cluster/Topology/Ownership.antt =====
-- src/cluster/control.rs: who owns a shard, over any sequence of commands.
use shardlite.Cluster.Catalog.Split.{split_placement}
use shardlite.Shard.Routing.{split_destination}
use shardlite.Cluster.Catalog.Transfer.{moved}
use shardlite.Cluster.Topology.Commands.{change-Steps, change-Made}
use shardlite.Cluster.Topology.Soundness.{Steps-Sound}
use shardlite.Cluster.Catalog.{ok, ReplicaSet, Catalog}
use shardlite.Common.{
  ℕ, ◌+◌, ◌≤◌, ◌≡◌, ◌≢◌, ◌==◌, refl, inl, inr, Bool, some, arith, Bool-cases, Option-cases, ◌∙◌,
}
use shardlite.Common.OrdMap.{OrdMap, get, get-insert}
use shardlite.Cluster.Topology.{
  Step, Steps, stay, then_step, unrelated, opened, advanced, cut_over, published, CutOver,
  Published, owner_of, Quiet, Quiets, Made, aside, rest, at_once, plans, then_quiet, quietly,
  membership,
}
use shardlite.Cluster.Topology.Invariant.{Sound}
use shardlite.Cluster.Control.{CatalogCommand, CommandResult}
use shardlite.Cluster.Control.Apply.{change}

-- The shard is still placed, its generation has not gone back, and one generation has one owner.
pub record Kept (p : ReplicaSet) (ps : OrdMap ReplicaSet) (shard : ℕ) : Type 0 where
  pub later : ReplicaSet
  pub facts :
      (get ps shard ≡ some later)
      × (p.generation ≤ later.generation)
      × (p.generation ≡ later.generation → p.primary ≡ later.primary)

same_owners :
    (ps ps' : OrdMap ReplicaSet) (shard : ℕ) (p : ReplicaSet)
    → owner_of (get ps' shard) ≡ owner_of (get ps shard)
    → get ps shard ≡ some p
    → Kept p ps' shard
same_owners ps ps' shard p same found = elim (Option-cases (get ps' shard)) [
  | inl lost ↦ absurd (ground arith)
  | inr (later, there) ↦ record { later = later; facts = (there, ground arith, λ _. ground arith) }
]

CutOver-Kept :
    (c c' : Catalog) (id shard : ℕ) (p : ReplicaSet)
    → CutOver c c' id
    → get c.placements shard ≡ some p
    → Kept p c'.placements shard
unfolding moved
CutOver-Kept c c' id shard p a found =
    let after = moved a.placement (a.placement.generation + 1) a.placement.primary a.destination in
    elim (Bool-cases (a.shard == shard)) [
      | inl here ↦ record {
        later = after;
        facts = (
          ground (arith, a.effect, get-insert c.placements a.shard shard after),
          ground (arith, a.current),
          λ same. absurd (ground (arith, a.current)),
        );
      }
      | inr other ↦ record {
        later = p;
        facts = (
          ground (arith, a.effect, get-insert c.placements a.shard shard after),
          ground arith,
          λ _. refl,
        );
      }
    ]

Published-keeps :
    (c c' : Catalog) (id shard : ℕ) (p : ReplicaSet)
    → Published c c' id
    → Sound c
    → get c.placements shard ≡ some p
    → get c'.placements shard ≡ some p
Published-keeps c c' id shard p a w found =
    let g = w.growing id a.old a.evidence.0 a.evidence.1 (ground (arith, a.evidence)) in
    ground (
      arith,
      a.effect,
      a.evidence,
      g.facts,
      get-insert c.placements (split_destination a.before) shard
          (split_placement a.owner a.old.split_required_nodes),
    )

Published-Kept :
    (c c' : Catalog) (id shard : ℕ) (p : ReplicaSet)
    → Published c c' id
    → Sound c
    → get c.placements shard ≡ some p
    → Kept p c'.placements shard
Published-Kept c c' id shard p a w found = record {
  later = p;
  facts = (Published-keeps c c' id shard p a w found, ground arith, λ _. refl);
}

pub Step-Kept :
    (c c' : Catalog) (shard : ℕ) (p : ReplicaSet)
    → Step c c'
    → Sound c
    → get c.placements shard ≡ some p
    → Kept p c'.placements shard
Step-Kept c c' shard p (unrelated s) w found =
    same_owners c.placements c'.placements shard p (ground (arith, s)) found
Step-Kept c c' shard p (opened o) w found =
    same_owners c.placements c'.placements shard p (ground (arith, o.facts)) found
Step-Kept c c' shard p (advanced id a) w found =
    same_owners c.placements c'.placements shard p (a.moves.3 shard) found
Step-Kept c c' shard p (cut_over id a) w found = CutOver-Kept c c' id shard p a found
Step-Kept c c' shard p (published id a) w found = Published-Kept c c' id shard p a w found

pub Kept-trans :
    (shard : ℕ) (p : ReplicaSet) (ps ps' : OrdMap ReplicaSet) (k : Kept p ps shard)
    → Kept k.later ps' shard
    → Kept p ps' shard
Kept-trans shard p ps ps' k l = record {
  later = l.later;
  facts =
      (l.facts.0, omega (arith, k.facts.1, l.facts.1), λ same. ground (arith, k.facts, l.facts));
}

pub Steps-Kept :
    (c c' : Catalog) (shard : ℕ) (p : ReplicaSet)
    → Steps c c'
    → Sound c
    → get c.placements shard ≡ some p
    → Kept p c'.placements shard
Steps-Kept _ _ shard p (stay c) w found = record {
  later = p;
  facts = (found, ground arith, λ _. refl);
}
Steps-Kept _ _ shard p (then_step c d c' s t) w found =
    let k = Steps-Kept c d shard p s w found in
    Kept-trans shard p d.placements c'.placements k
      (Step-Kept d c' shard k.later t (Steps-Sound c d s w) k.facts.0)

-- From a sound catalog every command that succeeds keeps every placed shard placed, never takes its
-- generation back, and changes its primary only under a higher generation: one generation of a shard
-- has one owner.
pub generations_name_owners :
    (command : CatalogCommand) (accepted : Bool) (c : Catalog) (out : CommandResult) (shard : ℕ)
    (p : ReplicaSet)
    → Sound c
    → change command accepted c ≡ ok out
    → get c.placements shard ≡ some p
    → Kept p out.catalog.placements shard
generations_name_owners command accepted c out shard p w e found =
    Steps-Kept c out.catalog shard p (change-Steps command accepted c out e) w found

-- The change from `c` to `c'` cuts the shard over, with its primary and generation before and after.
pub record CutBetween (c c' : Catalog) (shard : ℕ) (p p' : ReplicaSet) : Type 0 where
  pub id : ℕ
  pub cut : CutOver c c' id
  pub facts :
      (cut.shard ≡ shard)
      × (cut.placement.primary ≡ p.primary)
      × (cut.destination ≡ p'.primary)
      × (p'.generation ≡ p.generation + 1)

Quiet-owner :
    (c c' : Catalog) (shard : ℕ)
    → Quiet c c'
    → owner_of (get c'.placements shard) ≡ owner_of (get c.placements shard)
Quiet-owner c c' shard (aside s) = ground (arith, s)
Quiet-owner c c' shard (plans o) = ground (arith, o.facts)
Quiet-owner c c' shard (membership id a m) = a.moves.3 shard

Quiets-owner :
    (c c' : Catalog) (shard : ℕ)
    → Quiets c c'
    → owner_of (get c'.placements shard) ≡ owner_of (get c.placements shard)
Quiets-owner _ _ shard (rest c) = refl
Quiets-owner _ _ shard (then_quiet c d c' q s) = Quiet-owner d c' shard s ∙ Quiets-owner c d shard q

step_owner :
    (c c' : Catalog) (shard : ℕ) (p p' : ReplicaSet)
    → Step c c'
    → Sound c
    → get c.placements shard ≡ some p
    → get c'.placements shard ≡ some p'
    → p.primary ≢ p'.primary
    → CutBetween c c' shard p p'
unfolding moved
step_owner c c' shard p p' (unrelated s) w f f' ne = absurd (ground (arith, s))
step_owner c c' shard p p' (opened o) w f f' ne = absurd (ground (arith, o.facts))
step_owner c c' shard p p' (advanced id a) w f f' ne = absurd (ground (arith, a.moves.3 shard))
step_owner c c' shard p p' (cut_over id a) w f f' ne = record {
  id = id;
  cut = a;
  facts = ground (
    arith,
    a.effect,
    a.current,
    get-insert c.placements a.shard shard
        (moved a.placement (a.placement.generation + 1) a.placement.primary a.destination),
  );
}
step_owner c c' shard p p' (published id a) w f f' ne =
    absurd (ground (arith, Published-keeps c c' id shard p a w f))

Made-owner :
    (c c' : Catalog) (shard : ℕ) (p p' : ReplicaSet)
    → Made c c'
    → Sound c
    → get c.placements shard ≡ some p
    → get c'.placements shard ≡ some p'
    → p.primary ≢ p'.primary
    → CutBetween c c' shard p p'
Made-owner c c' shard p p' (at_once s) w f f' ne = step_owner c c' shard p p' s w f f' ne
Made-owner c c' shard p p' (quietly q) w f f' ne =
    absurd (ground (arith, Quiets-owner c c' shard q))

-- From a sound catalog, a command that succeeds and changes the primary of a shard is the cut-over of
-- a transfer of that shard which the given catalog holds, fenced, with a snapshot installed and the
-- final position of its source durable at its destination. The new primary is that destination,
-- and the generation is the next one.
pub change-CutBetween :
    (command : CatalogCommand) (accepted : Bool) (c : Catalog) (out : CommandResult) (shard : ℕ)
    (p p' : ReplicaSet)
    → Sound c
    → change command accepted c ≡ ok out
    → get c.placements shard ≡ some p
    → get out.catalog.placements shard ≡ some p'
    → p.primary ≢ p'.primary
    → CutBetween c out.catalog shard p p'
change-CutBetween command accepted c out shard p p' w e found later differs =
    Made-owner c out.catalog shard p p' (change-Made command accepted c out e) w found later differs
