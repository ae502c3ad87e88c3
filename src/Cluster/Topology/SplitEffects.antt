-- ===== src/Cluster/Topology/SplitEffects.antt =====
-- src/cluster/catalog.rs: the steps of a split before and after its commit, as moves of its operation.
use shardlite.Cluster.Catalog.Operations.{transition}
use shardlite.Cluster.Catalog.Split.{
  begin_split_snapshot, prepare_split, begin_split_fencing, begin_split_cleanup, complete_split,
  split_snapshot_ready, record_split_replay, split_fenced, record_split_installed,
  record_split_cleaned,
}
use shardlite.Cluster.Catalog.{
  ok, split, planned, snapshotting, catching_up, prepared, fencing, installing, committed, cleaning,
  complete, terminal, Catalog,
}
use shardlite.Common.{ℕ, ◌≡◌, inl, inr, some, arith, Option-cases}
use shardlite.Common.OrdMap.{get}
use shardlite.Cluster.Topology.{Advanced}
use shardlite.Cluster.Topology.Effects.{operation_in-ok}
use shardlite.Common.OrdSet

pub begin_split_snapshot-Advanced :
    (c c' : Catalog) (id : ℕ) → begin_split_snapshot c id ≡ ok c' → Advanced c c' id
unfolding begin_split_snapshot terminal transition
begin_split_snapshot-Advanced c c' id e = elim (Option-cases (get c.operations id)) [
  | inl none_found ↦ absurd (ground (arith, operation_in-ok c id split planned))
  | inr (op, found) ↦ record {
    old = op;
    new = record op { phase = snapshotting };
    same = ground arith;
    moves = ground (arith, operation_in-ok c id split planned);
    commits = λ _. ground (arith, operation_in-ok c id split planned);
  }
]

pub prepare_split-Advanced :
    (c c' : Catalog) (id : ℕ) → prepare_split c id ≡ ok c' → Advanced c c' id
unfolding prepare_split terminal transition
prepare_split-Advanced c c' id e = elim (Option-cases (get c.operations id)) [
  | inl none_found ↦ absurd (ground (arith, operation_in-ok c id split catching_up))
  | inr (op, found) ↦ record {
    old = op;
    new = record op { phase = prepared };
    same = ground arith;
    moves = ground (arith, operation_in-ok c id split catching_up);
    commits = λ _. ground (arith, operation_in-ok c id split catching_up);
  }
]

pub begin_split_fencing-Advanced :
    (c c' : Catalog) (id : ℕ) → begin_split_fencing c id ≡ ok c' → Advanced c c' id
unfolding begin_split_fencing terminal transition
begin_split_fencing-Advanced c c' id e = elim (Option-cases (get c.operations id)) [
  | inl none_found ↦ absurd (ground (arith, operation_in-ok c id split prepared))
  | inr (op, found) ↦ record {
    old = op;
    new = record op { phase = fencing };
    same = ground arith;
    moves = ground (arith, operation_in-ok c id split prepared);
    commits = λ _. ground (arith, operation_in-ok c id split prepared);
  }
]

pub begin_split_cleanup-Advanced :
    (c c' : Catalog) (id : ℕ) → begin_split_cleanup c id ≡ ok c' → Advanced c c' id
unfolding begin_split_cleanup terminal transition
begin_split_cleanup-Advanced c c' id e = elim (Option-cases (get c.operations id)) [
  | inl none_found ↦ absurd (ground (arith, operation_in-ok c id split committed))
  | inr (op, found) ↦ record {
    old = op;
    new = record op { phase = cleaning };
    same = ground arith;
    moves = ground (arith, operation_in-ok c id split committed);
    commits = λ _. ground (arith, operation_in-ok c id split committed);
  }
]

pub complete_split-Advanced :
    (c c' : Catalog) (id : ℕ) → complete_split c id ≡ ok c' → Advanced c c' id
unfolding complete_split terminal transition
complete_split-Advanced c c' id e = elim (Option-cases (get c.operations id)) [
  | inl none_found ↦ absurd (ground (arith, operation_in-ok c id split cleaning))
  | inr (op, found) ↦ record {
    old = op;
    new = record op { phase = complete };
    same = ground arith;
    moves = ground (arith, operation_in-ok c id split cleaning);
    commits = λ _. ground (arith, operation_in-ok c id split cleaning);
  }
]

pub split_snapshot_ready-Advanced :
    (c c' : Catalog) (id : ℕ) (barrier : ℕ)
    → split_snapshot_ready c id barrier ≡ ok c'
    → Advanced c c' id
unfolding split_snapshot_ready terminal
split_snapshot_ready-Advanced c c' id barrier e = elim (Option-cases (get c.operations id)) [
  | inl none_found ↦ absurd (ground (arith, operation_in-ok c id split snapshotting))
  | inr (op, found) ↦ record {
    old = op;
    new = record op {
      snapshot_lsn = some barrier;
      durable_lsn = some barrier;
      phase = catching_up;
    };
    same = ground arith;
    moves = ground (arith, operation_in-ok c id split snapshotting);
    commits = λ _. ground (arith, operation_in-ok c id split snapshotting);
  }
]

pub record_split_replay-Advanced :
    (c c' : Catalog) (id : ℕ) (sequence : ℕ)
    → record_split_replay c id sequence ≡ ok c'
    → Advanced c c' id
unfolding record_split_replay terminal
record_split_replay-Advanced c c' id sequence e = elim (Option-cases (get c.operations id)) [
  | inl none_found ↦ absurd (ground (arith, operation_in-ok c id split catching_up))
  | inr (op, found) ↦ record {
    old = op;
    new = record op { durable_lsn = some sequence };
    same = ground arith;
    moves = ground (arith, operation_in-ok c id split catching_up);
    commits = λ _. ground (arith, operation_in-ok c id split catching_up);
  }
]

pub split_fenced-Advanced :
    (c c' : Catalog) (id : ℕ) (sequence : ℕ) → split_fenced c id sequence ≡ ok c' → Advanced c c' id
unfolding split_fenced terminal
split_fenced-Advanced c c' id sequence e = elim (Option-cases (get c.operations id)) [
  | inl none_found ↦ absurd (ground (arith, operation_in-ok c id split fencing))
  | inr (op, found) ↦ record {
    old = op;
    new = record op { final_lsn = some sequence; durable_lsn = some sequence; phase = installing };
    same = ground arith;
    moves = ground (arith, operation_in-ok c id split fencing);
    commits = λ _. ground (arith, operation_in-ok c id split fencing);
  }
]

pub record_split_installed-Advanced :
    (c c' : Catalog) (id : ℕ) (node : ℕ)
    → record_split_installed c id node ≡ ok c'
    → Advanced c c' id
unfolding record_split_installed terminal
record_split_installed-Advanced c c' id node e = elim (Option-cases (get c.operations id)) [
  | inl none_found ↦ absurd (ground (arith, operation_in-ok c id split installing))
  | inr (op, found) ↦ record {
    old = op;
    new = record op { split_installed_nodes = OrdSet.insert op.split_installed_nodes node };
    same = ground arith;
    moves = ground (arith, operation_in-ok c id split installing);
    commits = λ _. ground (arith, operation_in-ok c id split installing);
  }
]

pub record_split_cleaned-Advanced :
    (c c' : Catalog) (id : ℕ) (node : ℕ) → record_split_cleaned c id node ≡ ok c' → Advanced c c' id
unfolding record_split_cleaned terminal
record_split_cleaned-Advanced c c' id node e = elim (Option-cases (get c.operations id)) [
  | inl none_found ↦ absurd (ground (arith, operation_in-ok c id split cleaning))
  | inr (op, found) ↦ record {
    old = op;
    new = record op { split_cleaned_nodes = OrdSet.insert op.split_cleaned_nodes node };
    same = ground arith;
    moves = ground (arith, operation_in-ok c id split cleaning);
    commits = λ _. ground (arith, operation_in-ok c id split cleaning);
  }
]
