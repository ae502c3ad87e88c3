-- ===== src/Cluster/Topology/Effects.antt =====
-- src/cluster/catalog.rs: the steps of a transfer that leave the owners alone, as moves of its
-- operation.
use shardlite.Cluster.Catalog.Transfer.{
  begin_snapshot, prepare_transfer, begin_fencing, begin_cleanup, snapshot_installed,
  record_catch_up, record_final_lsn, record_fenced_bootstrap, record_fenced_catch_up,
}
use shardlite.Cluster.Catalog.Operations.{operation_in, abort_operation, transition}
use shardlite.Cluster.Catalog.{
  ok, OperationKind, transfer, OperationPhase, planned, snapshotting, catching_up, prepared,
  fencing, committed, cleaning, aborted, phase_rank, is_kind, terminal, may_abort, CatalogOperation,
  Catalog,
}
use shardlite.Common.{ℕ, ◌≡◌, inl, inr, true, some, List, arith, Option-cases}
use shardlite.Common.OrdMap.{get}
use shardlite.Cluster.Topology.{Advanced}

pub operation_in-ok :
    (c : Catalog) (id : ℕ) (kind : OperationKind) (phase : OperationPhase) (op : CatalogOperation)
    → operation_in c id kind phase ≡ ok op
    → (get c.operations id ≡ some op)
      × (is_kind op.kind kind ≡ true)
      × (phase_rank op.phase ≡ phase_rank phase)
unfolding operation_in
operation_in-ok c id kind phase op e = ground arith

pub begin_snapshot-Advanced :
    (c c' : Catalog) (id : ℕ) → begin_snapshot c id ≡ ok c' → Advanced c c' id
unfolding begin_snapshot terminal transition
begin_snapshot-Advanced c c' id e = elim (Option-cases (get c.operations id)) [
  | inl none_found ↦ absurd (ground (arith, operation_in-ok c id transfer planned))
  | inr (op, found) ↦ record {
    old = op;
    new = record op { phase = snapshotting };
    same = ground arith;
    moves = ground (arith, operation_in-ok c id transfer planned);
    commits = λ _. ground (arith, operation_in-ok c id transfer planned);
  }
]

pub prepare_transfer-Advanced :
    (c c' : Catalog) (id : ℕ) → prepare_transfer c id ≡ ok c' → Advanced c c' id
unfolding prepare_transfer terminal transition
prepare_transfer-Advanced c c' id e = elim (Option-cases (get c.operations id)) [
  | inl none_found ↦ absurd (ground (arith, operation_in-ok c id transfer catching_up))
  | inr (op, found) ↦ record {
    old = op;
    new = record op { phase = prepared };
    same = ground arith;
    moves = ground (arith, operation_in-ok c id transfer catching_up);
    commits = λ _. ground (arith, operation_in-ok c id transfer catching_up);
  }
]

pub begin_fencing-Advanced :
    (c c' : Catalog) (id : ℕ) → begin_fencing c id ≡ ok c' → Advanced c c' id
unfolding begin_fencing terminal transition
begin_fencing-Advanced c c' id e = elim (Option-cases (get c.operations id)) [
  | inl none_found ↦ absurd (ground (arith, operation_in-ok c id transfer prepared))
  | inr (op, found) ↦ record {
    old = op;
    new = record op { phase = fencing };
    same = ground arith;
    moves = ground (arith, operation_in-ok c id transfer prepared);
    commits = λ _. ground (arith, operation_in-ok c id transfer prepared);
  }
]

pub begin_cleanup-Advanced :
    (c c' : Catalog) (id : ℕ) → begin_cleanup c id ≡ ok c' → Advanced c c' id
unfolding begin_cleanup terminal transition
begin_cleanup-Advanced c c' id e = elim (Option-cases (get c.operations id)) [
  | inl none_found ↦ absurd (ground (arith, operation_in-ok c id transfer committed))
  | inr (op, found) ↦ record {
    old = op;
    new = record op { phase = cleaning };
    same = ground arith;
    moves = ground (arith, operation_in-ok c id transfer committed);
    commits = λ _. ground (arith, operation_in-ok c id transfer committed);
  }
]

pub snapshot_installed-Advanced :
    (c c' : Catalog) (id : ℕ) (epoch lsn : ℕ)
    → snapshot_installed c id epoch lsn ≡ ok c'
    → Advanced c c' id
unfolding snapshot_installed terminal
snapshot_installed-Advanced c c' id epoch lsn e = elim (Option-cases (get c.operations id)) [
  | inl none_found ↦ absurd (ground (arith, operation_in-ok c id transfer snapshotting))
  | inr (op, found) ↦ record {
    old = op;
    new = record op {
      stream_epoch = some epoch;
      snapshot_lsn = some lsn;
      durable_lsn = some lsn;
      phase = catching_up;
    };
    same = ground arith;
    moves = ground (arith, operation_in-ok c id transfer snapshotting);
    commits = λ _. ground (arith, operation_in-ok c id transfer snapshotting);
  }
]

pub record_catch_up-Advanced :
    (c c' : Catalog) (id : ℕ) (epoch lsn : ℕ)
    → record_catch_up c id epoch lsn ≡ ok c'
    → Advanced c c' id
unfolding record_catch_up terminal
record_catch_up-Advanced c c' id epoch lsn e = elim (Option-cases (get c.operations id)) [
  | inl none_found ↦ absurd (ground (arith, operation_in-ok c id transfer catching_up))
  | inr (op, found) ↦ record {
    old = op;
    new = record op { durable_lsn = some lsn };
    same = ground arith;
    moves = ground (arith, operation_in-ok c id transfer catching_up);
    commits = λ _. ground (arith, operation_in-ok c id transfer catching_up);
  }
]

pub record_final_lsn-Advanced :
    (c c' : Catalog) (id : ℕ) (epoch lsn : ℕ)
    → record_final_lsn c id epoch lsn ≡ ok c'
    → Advanced c c' id
unfolding record_final_lsn terminal
record_final_lsn-Advanced c c' id epoch lsn e = elim (Option-cases (get c.operations id)) [
  | inl none_found ↦ absurd (ground (arith, operation_in-ok c id transfer fencing))
  | inr (op, found) ↦ record {
    old = op;
    new = record op { final_lsn = some lsn };
    same = ground arith;
    moves = ground (arith, operation_in-ok c id transfer fencing);
    commits = λ _. ground (arith, operation_in-ok c id transfer fencing);
  }
]

pub record_fenced_bootstrap-Advanced :
    (c c' : Catalog) (id : ℕ) (epoch lsn : ℕ)
    → record_fenced_bootstrap c id epoch lsn ≡ ok c'
    → Advanced c c' id
unfolding record_fenced_bootstrap terminal
record_fenced_bootstrap-Advanced c c' id epoch lsn e = elim (Option-cases (get c.operations id)) [
  | inl none_found ↦ absurd (ground (arith, operation_in-ok c id transfer fencing))
  | inr (op, found) ↦ record {
    old = op;
    new = record op { snapshot_lsn = some lsn; durable_lsn = some lsn };
    same = ground arith;
    moves = ground (arith, operation_in-ok c id transfer fencing);
    commits = λ _. ground (arith, operation_in-ok c id transfer fencing);
  }
]

pub record_fenced_catch_up-Advanced :
    (c c' : Catalog) (id : ℕ) (epoch lsn : ℕ)
    → record_fenced_catch_up c id epoch lsn ≡ ok c'
    → Advanced c c' id
unfolding record_fenced_catch_up terminal
record_fenced_catch_up-Advanced c c' id epoch lsn e = elim (Option-cases (get c.operations id)) [
  | inl none_found ↦ absurd (ground (arith, operation_in-ok c id transfer fencing))
  | inr (op, found) ↦ record {
    old = op;
    new = record op { durable_lsn = some lsn };
    same = ground arith;
    moves = ground (arith, operation_in-ok c id transfer fencing);
    commits = λ _. ground (arith, operation_in-ok c id transfer fencing);
  }
]

pub abort_operation-Advanced :
    (c c' : Catalog) (id : ℕ) (reason : List ℕ)
    → abort_operation c id reason ≡ ok c'
    → Advanced c c' id
unfolding abort_operation terminal may_abort
abort_operation-Advanced c c' id reason e = elim (Option-cases (get c.operations id)) [
  | inl none_found ↦ absurd (ground (arith))
  | inr (op, found) ↦ record {
    old = op;
    new = record op { phase = aborted; last_error = some reason };
    same = ground arith;
    moves = ground (arith);
    commits = λ _. ground (arith);
  }
]
