-- ===== src/Cluster/Store/Starts.antt =====
-- src/cluster/catalog.rs: what `CatalogStore::open` makes of the files, for a voter that runs or is
-- stopped.
use shardlite.Cluster.Store.Backed.{IsBacked, Fits}
use shardlite.Cluster.Catalog.{Catalog, CatalogProposal, Result-cases}
use shardlite.Cluster.Catalog.Operations.{saturating_succ}
use shardlite.Common.{◌≤◌, ◌≡◌, refl, inl, inr, Option, none, some, arith, subst}
use shardlite.Cluster.Store.{
  stored, unstored, unsynced, Write, ℕ, opened_after, open_prepared, open_catalog, removed_file,
  Bool-cases, same_catalog, validate, same_catalog-eq, validate_proposal,
}
use shardlite.Cluster.Store.Votes.{
  Node, running, stopped, start, started, Promised, passed, standing,
}
use shardlite.Cluster.Store.Changes.{proposal_version}

-- The committed version: in memory, or in the file while the voter is stopped.
abbrev pub version_of : Node → ℕ
version_of (running s) = s.current.version
version_of (stopped file left) = file.version

abbrev pub IsBackedNode : Node → Type 0
IsBackedNode (running s) = IsBacked s
IsBackedNode (stopped file left) = Unit

-- The promise is kept by what the voter holds, and by its files.
abbrev pub IsKept : CatalogProposal → Node → Type 0
IsKept p (running s) = Promised p s.current s.prepared_proposal × Promised p s.file s.prepared_file
IsKept p (stopped file left) = Promised p file left

abbrev pub FitsNode : Node → Type 0
FitsNode (running s) = Fits s
FitsNode (stopped file left) = Unit

-- What a start makes of the files.
pub data Started (file : Catalog) (left : Option CatalogProposal) (n : Node) : Type 0 where
  fails : n ≡ stopped file left → Started file left n
  fails_dropped :
      (p : CatalogProposal)
      → left ≡ some p
      → file ≡ p.catalog
      → n ≡ stopped file none
      → Started file left n
  empty :
      left ≡ none
      → n
        ≡ running
            (record { current = file; prepared_proposal = none; file = file; prepared_file = none })
      → Started file left n
  drops_marker :
      (p : CatalogProposal)
      → left ≡ some p
      → file ≡ p.catalog
      → n
        ≡ running
            (record { current = file; prepared_proposal = none; file = file; prepared_file = none })
      → Started file left n
  resumes :
      (p : CatalogProposal)
      → left ≡ some p
      → p.catalog.version ≡ saturating_succ file.version
      → n
        ≡ running (record {
          current = file;
          prepared_proposal = some p;
          file = file;
          prepared_file = some p;
        })
      → Started file left n

opens_done :
    (deleted : Write) (file : Catalog) (p : CatalogProposal)
    → file ≡ p.catalog
    → Started file (some p) (started file (opened_after file (removed_file deleted (some p))))
opens_done stored file p e = drops_marker p refl e refl
opens_done unstored file p e = fails refl
opens_done unsynced file p e = fails_dropped p refl e refl

opens :
    (deleted : Write) (file : Catalog) (left : Option CatalogProposal)
    → Started file left (started file (open_prepared deleted file left))
opens deleted file none = empty refl refl
opens deleted file (some p) = elim (Bool-cases (same_catalog file p.catalog)) [
  | inl done ↦ rw done (opens_done deleted file p (same_catalog-eq file p.catalog done))
  | inr differs ↦ elim (Result-cases (validate_proposal file p)) [
    | inr (why, failed) ↦ fails (rw (differs, failed) refl)
    | inl (u, good) ↦ resumes p refl (proposal_version file p good) (rw (differs, good) refl)
  ]
]

pub start-Started :
    (deleted : Write) (file : Catalog) (left : Option CatalogProposal)
    → Started file left (start deleted file left)
unfolding open_catalog
start-Started deleted file left = elim (Result-cases (validate file)) [
  | inr (why, failed) ↦ fails (rw failed refl)
  | inl (u, good) ↦ rw good (opens deleted file left)
]

pub Started-IsBackedNode :
    (file : Catalog) (left : Option CatalogProposal) (n : Node)
    → Started file left n
    → IsBackedNode n × FitsNode n
Started-IsBackedNode file left n (fails e) = rw e (tt, tt)
Started-IsBackedNode file left n (fails_dropped p h d e) = rw e (tt, tt)
Started-IsBackedNode file left n (empty h e) = rw e (
  record { ahead = omega arith; backed = λ q k. absurd (ground arith) },
  λ q k. absurd (ground arith),
)
Started-IsBackedNode file left n (drops_marker p h d e) = rw e (
  record { ahead = omega arith; backed = λ q k. absurd (ground arith) },
  λ q k. absurd (ground arith),
)
Started-IsBackedNode file left n (resumes p h v e) = rw e (
  record {
    ahead = omega arith;
    backed = λ q k. standing p refl (ground arith) (ground arith) (λ _. ground arith);
  },
  λ q k. ground arith,
)

pub Started-version :
    (file : Catalog) (left : Option CatalogProposal) (n : Node)
    → Started file left n
    → version_of n ≡ file.version
Started-version file left n (fails e) = rw e refl
Started-version file left n (fails_dropped p h d e) = rw e refl
Started-version file left n (empty h e) = rw e refl
Started-version file left n (drops_marker p h d e) = rw e refl
Started-version file left n (resumes p h v e) = rw e refl

-- The file of a proposal that was dropped held the committed value.
Promised-dropped :
    (p q : CatalogProposal) (file : Catalog) (left : Option CatalogProposal)
    → left ≡ some q
    → file ≡ q.catalog
    → Promised p file left
    → p.catalog.version ≤ file.version
Promised-dropped p q file left h d (passed v) = v
Promised-dropped p q file left h d (standing r k v t e) = ground arith

Promised-empty :
    (p : CatalogProposal) (file : Catalog) (left : Option CatalogProposal)
    → left ≡ none
    → Promised p file left
    → p.catalog.version ≤ file.version
Promised-empty p file left h (passed v) = v
Promised-empty p file left h (standing r k v t e) = absurd (ground arith)

pub Started-IsKept :
    (p : CatalogProposal) (file : Catalog) (left : Option CatalogProposal) (n : Node)
    → Promised p file left
    → Started file left n
    → IsKept p n
Started-IsKept p file left n k (fails e) = rw e k
Started-IsKept p file left n k (fails_dropped q h d e) =
    rw e (passed (Promised-dropped p q file left h d k))
Started-IsKept p file left n k (empty h e) =
    let le = Promised-empty p file left h k in rw e (passed le, passed le)
Started-IsKept p file left n k (drops_marker q h d e) =
    let le = Promised-dropped p q file left h d k in rw e (passed le, passed le)
Started-IsKept p file left n k (resumes q h v e) =
    let here = subst (λ x. Promised p file x) h k in rw e (here, here)
