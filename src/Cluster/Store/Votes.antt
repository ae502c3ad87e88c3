-- ===== src/Cluster/Store/Votes.antt =====
-- src/cluster/catalog.rs: what a voter promises by preparing a catalog value, through any sequence of
-- calls, failed writes and restarts, and what each call changes.
use shardlite.Cluster.Catalog.Operations.{saturating_succ}
use shardlite.Cluster.Catalog.{Result, ok, err, Catalog, CatalogProposal}
use shardlite.Common.{ℕ, ◌<◌, ◌≤◌, ◌≡◌, ◌⊎◌, Option, none, some, List, [], ◌∷◌}
use shardlite.Cluster.Store.{
  CatalogStore, Write, install_committed, apply, prepare, commit_prepared, open_catalog,
}

pub data StoreCall : Type 0 where
  install_call : (written : Write) → Catalog → StoreCall
  apply_call : (written : Write) → (expected : ℕ) → (Catalog → Result Catalog) → StoreCall
  prepare_call : (written : Write) → CatalogProposal → StoreCall
  commit_call : (written deleted : Write) → (term version : ℕ) → StoreCall
  restart : (deleted : Write) → StoreCall

-- A voter runs with its store, or a start has failed and there are only the files.
pub data Node : Type 0 where
  running : CatalogStore → Node
  stopped : Catalog → Option CatalogProposal → Node

abbrev pub started : Catalog → Option CatalogProposal × Result CatalogStore → Node
started file (left, ok s) = running s
started file (left, err why) = stopped file left

abbrev pub start : Write → Catalog → Option CatalogProposal → Node
start deleted file prepared_file = started file (open_catalog deleted file prepared_file)

abbrev pub call_running : StoreCall → CatalogStore → Node
call_running (install_call written c) s = running (install_committed written c s).0
call_running (apply_call written expected change) s = running (apply written expected change s).0
call_running (prepare_call written p) s = running (prepare written p s).0
call_running (commit_call written deleted term version) s =
    running (commit_prepared written deleted term version s).0
call_running (restart deleted) s = start deleted s.file s.prepared_file

abbrev pub call_stopped : StoreCall → Catalog → Option CatalogProposal → Node
call_stopped (restart deleted) file prepared_file = start deleted file prepared_file
call_stopped _ file prepared_file = stopped file prepared_file

abbrev pub call : StoreCall → Node → Node
call c (running s) = call_running c s
call c (stopped file prepared_file) = call_stopped c file prepared_file

unfoldable pub run : List StoreCall → Node → Node
run [] n = n
run (c ∷ cs) n = run cs (call c n)

-- Of a committed value and a prepared one: a value of the version of `p` is committed; or something is
-- prepared, in no earlier term, and in the same term only the same value.
pub data Promised (p : CatalogProposal) (c : Catalog) (prepared : Option CatalogProposal)
    : Type 0 where
  passed : p.catalog.version ≤ c.version → Promised p c prepared
  standing :
      (q : CatalogProposal)
      → prepared ≡ some q
      → p.catalog.version ≤ q.catalog.version
      → p.term ≤ q.term
      → (p.term ≡ q.term → p ≡ q)
      → Promised p c prepared

-- What a call makes of a store: nothing; while nothing is prepared, a value written; a value prepared
-- over nothing or over one of an earlier term; the prepared value committed and dropped, or still
-- to be dropped; or only its file written. A write that was not synced changes the files alone.
pub data Change (s s' : CatalogStore) : Type 0 where
  same : s' ≡ s → Change s s'
  wrote :
      (d : Catalog)
      → s.prepared_proposal ≡ none
      → s'.prepared_proposal ≡ none
      → s.current.version ≤ d.version
      → s'.file ≡ d
      → (s'.current ≡ d) ⊎ (s'.current ≡ s.current)
      → Change s s'
  prepares :
      (r : CatalogProposal)
      → r.catalog.version ≡ saturating_succ s.current.version
      → ((q : CatalogProposal) → s.prepared_proposal ≡ some q → q.term < r.term)
      → s'.current ≡ s.current
      → s'.file ≡ s.file
      → s'.prepared_file ≡ some r
      → (s'.prepared_proposal ≡ some r) ⊎ (s'.prepared_proposal ≡ s.prepared_proposal)
      → Change s s'
  commits :
      (q : CatalogProposal)
      → s.prepared_proposal ≡ some q
      → s'.file ≡ q.catalog
      → s'.current ≡ q.catalog
      → (s'.prepared_proposal ≡ some q) ⊎ (s'.prepared_proposal ≡ none)
      → Change s s'
  drops :
      (q : CatalogProposal)
      → s.prepared_proposal ≡ some q
      → q.catalog.version ≤ s.current.version
      → s'.file ≡ s.file
      → s'.current ≡ s.current
      → (s'.prepared_proposal ≡ some q) ⊎ (s'.prepared_proposal ≡ none)
      → Change s s'
  half_commits :
      (q : CatalogProposal)
      → s.prepared_proposal ≡ some q
      → s' ≡ record s { file = q.catalog }
      → Change s s'
