-- ===== src/Cluster/Store/Changes.antt =====
-- src/cluster/catalog.rs: each call of a catalog store makes one of the changes that Votes names.
use shardlite.Cluster.Catalog.Operations.{saturating_succ}
use shardlite.Cluster.Catalog.{Result, ok, Catalog, CatalogProposal, Result-cases}
use shardlite.Common.{
  ℕ, ◌+◌, ◌<◌, ◌≤◌, ◌≡◌, ◌⊎◌, ◌==◌, inl, inr, none, some, arith, Bool-cases, Option-cases, refl,
  is_some,
}
use shardlite.Cluster.Store.{
  CatalogStore, Write, stored, unstored, unsynced, validate_proposal, install_committed, apply,
  prepare, commit_prepared, with_current, next_value, committing,
}
use shardlite.Cluster.Store.Votes.{Change, same, wrote, prepares, commits, drops, half_commits}

pub proposal_version :
    (c : Catalog) (p : CatalogProposal)
    → validate_proposal c p ≡ ok tt
    → p.catalog.version ≡ saturating_succ c.version
unfolding validate_proposal
proposal_version c p e = ground arith

next_version :
    (r : Result Catalog) (c d : Catalog)
    → r ≡ ok c
    → next_value r ≡ ok d
    → d.version ≡ c.version + 1
next_version r c d e f = ground (arith, e)

-- The change leaves the version to `apply`.
abbrev pub KeepsVersion : (Catalog → Result Catalog) → Type 0
KeepsVersion change = (c d : Catalog) → change c ≡ ok d → d.version ≡ c.version

install-cases :
    (written : Write) (c : Catalog) (s : CatalogStore)
    → ((install_committed written c s).0 ≡ s)
      ⊎ ((s.prepared_proposal ≡ none)
          × (s.current.version ≤ c.version)
          × (((install_committed written c s).0 ≡ with_current s c)
              ⊎ ((install_committed written c s).0 ≡ record s { file = c })))
unfolding install_committed
install-cases stored c s = ground arith
install-cases unstored c s = ground arith
install-cases unsynced c s = ground arith

pub install-Change :
    (written : Write) (c : Catalog) (s : CatalogStore) → Change s (install_committed written c s).0
install-Change written c s = elim (install-cases written c s) [
  | inl nothing ↦ same nothing
  | inr (free, le, what) ↦ wrote c free (ground arith) le (ground arith) (ground arith)
]

committing-cases :
    (written : Write) (s : CatalogStore) (d : Catalog)
    → ((committing written s d).0 ≡ s)
      ⊎ (((committing written s d).0 ≡ with_current s d)
          ⊎ ((committing written s d).0 ≡ record s { file = d }))
committing-cases stored s d = inr (inl refl)
committing-cases unstored s d = inl refl
committing-cases unsynced s d = inr (inr refl)

apply-cases :
    (written : Write) (expected : ℕ) (change : Catalog → Result Catalog) (s : CatalogStore)
    → ((apply written expected change s).0 ≡ s)
      ⊎ ((d : Catalog) × (next_value (change s.current) ≡ ok d)
          × (s.prepared_proposal ≡ none)
          × (((apply written expected change s).0 ≡ with_current s d)
              ⊎ ((apply written expected change s).0 ≡ record s { file = d })))
unfolding apply
apply-cases written expected change s = elim (Bool-cases (s.current.version == expected)) [
  | inr stale ↦ inl (ground arith)
  | inl level ↦ elim (Bool-cases (is_some s.prepared_proposal)) [
    | inl busy_now ↦ inl (ground arith)
    | inr free ↦ elim (Result-cases (next_value (change s.current))) [
      | inr (why, failed) ↦ inl (rw (level, free, failed) refl)
      | inl (d, next) ↦ elim (committing-cases written s d) [
        | inl nothing ↦ inl (rw (level, free, next) nothing)
        | inr what ↦ inr (d, next, ground arith, rw (level, free, next) what)
      ]
    ]
  ]
]

pub apply-Change :
    (written : Write) (expected : ℕ) (change : Catalog → Result Catalog) (s : CatalogStore)
    → KeepsVersion change
    → Change s (apply written expected change s).0
apply-Change written expected change s keeps = elim (apply-cases written expected change s) [
  | inl nothing ↦ same nothing
  | inr (d, next, free, what) ↦ elim (Result-cases (change s.current)) [
    | inr (why, failed) ↦ absurd (ground arith)
    | inl (c, changed) ↦
        wrote d free (ground arith)
          (ground
            (arith, next_version (change s.current) c d changed next, keeps s.current c changed))
          (ground arith) (ground arith)
  ]
]

abbrev Prepares : Write → CatalogProposal → CatalogStore → Type 0
Prepares written p s =
    (p.catalog.version ≡ saturating_succ s.current.version)
    × (((prepare written p s).0 ≡ record s { prepared_proposal = some p; prepared_file = some p })
        ⊎ ((prepare written p s).0 ≡ record s { prepared_file = some p }))

prepare-none :
    (written : Write) (p : CatalogProposal) (s : CatalogStore)
    → s.prepared_proposal ≡ none
    → ((prepare written p s).0 ≡ s) ⊎ Prepares written p s
unfolding prepare
prepare-none written p s e = ground (arith, proposal_version s.current p)

prepare-some :
    (written : Write) (p q : CatalogProposal) (s : CatalogStore)
    → s.prepared_proposal ≡ some q
    → ((prepare written p s).0 ≡ s) ⊎ ((q.term < p.term) × Prepares written p s)
unfolding prepare
prepare-some written p q s e = ground (arith, proposal_version s.current p)

Prepares-Change :
    (written : Write) (p : CatalogProposal) (s : CatalogStore)
    → ((q : CatalogProposal) → s.prepared_proposal ≡ some q → q.term < p.term)
    → Prepares written p s
    → Change s (prepare written p s).0
Prepares-Change written p s above (version, what) =
    prepares p version above (ground arith) (ground arith) (ground arith) (ground arith)

pub prepare-Change :
    (written : Write) (p : CatalogProposal) (s : CatalogStore) → Change s (prepare written p s).0
prepare-Change written p s = elim (Option-cases s.prepared_proposal) [
  | inl free ↦ elim (prepare-none written p s free) [
    | inl nothing ↦ same nothing
    | inr what ↦ Prepares-Change written p s (λ q h. absurd (ground arith)) what
  ]
  | inr (q, held) ↦ elim (prepare-some written p q s held) [
    | inl nothing ↦ same nothing
    | inr (lt, what) ↦ Prepares-Change written p s (λ r h. ground arith) what
  ]
]

commit-cases :
    (written deleted : Write) (term version : ℕ) (q : CatalogProposal) (s : CatalogStore)
    → s.prepared_proposal ≡ some q
    → let t = (commit_prepared written deleted term version s).0 in
      (t ≡ s)
      ⊎ (t ≡ record s { file = q.catalog })
      ⊎ (((t.prepared_proposal ≡ some q) ⊎ (t.prepared_proposal ≡ none))
          × (((t.file ≡ q.catalog) × (t.current ≡ q.catalog))
              ⊎ ((q.catalog.version ≤ s.current.version)
                  × (t.file ≡ s.file)
                  × (t.current ≡ s.current))))
unfolding commit_prepared
commit-cases written deleted term version q s e = ground arith

commit-unprepared :
    (written deleted : Write) (term version : ℕ) (s : CatalogStore)
    → s.prepared_proposal ≡ none
    → (commit_prepared written deleted term version s).0 ≡ s
unfolding commit_prepared
commit-unprepared written deleted term version s e = ground arith

pub commit-Change :
    (written deleted : Write) (term version : ℕ) (s : CatalogStore)
    → Change s (commit_prepared written deleted term version s).0
commit-Change written deleted term version s = elim (Option-cases s.prepared_proposal) [
  | inl free ↦ same (commit-unprepared written deleted term version s free)
  | inr (q, held) ↦ elim (commit-cases written deleted term version q s held) [
    | inl nothing ↦ same nothing
    | inr (inl half) ↦ half_commits q held half
    | inr (inr (left, inl (file, current))) ↦ commits q held file current left
    | inr (inr (left, inr (le, file, current))) ↦ drops q held le file current left
  ]
]
