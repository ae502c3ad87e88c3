-- ===== src/Cluster/Store/Promises.antt =====
-- src/cluster/catalog.rs: a voter's promise holds through every call, failed write and restart.

use shardlite.Cluster.Store.Backed.{
  IsBacked, Promised-through, Change-IsBacked, Change-version, Change-Fits, Change-held,
}
use shardlite.Cluster.Store.Starts.{
  IsBackedNode, IsKept, version_of, Started, FitsNode, start-Started, fails, Started-version,
  Started-IsBackedNode, Started-IsKept,
}
use shardlite.Cluster.Catalog.{ok, Catalog, CatalogProposal}
use shardlite.Common.{
  ◌≤◌, ◌≡◌, ◌⊎◌, refl, inl, inr, Bool, Option, none, some, List, [], ◌∷◌, arith, All, Option-cases,
  subst,
}
use shardlite.Cluster.Store.{CatalogStore, Write, prepare, same_proposal-eq, create}
use shardlite.Cluster.Store.Votes.{
  StoreCall, install_call, apply_call, prepare_call, commit_call, restart, call, run, Node, running,
  stopped, Promised, passed, standing, Change,
}
use shardlite.Cluster.Store.Changes.{
  KeepsVersion, install-Change, apply-Change, prepare-Change, commit-Change,
}

abbrev KeepsIn : StoreCall → Type 0
KeepsIn (apply_call written expected change) = KeepsVersion change
KeepsIn _ = Unit

-- Every local change among the calls leaves the version alone.
abbrev pub KeepVersions : List StoreCall → Type 0
KeepVersions calls = All KeepsIn calls

running-Change :
    (c : StoreCall) (s : CatalogStore)
    → KeepsIn c
    → ((t : CatalogStore) × (call c (running s) ≡ running t) × Change s t)
      ⊎ Started s.file s.prepared_file (call c (running s))
running-Change (install_call written c) s k = inl (_, refl, install-Change written c s)
running-Change (apply_call written expected change) s k =
    inl (_, refl, apply-Change written expected change s k)
running-Change (prepare_call written p) s k = inl (_, refl, prepare-Change written p s)
running-Change (commit_call written deleted term version) s k =
    inl (_, refl, commit-Change written deleted term version s)
running-Change (restart deleted) s k = inr (start-Started deleted s.file s.prepared_file)

stopped-Started :
    (c : StoreCall) (file : Catalog) (left : Option CatalogProposal)
    → Started file left (call c (stopped file left))
stopped-Started (install_call written c) file left = fails refl
stopped-Started (apply_call written expected change) file left = fails refl
stopped-Started (prepare_call written p) file left = fails refl
stopped-Started (commit_call written deleted term version) file left = fails refl
stopped-Started (restart deleted) file left = start-Started deleted file left

call-IsBackedNode :
    (c : StoreCall) (n : Node)
    → KeepsIn c
    → IsBackedNode n
    → FitsNode n
    → IsBackedNode (call c n) × FitsNode (call c n)
call-IsBackedNode c (running s) k b f = elim (running-Change c s k) [
  | inl (t, e, change) ↦ rw e (Change-IsBacked s t b f change, Change-Fits s t b f change)
  | inr begins ↦ Started-IsBackedNode s.file s.prepared_file (call c (running s)) begins
]
call-IsBackedNode c (stopped file left) k b f =
    Started-IsBackedNode file left (call c (stopped file left)) (stopped-Started c file left)

call-version :
    (c : StoreCall) (n : Node)
    → KeepsIn c
    → IsBackedNode n
    → FitsNode n
    → version_of n ≤ version_of (call c n)
call-version c (running s) k b f = elim (running-Change c s k) [
  | inl (t, e, change) ↦ rw e (Change-version s t b f change)
  | inr begins ↦
      omega (arith, b.ahead, Started-version s.file s.prepared_file (call c (running s)) begins)
]
call-version c (stopped file left) k b f =
    omega
      (arith, Started-version file left (call c (stopped file left)) (stopped-Started c file left))

running-IsKept :
    (p : CatalogProposal) (s : CatalogStore)
    → IsBacked s
    → Promised p s.current s.prepared_proposal
    → IsKept p (running s)
running-IsKept p s b k =
    (k, Promised-through p s.current s.file s.prepared_proposal s.prepared_file k b.ahead b.backed)

call-IsKept :
    (c : StoreCall) (n : Node) (p : CatalogProposal)
    → KeepsIn c
    → IsBackedNode n
    → FitsNode n
    → IsKept p n
    → IsKept p (call c n)
call-IsKept c (running s) p k b f h = elim (running-Change c s k) [
  | inl (t, e, change) ↦ rw e (
      running-IsKept p t (Change-IsBacked s t b f change) (
        Promised-through p s.current t.current s.prepared_proposal t.prepared_proposal h.0
          (Change-version s t b f change) (λ q held. Change-held s t b f q held change)))
  | inr begins ↦ Started-IsKept p s.file s.prepared_file (call c (running s)) h.1 begins
]
call-IsKept c (stopped file left) p k b f h =
    Started-IsKept p file left (call c (stopped file left)) h (stopped-Started c file left)

run-IsKept :
    (calls : List StoreCall) (n : Node) (p : CatalogProposal)
    → KeepVersions calls
    → IsBackedNode n
    → FitsNode n
    → IsKept p n
    → IsKept p (run calls n)
unfolding run
run-IsKept [] n p k b f h = h
run-IsKept (c ∷ calls) n p k b f h =
    let (b', f') = call-IsBackedNode c n k.0 b f in
    run-IsKept calls (call c n) p k.1 b' f' (call-IsKept c n p k.0 b f h)

run-IsBackedNode :
    (calls : List StoreCall) (n : Node)
    → KeepVersions calls
    → IsBackedNode n
    → FitsNode n
    → IsBackedNode (run calls n) × FitsNode (run calls n)
unfolding run
run-IsBackedNode [] n k b f = (b, f)
run-IsBackedNode (c ∷ calls) n k b f =
    let (b', f') = call-IsBackedNode c n k.0 b f in run-IsBackedNode calls (call c n) k.1 b' f'

acknowledged :
    (written : Write) (p : CatalogProposal) (s : CatalogStore)
    → (prepare written p s).1 ≡ ok tt
    → (p.catalog.version ≤ (prepare written p s).0.current.version)
      ⊎ ((prepare written p s).0.prepared_proposal ≡ some p)
unfolding prepare
acknowledged written p s e = elim (Option-cases s.prepared_proposal) [
  | inl free ↦ ground arith
  | inr (q, held) ↦ ground (arith, same_proposal-eq q p)
]

prepare-Promised :
    (written : Write) (p : CatalogProposal) (s : CatalogStore)
    → (prepare written p s).1 ≡ ok tt
    → Promised p (prepare written p s).0.current (prepare written p s).0.prepared_proposal
prepare-Promised written p s e = elim (acknowledged written p s e) [
  | inl done ↦ passed done
  | inr held ↦ standing p held (ground arith) (ground arith) (λ _. refl)
]

created :
    (exists : Bool) (written : Write) (c : Catalog) (s : CatalogStore)
    → (create exists written c).1 ≡ ok s
    → (s.file ≡ s.current) × (s.prepared_proposal ≡ none)
unfolding create
created exists written c s e = ground arith

created-IsBackedNode :
    (exists : Bool) (written : Write) (c : Catalog) (s : CatalogStore)
    → (create exists written c).1 ≡ ok s
    → IsBackedNode (running s) × FitsNode (running s)
created-IsBackedNode exists written c s e =
    let begin = created exists written c s e in
    (
      record { ahead = ground arith; backed = λ q h. absurd (ground arith) },
      λ q h. absurd (ground arith),
    )

-- A voter whose store was created runs, after any calls, with some store, and there it acknowledges a
-- proposal. Through any calls after that, starts that fail and starts that succeed, and writes and
-- removals that fail before or after the file is changed among them, both what the voter holds and
-- its files keep the promise: either a value of at least the proposal's version is committed, or a
-- value of at least that version is prepared in no earlier term, and in the same term it is the
-- same proposal. Local changes among the calls leave the version to `apply`.
pub prepared_value-IsKept :
    (exists : Bool) (created_ok written : Write) (c : Catalog) (s t : CatalogStore)
    (p : CatalogProposal) (earlier later : List StoreCall)
    → (create exists created_ok c).1 ≡ ok s
    → KeepVersions earlier
    → KeepVersions later
    → run earlier (running s) ≡ running t
    → (prepare written p t).1 ≡ ok tt
    → IsKept p (run later (running (prepare written p t).0))
prepared_value-IsKept exists created_ok written c s t p earlier later e k l runs a =
    let (b, f) = created-IsBackedNode exists created_ok c s e in
    let there = run-IsBackedNode earlier (running s) k b f in
    let (b', f') = subst (λ n. IsBackedNode n × FitsNode n) runs there in
    let (b'', f'') = call-IsBackedNode (prepare_call written p) (running t) tt b' f' in
    run-IsKept later (running (prepare written p t).0) p l b'' f''
      (running-IsKept p (prepare written p t).0 b'' (prepare-Promised written p t a))

-- After a store was created, and through any calls, failed writes, failed starts and restarts among
-- them, one call more does not take the committed version back, and the files of a running voter
-- do not fall behind its memory: they hold its version or a later one, and they keep the promise of
-- what it has prepared. Local changes among the calls leave the version to `apply`.
pub versions_rise :
    (exists : Bool) (created_ok : Write) (c : Catalog) (s : CatalogStore) (earlier : List StoreCall)
    (next : StoreCall)
    → (create exists created_ok c).1 ≡ ok s
    → KeepVersions earlier
    → KeepVersions (next ∷ [])
    → (version_of (run earlier (running s)) ≤ version_of (call next (run earlier (running s))))
      × IsBackedNode (call next (run earlier (running s)))
versions_rise exists created_ok c s earlier next e k l =
    let (b, f) = created-IsBackedNode exists created_ok c s e in
    let there = run-IsBackedNode earlier (running s) k b f in
    (
      call-version next (run earlier (running s)) l.0 there.0 there.1,
      (call-IsBackedNode next (run earlier (running s)) l.0 there.0 there.1).0,
    )
