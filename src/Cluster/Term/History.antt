-- ===== src/Cluster/Term/History.antt =====
-- Whole histories of one node: writes that succeed or fail, votes, and restarts.
use shardlite.Common.{
  ℕ, ◌<◌, ◌≤◌, ◌≡◌, sym, ◌∙◌, inl, inr, Bool, true, some, List, [], ◌∷◌, arith, All,
}
use shardlite.Common.Decimal.{u64}
use shardlite.Cluster.Term.{TermStore, Result, ok, err, open_store, advance_to, grant_vote}
use shardlite.Cluster.Term.Format.{read-body}
use shardlite.Cluster.Term.Votes.{
  IsDurable, Extends, Extends-refl, Extends-trans, advance_to-Extends, grant_vote-Extends,
  grant_vote-granted, advance_to-IsDurable, grant_vote-IsDurable,
}

pub data Op : Type 0 where
  advances : Bool → ℕ → Op
  votes : Bool → ℕ → ℕ → Op
  restarts : Op

abbrev pub or_old : TermStore → Result TermStore → TermStore
or_old s (ok t) = t
or_old s (err e) = s

-- A restart opens the store from its file.
unfoldable pub apply : TermStore → Op → TermStore
apply s (advances disk term) = (advance_to disk s term).0
apply s (votes disk term candidate) = (grant_vote disk s term candidate).0
apply s restarts = or_old s (open_store s.file)

unfoldable pub run : TermStore → List Op → TermStore
unfolding apply
run s [] = s
run s (o ∷ os) = run (apply s o) os

abbrev pub OpInRange : Op → Type 0
OpInRange (advances disk term) = term < u64
OpInRange (votes disk term candidate) = (term < u64) × (candidate < u64)
OpInRange restarts = Unit

-- A restart recovers exactly the term and the vote that the node had, if its state is what its
-- file says (or both are still empty) and u64.
pub open_store-file : (s : TermStore) → IsDurable s → open_store s.file ≡ ok s
unfolding open_store
open_store-file s (inl e, r) = rw (e, open_store) (rw (read-body s.state r) (ground arith))
open_store-file s (inr (e, u), r) = rw (e, open_store) (ground arith)

apply-keeps :
    (s : TermStore) (o : Op)
    → OpInRange o
    → IsDurable s
    → IsDurable (apply s o) × Extends s.state (apply s o).state
unfolding apply
apply-keeps s (advances disk term) h d =
    (advance_to-IsDurable disk s term h d, advance_to-Extends disk s term)
apply-keeps s (votes disk term candidate) h d =
    (grant_vote-IsDurable disk s term candidate h.0 h.1 d, grant_vote-Extends disk s term candidate)
apply-keeps s restarts h d = rw (open_store-file s d) (d, Extends-refl s.state)

run-keeps :
    (s : TermStore) (os : List Op)
    → All OpInRange os
    → IsDurable s
    → IsDurable (run s os) × Extends s.state (run s os).state
unfolding run
run-keeps s [] h d = (d, Extends-refl s.state)
run-keeps s (o ∷ os) h d =
    let now = apply-keeps s o h.0 d in
    let later = run-keeps (apply s o) os h.1 now.0 in
    (later.0, Extends-trans s.state (apply s o).state (run (apply s o) os).state now.1 later.1)

-- A node that granted a vote in a term grants none to another candidate in that term, whatever
-- happens in between: failed writes, other requests, terms, restarts from the file. At the start
-- its state is what its file says, and all terms and candidates are u64.
pub votes_once :
    (s : TermStore) (os : List Op) (disk disk' : Bool) (term c c' : ℕ)
    → IsDurable s
    → term < u64
    → c < u64
    → All OpInRange os
    → (grant_vote disk s term c).1 ≡ ok true
    → (grant_vote disk' (run (grant_vote disk s term c).0 os) term c').1 ≡ ok true
    → c ≡ c'
votes_once s os disk disk' term c c' d h k r first second =
    let s1 = (grant_vote disk s term c).0 in
    let at1 = grant_vote-granted disk s term c first in
    let s2 = run s1 os in
    let kept = run-keeps s1 os r (grant_vote-IsDurable disk s term c h k d) in
    let at2 = grant_vote-granted disk' s2 term c' second in
    let s3 = (grant_vote disk' s2 term c').0 in
    let ext =
      Extends-trans s1.state s2.state s3.state kept.1 (grant_vote-Extends disk' s2 term c') in
    let same : some c ≡ some c' = sym (ext.1 c (at1.0 ∙ sym at2.0) at1.1) ∙ at2.1 in cc

-- The term of a node never falls over any history of u64 terms and candidates, restarts included,
-- if its state at the start is what its file says.
pub run-term-le :
    (s : TermStore) (os : List Op)
    → All OpInRange os
    → IsDurable s
    → s.state.term ≤ (run s os).state.term
run-term-le s os h d = (run-keeps s os h d).1.0
