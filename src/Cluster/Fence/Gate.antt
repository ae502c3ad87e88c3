-- ===== src/Cluster/Fence/Gate.antt =====
-- The write gate: which shards are open after each operation, and which writes pass it.
use shardlite.Common.{ℕ, ◌≡◌, ◌==◌, refl, none, some, List, [], ◌∷◌, arith, ltb, if◌then◌else◌}
use shardlite.Common.OrdMap.{OrdMap, get, insert, get-insert, get-remove, get-empty}
use shardlite.Common.OrdSet.{contains}
use shardlite.Cluster.Fence.{
  Fence, ok, err, not_leader, insert_all, open_for, close_shard, is_open, open_term,
  check_may_write, count,
}

get-insert_all :
    (m : OrdMap ℕ) (shards : List ℕ) (term s : ℕ)
    → get (insert_all m shards term) s ≡ (if contains shards s then some term else get m s)
unfolding insert_all contains
get-insert_all m [] term s = refl
get-insert_all m (k ∷ shards) term s =
    ground (arith, get-insert_all (insert m k term) shards term s, get-insert m k s term)

-- Opening for a term that is not stale replaces the whole assignment: exactly the listed shards are
-- open, in that term. A stale term opens and closes nothing, and is counted.
pub open_term-open_for :
    (f : Fence) (shards : List ℕ) (term s : ℕ)
    → (open_term (open_for f shards term) s ≡ (
        if ltb term f.highest
        then open_term f s
        else if contains shards s
        then some term
        else none))
      × ((open_for f shards term).stale_opens
          ≡ (if ltb term f.highest then count f.stale_opens else f.stale_opens))
unfolding open_term open_for
open_term-open_for f shards term s =
    (ground (arith, get-insert_all [] shards term s, get-empty {V = ℕ} s), ground arith)

-- Closing one shard leaves every other gate as it was, and reports whether that one was open.
pub open_term-close_shard :
    (f : Fence) (shard s : ℕ)
    → (open_term (close_shard f shard).0 s ≡ (if shard == s then none else open_term f s))
      × ((close_shard f shard).1 ≡ is_open f shard)
unfolding open_term close_shard is_open
open_term-close_shard f shard s = (get-remove f.led shard s, refl)

-- A write passes exactly when its shard's gate is open, with a token of this node and of the term
-- that the gate was opened in; a refused write is counted. The gates do not change.
pub check_may_write_lem :
    (f : Fence) (shard : ℕ)
    → ((check_may_write f shard).1 ≡ (elim (open_term f shard) [
      | some term ↦ ok (record { term = term; node = f.node })
      | none ↦ err (not_leader f.highest)
    ]))
      × ((check_may_write f shard).0.gated ≡ (if is_open f shard then f.gated else count f.gated))
      × ((check_may_write f shard).0.led ≡ f.led)
unfolding check_may_write is_open
check_may_write_lem f shard = (ground arith, ground arith, ground arith)
