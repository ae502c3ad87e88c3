-- ===== src/Cluster/Fence/Tokens.antt =====
-- Histories of a fence: any order of messages, placements, step-downs and writes.
use shardlite.Common.{ℕ, ◌<◌, ◌≤◌, ◌≡◌, some, List, [], ◌∷◌, arith, ◌↔◌}
use shardlite.Common.OrdMap.{get}
use shardlite.Cluster.Fence.{
  Fence, FenceToken, ok, err, fenced, validate, open_for, step_down, close, close_shard,
  check_may_write, open_term,
}
use shardlite.Cluster.Fence.Gate.{open_term-open_for, open_term-close_shard}

pub data Op : Type 0 where
  validates : FenceToken → Op
  opens : List ℕ → ℕ → Op
  steps_down : ℕ → Op
  closes : Op
  closes_shard : ℕ → Op
  checks : ℕ → Op

unfoldable pub apply : Fence → Op → Fence
apply f (validates token) = (validate f token).0
apply f (opens shards term) = open_for f shards term
apply f (steps_down term) = step_down f term
apply f closes = close f
apply f (closes_shard shard) = (close_shard f shard).0
apply f (checks shard) = (check_may_write f shard).0

unfoldable pub run : Fence → List Op → Fence
unfolding apply
run f [] = f
run f (o ∷ os) = run (apply f o) os

apply-highest : (f : Fence) (o : Op) → f.highest ≤ (apply f o).highest
unfolding apply validate open_for step_down close close_shard check_may_write
apply-highest f (validates token) = ground arith
apply-highest f (opens shards term) = ground arith
apply-highest f (steps_down term) = ground arith
apply-highest f _ = ground arith

-- The highest term seen never falls.
pub run-highest : (f : Fence) (os : List Op) → f.highest ≤ (run f os).highest
unfolding run
run-highest f [] = omega arith
run-highest f (o ∷ os) = omega (arith, apply-highest f o, run-highest (apply f o) os)

-- Every gate that is open was opened in term `t` or later.
abbrev pub OpenSince : ℕ → Fence → Type 0
OpenSince t f = (shard u : ℕ) → open_term f shard ≡ some u → t ≤ u

apply-OpenSince :
    (t : ℕ) (f : Fence) (o : Op) → t ≤ f.highest → OpenSince t f → OpenSince t (apply f o)
unfolding apply
apply-OpenSince t f (validates token) h since shard u e =
    since shard u (unfold validate open_term in ground arith)
apply-OpenSince t f (opens shards term) h since shard u e =
    ground (arith, open_term-open_for f shards term shard, since shard u)
apply-OpenSince t f (steps_down term) h since shard u e = unfold step_down open_term get in cc
apply-OpenSince t f closes h since shard u e = unfold close open_term get in cc
apply-OpenSince t f (closes_shard k) h since shard u e =
    ground (arith, open_term-close_shard f k shard, since shard u)
apply-OpenSince t f (checks k) h since shard u e =
    since shard u (unfold check_may_write open_term in ground arith)

run-OpenSince :
    (t : ℕ) (f : Fence) (os : List Op) → t ≤ f.highest → OpenSince t f → OpenSince t (run f os)
unfolding run
run-OpenSince t f [] h since = since
run-OpenSince t f (o ∷ os) h since =
    run-OpenSince t (apply f o) os (omega (arith, apply-highest f o))
      (apply-OpenSince t f o h since)

-- After a step-down to a term, whatever messages, placements and writes follow in whatever order,
-- no gate is open that was granted in an older term: a placement left over from the deposed
-- leadership cannot reopen what the step-down closed.
pub step_down_fences :
    (f : Fence) (t : ℕ) (os : List Op) (shard u : ℕ)
    → open_term (run (step_down f t) os) shard ≡ some u
    → t ≤ u
step_down_fences f t os = run-OpenSince t (step_down f t) os raised closed
  where
    raised : t ≤ (step_down f t).highest
    raised = unfold step_down in omega arith

    closed : OpenSince t (step_down f t)
    closed shard u e = unfold step_down open_term get in cc

validate-stale :
    (f : Fence) (token : FenceToken)
    → token.term < f.highest
    → (validate f token).1 ≡ err (fenced token f.highest)
unfolding validate
validate-stale f token h = ground arith

validate-raises : (f : Fence) (token : FenceToken) → token.term ≤ (validate f token).0.highest
unfolding validate
validate-raises f token = ground arith

-- Once a message of some term has been seen, every message of an older term is refused for good,
-- whatever happens in between.
pub validate_fences :
    (f : Fence) (seen old : FenceToken) (os : List Op)
    → old.term < seen.term
    → (validate (run (validate f seen).0 os) old).1
      ≡ err (fenced old (run (validate f seen).0 os).highest)
validate_fences f seen old os lt =
    validate-stale (run (validate f seen).0 os) old
      (omega (arith, validate-raises f seen, run-highest (validate f seen).0 os))

-- A message is accepted exactly when its term is at least the highest seen.
pub validate_lem :
    (f : Fence) (token : FenceToken) → ((validate f token).1 ≡ ok tt) ↔ (f.highest ≤ token.term)
unfolding validate
validate_lem f token = (λ h. ground arith, λ h. ground arith)
