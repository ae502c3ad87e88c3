-- ===== src/Replication/Log/Serving.antt =====
-- What a follower is served.
use shardlite.Common.{
  ℕ, zero, suc, ◌+◌, ◌-◌, ◌<◌, ◌≤◌, ◌≡◌, ◌⊎◌, refl, ap, ◌∙◌, inl, inr, some, List, [], ◌∷◌, arith,
  ltb, leb, length, Bool-cases, retain, subst, ◌++◌,
}
use Prim.Native.Nat.{min}
use shardlite.Common.OrdMap.{get}
use shardlite.Replication.Log.{
  FrameLog, StreamTxn, ShardLog, Served, frames, up_to_date, too_old, take, highest, batch,
  serve_log, serve,
}

-- The positions run without a gap from `n` on.
abbrev pub Consecutive : ℕ → List StreamTxn → Type 0
Consecutive n [] = Unit
Consecutive n (t ∷ ts) = (t.lsn ≡ n) × Consecutive (n + 1) ts

highest-Consecutive :
    (n : ℕ) (t : StreamTxn) (ts : List StreamTxn)
    → Consecutive n (t ∷ ts)
    → highest (t ∷ ts) + 1 ≡ n + length (t ∷ ts)
highest-Consecutive n t [] c = omega (arith, c.0)
highest-Consecutive n t (u ∷ ts) c = omega (arith, highest-Consecutive (n + 1) u ts c.1)

take-Consecutive : (m n : ℕ) (ts : List StreamTxn) → Consecutive n ts → Consecutive n (take m ts)
take-Consecutive m n [] c = tt
take-Consecutive zero n (t ∷ ts) c = tt
take-Consecutive (suc m) n (t ∷ ts) c = (c.0, take-Consecutive m (n + 1) ts c.1)

length-take : (m : ℕ) (ts : List StreamTxn) → length (take m ts) ≡ min m (length ts)
length-take m [] = omega arith
length-take zero (t ∷ ts) = omega arith
length-take (suc m) (t ∷ ts) = omega (arith, length-take m ts)

abbrev from_on : ℕ → List StreamTxn → List StreamTxn
from_on k ts = retain (λ t. leb k t.lsn) ts

from_on-all : (k n : ℕ) (ts : List StreamTxn) → k ≤ n → Consecutive n ts → from_on k ts ≡ ts
from_on-all k n [] h c = refl
from_on-all k n (t ∷ ts) h c = ground (arith, from_on-all k (n + 1) ts (omega arith) c.1)

from_on-Consecutive :
    (k n : ℕ) (ts : List StreamTxn)
    → n ≤ k
    → k ≤ n + length ts
    → Consecutive n ts
    → Consecutive k (from_on k ts) × (length (from_on k ts) ≡ n + length ts - k)
from_on-Consecutive k n [] h j c = (tt, omega arith)
from_on-Consecutive k n (t ∷ ts) h j c = elim (Bool-cases (leb k t.lsn)) [
  | inl here ↦
      let e : n ≡ k = ground arith in
      rw (here, from_on-all k (n + 1) ts (omega arith) c.1)
        ((omega (arith, c.0), subst (λ i. Consecutive (i + 1) ts) e c.1), omega arith)
  | inr later ↦ rw later (ground (arith, from_on-Consecutive k (n + 1) ts))
]

-- The first positions are left out, and nothing else.
from_on-suffix :
    (k n : ℕ) (ts : List StreamTxn)
    → Consecutive n ts
    → (pre : List StreamTxn) × (ts ≡ pre ++ from_on k ts)
from_on-suffix k n [] c = ([], refl)
from_on-suffix k n (t ∷ ts) c = elim (Bool-cases (leb k t.lsn)) [
  | inl here ↦ ([], rw (here, from_on-all k (n + 1) ts (ground (arith, c.0)) c.1) refl)
  | inr later ↦
      let (pre, e) = from_on-suffix k (n + 1) ts c.1 in (t ∷ pre, rw later (ap (λ x. t ∷ x) e))
]

take-prefix : (m : ℕ) (ts : List StreamTxn) → (post : List StreamTxn) × (ts ≡ take m ts ++ post)
take-prefix m [] = ([], refl)
take-prefix zero (t ∷ ts) = (t ∷ ts, refl)
take-prefix (suc m) (t ∷ ts) = let (post, e) = take-prefix m ts in (post, ap (λ x. t ∷ x) e)

batch-run :
    (from_lsn max_txns n : ℕ) (ts : List StreamTxn)
    → Consecutive n ts
    → (pre post : List StreamTxn) × (ts ≡ pre ++ (batch ts from_lsn max_txns ++ post))
batch-run from_lsn max_txns n ts c =
    let (pre, e) = from_on-suffix from_lsn n ts c in
    let (post, f) = take-prefix max_txns (from_on from_lsn ts) in
    (pre, post, e ∙ ap (λ x. pre ++ x) f)

-- An answer from a log that runs without a gap from `n` on.
abbrev pub IsServed : ℕ → List StreamTxn → ℕ → ℕ → Served → Type 0
IsServed n ts from_lsn max_txns answer =
    ((n + length ts ≤ from_lsn) × (answer ≡ up_to_date))
    ⊎ ((from_lsn < n) × (answer ≡ too_old n))
    ⊎ ((b : List StreamTxn) × (answer ≡ frames b)
        × ((pre post : List StreamTxn) × (ts ≡ pre ++ (b ++ post)))
        × Consecutive from_lsn b
        × (length b ≡ min max_txns (n + length ts - from_lsn)))

serve_log-IsServed :
    (l : FrameLog) (ts : List StreamTxn) (from_lsn max_txns n : ℕ)
    → 0 < length ts
    → Consecutive n ts
    → IsServed n ts from_lsn max_txns (serve_log l ts from_lsn max_txns).1
unfolding serve_log
serve_log-IsServed l [] from_lsn max_txns n pos c = absurd (omega arith)
serve_log-IsServed l (t ∷ ts) from_lsn max_txns n pos c =
    let top = highest-Consecutive n t ts c in
    elim (Bool-cases (ltb (highest (t ∷ ts)) from_lsn)) [
      | inl past ↦ inl (ground arith, ground arith)
      | inr below ↦ elim (Bool-cases (ltb from_lsn t.lsn)) [
        | inl gone ↦ inr (inl (ground arith, ground arith))
        | inr fine ↦
            let (run, many) =
              from_on-Consecutive from_lsn n (t ∷ ts) (ground arith) (ground arith) c in
            inr (
              inr (
                batch (t ∷ ts) from_lsn max_txns,
                ground arith,
                batch-run from_lsn max_txns n (t ∷ ts) c,
                take-Consecutive max_txns from_lsn (from_on from_lsn (t ∷ ts)) run,
                length-take max_txns (from_on from_lsn (t ∷ ts)) ∙ ap (min max_txns) many,
              ))
      ]
    ]

-- From a shard's log without gaps, with `n` its oldest position, a follower gets the truth: that it is
-- level, if it asks for what does not exist yet; that history is gone, with the oldest position left,
-- if it asks for less than that; and otherwise the log's own transactions, a run of them as they
-- stand in the log, from the position it asked for, without a gap, as many as there are up to the
-- limit.
pub serve-IsServed :
    (l : FrameLog) (shard from_lsn max_txns n : ℕ) (s : ShardLog)
    → get l.shards shard ≡ some s
    → 0 < length s.txns
    → Consecutive n s.txns
    → IsServed n s.txns from_lsn max_txns (serve l shard from_lsn max_txns).1
unfolding serve
serve-IsServed l shard from_lsn max_txns n s e pos c =
    rw (e, serve) (serve_log-IsServed l s.txns from_lsn max_txns n pos c)
