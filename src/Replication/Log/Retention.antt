-- ===== src/Replication/Log/Retention.antt =====
-- What a shard's log retains.
use shardlite.Common.{
  ℕ, ◌+◌, ◌-◌, ◌<◌, ◌≤◌, ◌≡◌, ◌≢◌, ◌⊎◌, ◌++◌, refl, sym, ap, ◌∙◌, inl, inr, List, [], ◌∷◌, arith,
  ltb, length, Bool-cases,
}
use shardlite.Common.Decimal.{u64}
use shardlite.Replication.Log.{StreamTxn, ShardLog, size, plus, push_all, evict, accept_log}

abbrev pub total : List StreamTxn → ℕ
total [] = 0
total (t ∷ ts) = size t + total ts

total-append : (ts us : List StreamTxn) → total (ts ++ us) ≡ total ts + total us
total-append [] us = omega arith
total-append (t ∷ ts) us = omega (arith, total-append ts us)

append_assoc : (ts us vs : List StreamTxn) → (ts ++ us) ++ vs ≡ ts ++ (us ++ vs)
append_assoc [] us vs = refl
append_assoc (t ∷ ts) us vs = ap (λ r. t ∷ r) (append_assoc ts us vs)

append_nil : (ts : List StreamTxn) → ts ++ [] ≡ ts
append_nil [] = refl
append_nil (t ∷ ts) = ap (λ r. t ∷ r) (append_nil ts)

push_all-txns : (s : ShardLog) (ts : List StreamTxn) → (push_all s ts).txns ≡ s.txns ++ ts
unfolding push_all
push_all-txns s [] = sym (append_nil s.txns)
push_all-txns s (t ∷ ts) =
    push_all-txns (record { txns = s.txns ++ (t ∷ []); bytes = plus s.bytes (size t) }) ts
    ∙ append_assoc s.txns (t ∷ []) ts

push_all-bytes :
    (s : ShardLog) (ts : List StreamTxn)
    → s.bytes + total ts < u64
    → (push_all s ts).bytes ≡ s.bytes + total ts
unfolding push_all
push_all-bytes s [] h = omega arith
push_all-bytes s (t ∷ ts) h =
    let m : plus s.bytes (size t) ≡ s.bytes + size t = omega arith in
    push_all-bytes (record { txns = s.txns ++ (t ∷ []); bytes = plus s.bytes (size t) }) ts
      (omega arith)
    ∙ omega arith

-- What eviction leaves of `all`: the newest part of it, with its size, within the budget or down to
-- one transaction; nothing goes while `all` is within the budget, and never the newest.
abbrev pub IsRetained : ℕ → List StreamTxn → ShardLog → Type 0
IsRetained budget all s =
    (s.bytes ≡ total s.txns)
    × ((s.bytes ≤ budget) ⊎ (length s.txns ≤ 1))
    × ((dropped : List StreamTxn) × (all ≡ dropped ++ s.txns)
        × ((total all ≤ budget) → dropped ≡ [])
        × ((all ≢ []) → s.txns ≢ []))

evict-IsRetained :
    (budget : ℕ) (ts : List StreamTxn) (n : ℕ)
    → IsRetained budget ts (evict budget ts (total ts) n).0
unfolding evict
evict-IsRetained budget [] n = (refl, inr (omega arith), ([], refl, λ h. refl, λ h. h))
evict-IsRetained budget (t ∷ []) n = (omega arith, inr (omega arith), ([], refl, λ h. refl, λ h. h))
evict-IsRetained budget (t ∷ u ∷ ts) n = elim (Bool-cases (ltb budget (total (t ∷ u ∷ ts)))) [
  | inr fits ↦ rw (fits, evict) (refl, inl (ground arith), ([], refl, λ h. refl, λ h. h))
  | inl over ↦
      let same : total (t ∷ u ∷ ts) - size t ≡ total (u ∷ ts) = omega arith in
      let (b, w, (dropped, e, k, l)) = evict-IsRetained budget (u ∷ ts) (plus n 1) in
      rw (over, evict)
        (rw same
          (b, w, (t ∷ dropped, ap (λ r. t ∷ r) e, λ h. absurd (ground arith), λ h. l (λ f. cc))))
]

-- Accepting transactions keeps a shard's log exact: it holds the newest part of all that it had and
-- was given, in order, and its size; more than the budget only if that is one transaction; nothing is
-- dropped while all fits. The sizes together are below 2^64.
pub accept_log-IsRetained :
    (budget : ℕ) (s : ShardLog) (ts : List StreamTxn)
    → s.bytes ≡ total s.txns
    → total s.txns + total ts < u64
    → IsRetained budget (s.txns ++ ts) (accept_log budget s ts).0
unfolding accept_log
accept_log-IsRetained budget s ts b h =
    let e : (push_all s ts).bytes ≡ total (s.txns ++ ts) =
      push_all-bytes s ts (omega arith) ∙ omega (arith, total-append s.txns ts) in
    rw (push_all-txns s ts, e) (evict-IsRetained budget (s.txns ++ ts) 0)
