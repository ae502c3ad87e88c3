-- ===== src/Replication/Ack/Quorum.antt =====
-- How many members hold a position, and the highest position that a majority holds.
use shardlite.Common.Decimal.{u64}
use shardlite.Common.{
  ℕ, zero, suc, ◌-◌, ◌<◌, ◌≤◌, ◌≡◌, refl, ◌∙◌, List, [], ◌∷◌, arith, leb, if◌then◌else◌, or_else,
  get_elem?, ◌↔◌,
}
use shardlite.Replication.Ack.{
  AckTracker, Position, quorum, raise, record_position, holding, holders, held, insert_down,
  sort_down, quorum_lsn, Report, report_all,
}

-- How many numbers are at least `n`.
unfoldable at_least : ℕ → List ℕ → ℕ
at_least n [] = 0
at_least n (k ∷ ks) = if leb n k then suc (at_least n ks) else at_least n ks

at_least-insert_down : (n k : ℕ) (ks : List ℕ) → at_least n (insert_down k ks) ≡ at_least n (k ∷ ks)
unfolding at_least insert_down
at_least-insert_down n k [] = refl
at_least-insert_down n k (j ∷ ks) = ground (arith, at_least-insert_down n k ks)

at_least-sort_down : (n : ℕ) (ks : List ℕ) → at_least n (sort_down ks) ≡ at_least n ks
unfolding at_least sort_down
at_least-sort_down n [] = refl
at_least-sort_down n (k ∷ ks) =
    ground (arith, at_least-insert_down n k (sort_down ks), at_least-sort_down n ks)

at_least-held :
    (n : ℕ) (ps : List Position) (shard : ℕ) → at_least n (held ps shard) ≡ holding ps shard n
unfolding at_least held holding
at_least-held n [] shard = refl
at_least-held n (p ∷ ps) shard = ground (arith, at_least-held n ps shard)

abbrev IsBelow : ℕ → List ℕ → Type 0
IsBelow b [] = Unit
IsBelow b (k ∷ ks) = (k ≤ b) × IsBelow k ks

abbrev Falls : List ℕ → Type 0
Falls [] = Unit
Falls (k ∷ ks) = IsBelow k ks

insert_down-IsBelow : (b n : ℕ) (ks : List ℕ) → n ≤ b → IsBelow b ks → IsBelow b (insert_down n ks)
unfolding insert_down
insert_down-IsBelow b n [] h below = (h, tt)
insert_down-IsBelow b n (k ∷ ks) h below = ground (arith, insert_down-IsBelow k n ks)

insert_down-Falls : (n : ℕ) (ks : List ℕ) → Falls ks → Falls (insert_down n ks)
unfolding insert_down
insert_down-Falls n [] f = tt
insert_down-Falls n (k ∷ ks) f = ground (arith, insert_down-IsBelow k n ks)

sort_down-Falls : (ks : List ℕ) → Falls (sort_down ks)
unfolding sort_down
sort_down-Falls [] = tt
sort_down-Falls (k ∷ ks) = insert_down-Falls k (sort_down ks) (sort_down-Falls ks)

below-at_least : (n b : ℕ) (ks : List ℕ) → IsBelow b ks → b < n → at_least n ks ≡ 0
unfolding at_least
below-at_least n b [] f h = refl
below-at_least n b (k ∷ ks) f h = ground (arith, below-at_least n k ks)

Falls-tail : (k : ℕ) (ks : List ℕ) → IsBelow k ks → Falls ks
Falls-tail k [] f = tt
Falls-tail k (j ∷ ks) f = f.1

-- In a falling list the numbers from `n` on stand first.
nth-at_least :
    (n i : ℕ) (ks : List ℕ)
    → 0 < n
    → Falls ks
    → (n ≤ or_else 0 (get_elem? ks i)) ↔ (i < at_least n ks)
unfolding at_least
nth-at_least n i [] pos f = (λ h. ground arith, λ h. ground arith)
nth-at_least n zero (k ∷ ks) pos f =
    (λ h. ground arith, λ h. ground (arith, below-at_least n k ks f))
nth-at_least n (suc i) (k ∷ ks) pos f =
    let (there, back) = nth-at_least n i ks pos (Falls-tail k ks f) in
    (
      λ h. ground (arith, there, below-at_least n k ks f),
      λ h. ground (arith, back, below-at_least n k ks f),
    )

-- `quorum_lsn` is exactly the highest position that a wait would find a quorum for: a position from 1
-- to the greatest u64 is at most `quorum_lsn` just when a majority holds it.
pub quorum_lsn_lem :
    (t : AckTracker) (shard lsn : ℕ)
    → 0 < lsn
    → lsn < u64
    → (lsn ≤ quorum_lsn t shard) ↔ (quorum t ≤ holders t.positions shard lsn)
unfolding quorum_lsn holders
quorum_lsn_lem t shard lsn pos fits =
    let ks = sort_down (held t.positions shard) in
    let (there, back) =
      nth-at_least lsn (quorum t - 1 - 1) ks pos (sort_down-Falls (held t.positions shard)) in
    let same =
      at_least-sort_down lsn (held t.positions shard) ∙ at_least-held lsn t.positions shard in
    (λ h. ground (arith, there, same), λ h. ground (arith, back, same))

holding-raise :
    (ps : List Position) (node shard lsn s n : ℕ)
    → holding ps s n ≤ holding (raise ps node shard lsn) s n
unfolding holding raise
holding-raise [] node shard lsn s n = ground arith
holding-raise (p ∷ ps) node shard lsn s n = ground (arith, holding-raise ps node shard lsn s n)

-- Reports never take a confirmation away: whatever reports arrive, in whatever order, at least as many
-- members hold each position of each shard as before.
pub holders-report_all :
    (t : AckTracker) (rs : List Report) (shard lsn : ℕ)
    → holders t.positions shard lsn ≤ holders (report_all t rs).positions shard lsn
unfolding holders report_all record_position
holders-report_all t [] shard lsn = omega arith
holders-report_all t (r ∷ rs) shard lsn = omega (
  arith,
  holding-raise t.positions r.node r.shard r.lsn shard lsn,
  holders-report_all (record_position t r.node r.shard r.lsn) rs shard lsn,
)
