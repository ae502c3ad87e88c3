-- ===== src/Replication/Ack.antt =====
-- src/replication/ack.rs. The map of positions is a list with one entry for each shard and node; no
-- function of the file depends on its order. Durations are nanoseconds, the counters u64.
pub mod Quorum
pub mod Waits
use shardlite.Common.Decimal.{u64}
use shardlite.Common.{
  ℕ, zero, suc, ◌+◌, ◌-◌, ◌*◌, ◌/◌, ◌%◌, ◌^◌, ◌<◌, ◌≤◌, ◌≡◌, ◌≢◌, ◌⊎◌, ◌&&◌, ◌||◌, ◌==◌, ◌++◌, refl,
  sym, ap, ◌∙◌, inl, inr, Bool, true, false, not, Option, none, some, List, [], ◌∷◌, map, arith,
  ltb, leb, if◌then◌else◌, length, All, Bool-cases, Option-cases, max, or_else, get_elem?,
}

pub record AckStats : Type 0 where
  pub confirmed : ℕ
  pub timed_out : ℕ
  pub waited_us : ℕ

pub record Position : Type 0 where
  pub shard : ℕ
  pub node : ℕ
  pub lsn : ℕ

pub record AckTracker : Type 0 where
  pub voters : ℕ
  pub positions : List Position
  pub how_long : ℕ
  pub confirmed : ℕ
  pub timed_out : ℕ
  pub waited_us : ℕ

-- `NotReplicated`: the shard, the position, how many members hold it and how many have to.
pub data Answer : Type 0 where
  replicated : Answer
  not_replicated : ℕ → ℕ → ℕ → ℕ → Answer

unfoldable pub new : ℕ → ℕ → AckTracker
new voters how_long = record {
  voters = max voters 1;
  positions = [];
  how_long = how_long;
  confirmed = 0;
  timed_out = 0;
  waited_us = 0;
}

unfoldable pub stats : AckTracker → AckStats
stats t = record { confirmed = t.confirmed; timed_out = t.timed_out; waited_us = t.waited_us }

abbrev pub quorum : AckTracker → ℕ
quorum t = t.voters / 2 + 1

-- `entry(..).or_insert(0)`, raised if the report is higher.
unfoldable pub raise : List Position → ℕ → ℕ → ℕ → List Position
raise [] node shard lsn = record { shard = shard; node = node; lsn = lsn } ∷ []
raise (p ∷ ps) node shard lsn =
    if p.shard == shard && p.node == node
    then (if ltb p.lsn lsn then record p { lsn = lsn } ∷ ps else p ∷ ps)
    else p ∷ raise ps node shard lsn

unfoldable pub record_position : AckTracker → ℕ → ℕ → ℕ → AckTracker
unfolding raise
record_position t node shard lsn = record t { positions = raise t.positions node shard lsn }

unfoldable pub holding : List Position → ℕ → ℕ → ℕ
holding [] shard lsn = 0
holding (p ∷ ps) shard lsn =
    if p.shard == shard && leb lsn p.lsn then suc (holding ps shard lsn) else holding ps shard lsn

unfoldable pub holders : List Position → ℕ → ℕ → ℕ
unfolding holding
holders ps shard lsn = holding ps shard lsn + 1

abbrev pub counted : ℕ → ℕ → ℕ
counted n more = (n + more) % u64

-- One round of the loop, `elapsed` after the wait began: `none` is a wait on the condition variable.
unfoldable pub poll : AckTracker → ℕ → ℕ → ℕ → AckTracker × Option Answer
unfolding holders
poll t shard lsn elapsed =
    let have = holders t.positions shard lsn in
    let waited = counted t.waited_us (elapsed / 1000 % u64) in
    if leb (quorum t) have
    then (record t { confirmed = counted t.confirmed 1; waited_us = waited }, some replicated)
    else if ltb elapsed t.how_long
    then (t, none)
    else (
      record t { timed_out = counted t.timed_out 1; waited_us = waited },
      some (not_replicated shard lsn have (quorum t)),
    )

-- A report that arrives while a writer waits.
pub record Report : Type 0 where
  pub node : ℕ
  pub shard : ℕ
  pub lsn : ℕ

unfoldable pub report_all : AckTracker → List Report → AckTracker
unfolding record_position
report_all t [] = t
report_all t (r ∷ rs) = report_all (record_position t r.node r.shard r.lsn) rs

-- What happens before the writer wakes up again: the reports that arrive, and the time of the wake.
pub record Wake : Type 0 where
  pub reports : List Report
  pub elapsed : ℕ

abbrev pub unless_answered :
    AckTracker × Option Answer → AckTracker × Option Answer → AckTracker × Option Answer
unless_answered (t, some a) rest = (t, some a)
unless_answered (t, none) rest = rest

-- The loop over the wakes, the first round at `elapsed`: `none` while the writer still waits.
unfoldable pub wait_for_quorum : AckTracker → ℕ → ℕ → ℕ → List Wake → AckTracker × Option Answer
unfolding poll report_all
wait_for_quorum t shard lsn elapsed [] = poll t shard lsn elapsed
wait_for_quorum t shard lsn elapsed (w ∷ ws) =
    let rest = wait_for_quorum (report_all t w.reports) shard lsn w.elapsed ws in
    unless_answered (poll t shard lsn elapsed) rest

-- `filter` and `map`.
unfoldable pub held : List Position → ℕ → List ℕ
held [] shard = []
held (p ∷ ps) shard = if p.shard == shard then p.lsn ∷ held ps shard else held ps shard

unfoldable pub insert_down : ℕ → List ℕ → List ℕ
insert_down n [] = n ∷ []
insert_down n (k ∷ ks) = if leb k n then n ∷ k ∷ ks else k ∷ insert_down n ks

-- `sort_unstable_by(|a, b| b.cmp(a))`: equal numbers cannot be told apart.
unfoldable pub sort_down : List ℕ → List ℕ
unfolding insert_down
sort_down [] = []
sort_down (n ∷ ns) = insert_down n (sort_down ns)

unfoldable pub quorum_lsn : AckTracker → ℕ → ℕ
unfolding held sort_down
quorum_lsn t shard =
    if quorum t - 1 == 0
    then u64 - 1
    else or_else 0 (get_elem? (sort_down (held t.positions shard)) (quorum t - 1 - 1))
