-- ===== src/Replication/Log.antt =====
-- src/replication/log.rs, with the transactions of src/replication/stream.rs and src/vfs/wal.rs. The
-- deque of a shard is a list from the oldest; the data of a frame is `page`; sizes and counters are 64-bit numbers.
pub mod Retention
pub mod Serving
use shardlite.Common.{
  ℕ, zero, suc, ◌+◌, ◌-◌, ◌*◌, ◌/◌, ◌%◌, ◌^◌, ◌<◌, ◌≤◌, ◌≡◌, ◌≢◌, ◌⊎◌, ◌&&◌, ◌||◌, ◌==◌, ◌++◌, refl,
  sym, ap, ◌∙◌, inl, inr, Bool, true, false, not, Option, none, some, List, [], ◌∷◌, map, arith,
  ltb, leb, if◌then◌else◌, length, All, Bool-cases, Option-cases, max, or_else, retain,
}
use shardlite.Common.Decimal.{u64}
use shardlite.Common.OrdMap.{OrdMap, get, insert}

pub record Frame : Type 0 where
  pub page_no : ℕ
  pub page : List ℕ

pub record CommittedTxn : Type 0 where
  pub db_size_pages : ℕ
  pub page_size : ℕ
  pub frames : List Frame
  pub generation : ℕ

pub record StreamTxn : Type 0 where
  pub lsn : ℕ
  pub txn : CommittedTxn

pub record FrameLogConfig : Type 0 where
  pub total_bytes : ℕ
  pub shard_count : ℕ

unfoldable pub floor : ℕ → FrameLogConfig
floor shard_count = record { total_bytes = 16 * 1024 * 1024; shard_count = max shard_count 1 }

unfoldable pub per_shard : FrameLogConfig → ℕ
per_shard cfg = max (cfg.total_bytes / max cfg.shard_count 1) (64 * 1024)

pub record ShardLog : Type 0 where
  pub txns : List StreamTxn
  pub bytes : ℕ

pub record FrameLog : Type 0 where
  pub per_shard_bytes : ℕ
  pub shards : OrdMap ShardLog
  pub retained : ℕ
  pub evicted : ℕ
  pub served : ℕ
  pub missed : ℕ

pub data Served : Type 0 where
  frames : List StreamTxn → Served
  up_to_date : Served
  too_old : ℕ → Served

unfoldable pub new : FrameLogConfig → FrameLog
unfolding per_shard
new cfg = record {
  per_shard_bytes = per_shard cfg;
  shards = [];
  retained = 0;
  evicted = 0;
  served = 0;
  missed = 0;
}

abbrev pub plus : ℕ → ℕ → ℕ
plus n m = (n + m) % u64

-- `frames.iter().map(|f| f.data.len()).sum()`.
abbrev pub frame_bytes : List Frame → ℕ
frame_bytes [] = 0
frame_bytes (f ∷ fs) = length f.page + frame_bytes fs

abbrev pub size : StreamTxn → ℕ
size t = frame_bytes t.txn.frames

abbrev pub empty_log : ShardLog
empty_log = record { txns = []; bytes = 0 }

abbrev pub front : List StreamTxn → Option StreamTxn
front [] = none
front (t ∷ ts) = some t

abbrev pub back : List StreamTxn → Option StreamTxn
back [] = none
back (t ∷ []) = some t
back (t ∷ u ∷ ts) = back (u ∷ ts)

abbrev lsn_of : Option StreamTxn → Option ℕ
lsn_of none = none
lsn_of (some t) = some t.lsn

unfoldable pub lowest_retained : FrameLog → ℕ → Option ℕ
lowest_retained l shard = elim (get l.shards shard) [ none ↦ none | some s ↦ lsn_of (front s.txns) ]

unfoldable pub highest_retained : FrameLog → ℕ → Option ℕ
highest_retained l shard = elim (get l.shards shard) [ none ↦ none | some s ↦ lsn_of (back s.txns) ]

abbrev pub take : ℕ → List StreamTxn → List StreamTxn
take n [] = []
take zero (t ∷ ts) = []
take (suc n) (t ∷ ts) = t ∷ take n ts

abbrev pub highest : List StreamTxn → ℕ
highest ts = or_else 0 (lsn_of (back ts))

abbrev pub batch : List StreamTxn → ℕ → ℕ → List StreamTxn
batch ts from_lsn max_txns = take max_txns (retain (λ t. leb from_lsn t.lsn) ts)

abbrev pub missing : FrameLog → ℕ → FrameLog × Served
missing l lowest = (record l { missed = plus l.missed 1 }, too_old lowest)

-- The answer from one shard's log.
unfoldable pub serve_log : FrameLog → List StreamTxn → ℕ → ℕ → FrameLog × Served
serve_log l [] from_lsn max_txns = (l, up_to_date)
serve_log l (t ∷ ts) from_lsn max_txns =
    if ltb (highest (t ∷ ts)) from_lsn
    then (l, up_to_date)
    else if ltb from_lsn t.lsn
    then missing l t.lsn
    else (
      record l { served = plus l.served (length (batch (t ∷ ts) from_lsn max_txns)) },
      frames (batch (t ∷ ts) from_lsn max_txns),
    )

unfoldable pub serve : FrameLog → ℕ → ℕ → ℕ → FrameLog × Served
unfolding serve_log
serve l shard from_lsn max_txns = elim (get l.shards shard) [
  | none ↦ if leb from_lsn 1 then (l, up_to_date) else missing l 0
  | some s ↦ serve_log l s.txns from_lsn max_txns
]

unfoldable pub push_all : ShardLog → List StreamTxn → ShardLog
push_all s [] = s
push_all s (t ∷ ts) =
    push_all (record { txns = s.txns ++ (t ∷ []); bytes = plus s.bytes (size t) }) ts

-- `while bytes > budget && len > 1`: drop the oldest. The second component counts what was dropped.
unfoldable pub evict : ℕ → List StreamTxn → ℕ → ℕ → ShardLog × ℕ
evict budget [] bytes evicted = (record { txns = []; bytes = bytes }, evicted)
evict budget (t ∷ []) bytes evicted = (record { txns = t ∷ []; bytes = bytes }, evicted)
evict budget (t ∷ u ∷ ts) bytes evicted =
    let rest = evict budget (u ∷ ts) (bytes - size t) (plus evicted 1) in
    if ltb budget bytes then rest else (record { txns = t ∷ u ∷ ts; bytes = bytes }, evicted)

-- What `accept` does with one shard's log.
unfoldable pub accept_log : ℕ → ShardLog → List StreamTxn → ShardLog × ℕ
unfolding push_all evict
accept_log budget s txns = let s' = push_all s txns in evict budget s'.txns s'.bytes 0

unfoldable pub accept : FrameLog → ℕ → List StreamTxn → FrameLog
unfolding accept_log
accept l shard txns =
    let (s, n) = accept_log l.per_shard_bytes (or_else empty_log (get l.shards shard)) txns in
    record l {
      shards = insert l.shards shard s;
      retained = plus l.retained (length txns);
      evicted = plus l.evicted n;
    }
