-- ===== src/Replication/Ack/Waits.antt =====
-- A writer that waits for a quorum: what its answer means, and that it gets one.
use shardlite.Common.{ℕ, ◌<◌, ◌≤◌, ◌≡◌, ◌≢◌, ◌++◌, refl, Option, none, some, List, [], ◌∷◌, arith}
use shardlite.Replication.Ack.{
  AckTracker, Answer, replicated, not_replicated, quorum, holders, poll, Wake, report_all,
  unless_answered, wait_for_quorum, record_position, Report,
}

-- What an answer has to mean in the state it is given in.
abbrev pub IsHonest : AckTracker → ℕ → ℕ → Option Answer → Type 0
IsHonest t shard lsn none = Unit
IsHonest t shard lsn (some replicated) = quorum t ≤ holders t.positions shard lsn
IsHonest t shard lsn (some (not_replicated s l have needed)) =
    (s ≡ shard)
    × (l ≡ lsn)
    × (have ≡ holders t.positions shard lsn)
    × (needed ≡ quorum t)
    × (have < needed)

poll-IsHonest :
    (t : AckTracker) (shard lsn elapsed : ℕ)
    → let p = poll t shard lsn elapsed in IsHonest p.0 shard lsn p.1
unfolding poll
poll-IsHonest t shard lsn elapsed = ground arith

unless-IsHonest :
    (shard lsn : ℕ) (p rest : AckTracker × Option Answer)
    → IsHonest p.0 shard lsn p.1
    → IsHonest rest.0 shard lsn rest.1
    → let q = unless_answered p rest in IsHonest q.0 shard lsn q.1
unless-IsHonest shard lsn (t, some a) rest h k = h
unless-IsHonest shard lsn (t, none) rest h k = k

-- Whatever arrives while a writer waits, its answer is the truth at that moment: "replicated" only
-- when a majority holds the position, and otherwise how many members hold it, fewer than are needed.
pub wait_for_quorum-IsHonest :
    (t : AckTracker) (shard lsn elapsed : ℕ) (ws : List Wake)
    → let p = wait_for_quorum t shard lsn elapsed ws in IsHonest p.0 shard lsn p.1
unfolding wait_for_quorum
wait_for_quorum-IsHonest t shard lsn elapsed [] = poll-IsHonest t shard lsn elapsed
wait_for_quorum-IsHonest t shard lsn elapsed (w ∷ ws) =
    unless-IsHonest shard lsn (poll t shard lsn elapsed) _ (poll-IsHonest t shard lsn elapsed)
      (wait_for_quorum-IsHonest (report_all t w.reports) shard lsn w.elapsed ws)

how_long-report_all : (t : AckTracker) (rs : List Report) → (report_all t rs).how_long ≡ t.how_long
unfolding report_all record_position
how_long-report_all t [] = refl
how_long-report_all t (r ∷ rs) = how_long-report_all (record_position t r.node r.shard r.lsn) rs

poll_late :
    (t : AckTracker) (shard lsn elapsed : ℕ)
    → t.how_long ≤ elapsed
    → (poll t shard lsn elapsed).1 ≢ none
unfolding poll
poll_late t shard lsn elapsed h = ground arith

unless_late :
    (p rest : AckTracker × Option Answer) → rest.1 ≢ none → (unless_answered p rest).1 ≢ none
unless_late (t, some a) rest h = λ e. cc
unless_late (t, none) rest h = h

-- A wait ends: once the writer wakes up at `how_long` or later, it has an answer, whatever happened
-- before.
pub wait_for_quorum_answers :
    (t : AckTracker) (shard lsn elapsed : ℕ) (ws : List Wake) (last : Wake)
    → t.how_long ≤ last.elapsed
    → (wait_for_quorum t shard lsn elapsed (ws ++ (last ∷ []))).1 ≢ none
unfolding wait_for_quorum
wait_for_quorum_answers t shard lsn elapsed [] last h = unless_late (poll t shard lsn elapsed) _ (
    poll_late (report_all t last.reports) shard lsn last.elapsed
      (rw (how_long-report_all t last.reports) h))
wait_for_quorum_answers t shard lsn elapsed (w ∷ ws) last h =
    unless_late (poll t shard lsn elapsed) _ (
      wait_for_quorum_answers (report_all t w.reports) shard lsn w.elapsed ws last
        (rw (how_long-report_all t w.reports) h))
