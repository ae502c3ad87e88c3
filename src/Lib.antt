-- ===== src/Lib.antt =====
-- shardlite: a sharded SQLite server whose nodes elect leaders, place shards and replicate writes.
-- This library models the parts that decide who may write and what a confirmed write means.
--
-- The parts and the files that model them, with the source from the repository's root:
--
--   Shard/Routing       src/shard/routing.rs        keys to shards: hash_key, ModuloV1, LinearV1, Routing
--   Shard/Lru           src/shard/lru.rs            the cache of open connections: Lru
--   Cluster/Term        src/cluster/term.rs         the durable term and vote: TermStore
--   Cluster/Durability  src/cluster/durability.rs   how up to date a node is: Durability, Comparison
--   Cluster/Fence       src/cluster/fence.rs        tokens and the write gate: Fence
--   Cluster/Placement   src/cluster/placement.rs    which node leads which shard: Placement
--   Cluster/Election    src/cluster/election.rs     the election state machine: Election; the handlers
--                                                   are in Election/Machine
--   Cluster/Catalog     src/cluster/catalog.rs      members, placements and operations: Catalog. The
--                                                   operations are in Members, Operations, Transfer
--                                                   and Split, `validate` in Validation, the first
--                                                   placement in Placing
--   Cluster/Store       src/cluster/catalog.rs      the catalog on disk and the value prepared:
--                                                   CatalogStore
--   Cluster/Rebalance   src/cluster/rebalance.rs    the next movement of a shard
--   Cluster/Control     src/cluster/control.rs      the commands on the catalog: CatalogControl::apply,
--                                                   apply_transfer, apply_split, JoinTokenStore
--   Replication/Ack     src/replication/ack.rs      waiting for a quorum: AckTracker
--   Replication/Log     src/replication/log.rs      frames kept for followers: FrameLog
--
-- Common has the shared types: tests on native numbers, lists, ordered maps and sets (BTreeMap,
-- BTreeSet), majorities, and texts as bytes with decimal numbers. Tests runs the theorems on concrete
-- states.
--
-- How the parts interact. An Election holds a TermStore: it adopts a higher term through advance_to,
-- and votes, for itself or for another, through grant_vote, both written before they take effect. It
-- votes only for a candidate whose Durability may lead with respect to its own. The leader's placement
-- opens the Fence of each node for the shards it leads, a step-down closes it, and every write passes
-- check_may_write. A write is confirmed when the AckTracker counts a quorum of nodes that hold it, and
-- followers catch up from the FrameLog.
--
-- The catalog says who may own what: a command changes it through CatalogControl, the leader
-- proposes the changed value, and each voter's CatalogStore prepares and then commits it. A
-- transfer or a split is an operation in the catalog whose phases the workers report.
-- Cluster/Topology is the abstract view of this: Step says what may happen to the placements, the
-- operations and the routing (an operation is planned, moves forwards, a fenced transfer is cut
-- over, an installed split is published, or none of these), Made that a change is one such step, or
-- quiet ones only. Effects, SplitEffects, Commits, Openings and Memberships show that each
-- operation of the catalog is a step, Progress and Commands that each command is one step from the
-- catalog given, or a sequence of quiet ones. Invariant states what a sound catalog is, Preserved
-- and Soundness that steps keep it so, and Ownership, Readiness, Keys and Refusals draw the
-- conclusions.
--
-- How state and operations correspond to the code. A function that takes a lock is one step from
-- the state before to the state after and its answer, under the source's name; record_position is
-- `record` and with_shard is `with`, since the names are taken. A write of the term file takes a
-- flag that says whether it succeeds; a failed write leaves file and state. A write or a removal of
-- the catalog store's files has three outcomes, since the fsync of the directory can fail after the
-- file was replaced or removed: then the file is changed, the memory is not, and the call fails. A
-- start of the store that fails leaves a voter that is stopped, with its files. Instants and
-- durations are nanoseconds. A u64 or u32 is a number, with the source's wrap-around written out
-- where an operation can wrap. Log output and the texts of errors are left out: a reason is a
-- constructor. A function that changes the catalog returns the new one or an error, since its
-- callers change a copy and drop it on an error; an `expect` that fails is the error `panicked`.
-- The constructors of the progress steps and commands carry longer names where the short ones are
-- functions: split_is_ready is SnapshotReady, transfer_step is CatalogCommand::Transfer.
-- open_catalog is CatalogStore::open.
--
-- The election handlers are proved to make moves of a small protocol (Election/Protocol): Frame says
-- what no call changes, Move what happens to term, role, vote and the votes counted. Election/Safety
-- sets the nodes together: System has the nodes and the history of votes and wins, Step is a tick, a
-- delivered message, a step-down or a restart of one node, and Reach any sequence of them. Its voters
-- are fixed; what a change of voters keeps is a theorem about quorums, in Election/Quorums.
--
-- Fuel: make_room of the cache takes the number of entries plus one, since each round removes an entry;
-- the level of the linear router is found by 32 halvings of a number below 2^32. A wait for a quorum is
-- a recursion over the list of wakes.
--
-- Not modelled: sockets, threads, SQLite and its VFS, object storage, the SQL planner, the workers that
-- move the data of shards, the console and the drivers. They call the modelled parts or stand beside
-- them. Of the catalog's file the encoding is left out, of the catalog quorum its rounds of calls.
pub mod Common
pub mod Shard
pub mod Cluster
pub mod Replication
pub mod Tests
