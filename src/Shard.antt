-- ===== src/Shard.antt =====
-- src/shard: routing of keys to shards, and the cache of open shards.
pub mod Routing
pub mod Lru
