-- ===== src/Tests.antt =====
-- The theorems at concrete states: clusters of one and three nodes, small files and caches.
pub mod Shards
pub mod Terms
pub mod Placements
pub mod Replicas
pub mod Elections
pub mod Leaders
pub mod Catalogs
pub mod Splits
pub mod Stores
