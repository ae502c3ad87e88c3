-- ===== src/Cluster.antt =====
-- src/cluster: agreement on terms, leaders, ownership of shards.
pub mod Term
pub mod Durability
pub mod Fence
pub mod Placement
pub mod Election
pub mod Catalog
pub mod Rebalance
pub mod Control
pub mod Store
pub mod Topology
