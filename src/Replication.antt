-- ===== src/Replication.antt =====
-- src/replication: how committed writes reach the followers.
pub mod Ack
pub mod Log
