-- ===== src/Bulk.antt =====
-- Bulk imports: one at a time for each collection, in shards that a parent job counts.
pub mod Activity
pub mod Mutex
