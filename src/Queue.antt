-- ===== src/Queue.antt =====
-- The job queues: what the workers are sent, and the Redis keys around it.
pub mod Keys
pub mod TileBuild
pub mod Process
pub mod BulkImport
pub mod BulkJobs
