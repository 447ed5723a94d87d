-- ===== src/Scheduler.antt =====
-- services/index-scheduler: what the file system reports between two passes of the indexer.
pub mod Queue
