-- ===== src/Storage.antt =====
-- The storage services (services/storage-catalog): the approvals of copies.
pub mod Copies
