-- ===== src/Ledger.antt =====
-- The task ledger (services/task-ledger): the durable record of what each task did.
pub mod Contracts
pub mod Values
pub mod Rows
pub mod Tasks
pub mod Startup
pub mod Calls
