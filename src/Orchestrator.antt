-- ===== src/Orchestrator.antt =====
-- The execution orchestrator (services/execution-orchestrator): plans and approvals on hold, and
-- the execution of a plan.
pub mod Expiring
pub mod Stores
pub mod Plans
pub mod Destinations
pub mod Contracts
pub mod Errors
pub mod World
pub mod Endings
pub mod Steps
pub mod Run
pub mod Answers
