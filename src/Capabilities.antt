-- ===== src/Capabilities.antt =====
-- services/capability-registry: which modules are installed, and which of them may run.
pub mod Contracts
pub mod Cycles
pub mod States
pub mod Registry
