-- ===== src/Tests.antt =====
-- Runs on concrete inputs, and each theorem that has hypotheses at an input that meets them.
mod Permission
mod Registry
mod Ledger
mod Orchestrator
mod Scheduler
mod Plans
mod Capabilities
mod Runs
mod Intents
mod Copies
