-- ===== src/Permission.antt =====
-- The permission gateway (services/permission-gateway): policies, grants, decisions, dispatch.
pub mod Contracts
pub mod Identifiers
pub mod Policy
pub mod Scopes
pub mod Gateway
pub mod Builtin
pub mod Registry
