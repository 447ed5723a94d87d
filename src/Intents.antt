-- ===== src/Intents.antt =====
-- The intent compiler (services/intent-compiler): the catalogue of operations, the checks of an
-- intent's graph, and the planner.
pub mod Catalog
pub mod Graph
pub mod Planner
