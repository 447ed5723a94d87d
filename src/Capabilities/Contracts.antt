-- ===== src/Capabilities/Contracts.antt =====
-- services/capability-registry/src/ai_native_capabilities/contracts.py, as far as the registry
-- reads it, and the tables of database.py.
use linux_ai_native_system.Prelude.{ℕ, Bool, true, false, List, Text, Option, Dict}

pub data ModuleState : Type 0 where
  installed enabled disabled unavailable quarantined : ModuleState

-- The fields of a manifest that the registry and the module manager read.
pub record ModuleManifest : Type 0 where
  pub module_id : Text
  pub module_version : Text
  pub core_api : Text
  pub capability_ids : List Text
  pub dependencies : List Text
  pub optional_dependencies : List Text
  pub lifecycle : Text
  pub default_enabled : Bool

-- A row of `modules`, but for its key. The columns that repeat the manifest are read from it.
pub record Row : Type 0 where
  pub manifest : ModuleManifest
  pub manifest_path : Text
  pub manifest_valid : Bool
  pub desired_enabled : Bool
  pub user_configured : Bool
  pub is_quarantined : Bool
  pub quarantine_reason : Option Text
  pub state : ModuleState
  pub state_reason : Option Text
  pub last_seen_at : ℕ

abbrev pub Rows : Type 0
Rows = Dict Text Row

abbrev pub is_enabled : ModuleState → Bool
is_enabled enabled = true
is_enabled _ = false
