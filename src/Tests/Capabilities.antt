-- ===== src/Tests/Capabilities.antt =====
-- Modules of a registry (services/capability-registry) of which one depends on another, their start
-- (services/module-manager), and a search for cycles.
use linux_ai_native_system.Prelude.{
  ℕ, ◌+◌, ◌↔◌, ◌≡◌, refl, Bool, true, false, List, [], ◌∷◌, Option, none, some, Text, text_eq,
  text_beq, codes, DistinctKeys, strip, strip_left, strip_right, arith, nat_beq,
}
use linux_ai_native_system.Capabilities.Contracts.{
  ModuleState, installed, ModuleManifest, Row, Rows,
}
use linux_ai_native_system.Capabilities.Cycles.{
  Graph, targets, from_node, visit_each, visit, cycle_members,
}
use linux_ai_native_system.Capabilities.Cycles.Visits.{Found, cycle_members_ends}
use linux_ai_native_system.Capabilities.States.{
  find_first, first_status, demote, pass, settle, refresh_states,
}
use linux_ai_native_system.Capabilities.States.Runnable.{
  Runnable, is_enabled_in, refresh_states_refines,
}
use linux_ai_native_system.Capabilities.Registry.{Inventory, updated, quarantine}
use linux_ai_native_system.Capabilities.Registry.Quarantine.{
  ReliesOn, itself, through, quarantine_stops,
}
use linux_ai_native_system.Modules.{started, failed, worker_failed, start_each, launch, start}
use linux_ai_native_system.Modules.Launching.{Launches}
use linux_ai_native_system.Modules.Starts.{start_ends}

abbrev manifest_of : Text → List Text → ModuleManifest
manifest_of id dependencies = record {
  module_id = id;
  module_version = codes "1.0.0";
  core_api = codes "1";
  capability_ids = id ∷ [];
  dependencies = dependencies;
  optional_dependencies = [];
  lifecycle = codes "on-demand";
  default_enabled = true;
}

abbrev row_of : Text → List Text → Row
row_of id dependencies = record {
  manifest = manifest_of id dependencies;
  manifest_path = id;
  manifest_valid = true;
  desired_enabled = true;
  user_configured = false;
  is_quarantined = false;
  quarantine_reason = none;
  state = installed;
  state_reason = none;
  last_seen_at = 0;
}

abbrev viewer : Text
viewer = codes "viewer"

abbrev storage : Text
storage = codes "storage"

-- The viewer depends on the storage.
abbrev two_modules : Rows
two_modules = (viewer, row_of viewer (storage ∷ [])) ∷ (storage, row_of storage []) ∷ []

abbrev enabled_row : Text → List Text → Row
enabled_row id dependencies = record (row_of id dependencies) { state = ModuleState.enabled }

abbrev both_enabled : Rows
both_enabled = (viewer, enabled_row viewer (storage ∷ [])) ∷ (storage, enabled_row storage []) ∷ []

two_modules-DistinctKeys : DistinctKeys two_modules
unfolding text_beq
two_modules-DistinctKeys = ground arith

refreshes : refresh_states two_modules ≡ some both_enabled
unfolding refresh_states cycle_members visit visit_each targets from_node first_status find_first
    settle pass demote text_beq
refreshes = refl

refresh_states_refines_example :
    (rows' : Rows) × (refresh_states two_modules ≡ some rows')
    × ((id : Text) → (is_enabled_in rows' id ≡ true) ↔ Runnable two_modules id)
refresh_states_refines_example = refresh_states_refines two_modules two_modules-DistinctKeys

abbrev both : Inventory
both = record { modules = two_modules; capabilities = [] }

abbrev space_test : ℕ → Bool
space_test c = nat_beq c 32

-- Once the storage is in quarantine the viewer does not run either.
abbrev stopped : Inventory
stopped = record {
  modules =
      (
        viewer,
        record (row_of viewer (storage ∷ [])) {
          state = ModuleState.unavailable;
          state_reason = some (codes "dependency_not_enabled:storage");
        },
      )
      ∷ (
        storage,
        record (row_of storage []) {
          is_quarantined = true;
          quarantine_reason = some (codes "broken");
          state = ModuleState.quarantined;
          state_reason = some (codes "broken");
        },
      )
      ∷ [];
  capabilities = [];
}

puts_away : quarantine space_test storage (codes " broken ") both ≡ updated stopped
unfolding quarantine strip strip_left strip_right refresh_states cycle_members visit visit_each
    targets from_node first_status find_first settle pass demote text_beq
puts_away = refl

viewer_relies : ReliesOn two_modules storage viewer
unfolding text_beq
viewer_relies = through {m = viewer} {d = storage} (row_of viewer (storage ∷ [])) refl refl itself

quarantine_stops_example : is_enabled_in stopped.modules viewer ≡ false
quarantine_stops_example =
    quarantine_stops space_test storage (codes " broken ") viewer both stopped
      two_modules-DistinctKeys puts_away viewer_relies

-- The storage's worker does not become ready: the viewer is not started.
abbrev storage_fails : Text → Option Text
storage_fails id = elim (text_beq id storage) [ true ↦ some (codes "timeout") | false ↦ none ]

start_fails :
    start 3 both_enabled storage_fails viewer []
    ≡ failed (worker_failed storage (codes "timeout")) []
unfolding start start_each launch text_beq
start_fails = refl

start_runs : start 3 both_enabled (λ id. none) viewer [] ≡ started (viewer ∷ storage ∷ [])
unfolding start start_each launch text_beq
start_runs = refl

start_ends_example :
    (n : ℕ) × ((extra : ℕ)
      → Launches both_enabled storage_fails [] viewer
          (start (n + extra) both_enabled storage_fails viewer []))
unfolding text_beq
start_ends_example =
    start_ends two_modules both_enabled storage_fails viewer [] two_modules-DistinctKeys refreshes
      refl (λ m d row h l dep. ground (arith, h))

-- Three modules on one cycle, of which the search misses the last: its dependency was left already.
abbrev knot : Graph
knot =
    (codes "a", codes "b" ∷ codes "c" ∷ [])
    ∷ (codes "b", codes "a" ∷ [])
    ∷ (codes "c", codes "b" ∷ [])
    ∷ []

knot_members : cycle_members knot ≡ some (codes "b" ∷ codes "a" ∷ [])
unfolding cycle_members visit visit_each targets from_node text_beq
knot_members = refl

cycle_members_ends_example :
    (cycles : List Text) × (cycle_members knot ≡ some cycles) × Found knot cycles
cycle_members_ends_example = cycle_members_ends knot
