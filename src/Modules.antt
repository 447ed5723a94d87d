-- ===== src/Modules.antt =====
-- `ModuleProcessManager` (services/module-manager/src/ai_native_module_manager/manager.py): the
-- start of a module and of what it depends on. A process is known by
-- its module's identifier, and only those that are alive count; what a worker answers is an argument.
-- The directories of the modules are taken to exist.
-- `start_module` takes fuel for its depth.
pub mod Launching
pub mod Starts
use linux_ai_native_system.Prelude.{
  ℕ, zero, suc, ◌+◌, Bool, true, false, not, ◌&&◌, List, [], ◌∷◌, ◌++◌, map, Option, none, some,
  is_some, Text, text_eq, text_beq, codes, Dict, lookup, assign, remove, contains, leb,
  if◌then◌else◌,
}
use linux_ai_native_system.Capabilities.Contracts.{Row, Rows, is_enabled}
use linux_ai_native_system.Capabilities.Registry.{Inventory, updated, quarantine, providers}

pub data StartError : Type 0 where
  unknown_module not_enabled : Text → StartError
  -- the worker's error, which the registry keeps as the reason of a quarantine
  worker_failed : Text → Text → StartError

-- How a start ends, with the modules that then run.
pub data Started : Type 0 where
  started : List Text → Started
  failed : StartError → List Text → Started
  out_of_fuel : Started

-- `for dependency in …: self.start_module(dependency)`
unfoldable pub start_each : (Text → List Text → Started) → List Text → List Text → Started
start_each start [] running = started running
start_each start (d ∷ ds) running = elim (start d running) [
  | started now ↦ start_each start ds now
  | failed error now ↦ failed error now
  | out_of_fuel ↦ out_of_fuel
]

-- The launch of the worker, once the dependencies run: `none` where it becomes ready.
unfoldable pub launch : Text → Option Text → Started → Started
launch id none (started now) = started (id ∷ now)
launch id (some error) (started now) = failed (worker_failed id error) now
launch id answer (failed error now) = failed error now
launch id answer out_of_fuel = out_of_fuel

-- `start_module` up to the quarantine
unfoldable pub start : ℕ → Rows → (Text → Option Text) → Text → List Text → Started
unfolding start_each launch
start zero rows boot id running = out_of_fuel
start (suc fuel) rows boot id running = elim (contains running id) [
  | true ↦ started running
  | false ↦ elim (lookup id rows) [
    | none ↦ failed (unknown_module id) running
    | some row ↦ elim (is_enabled row.state) [
      | false ↦ failed (not_enabled id) running
      | true ↦
          launch id (boot id) (start_each (start fuel rows boot) row.manifest.dependencies running)
    ]
  ]
]

-- the registry after a start: a worker that failed is in quarantine
abbrev pub after_start : (ℕ → Bool) → Inventory → Started → Inventory
after_start is_space inv (failed (worker_failed id error) now) =
    elim (quarantine is_space id error inv) [ updated inv' ↦ inv' | _ ↦ inv ]
after_start is_space inv _ = inv

-- `start_module`
unfoldable pub start_module :
    (ℕ → Bool) → ℕ → (Text → Option Text) → Text → List Text → Inventory → Started × Inventory
unfolding start
start_module is_space fuel boot id running inv =
    let result = start fuel inv.modules boot id running in (result, after_start is_space inv result)

-- `start_for_capability`: the module that provides it and its start, or none where it raises since
-- no module does
unfoldable pub start_for_capability :
    (ℕ → Bool)
    → ℕ
    → (Text → Option Text)
    → Text
    → List Text
    → Inventory
    → Option (Text × Started × Inventory)
unfolding start_module providers
start_for_capability is_space fuel boot capability_id running inv =
    elim (providers capability_id inv) [
      | [] ↦ none
      | id ∷ others ↦ some (
          let (result, after) = start_module is_space fuel boot id running inv in
          (id, result, after))
    ]
