-- ===== src/Capabilities/States.antt =====
-- `CapabilityRegistry.refresh_states`
-- (services/capability-registry/src/ai_native_capabilities/registry.py). The `while changed` loop
-- takes fuel for its passes; `none` means that the fuel ran out.
pub mod Settling
pub mod Runnable
use linux_ai_native_system.Prelude.{
  ℕ, zero, suc, Bool, true, false, not, ◌||◌, List, [], ◌∷◌, ◌++◌, Option, none, some, is_some,
  Text, text_eq, text_beq, codes, Dict, lookup, assign, map_values, contains, length, if◌then◌else◌,
}
use linux_ai_native_system.Capabilities.Contracts.{
  ModuleState, installed, enabled, disabled, unavailable, quarantined, ModuleManifest, Row, Rows,
  is_enabled,
}
use linux_ai_native_system.Capabilities.Cycles.{Graph, cycle_members}

-- an entry of `states` with that of `reasons`
pub record Status : Type 0 where
  pub state : ModuleState
  pub reason : Option Text

abbrev pub Statuses : Type 0
Statuses = Dict Text Status

-- `str(value or text)`
abbrev or_else : Option Text → Text → Option Text
or_else none text = some text
or_else (some []) text = some text
or_else (some (c ∷ cs)) text = some (c ∷ cs)

-- `next((d for d in ds if test(d)), None)`
unfoldable pub find_first : (Text → Bool) → List Text → Option Text
find_first test [] = none
find_first test (d ∷ ds) = let rest = find_first test ds in if test d then some d else rest

-- `CORE_API_VERSION`
abbrev pub core_api_version : Text
core_api_version = codes "1"

-- The first state of a module, before its dependencies' states are looked at.
unfoldable pub first_status : List Text → Rows → Text → Row → Status
unfolding find_first
first_status cycles rows id row =
    if not row.manifest_valid
    then record {
      state = unavailable;
      reason = or_else row.state_reason (codes "invalid_manifest");
    }
    else if row.is_quarantined
    then record {
      state = quarantined;
      reason = or_else row.quarantine_reason (codes "quarantined");
    }
    else if not row.desired_enabled
    then (if row.user_configured
        then record { state = disabled; reason = some (codes "disabled_by_user") }
        else record { state = installed; reason = none })
    else if not (text_beq row.manifest.core_api core_api_version)
    then record {
      state = unavailable;
      reason = some (codes "incompatible_core_api:" ++ row.manifest.core_api);
    }
    else if contains cycles id
    then record { state = unavailable; reason = some (codes "dependency_cycle") }
    else elim (find_first (λ d. not (is_some (lookup d rows))) row.manifest.dependencies) [
      | some missing ↦ record {
        state = unavailable;
        reason = some (codes "missing_dependency:" ++ missing);
      }
      | none ↦ record { state = enabled; reason = none }
    ]

-- `states.get(id) is ModuleState.ENABLED`
abbrev pub enabled_in : Statuses → Text → Bool
enabled_in st id = elim (lookup id st) [ none ↦ false | some s ↦ is_enabled s.state ]

-- The body of the `for` loop: the new states, and whether they changed.
unfoldable pub demote : Text → List Text → Statuses → Statuses × Bool
unfolding find_first
demote id dependencies st =
    if not (enabled_in st id)
    then (st, false)
    else elim (find_first (λ d. not (enabled_in st d)) dependencies) [
      | none ↦ (st, false)
      | some blocked ↦ (
        assign id
            (record {
              state = unavailable;
              reason = some (codes "dependency_not_enabled:" ++ blocked);
            })
            st,
        true,
      )
    ]

-- The `for` loop.
unfoldable pub pass : Graph → Statuses → Statuses × Bool
unfolding demote
pass [] st = (st, false)
pass ((id, dependencies) ∷ modules) st =
    let (st', changed) = demote id dependencies st in
    let (later, more) = pass modules st' in (later, changed || more)

-- `while changed`
unfoldable pub settle : ℕ → Graph → Statuses → Option Statuses
unfolding pass
settle zero modules st = none
settle (suc fuel) modules st = elim (pass modules st).1 [
  | false ↦ some (pass modules st).0
  | true ↦ settle fuel modules (pass modules st).0
]

-- `{module_id: manifest.dependencies …}`
abbrev pub graph_of : Rows → Graph
graph_of rows = map_values (λ id row. row.manifest.dependencies) rows

-- `UPDATE modules SET state = ?, state_reason = ? …`
abbrev pub write_back : Statuses → Text → Row → Row
write_back st id row = elim (lookup id st) [
  | none ↦ row
  | some s ↦ record row { state = s.state; state_reason = s.reason }
]

-- `refresh_states`
unfoldable pub refresh_states : Rows → Option Rows
unfolding cycle_members first_status settle
refresh_states rows = elim (cycle_members (graph_of rows)) [
  | none ↦ none
  | some cycles ↦
      elim (settle (suc (length rows)) (graph_of rows)
        (map_values (first_status cycles rows) rows)) [
          | none ↦ none
          | some st ↦ some (map_values (write_back st) rows)
        ]
]
