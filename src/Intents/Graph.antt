-- ===== src/Intents/Graph.antt =====
-- `OperationIntent` and `UserIntent` (services/intent-compiler/src/ai_native_intents/contracts.py), and
-- `IntentValidator._validate_graph` (validation.py beside it).
use linux_ai_native_system.Prelude.{
  Bool, true, false, not, ◌&&◌, List, [], ◌∷◌, ◌++◌, map, any, Text, text_beq, text_eq, codes,
  nat_beq, Option, none, some, Dict, lookup, contains, if◌then◌else◌,
}
use linux_ai_native_system.Permission.Contracts.{JsonValue, str}
use linux_ai_native_system.Orchestrator.Plans.{has_duplicates}

pub record OperationIntent : Type 0 where
  pub operation_id : Text
  pub kind : Text
  pub arguments : Dict Text JsonValue
  pub depends_on : List Text
  pub evidence : List Text

-- The fields of `UserIntent` that planning reads.
pub record UserIntent : Type 0 where
  pub intent_id : Text
  pub language : Text
  pub operations : List OperationIntent

-- The messages of the errors.
pub data GraphError : Type 0 where
  ids_not_unique dependency_not_earlier wrong_context_reference reference_not_earlier : GraphError

-- `text.startswith(prefix)`
unfoldable pub starts_with : Text → Text → Bool
starts_with [] text = true
starts_with (c ∷ cs) [] = false
starts_with (c ∷ cs) (d ∷ ds) = nat_beq c d && starts_with cs ds

-- The check of `results_from`, after the operations that came before.
unfoldable pub reference_error : List Text → OperationIntent → Option GraphError
unfolding starts_with
reference_error seen o = elim (lookup (codes "results_from") o.arguments) [
  | some (str reference) ↦
      if text_beq reference (codes "context.active_results")
      then none
      else if starts_with (codes "context.") reference
      then some wrong_context_reference
      else if not (contains seen reference)
      then some reference_not_earlier
      else none
  | _ ↦ none
]

-- the loop over the operations
unfoldable pub operations_error : List Text → List OperationIntent → Option GraphError
unfolding reference_error
operations_error seen [] = none
operations_error seen (o ∷ os) =
    let rest = operations_error (seen ++ o.operation_id ∷ []) os in
    if any (λ d. not (contains seen d)) o.depends_on
    then some dependency_not_earlier
    else elim (reference_error seen o) [ some error ↦ some error | none ↦ rest ]

-- `_validate_graph`: the error that it raises, or none
unfoldable pub validate_graph : List OperationIntent → Option GraphError
unfolding has_duplicates operations_error
validate_graph operations =
    if has_duplicates (map (λ o. o.operation_id) operations)
    then some ids_not_unique
    else operations_error [] operations
