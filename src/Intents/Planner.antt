-- ===== src/Intents/Planner.antt =====
-- `IntentPlanner.plan` (services/intent-compiler/src/ai_native_intents/planner.py). The question that
-- asks for separate requests is an argument, since only its language is worked out, and so is the new
-- identifier. Where the source reads the references of an operation from a set, their order is that of
-- the arguments.
pub mod References
pub mod Checks
pub mod Accepted
use linux_ai_native_system.Prelude.{
  Bool, true, false, List, [], ◌∷◌, ◌++◌, map, any, Text, text_eq, Option, none, some, is_some,
  Dict, contains, if◌then◌else◌,
}
use linux_ai_native_system.Permission.Contracts.{JsonValue, str}
use linux_ai_native_system.Orchestrator.Plans.{
  PlanStep, ExecutionPlan, CompilationState, ready, needs_clarification, from_keys, step_of,
}
use linux_ai_native_system.Intents.Catalog.{OperationDefinition, make_catalog, find_operation}
use linux_ai_native_system.Intents.Graph.{OperationIntent, UserIntent}

-- The arguments that are the identifier of an operation.
unfoldable pub references : List Text → Dict Text JsonValue → List Text
references ids [] = []
references ids ((name, str value) ∷ arguments) =
    let rest = references ids arguments in if contains ids value then value ∷ rest else rest
references ids ((name, _) ∷ arguments) = references ids arguments

-- The step of an operation.
unfoldable pub step_for : List Text → OperationDefinition → OperationIntent → PlanStep
unfolding references from_keys
step_for ids definition o = record {
  step_id = step_of o.operation_id;
  operation_id = o.operation_id;
  capability = definition.capability_id;
  arguments = o.arguments;
  depends_on = map step_of (from_keys (o.depends_on ++ references ids o.arguments));
  risk = definition.risk;
  approval_required = definition.approval_required;
}

-- The loop over the operations; `none` where an operation is not in the catalogue.
unfoldable pub steps_for :
    List OperationDefinition → List Text → List OperationIntent → Option (List PlanStep)
unfolding step_for find_operation
steps_for catalog ids [] = some []
steps_for catalog ids (o ∷ os) = elim (find_operation o.kind catalog) [
  | none ↦ none
  | some definition ↦ elim (steps_for catalog ids os) [
    | none ↦ none
    | some steps ↦ some (step_for ids definition o ∷ steps)
  ]
]

-- `any(step.approval_required for step in steps[:-1])`
unfoldable pub approval_before_last : List PlanStep → Bool
approval_before_last [] = false
approval_before_last (step ∷ []) = false
approval_before_last (step ∷ next ∷ steps) =
    let rest = approval_before_last (next ∷ steps) in if step.approval_required then true else rest

-- `clarification_question or text`
abbrev question_or : Option Text → Text → Text
question_or none text = text
question_or (some []) text = text
question_or (some (c ∷ cs)) text = c ∷ cs

unfoldable pub plan_of : Text → Text → Option Text → Text → List PlanStep → ExecutionPlan
unfolding approval_before_last from_keys
plan_of plan_id intent_id question separately steps =
    let asked =
      if approval_before_last steps then some (question_or question separately) else question in
    record {
      plan_id = plan_id;
      intent_id = intent_id;
      state = if is_some asked then needs_clarification else ready;
      steps = steps;
      required_capabilities = from_keys (map (λ step. step.capability) steps);
      missing_capabilities = [];
      approval_required = any (λ step. step.approval_required) steps;
      clarification_question = asked;
      warnings = [];
    }

-- `plan`; `none` where the catalogue raises
unfoldable pub plan :
    Text → Text → List OperationDefinition → Option Text → UserIntent → Option ExecutionPlan
unfolding make_catalog steps_for plan_of
plan plan_id separately definitions question intent = elim (make_catalog definitions) [
  | none ↦ none
  | some catalog ↦
      elim (steps_for catalog (map (λ o. o.operation_id) intent.operations) intent.operations) [
        | none ↦ none
        | some steps ↦ some (plan_of plan_id intent.intent_id question separately steps)
      ]
]
