-- ===== src/Tests/Intents.antt =====
-- Intents of services/intent-compiler, their plans, and what the orchestrator makes of these.
use linux_ai_native_system.Prelude.{
  ◌≡◌, ◌↔◌, refl, subst, true, false, List, [], ◌∷◌, Text, text_eq, text_beq, codes, Option, none,
  some, Bool-cases, inl, inr, arith,
}
use linux_ai_native_system.Permission.Contracts.{
  JsonValue, read_only, reversible_write, rule_for, risk_value,
}
use linux_ai_native_system.Permission.Identifiers.{is_canonical_uuid}
use linux_ai_native_system.Permission.Gateway.{policy}
use linux_ai_native_system.Orchestrator.Plans.{
  ExecutionPlan, dependency_order_invalid, has_duplicates, from_keys, misses_result, policy_error,
  step_error, steps_error, validate,
}
use linux_ai_native_system.Intents.Catalog.{OperationDefinition, make_catalog, find_operation}
use linux_ai_native_system.Intents.Graph.{
  OperationIntent, UserIntent, starts_with, reference_error, operations_error, validate_graph,
}
use linux_ai_native_system.Intents.Planner.{
  references, step_for, steps_for, approval_before_last, plan_of, plan,
}
use linux_ai_native_system.Intents.Planner.Checks.{Covers, reads_earlier}
use linux_ai_native_system.Intents.Planner.Accepted.{plan_passes}
use linux_ai_native_system.Tests.Permission.{request, inspect_id, inspect}
use linux_ai_native_system.Tests.Runs.{tidy_id, tidy, both_policies}

abbrev inspecting : OperationDefinition
inspecting = record {
  operation = codes "inspect";
  capability_id = inspect_id;
  risk = read_only;
  approval_required = false;
}

abbrev tidying : OperationDefinition
tidying = record {
  operation = codes "tidy";
  capability_id = tidy_id;
  risk = reversible_write;
  approval_required = true;
}

abbrev offered : List OperationDefinition
offered = inspecting ∷ tidying ∷ []

abbrev operation : Text → Text → Text → OperationIntent
operation id kind reference = record {
  operation_id = id;
  kind = kind;
  arguments = (codes "results_from", JsonValue.str reference) ∷ [];
  depends_on = [];
  evidence = codes "tidy" ∷ [];
}

abbrev intent_of : List OperationIntent → UserIntent
intent_of os = record { intent_id = request; language = codes "en"; operations = os }

-- The second operation reads what the first one finds.
abbrev tidy_found : UserIntent
tidy_found = intent_of (
    operation (codes "find") (codes "inspect") (codes "context.active_results")
    ∷ operation (codes "clean") (codes "tidy") (codes "find")
    ∷ [])

abbrev plan_for : UserIntent → Option ExecutionPlan
plan_for intent = plan request (codes "one at a time") offered none intent

abbrev or_empty : Option ExecutionPlan → ExecutionPlan
or_empty (some made) = made
or_empty none = plan_of request request none (codes "") []

offered-Covers :
    (kind : Text) (definition : OperationDefinition)
    → find_operation kind offered ≡ some definition
    → Covers both_policies definition
unfolding find_operation policy risk_value rule_for text_beq
offered-Covers kind definition h = elim (Bool-cases (text_beq (codes "inspect") kind)) [
  | inl is ↦
      subst (Covers both_policies) {x = inspecting} {y = definition} (ground (arith, h, is))
        (record { p = inspect; configured = refl; risk = refl; approval = refl; phase = refl })
  | inr other ↦ elim (Bool-cases (text_beq (codes "tidy") kind)) [
    | inl is ↦
        subst (Covers both_policies) {x = tidying} {y = definition} (ground (arith, h, other, is))
          (record { p = tidy; configured = refl; risk = refl; approval = refl; phase = refl })
    | inr neither ↦ ground (arith, h, other, neither)
  ]
]

plan_passes_example :
    (validate is_canonical_uuid both_policies (or_empty (plan_for tidy_found)) ≡ none)
    ↔ (reads_earlier (codes "find" ∷ codes "clean" ∷ []) [] tidy_found.operations ≡ true)
unfolding plan make_catalog has_duplicates text_beq steps_for find_operation step_for references
    from_keys plan_of approval_before_last validate_graph operations_error reference_error
    starts_with is_canonical_uuid
plan_passes_example =
    plan_passes is_canonical_uuid both_policies request (codes "one at a time") offered none
      tidy_found (or_empty (plan_for tidy_found)) refl refl offered-Covers refl refl refl refl

reads_found : reads_earlier (codes "find" ∷ codes "clean" ∷ []) [] tidy_found.operations ≡ true
unfolding reads_earlier references text_beq
reads_found = refl

-- An operation whose argument happens to be its own identifier: the graph is valid and the plan is
-- ready, but the step depends on itself, and the orchestrator refuses the plan.
abbrev itself : UserIntent
itself = intent_of (
    record (operation (codes "report") (codes "inspect") (codes "context.active_results")) {
      arguments = (codes "text", JsonValue.str (codes "report")) ∷ [];
    }
    ∷ [])

graph_valid : validate_graph itself.operations ≡ none
unfolding validate_graph has_duplicates operations_error reference_error text_beq
graph_valid = refl

plan_refused :
    validate is_canonical_uuid both_policies (or_empty (plan_for itself))
    ≡ some dependency_order_invalid
unfolding plan make_catalog has_duplicates text_beq steps_for find_operation step_for references
    from_keys plan_of approval_before_last validate steps_error step_error policy_error
    misses_result policy risk_value rule_for is_canonical_uuid
plan_refused = refl
