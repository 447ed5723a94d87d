-- ===== src/Tests/Plans.antt =====
-- A plan of two steps, of which the second reads what the first one found, checked as
-- services/execution-orchestrator does, and destinations that it resolves.
use linux_ai_native_system.Orchestrator.Destinations.{
  IsChild, resolve, base_of, is_unsafe, ends_badly, resolve_confined,
}
use linux_ai_native_system.Prelude.{
  strip, strip_left, strip_right, Bool, Text, text_eq, ℕ, ◌⊎◌, nat_beq, Dict, lookup, ◌≡◌, refl,
  false, text_beq, codes, none, some, List, [], ◌∷◌,
}
use linux_ai_native_system.Permission.Contracts.{JsonValue, read_only, risk_value, rule_for}
use linux_ai_native_system.Permission.Identifiers.{is_canonical_uuid}
use linux_ai_native_system.Permission.Gateway.{policy}
use linux_ai_native_system.Orchestrator.Plans.{
  PlanStep, ExecutionPlan, ready, has_duplicates, from_keys, misses_result, policy_error,
  step_error, steps_error, validate, dependency_order_invalid,
}
use linux_ai_native_system.Orchestrator.Plans.Checked.{IsFit, validate-IsFit}
use linux_ai_native_system.Tests.Permission.{request, inspect_id, policies}

abbrev look : PlanStep
look = record {
  step_id = codes "step_look";
  operation_id = codes "look";
  capability = inspect_id;
  arguments = [];
  depends_on = [];
  risk = read_only;
  approval_required = false;
}

abbrev again : PlanStep
again = record {
  step_id = codes "step_again";
  operation_id = codes "again";
  capability = inspect_id;
  arguments = (codes "results_from", JsonValue.str (codes "look")) ∷ [];
  depends_on = codes "step_look" ∷ [];
  risk = read_only;
  approval_required = false;
}

abbrev plan_with : List PlanStep → ExecutionPlan
plan_with steps = record {
  plan_id = request;
  intent_id = request;
  state = ready;
  steps = steps;
  required_capabilities = inspect_id ∷ [];
  missing_capabilities = [];
  approval_required = false;
  clarification_question = none;
  warnings = [];
}

passes : validate is_canonical_uuid policies (plan_with (look ∷ again ∷ [])) ≡ none
unfolding validate has_duplicates from_keys steps_error step_error policy_error misses_result policy
    risk_value rule_for text_beq is_canonical_uuid
passes = refl

-- the same steps in the other order are refused
refused :
    validate is_canonical_uuid policies (plan_with (again ∷ look ∷ []))
    ≡ some dependency_order_invalid
unfolding validate has_duplicates from_keys steps_error step_error policy_error misses_result policy
    risk_value rule_for text_beq is_canonical_uuid
refused = refl

validate-IsFit_example : IsFit policies (look ∷ []) again []
validate-IsFit_example =
    validate-IsFit is_canonical_uuid policies (plan_with (look ∷ again ∷ [])) (look ∷ []) [] again
      passes refl

abbrev is_blank : ℕ → Bool
is_blank c = nat_beq c 32

abbrev roles : Dict Text Text
roles = (codes "documents", codes "/home/u/Documents") ∷ []

-- a child of a role, its name stripped
resolved :
    resolve (λ t. t) is_blank roles (codes "documents") (some (codes " Q1 ")) none
    ≡ some (codes "/home/u/Documents", some (codes "Q1"))
unfolding resolve base_of strip strip_left strip_right is_unsafe ends_badly text_beq
resolved = refl

-- a name that would leave the folder is refused
not_resolved : resolve (λ t. t) is_blank roles (codes "documents") (some (codes "../x")) none ≡ none
unfolding resolve base_of strip strip_left strip_right is_unsafe ends_badly text_beq
not_resolved = refl

resolve_confined_example :
    ((lookup (codes "documents") roles ≡ some (codes "/home/u/Documents"))
      ⊎ ((none ≡ some (codes "documents")) × (codes "documents" ≡ codes "/home/u/Documents")))
    × IsChild is_blank (some (codes " Q1 ")) (some (codes "Q1"))
resolve_confined_example =
    resolve_confined (λ t. t) is_blank roles (codes "documents") (some (codes " Q1 ")) none
      (codes "/home/u/Documents") (some (codes "Q1")) resolved
