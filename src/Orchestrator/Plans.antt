-- ===== src/Orchestrator/Plans.antt =====
-- `ExecutionPlan` (services/intent-compiler/src/ai_native_intents/contracts.py) and the checks that
-- `ExecutionOrchestrator._validate` makes of one before it runs
-- (services/execution-orchestrator/src/ai_native_orchestrator/orchestrator.py). What the library's
-- `UUID` accepts is a parameter.
pub mod Checked
use linux_ai_native_system.Prelude.{
  ℕ, ◌≡◌, ◌≢◌, refl, sym, ap, ◌∙◌, subst, Bool, true, false, not, ◌&&◌, ◌||◌, List, [], ◌∷◌, ◌++◌,
  map, any, all, keep, length, Text, text_beq, text_eq, codes, Option, none, some, is_some, Dict,
  lookup, contains, if◌then◌else◌, ◌==◌, ltb, bool_beq, arith, Bool-cases, Option-cases, inl, inr,
  All,
}
use linux_ai_native_system.Permission.Contracts.{
  JsonValue, str, RiskLevel, CapabilityPolicy, ExecutionPhase, prepare, execute, risk_value,
  rule_for,
}
use linux_ai_native_system.Permission.Gateway.{Policies, policy}

pub data CompilationState : Type 0 where
  ready needs_clarification unavailable : CompilationState

pub record PlanStep : Type 0 where
  pub step_id : Text
  pub operation_id : Text
  pub capability : Text
  pub arguments : Dict Text JsonValue
  pub depends_on : List Text
  pub risk : RiskLevel
  pub approval_required : Bool

pub record ExecutionPlan : Type 0 where
  pub plan_id : Text
  pub intent_id : Text
  pub state : CompilationState
  pub steps : List PlanStep
  pub required_capabilities : List Text
  pub missing_capabilities : List Text
  pub approval_required : Bool
  pub clarification_question : Option Text
  pub warnings : List Text

-- The messages of `PlanValidationError`.
pub data PlanError : Type 0 where
  plan_is_not_ready plan_identifiers_must_be_uuids plan_has_no_executable_steps : PlanError
  duplicate_step_id duplicate_operation_id required_capabilities_mismatch : PlanError
  step_operation_identity_mismatch dependency_order_invalid : PlanError
  capability_has_no_trusted_policy step_risk_mismatch step_approval_mismatch : PlanError
  capability_phase_not_supported approval_step_must_be_final_in_v1 : PlanError
  result_dependency_missing approval_flag_mismatch : PlanError

abbrev pub is_ready : CompilationState → Bool
is_ready ready = true
is_ready _ = false

-- `not xs`
abbrev pub is_nil {ℓ} : {A : Type ℓ} → List A → Bool
is_nil [] = true
is_nil (x ∷ xs) = false

-- `len(xs) != len(set(xs))`
unfoldable pub has_duplicates : List Text → Bool
has_duplicates [] = false
has_duplicates (x ∷ xs) = contains xs x || has_duplicates xs

-- `tuple(dict.fromkeys(xs))`
unfoldable pub from_keys : List Text → List Text
from_keys [] = []
from_keys (x ∷ xs) = x ∷ keep (λ y. not (text_beq x y)) (from_keys xs)

abbrev pub texts_beq : List Text → List Text → Bool
texts_beq [] [] = true
texts_beq (x ∷ xs) (y ∷ ys) = text_beq x y && texts_beq xs ys
texts_beq _ _ = false

-- `f"step_{operation_id}"`
abbrev pub step_of : Text → Text
step_of operation_id = codes "step_" ++ operation_id

-- the phase that a step begins with
abbrev pub first_phase : PlanStep → ExecutionPhase
first_phase step = if step.approval_required then prepare else execute

-- `reference in earlier_operations and f"step_{reference}" not in step.depends_on`. A value other
-- than a text is in no set of texts; a list or a dict, which Python cannot hash, makes the source
-- raise TypeError here, and is passed over as the other values are.
unfoldable pub misses_result : List Text → PlanStep → Bool
misses_result earlier step = elim (lookup (codes "results_from") step.arguments) [
  | some (str reference) ↦
      contains earlier reference && not (contains step.depends_on (step_of reference))
  | _ ↦ false
]

-- The checks of a step against its policy, and what follows them.
unfoldable pub policy_error :
    List Text → Bool → PlanStep → Option CapabilityPolicy → Option PlanError
unfolding misses_result
policy_error earlier is_last step none = some capability_has_no_trusted_policy
policy_error earlier is_last step (some p) =
    if not (text_beq (risk_value step.risk) (risk_value p.risk))
    then some step_risk_mismatch
    else if not (bool_beq step.approval_required p.plan_approval_required)
    then some step_approval_mismatch
    else if not (is_some (rule_for p (first_phase step)))
    then some capability_phase_not_supported
    else if step.approval_required && not is_last
    then some approval_step_must_be_final_in_v1
    else if misses_result earlier step
    then some result_dependency_missing
    else none

-- The checks of a step, after the steps and operations that came before.
unfoldable pub step_error : Policies → List Text → List Text → Bool → PlanStep → Option PlanError
unfolding policy_error policy
step_error g known earlier is_last step =
    if not (text_beq step.step_id (step_of step.operation_id))
    then some step_operation_identity_mismatch
    else if any (λ dependency. not (contains known dependency)) step.depends_on
    then some dependency_order_invalid
    else policy_error earlier is_last step (policy g step.capability)

-- the loop over the steps
unfoldable pub steps_error : Policies → List Text → List Text → List PlanStep → Option PlanError
unfolding step_error
steps_error g known earlier [] = none
steps_error g known earlier (step ∷ steps) =
    let rest =
      steps_error g (known ++ step.step_id ∷ []) (earlier ++ step.operation_id ∷ []) steps in
    elim (step_error g known earlier (is_nil steps) step) [ some error ↦ some error | none ↦ rest ]

-- `_validate`: the error that it raises, or none
unfoldable pub validate : (Text → Bool) → Policies → ExecutionPlan → Option PlanError
unfolding has_duplicates from_keys steps_error
validate is_uuid g plan =
    if not (is_ready plan.state)
    then some plan_is_not_ready
    else if not (is_uuid plan.plan_id) || not (is_uuid plan.intent_id)
    then some plan_identifiers_must_be_uuids
    else if is_nil plan.steps || not (is_nil plan.missing_capabilities)
    then some plan_has_no_executable_steps
    else if has_duplicates (map (λ step. step.step_id) plan.steps)
    then some duplicate_step_id
    else if has_duplicates (map (λ step. step.operation_id) plan.steps)
    then some duplicate_operation_id
    else if not (
        texts_beq (from_keys (map (λ step. step.capability) plan.steps)) plan.required_capabilities)
    then some required_capabilities_mismatch
    else elim (steps_error g [] [] plan.steps) [
      | some error ↦ some error
      | none ↦
          if bool_beq plan.approval_required (any (λ step. step.approval_required) plan.steps)
          then none
          else some approval_flag_mismatch
    ]
