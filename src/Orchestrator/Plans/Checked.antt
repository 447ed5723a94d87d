-- ===== src/Orchestrator/Plans/Checked.antt =====
-- What the checks of `ExecutionOrchestrator._validate` give the run of the plan
-- (services/execution-orchestrator/src/ai_native_orchestrator/orchestrator.py).
use linux_ai_native_system.Prelude.{
  ◌≡◌, refl, sym, ap, subst, Bool, true, false, not, List, [], ◌∷◌, ◌++◌, map, any, Text,
  text_beq_iff, text_eq, codes, none, some, is_some, lookup, contains, bool_beq_iff, arith,
  Option-cases, inl, inr,
}
use mathlib.Core.List.{append_assoc, append-nil}
use linux_ai_native_system.Permission.Contracts.{CapabilityPolicy, rule_for, risk_value, JsonValue}
use linux_ai_native_system.Permission.Gateway.{Policies, policy}
use linux_ai_native_system.Orchestrator.Plans.{
  PlanStep, ExecutionPlan, is_nil, first_phase, step_of, misses_result, policy_error, step_error,
  steps_error, validate,
}

-- The steps' identifiers, and their operations'.
abbrev pub step_ids : List PlanStep → List Text
step_ids steps = map (λ step. step.step_id) steps

abbrev pub operation_ids : List PlanStep → List Text
operation_ids steps = map (λ step. step.operation_id) steps

-- A step is fit to run between the steps before it and after it: it depends on earlier steps only,
-- it asks for an approval only at the end, its capability has a policy that declares the same risk
-- and need of approval and that has a rule for the phase it begins with, and when it reads the
-- result of an earlier operation it depends on that operation's step.
pub record IsFit (g : Policies) (before : List PlanStep) (step : PlanStep) (after : List PlanStep)
    : Type 0 where
  pub p : CapabilityPolicy
  pub configured : policy g step.capability ≡ some p
  pub risk : risk_value step.risk ≡ risk_value p.risk
  pub approval : step.approval_required ≡ p.plan_approval_required
  pub phase : is_some (rule_for p (first_phase step)) ≡ true
  pub dependencies : any (λ d. not (contains (step_ids before) d)) step.depends_on ≡ false
  pub final : step.approval_required ≡ true → is_nil after ≡ true
  pub results :
      (reference : Text)
      → lookup (codes "results_from") step.arguments ≡ some (JsonValue.str reference)
      → contains (operation_ids before) reference ≡ true
      → contains step.depends_on (step_of reference) ≡ true

step_error-IsFit :
    (g : Policies) (before after : List PlanStep) (step : PlanStep)
    → step_error g (step_ids before) (operation_ids before) (is_nil after) step ≡ none
    → IsFit g before step after
unfolding step_error policy_error misses_result
step_error-IsFit g before after step h = elim (Option-cases (policy g step.capability)) [
  | inl absent ↦ ground (arith, h, absent)
  | inr (p, configured) ↦ record {
    p = p;
    configured = configured;
    risk = ground (arith, h, configured, text_beq_iff (risk_value step.risk) (risk_value p.risk));
    approval =
        ground (arith, h, configured, bool_beq_iff step.approval_required p.plan_approval_required);
    phase = ground (arith, h, configured);
    dependencies = ground (arith, h, configured);
    final = ground (arith, h, configured);
    results = λ reference l c. ground (arith, h, configured, l, c);
  }
]

map-append :
    (f : PlanStep → Text) (xs : List PlanStep) (s : PlanStep)
    → map f (xs ++ s ∷ []) ≡ map f xs ++ f s ∷ []
map-append f [] s = refl
map-append f (x ∷ xs) s = ap (λ r. f x ∷ r) (map-append f xs s)

steps_error-IsFit :
    (g : Policies) (done before after : List PlanStep) (step : PlanStep)
    → steps_error g (step_ids done) (operation_ids done) (before ++ step ∷ after) ≡ none
    → IsFit g (done ++ before) step after
unfolding steps_error
steps_error-IsFit g done [] after step h =
    subst (λ b. IsFit g b step after) (sym (append-nil done))
      (step_error-IsFit g done after step (ground (arith, h)))
steps_error-IsFit g done (b ∷ before) after step h =
    subst (λ bs. IsFit g bs step after) (append_assoc done (b ∷ []) before)
      (steps_error-IsFit g (done ++ b ∷ []) before after step (
        subst
          (λ ids.
            steps_error g ids (operation_ids (done ++ b ∷ [])) (before ++ step ∷ after) ≡ none)
          (sym (map-append (λ s. s.step_id) done b))
          (subst
            (λ ids.
              steps_error g (step_ids done ++ b.step_id ∷ []) ids (before ++ step ∷ after) ≡ none)
            (sym (map-append (λ s. s.operation_id) done b)) (ground (arith, h)))))

-- Each step of a plan that passes the checks is fit to run after the steps before it.
pub validate-IsFit :
    (is_uuid : Text → Bool) (g : Policies) (plan : ExecutionPlan) (before after : List PlanStep)
    (step : PlanStep)
    → validate is_uuid g plan ≡ none
    → plan.steps ≡ before ++ step ∷ after
    → IsFit g before step after
unfolding validate
validate-IsFit is_uuid g plan before after step h e =
    steps_error-IsFit g [] before after step (ground (arith, h, e))
