-- ===== src/Intents/Planner/Accepted.antt =====
-- Which plans of `IntentPlanner.plan` (services/intent-compiler/src/ai_native_intents/planner.py) pass
-- the checks that `ExecutionOrchestrator._validate` makes before a run.
use linux_ai_native_system.Prelude.{
  ◌≡◌, ◌↔◌, refl, sym, ap, ◌∙◌, subst, Bool, true, false, List, [], ◌∷◌, map, any, Text, text_eq,
  text_beq_iff, Option, none, some, bool_beq_iff, arith, Option-cases, inl, inr,
}
use linux_ai_native_system.Permission.Gateway.{Policies}
use linux_ai_native_system.Orchestrator.Plans.{
  PlanStep, ExecutionPlan, ready, texts_beq, is_nil, step_of, has_duplicates, from_keys,
  steps_error, validate,
}
use linux_ai_native_system.Intents.Catalog.{OperationDefinition, make_catalog, find_operation}
use linux_ai_native_system.Intents.Graph.{OperationIntent, UserIntent, validate_graph}
use linux_ai_native_system.Intents.Planner.{
  step_for, steps_for, approval_before_last, plan_of, plan,
}
use linux_ai_native_system.Intents.Planner.References.{contains-step_of}
use linux_ai_native_system.Intents.Planner.Checks.{Covers, reads_earlier, steps_pass}

has_duplicates-step_of : (xs : List Text) → has_duplicates (map step_of xs) ≡ has_duplicates xs
unfolding has_duplicates
has_duplicates-step_of [] = refl
has_duplicates-step_of (x ∷ xs) = ground (arith, has_duplicates-step_of xs, contains-step_of xs x)

texts_beq_refl : (xs : List Text) → texts_beq xs xs ≡ true
texts_beq_refl [] = refl
texts_beq_refl (x ∷ xs) = ground (arith, texts_beq_refl xs, text_beq_iff x x)

-- The steps stand for the operations.
steps_for_ids :
    (catalog : List OperationDefinition) (ids : List Text) (os : List OperationIntent)
    (steps : List PlanStep)
    → steps_for catalog ids os ≡ some steps
    → (map (λ s. s.step_id) steps ≡ map step_of (map (λ o. o.operation_id) os))
      × (map (λ s. s.operation_id) steps ≡ map (λ o. o.operation_id) os)
      × (is_nil steps ≡ is_nil os)
unfolding steps_for step_for
steps_for_ids catalog ids [] steps made =
    let same : [] ≡ steps = ground (arith, made) in
    subst
      (λ s. (map (λ t. t.step_id) s ≡ []) × (map (λ t. t.operation_id) s ≡ []) × (is_nil s ≡ true))
      same (refl, refl, refl)
steps_for_ids catalog ids (o ∷ os) steps made =
    elim (Option-cases (find_operation o.kind catalog)) [
      | inl absent ↦ ground (arith, made, absent)
      | inr (definition, offered) ↦ elim (Option-cases (steps_for catalog ids os)) [
        | inl absent ↦ ground (arith, made, offered, absent)
        | inr (rest, more) ↦
            let (a, b, c) = steps_for_ids catalog ids os rest more in
            subst
              (λ s.
                (map (λ t. t.step_id) s ≡ map step_of (map (λ u. u.operation_id) (o ∷ os)))
                × (map (λ t. t.operation_id) s ≡ map (λ u. u.operation_id) (o ∷ os))
                × (is_nil s ≡ false))
              {x = step_for ids definition o ∷ rest} {y = steps}
              (ground (arith, made, offered, more))
              (ap (λ r. step_of o.operation_id ∷ r) a, ap (λ r. o.operation_id ∷ r) b, refl)
      ]
    ]

-- The other checks of a plan that is ready hold as it is made.
validate_steps :
    (is_uuid : Text → Bool) (g : Policies) (plan_id intent_id separately : Text)
    (question : Option Text) (ids : List Text) (steps : List PlanStep)
    → is_uuid plan_id ≡ true
    → is_uuid intent_id ≡ true
    → is_nil steps ≡ false
    → has_duplicates ids ≡ false
    → map (λ s. s.step_id) steps ≡ map step_of ids
    → map (λ s. s.operation_id) steps ≡ ids
    → (plan_of plan_id intent_id question separately steps).state ≡ ready
    → (validate is_uuid g (plan_of plan_id intent_id question separately steps) ≡ none)
      ↔ (steps_error g [] [] steps ≡ none)
unfolding validate plan_of
validate_steps is_uuid g plan_id intent_id separately question ids steps u v nonempty distinct
      step_ids operation_ids state =
    let capabilities = texts_beq_refl (from_keys (map (λ s. s.capability) steps)) in
    let flag =
      bool_beq_iff (any (λ s. s.approval_required) steps) (any (λ s. s.approval_required) steps) in
    let once = has_duplicates-step_of ids in
    (
      λ h. ground (
        arith, h, u, v, nonempty, distinct, step_ids, operation_ids, state, capabilities, flag,
        once,
      ),
      λ h. ground (
        arith, h, u, v, nonempty, distinct, step_ids, operation_ids, state, capabilities, flag,
        once,
      ),
    )

ready_approval_last :
    (plan_id intent_id separately : Text) (question : Option Text) (steps : List PlanStep)
    → (plan_of plan_id intent_id question separately steps).state ≡ ready
    → approval_before_last steps ≡ false
unfolding plan_of
ready_approval_last plan_id intent_id separately question steps h = ground (arith, h)

made_plan :
    (plan_id separately : Text) (definitions : List OperationDefinition) (question : Option Text)
    (intent : UserIntent) (made : ExecutionPlan)
    → plan plan_id separately definitions question intent ≡ some made
    → (steps : List PlanStep) × (steps_for definitions
          (map (λ o. o.operation_id) intent.operations)
          intent.operations
        ≡ some steps)
      × (made ≡ plan_of plan_id intent.intent_id question separately steps)
unfolding plan make_catalog
made_plan plan_id separately definitions question intent made h =
    let ids = map (λ (o : OperationIntent). o.operation_id) intent.operations in
    elim (Option-cases (steps_for definitions ids intent.operations)) [
      | inl absent ↦ ground (arith, h, absent)
      | inr (steps, e) ↦ (steps, e, ground (arith, h, e))
    ]

-- A plan that the planner makes ready from an intent of at least one operation, whose graph is valid
-- and whose identifier, like the plan's, is accepted as a UUID, over operations that are
-- offered as the policies say, passes the orchestrator's checks exactly when each argument that is the
-- identifier of an operation is that of an earlier one.
pub plan_passes :
    (is_uuid : Text → Bool) (g : Policies) (plan_id separately : Text)
    (definitions : List OperationDefinition) (question : Option Text) (intent : UserIntent)
    (made : ExecutionPlan)
    → is_uuid plan_id ≡ true
    → is_uuid intent.intent_id ≡ true
    → ((kind : Text) (definition : OperationDefinition)
        → find_operation kind definitions ≡ some definition
        → Covers g definition)
    → is_nil intent.operations ≡ false
    → validate_graph intent.operations ≡ none
    → plan plan_id separately definitions question intent ≡ some made
    → made.state ≡ ready
    → (validate is_uuid g made ≡ none)
      ↔ (reads_earlier (map (λ o. o.operation_id) intent.operations) [] intent.operations ≡ true)
unfolding validate_graph
plan_passes is_uuid g plan_id separately definitions question intent made u v covered nonempty graph
      h state =
    let ids = map (λ (o : OperationIntent). o.operation_id) intent.operations in
    let (steps, e, same) = made_plan plan_id separately definitions question intent made h in
    let (step_ids, operation_ids, count) =
      steps_for_ids definitions ids intent.operations steps e in
    let is_ready : (plan_of plan_id intent.intent_id question separately steps).state ≡ ready =
      subst (λ p. p.state ≡ ready) same state in
    let checks =
      validate_steps is_uuid g plan_id intent.intent_id separately question ids steps u v
        (count ∙ nonempty) (ground (arith, graph)) step_ids operation_ids is_ready in
    let loop =
      steps_pass g ids definitions [] intent.operations steps covered (λ a m. m) e
        (ground (arith, graph))
        (ready_approval_last plan_id intent.intent_id separately question steps is_ready) in
    subst (λ p. (validate is_uuid g p ≡ none) ↔ (reads_earlier ids [] intent.operations ≡ true))
      (sym same) (λ x. loop.0 (checks.0 x), λ x. checks.1 (loop.1 x))
