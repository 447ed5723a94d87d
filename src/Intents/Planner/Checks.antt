-- ===== src/Intents/Planner/Checks.antt =====
-- The checks of each step (`ExecutionOrchestrator._validate`) on the steps that `IntentPlanner.plan`
-- (services/intent-compiler/src/ai_native_intents/planner.py) makes.
use linux_ai_native_system.Prelude.{
  ◌≡◌, ◌↔◌, refl, sym, ap, subst, Bool, true, false, not, ◌&&◌, List, [], ◌∷◌, ◌++◌, map, any, all,
  Text, text_eq, text_beq_iff, codes, Option, none, some, is_some, lookup, contains,
  contains-append, all_of_contains, bool_beq_iff, if◌then◌else◌, arith, Option-cases, inl, inr,
}
use linux_ai_native_system.Permission.Contracts.{
  JsonValue, str, CapabilityPolicy, prepare, execute, rule_for, risk_value,
}
use linux_ai_native_system.Permission.Gateway.{Policies, policy}
use linux_ai_native_system.Orchestrator.Plans.{
  PlanStep, is_nil, step_of, from_keys, misses_result, policy_error, step_error, steps_error,
}
use linux_ai_native_system.Intents.Catalog.{OperationDefinition, find_operation}
use linux_ai_native_system.Intents.Graph.{OperationIntent, operations_error}
use linux_ai_native_system.Intents.Planner.{references, step_for, steps_for, approval_before_last}
use linux_ai_native_system.Intents.Planner.References.{
  contains-step_of, contains-from_keys, earlier_steps, contains-references, all_contained,
  none_missing,
}

-- The operation is offered with the risk and the need of approval of its capability's policy, which has
-- a rule for the phase that its step begins with.
pub record Covers (g : Policies) (definition : OperationDefinition) : Type 0 where
  pub p : CapabilityPolicy
  pub configured : policy g definition.capability_id ≡ some p
  pub risk : risk_value definition.risk ≡ risk_value p.risk
  pub approval : definition.approval_required ≡ p.plan_approval_required
  pub phase :
      is_some (rule_for p (if definition.approval_required then prepare else execute)) ≡ true

-- Each argument of an operation that is an operation's identifier is that of an earlier one.
unfoldable pub reads_earlier : List Text → List Text → List OperationIntent → Bool
reads_earlier ids seen [] = true
reads_earlier ids seen (o ∷ os) =
    all (λ v. contains seen v) (references ids o.arguments)
    && reads_earlier ids (seen ++ o.operation_id ∷ []) os

module _ (g : Policies) (ids : List Text) where
  depends_earlier :
      (definition : OperationDefinition) (seen : List Text) (o : OperationIntent)
      → any (λ d. not (contains seen d)) o.depends_on ≡ false
      → all (λ v. contains seen v) (references ids o.arguments) ≡ true
      → any (λ d. not (contains (map step_of seen) d)) (step_for ids definition o).depends_on
        ≡ false
  unfolding step_for
  depends_earlier definition seen o depends reads =
      earlier_steps seen (from_keys (o.depends_on ++ references ids o.arguments)) (λ a m. ground (
        arith,
        m,
        contains-from_keys (o.depends_on ++ references ids o.arguments) a,
        contains-append o.depends_on (references ids o.arguments) a,
        none_missing seen o.depends_on a depends,
        all_contained seen (references ids o.arguments) a reads,
      ))

  depends_on_reference :
      (definition : OperationDefinition) (o : OperationIntent) (value : Text)
      → contains (references ids o.arguments) value ≡ true
      → contains (step_for ids definition o).depends_on (step_of value) ≡ true
  unfolding step_for
  depends_on_reference definition o value m = ground (
    arith,
    m,
    contains-step_of (from_keys (o.depends_on ++ references ids o.arguments)) value,
    contains-from_keys (o.depends_on ++ references ids o.arguments) value,
    contains-append o.depends_on (references ids o.arguments) value,
  )

  misses_nothing :
      (definition : OperationDefinition) (seen : List Text) (o : OperationIntent)
      → ((a : Text) → contains seen a ≡ true → contains ids a ≡ true)
      → misses_result seen (step_for ids definition o) ≡ false
  unfolding misses_result step_for
  misses_nothing definition seen o known = at (lookup (codes "results_from") o.arguments) refl
    where
      at :
          (found : Option JsonValue)
          → lookup (codes "results_from") o.arguments ≡ found
          → elim found as (λ _. Bool) [
            | some (str reference) ↦
                contains seen reference
                && not (
                    contains
                      (map step_of (from_keys (o.depends_on ++ references ids o.arguments)))
                      (step_of reference))
            | _ ↦ false
          ]
            ≡ false
      at none e = refl
      at (some (str reference)) e = ground (
        arith,
        known reference,
        contains-references ids o.arguments (codes "results_from") reference e,
        depends_on_reference definition o reference,
      )
      at (some _) e = refl

  -- The checks of one step.
  step_passes :
      (definition : OperationDefinition) (seen : List Text) (is_last : Bool) (o : OperationIntent)
      → Covers g definition
      → ((a : Text) → contains seen a ≡ true → contains ids a ≡ true)
      → any (λ d. not (contains seen d)) o.depends_on ≡ false
      → all (λ v. contains seen v) (references ids o.arguments) ≡ true
      → definition.approval_required && not is_last ≡ false
      → step_error g (map step_of seen) seen is_last (step_for ids definition o) ≡ none
  unfolding step_error policy_error step_for
  step_passes definition seen is_last o c known depends reads final = ground (
    arith,
    depends_earlier definition seen o depends reads,
    misses_nothing definition seen o known,
    c.configured,
    c.risk,
    c.approval,
    c.phase,
    final,
    text_beq_iff (step_of o.operation_id) (step_of o.operation_id),
    text_beq_iff (risk_value definition.risk) (risk_value c.p.risk),
    bool_beq_iff definition.approval_required c.p.plan_approval_required,
  )

  -- A step whose checks pass reads earlier operations only.
  passing_reads :
      (definition : OperationDefinition) (seen : List Text) (is_last : Bool) (o : OperationIntent)
      → step_error g (map step_of seen) seen is_last (step_for ids definition o) ≡ none
      → all (λ v. contains seen v) (references ids o.arguments) ≡ true
  unfolding step_error step_for
  passing_reads definition seen is_last o h =
      let deps = from_keys (o.depends_on ++ references ids o.arguments) in
      let earlier : any (λ d. not (contains (map step_of seen) d)) (map step_of deps) ≡ false =
        ground (arith, h) in
      all_of_contains (λ v. contains seen v) (references ids o.arguments)
        (λ v m. ground (
          arith,
          contains-step_of seen v,
          none_missing (map step_of seen) (map step_of deps) (step_of v) earlier
              (depends_on_reference definition o v m),
        ))

  approval_last :
      (step : PlanStep) (steps : List PlanStep)
      → approval_before_last (step ∷ steps) ≡ false
      → (step.approval_required && not (is_nil steps) ≡ false)
        × (approval_before_last steps ≡ false)
  unfolding approval_before_last
  approval_last step [] h = (ground arith, refl)
  approval_last step (next ∷ steps) h = (ground (arith, h), ground (arith, h))

  map-snoc :
      (seen : List Text) (a : Text)
      → map step_of (seen ++ a ∷ []) ≡ map step_of seen ++ step_of a ∷ []
  map-snoc [] a = refl
  map-snoc (x ∷ xs) a = ap (λ r. step_of x ∷ r) (map-snoc xs a)

  -- The checks of all steps.
  pub steps_pass :
      (catalog : List OperationDefinition) (seen : List Text) (os : List OperationIntent)
      (steps : List PlanStep)
      → ((kind : Text) (definition : OperationDefinition)
          → find_operation kind catalog ≡ some definition
          → Covers g definition)
      → ((a : Text)
          → contains (seen ++ map (λ o. o.operation_id) os) a ≡ true
          → contains ids a ≡ true)
      → steps_for catalog ids os ≡ some steps
      → operations_error seen os ≡ none
      → approval_before_last steps ≡ false
      → (steps_error g (map step_of seen) seen steps ≡ none) ↔ (reads_earlier ids seen os ≡ true)
  unfolding steps_for steps_error operations_error reads_earlier step_for
  steps_pass catalog seen [] steps covered known made graph last = (
    λ h. refl,
    λ h.
        subst (λ s. steps_error g (map step_of seen) seen s ≡ none) {x = []} {y = steps}
          (ground (arith, made)) refl,
  )
  steps_pass catalog seen (o ∷ os) steps covered known made graph last =
      elim (Option-cases (find_operation o.kind catalog)) [
        | inl absent ↦ ground (arith, made, absent)
        | inr (definition, offered) ↦ elim (Option-cases (steps_for catalog ids os)) [
          | inl absent ↦ ground (arith, made, offered, absent)
          | inr (rest, more) ↦
              let same : step_for ids definition o ∷ rest ≡ steps =
                ground (arith, made, offered, more) in
              let (final, later) =
                approval_last (step_for ids definition o) rest
                  (subst (λ s. approval_before_last s ≡ false) (sym same) last) in
              let next =
                steps_pass catalog (seen ++ o.operation_id ∷ []) os rest covered
                  (λ a m. known a (
                    ground (
                      arith,
                      m,
                      contains-append seen (o.operation_id ∷ []) a,
                      contains-append (seen ++ o.operation_id ∷ []) (map (λ u. u.operation_id) os)
                          a,
                      contains-append seen (o.operation_id ∷ map (λ u. u.operation_id) os) a,
                    )))
                  more (ground (arith, graph)) later in
              let inside : (a : Text) → contains seen a ≡ true → contains ids a ≡ true = λ a m.
                known a (
                  ground (
                    arith,
                    m,
                    contains-append seen (o.operation_id ∷ map (λ u. u.operation_id) os) a,
                  )) in
              subst
                (λ s.
                  (steps_error g (map step_of seen) seen s ≡ none)
                  ↔ (reads_earlier ids seen (o ∷ os) ≡ true))
                same
                (
                  λ h. ground (
                    arith,
                    passing_reads definition seen (is_nil rest) o (ground (arith, h)),
                    next.0 (ground (arith, h, map-snoc seen o.operation_id)),
                  ),
                  λ h. ground (
                    arith,
                    h,
                    step_passes definition seen (is_nil rest) o (covered o.kind definition offered)
                        inside (ground (arith, graph)) (ground (arith, h)) final,
                    next.1 (ground (arith, h)),
                    map-snoc seen o.operation_id,
                  ),
                )
        ]
      ]
