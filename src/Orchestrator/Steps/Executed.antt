-- ===== src/Orchestrator/Steps/Executed.antt =====
-- That the body of the loop of `ExecutionOrchestrator.execute`
-- (services/execution-orchestrator/src/ai_native_orchestrator/orchestrator.py) ends in one of its outcomes.
use linux_ai_native_system.Prelude.{
  ◌≡◌, refl, ap, ◌∙◌, subst, false, not, any, [], ◌∷◌, ◌++◌, Text, text_eq, codes, Option, none,
  some, contains, arith, Option-cases, Bool-cases, inl, inr,
}
use linux_ai_native_system.Permission.Contracts.{prepare, execute}
use linux_ai_native_system.Ledger.Contracts.{Error, cancellation_requested}
use linux_ai_native_system.Orchestrator.Plans.{PlanStep}
use linux_ai_native_system.Orchestrator.Contracts.{
  StepState, SearchOutput, Output, search, copy, operation, prepared, other, snapshot,
}
use linux_ai_native_system.Orchestrator.World.{
  World, Moment, ledger_raised, try_ledger, invocation, Answer, output, denied, threw,
}
use linux_ai_native_system.Orchestrator.Errors.{any_other, value_error, classify_error, policy_code}
use linux_ai_native_system.Orchestrator.World.Asking.{Asked, ask-Asked}
use linux_ai_native_system.Orchestrator.World.Recording.{try_ledger_sessions, try_ledger_registry}
use linux_ai_native_system.Orchestrator.Endings.{Run, Progress, execution, cancelled, failure}
use linux_ai_native_system.Orchestrator.Steps.{
  Stepped, ended, continued, trusted_value, ledger_search_results, stop, record_found, found,
  executed, prepared_step, cancellation, snapshot_of, asked, start_step, run_step,
}
use linux_ai_native_system.Orchestrator.World.Recording.{Raises}
use linux_ai_native_system.Orchestrator.Steps.Raising.{
  records, checks, try_ledger-Raises, cancellation-Raises,
}
use linux_ai_native_system.Orchestrator.Steps.Outcomes.{
  Went, Outcome, cancelled-Outcome, failed-Outcome, prepared-Outcome,
}

module _ {C : Type 0} (r : Run) (last_destination : Option Text) (m : Moment) (p : Progress C)
    (step : PlanStep) (w : World C) where
  -- What an executed step has of its dispatch.
  abbrev Dispatched : World C × Answer C → Type 0
  Dispatched x =
      Asked r.policies
        (invocation m r.transport false r.plan.plan_id step execute
          (snapshot (snapshot_of r last_destination p)))
        w x

  went :
      (x : World C × Answer C) (o : Output C) (w' : World C) (p' : Progress C)
      → Dispatched x
      → x.1 ≡ output o
      → w'.registry ≡ x.0.registry
      → w'.sessions ≡ x.0.sessions
      → p'.executions ≡ p.executions ++ execution step StepState.completed (some o) none ∷ []
      → Went r m p step w w' p'
  went x o w' p' a e kept same grown = record {
    o = o;
    executions = grown;
    payload = snapshot (snapshot_of r last_destination p);
    called = a.outputs o e;
    handlers = ap (λ g. g.handlers) kept ∙ a.handlers;
    sessions = same ∙ a.sessions;
  }

  -- The items are recorded, or the ledger raised.
  stored_or_raised :
      (x : World C × Answer C) (o : SearchOutput) (error : Option Error) (v : World C)
      (p' : Progress C)
      → Dispatched x
      → x.1 ≡ output (search o)
      → v.registry ≡ x.0.registry
      → v.sessions ≡ x.0.sessions
      → p'.executions
        ≡ p.executions ++ execution step StepState.completed (some (search o)) none ∷ []
      → ((e : Error) → error ≡ some e → Raises (ledger_search_results r m 0 o.results) e v)
      → Outcome r m p step w (elim error as (λ _. World C × Stepped C) [
        | some e ↦ (v, ended (ledger_raised e))
        | none ↦ (v, continued p')
      ])
  stored_or_raised x o (some e) v p' a h kept same grown raises = (
    ledger_search_results r m 0 o.results,
    records m (snapshot (snapshot_of r last_destination p)) step o (a.outputs (search o) h),
    raises e refl,
  )
  stored_or_raised x o none v p' a h kept same grown raises =
      went x (search o) v p' a h kept same grown

  record_found-Outcome :
      (x : World C × Answer C) (o : SearchOutput) (v : World C)
      → Dispatched x
      → x.1 ≡ output (search o)
      → v.registry ≡ x.0.registry
      → v.sessions ≡ x.0.sessions
      → Outcome r m p step w (record_found r m p step o v)
  unfolding record_found
  record_found-Outcome x o v a h kept same =
      let tried = try_ledger (ledger_search_results r m 0 o.results) v in
      stored_or_raised x o tried.1 tried.0 _ a h
        (try_ledger_registry (ledger_search_results r m 0 o.results) v ∙ kept)
        (try_ledger_sessions (ledger_search_results r m 0 o.results) v ∙ same) refl
        (try_ledger-Raises (ledger_search_results r m 0 o.results) v)

  found-Outcome :
      (x : World C × Answer C) (o : SearchOutput)
      → Dispatched x
      → x.1 ≡ output (search o)
      → Outcome r m p step w (found r m p step o x.0)
  unfolding found
  found-Outcome x o a h = elim (Option-cases (trusted_value r.is_space o.collection_id)) [
    | inl bad ↦
        subst (Outcome r m p step w)
          {x = stop (failure r m p step (classify_error value_error) x.0)}
          {y = found r m p step o x.0} (ground (arith, bad))
          (failed-Outcome r m p step w (classify_error value_error) x.0)
    | inr (active, good) ↦
        let v = record x.0 {
          context = record x.0.context { active_collection_id = some active };
        } in
        subst (Outcome r m p step w) {x = record_found r m p step o v} {y = found r m p step o x.0}
          (ground (arith, good)) (record_found-Outcome x o v a h refl refl)
  ]

  executed-Outcome :
      (x : World C × Answer C) → Dispatched x → Outcome r m p step w (executed r m p step x)
  unfolding executed
  executed-Outcome (v, denied reason) a = failed-Outcome r m p step w (policy_code reason) v
  executed-Outcome (v, threw x) a = failed-Outcome r m p step w (classify_error x) v
  executed-Outcome (v, output (search o)) a = found-Outcome (v, output (search o)) o a refl
  executed-Outcome (v, output (operation o)) a =
      went (v, output (operation o)) (operation o) v _ a refl refl refl refl
  executed-Outcome (v, output (copy o)) a = failed-Outcome r m p step w (classify_error any_other) v
  executed-Outcome (v, output (prepared o)) a =
      failed-Outcome r m p step w (classify_error any_other) v
  executed-Outcome (v, output other) a = failed-Outcome r m p step w (classify_error any_other) v

  start_step-Outcome : Outcome r m p step w (start_step r last_destination m p step w)
  unfolding start_step
  start_step-Outcome = elim (Bool-cases (any (λ d. not (contains p.done d)) step.depends_on)) [
    | inl misses ↦
        subst (Outcome r m p step w)
          {x = stop (failure r m p step (codes "dependency_not_completed") w)}
          {y = start_step r last_destination m p step w} (ground (arith, misses))
          (failed-Outcome r m p step w (codes "dependency_not_completed") w)
    | inr ready ↦ elim (Bool-cases step.approval_required) [
      | inl waits ↦
          subst (Outcome r m p step w)
            {x = stop (prepared_step r m p step (asked r last_destination m p step prepare w))}
            {y = start_step r last_destination m p step w} (ground (arith, ready, waits))
            (prepared-Outcome r m p step w (asked r last_destination m p step prepare w)
              (ask-Asked r.policies m w (
                invocation m r.transport false r.plan.plan_id step prepare
                  (snapshot (snapshot_of r last_destination p)))).sessions)
      | inr free ↦
          subst (Outcome r m p step w)
            {x = executed r m p step (asked r last_destination m p step execute w)}
            {y = start_step r last_destination m p step w} (ground (arith, ready, free))
            (executed-Outcome (asked r last_destination m p step execute w) (
              ask-Asked r.policies m w (
                invocation m r.transport false r.plan.plan_id step execute
                  (snapshot (snapshot_of r last_destination p)))))
    ]
  ]

  cancelled_or_raised :
      (e : Error)
      → cancellation r.run_id w ≡ some e
      → Outcome r m p step w (elim e as (λ _. World C × Stepped C) [
        | cancellation_requested ↦ stop (cancelled r m p step w)
        | x ↦ (w, ended (ledger_raised x))
      ])
  cancelled_or_raised cancellation_requested c = cancelled-Outcome r m p step w w
  cancelled_or_raised e c =
      (_, checks (λ is. ground (arith, is)), cancellation-Raises r.run_id w e c)

  started_or_not :
      (e : Option Error)
      → cancellation r.run_id w ≡ e
      → Outcome r m p step w (elim e as (λ _. World C × Stepped C) [
        | none ↦ start_step r last_destination m p step w
        | some cancellation_requested ↦ stop (cancelled r m p step w)
        | some x ↦ (w, ended (ledger_raised x))
      ])
  started_or_not none c = start_step-Outcome
  started_or_not (some e) c = cancelled_or_raised e c

  -- The body of the loop ends the run with this step's execution, which the ledger agrees with, or the
  -- ledger raises, or the step is done.
  pub run_step-Outcome : Outcome r m p step w (run_step r last_destination m p step w)
  unfolding run_step
  run_step-Outcome = started_or_not (cancellation r.run_id w) refl
