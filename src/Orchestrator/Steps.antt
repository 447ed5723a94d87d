-- ===== src/Orchestrator/Steps.antt =====
-- The body of the loop of `ExecutionOrchestrator.execute`
-- (services/execution-orchestrator/src/ai_native_orchestrator/orchestrator.py).
pub mod Raising
pub mod Outcomes
pub mod Executed
use linux_ai_native_system.Prelude.{
  ℕ, suc, Bool, true, false, not, ◌||◌, ◌&&◌, all, any, List, [], ◌∷◌, ◌++◌, Text, text_eq,
  text_beq, codes, Option, none, some, Dict, lookup, assign, contains, length, ltb, nat_beq, strip,
  if◌then◌else◌,
}
use linux_ai_native_system.Permission.Contracts.{ExecutionPhase, prepare, TransportContext}
use linux_ai_native_system.Permission.Gateway.{Policies}
use linux_ai_native_system.Ledger.Contracts.{
  Database, Error, cancellation_requested, Result, ok, raised, succeeded,
}
use linux_ai_native_system.Ledger.Values.{Host}
use linux_ai_native_system.Ledger.Tasks
use linux_ai_native_system.Orchestrator.Stores.{put_session}
use linux_ai_native_system.Orchestrator.Plans.{PlanStep, ExecutionPlan, validate}
use linux_ai_native_system.Orchestrator.Contracts.{
  OrchestrationState, StepState, QueryResult, SearchOutput, PreparedOperation, Output, search,
  operation, prepared, ExecutionSnapshot, snapshot, StepExecution, OrchestrationResult,
  ApprovalRequest, TaskContext,
}
use linux_ai_native_system.Orchestrator.Errors.{
  Raised, value_error, any_other, classify_error, of_ledger, policy_code,
}
use linux_ai_native_system.Orchestrator.World.{
  World, Moment, Ended, finished, rejected, ledger_raised, Update, once, and_then, after_ledger,
  try_ledger, fail_each, invocation, Answer, output, denied, threw, ask,
}
use linux_ai_native_system.Orchestrator.Endings.{
  Run, Progress, execution, result_of, cancelled, failure,
}

-- `TaskContextStore._trusted_value` on a string; `none` where it raises `ValueError`
unfoldable pub trusted_value : (ℕ → Bool) → Text → Option Text
unfolding strip
trusted_value is_space value =
    let text = strip is_space value in
    if nat_beq (length text) 0 || ltb 4096 (length text) || any (λ c. ltb c 32) text
    then none
    else some text

-- `plan.steps` has a copy.
abbrev pub has_copy : List PlanStep → Bool
has_copy steps = any (λ s. text_beq s.capability (codes "storage.materialize.plan-copy")) steps

-- `_ledger_search_results`, from the given number of identifiers on
unfoldable pub ledger_search_results : Run → Moment → ℕ → List QueryResult → Update
ledger_search_results r m i [] db = (db, none)
ledger_search_results r m i (q ∷ qs) db =
    let kind = codes "found-file" in
    let first =
      if has_copy r.plan.steps
      then Tasks.add_reference r.host r.run_id succeeded q.path (some q.name) kind
          (m.reference_id i) m.now
      else Tasks.record_item r.host r.run_id succeeded q.path (some q.name) kind (m.reference_id i)
          m.now in
    and_then (once first) (ledger_search_results r m (suc i) qs) db

-- How the body of the loop ends: it returns or raises, or the loop goes on.
pub data Stepped (C : Type 0) : Type 0 where
  ended : Ended C → Stepped C
  continued : Progress C → Stepped C

module _ {C : Type 0} where
  abbrev pub stop : World C × Ended C → World C × Stepped C
  stop (w, e) = (w, ended e)

  -- A step that was executed, after the `try`.
  abbrev completed_step : Progress C → PlanStep → Output C → Progress C
  completed_step p step o = record p {
    done = step.step_id ∷ p.done;
    executions = p.executions ++ execution step StepState.completed (some o) none ∷ [];
  }

  -- A step that found something, once the context has the collection.
  unfoldable pub record_found :
      Run → Moment → Progress C → PlanStep → SearchOutput → World C → World C × Stepped C
  unfolding ledger_search_results
  record_found r m p step o w =
      let (w', error) = try_ledger (ledger_search_results r m 0 o.results) w in
      elim error [
        | some e ↦ (w', ended (ledger_raised e))
        | none ↦ (
          w',
          continued (record (completed_step p step (search o)) {
            selection_references = assign step.operation_id o.collection_id p.selection_references;
            active_collection_id = some o.collection_id;
          }),
        )
      ]

  -- `set_active_results`, and what follows for a step that found something.
  unfoldable pub found :
      Run → Moment → Progress C → PlanStep → SearchOutput → World C → World C × Stepped C
  unfolding trusted_value failure record_found
  found r m p step o w = elim (trusted_value r.is_space o.collection_id) [
    | none ↦ stop (failure r m p step (classify_error value_error) w)
    | some active ↦
        record_found r m p step o
          (record w { context = record w.context { active_collection_id = some active } })
  ]

  -- A step that is executed at once: what follows its dispatch.
  unfoldable pub executed :
      Run → Moment → Progress C → PlanStep → World C × Answer C → World C × Stepped C
  unfolding found
  executed r m p step (w, denied reason) = stop (failure r m p step (policy_code reason) w)
  executed r m p step (w, threw x) = stop (failure r m p step (classify_error x) w)
  executed r m p step (w, output (search o)) = found r m p step o w
  executed r m p step (w, output (operation o)) =
      (w, continued (completed_step p step (operation o)))
  executed r m p step (w, output _) = stop (failure r m p step (classify_error any_other) w)

  -- `AWAITING_APPROVAL`, once the session is in the store.
  abbrev awaiting :
      Run → Moment → Progress C → PlanStep → ApprovalRequest → World C → World C × Ended C
  awaiting r m p step approval w =
      after_ledger (once (Tasks.awaiting_approval r.run_id m.now)) w (λ w'. (
        w',
        finished
            (record (result_of r OrchestrationState.awaiting_approval
              (p.executions ++ execution step StepState.awaiting_approval none none ∷ [])) {
                pending_approval_step_ids = step.step_id ∷ [];
                active_collection_id = p.active_collection_id;
                approval_request = some approval;
              }),
      ))

  -- The session goes into the store; what it evicts has failed.
  unfoldable pub hold :
      Run → Moment → Progress C → PlanStep → PreparedOperation C → World C → World C × Ended C
  unfolding put_session failure fail_each
  hold r m p step made w =
      let approval = made.approval_request in
      let (sessions, evicted) =
        put_session m.stored_at approval.approval_request_id
          (record {
            run_id = r.run_id;
            request = approval;
            prepared = made;
            step = step;
            prior_steps = p.executions;
            active_collection_id = p.active_collection_id;
          })
          w.sessions in
      let (w', error) = try_ledger (fail_each m.now evicted) (record w { sessions = sessions }) in
      elim error [
        | some e ↦ failure r m p step (classify_error (of_ledger e)) w'
        | none ↦ awaiting r m p step approval w'
      ]

  -- A step that needs an approval: what follows its preparation.
  unfoldable pub prepared_step :
      Run → Moment → Progress C → PlanStep → World C × Answer C → World C × Ended C
  unfolding hold
  prepared_step r m p step (w, denied reason) = failure r m p step (policy_code reason) w
  prepared_step r m p step (w, threw x) = failure r m p step (classify_error x) w
  prepared_step r m p step (w, output (prepared o)) =
      if text_beq o.approval_request.plan_id r.plan.plan_id
        && text_beq o.approval_request.step_id step.step_id
      then hold r m p step o w
      else failure r m p step (classify_error any_other) w
  prepared_step r m p step (w, output _) = failure r m p step (classify_error any_other) w

  -- `raise_if_cancelled`
  abbrev cancellation : Text → World C → Option Error
  cancellation run_id w = elim w.ledger [
    | none ↦ none
    | some db ↦ elim (Tasks.raise_if_cancelled run_id db) [ raised e ↦ some e | ok u ↦ none ]
  ]

  abbrev pub snapshot_of : Run → Option Text → Progress C → ExecutionSnapshot
  snapshot_of r last_destination p = record {
    run_id = r.run_id;
    selection_references = p.selection_references;
    active_selection_id = p.active_collection_id;
    last_destination = last_destination;
  }

  -- The dispatch of a step in its first phase.
  abbrev pub asked :
      Run
      → Option Text
      → Moment
      → Progress C
      → PlanStep
      → ExecutionPhase
      → World C
      → World C × Answer C
  asked r last_destination m p step phase w = ask r.policies m w (
      invocation m r.transport false r.plan.plan_id step phase
        (snapshot (snapshot_of r last_destination p)))

  -- The body of the loop once the run is known not to be cancelled.
  unfoldable pub start_step :
      Run → Option Text → Moment → Progress C → PlanStep → World C → World C × Stepped C
  unfolding ask invocation executed prepared_step
  start_step r last_destination m p step w =
      if any (λ d. not (contains p.done d)) step.depends_on
      then stop (failure r m p step (codes "dependency_not_completed") w)
      else if step.approval_required
      then stop (prepared_step r m p step (asked r last_destination m p step prepare w))
      else executed r m p step (asked r last_destination m p step ExecutionPhase.execute w)

  -- The body of the loop.
  unfoldable pub run_step :
      Run → Option Text → Moment → Progress C → PlanStep → World C → World C × Stepped C
  unfolding start_step
  run_step r last_destination m p step w = elim (cancellation r.run_id w) [
    | none ↦ start_step r last_destination m p step w
    | some cancellation_requested ↦ stop (cancelled r m p step w)
    | some e ↦ (w, ended (ledger_raised e))
  ]
