-- ===== src/Orchestrator/Run.antt =====
-- `ExecutionOrchestrator.execute`
-- (services/execution-orchestrator/src/ai_native_orchestrator/orchestrator.py). Other callers may act
-- on the ledger before each step.
pub mod Following
pub mod Results
pub mod Promises
use linux_ai_native_system.Prelude.{
  ℕ, suc, Bool, true, false, not, ◌||◌, ◌&&◌, all, any, List, [], ◌∷◌, ◌++◌, Text, text_eq,
  text_beq, codes, Option, none, some, Dict, lookup, assign, contains, length, ltb, nat_beq, strip,
  if◌then◌else◌,
}
use linux_ai_native_system.Permission.Contracts.{ExecutionPhase, prepare, TransportContext}
use linux_ai_native_system.Permission.Gateway.{Policies}
use linux_ai_native_system.Ledger.Contracts.{
  Database, Error, cancellation_requested, Result, ok, raised, succeeded,
}
use linux_ai_native_system.Ledger.Values.{Host}
use linux_ai_native_system.Ledger.Tasks
use linux_ai_native_system.Orchestrator.Stores.{put_session}
use linux_ai_native_system.Orchestrator.Plans.{PlanStep, ExecutionPlan, validate}
use linux_ai_native_system.Orchestrator.Contracts.{
  OrchestrationState, StepState, QueryResult, SearchOutput, PreparedOperation, Output, search,
  operation, prepared, ExecutionSnapshot, snapshot, StepExecution, OrchestrationResult,
  ApprovalRequest, TaskContext,
}
use linux_ai_native_system.Orchestrator.Errors.{
  Raised, value_error, any_other, classify_error, of_ledger, policy_code,
}
use linux_ai_native_system.Orchestrator.World.{
  World, Moment, Ended, finished, rejected, ledger_raised, Update, once, and_then, after_ledger,
  try_ledger, fail_each, invocation, Answer, output, denied, threw, ask,
}
use linux_ai_native_system.Orchestrator.Endings.{
  Run, Progress, execution, result_of, cancelled, failure,
}
use linux_ai_native_system.Orchestrator.Steps.{Stepped, ended, continued, has_copy, run_step}

-- `_ledger_start`
unfoldable pub ledger_start : Run → ℕ → Update
ledger_start r now =
    let activity = if has_copy r.plan.steps then codes "files.copy" else codes "documents.search" in
    and_then (once (Tasks.create r.host r.run_id activity none false now))
      (once (Tasks.start r.run_id now))

module _ {C : Type 0} where
  -- other callers at work
  abbrev pub others : Moment → World C → World C
  others m w = record w { ledger = elim w.ledger [ none ↦ none | some db ↦ some (m.meanwhile db) ] }

  -- The loop and what follows it, from the given number of steps on.
  unfoldable pub run_steps :
      Run
      → Option Text
      → (ℕ → Moment)
      → ℕ
      → Progress C
      → List PlanStep
      → World C
      → World C × Ended C
  unfolding run_step
  run_steps r last_destination moments i p [] w =
      after_ledger (once (Tasks.complete r.run_id (moments i).now)) (others (moments i) w) (λ w'. (
        w',
        finished (record (result_of r OrchestrationState.completed p.executions) {
          active_collection_id = p.active_collection_id;
        }),
      ))
  run_steps r last_destination moments i p (step ∷ steps) w =
      let (w', stepped) = run_step r last_destination (moments i) p step (others (moments i) w) in
      elim stepped [
        | ended e ↦ (w', e)
        | continued p' ↦ run_steps r last_destination moments (suc i) p' steps w'
      ]

  abbrev pub nothing_done : World C → Progress C
  nothing_done w = record {
    executions = [];
    done = [];
    selection_references = [];
    active_collection_id = w.context.active_collection_id;
  }

  -- `execute`
  unfoldable pub execute : (Text → Bool) → Run → (ℕ → Moment) → World C → World C × Ended C
  unfolding validate ledger_start run_steps
  execute is_uuid r moments w = elim (validate is_uuid r.policies r.plan) [
    | some error ↦ (w, rejected error)
    | none ↦
        after_ledger (ledger_start r (moments 0).now) w
          (run_steps r w.context.last_destination moments 1 (nothing_done w) r.plan.steps)
  ]
