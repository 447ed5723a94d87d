-- ===== src/Orchestrator/Endings.antt =====
-- The state of a run of `ExecutionOrchestrator.execute`
-- (services/execution-orchestrator/src/ai_native_orchestrator/orchestrator.py), and how a step ends it:
-- `_failure` and `_cancelled`.
use linux_ai_native_system.Prelude.{
  ℕ, Bool, List, [], ◌∷◌, ◌++◌, Text, text_eq, text_beq, codes, Option, none, some, Dict,
  if◌then◌else◌,
}
use linux_ai_native_system.Permission.Contracts.{TransportContext}
use linux_ai_native_system.Permission.Gateway.{Policies}
use linux_ai_native_system.Ledger.Values.{Host}
use linux_ai_native_system.Ledger.Tasks
use linux_ai_native_system.Orchestrator.Plans.{PlanStep, ExecutionPlan}
use linux_ai_native_system.Orchestrator.Contracts.{
  OrchestrationState, StepState, Output, StepExecution, OrchestrationResult,
}
use linux_ai_native_system.Orchestrator.World.{World, Moment, Ended, finished, once, after_ledger}

-- The variables of the loop.
pub record Progress (C : Type 0) : Type 0 where
  pub executions : List (StepExecution C)
  pub done : List Text
  pub selection_references : Dict Text Text
  pub active_collection_id : Option Text

-- What every part of a run knows.
pub record Run : Type 0 where
  pub host : Host
  pub is_space : ℕ → Bool
  pub policies : Policies
  pub transport : TransportContext
  pub run_id : Text
  pub plan : ExecutionPlan

module _ {C : Type 0} where
  -- `StepExecution(step.step_id, step.capability, …)`
  abbrev pub execution : PlanStep → StepState → Option (Output C) → Option Text → StepExecution C
  execution step state o code = record {
    step_id = step.step_id;
    capability = step.capability;
    state = state;
    output = o;
    error_code = code;
  }

  abbrev pub result_of : Run → OrchestrationState → List (StepExecution C) → OrchestrationResult C
  result_of r state steps = record {
    run_id = r.run_id;
    plan_id = r.plan.plan_id;
    state = state;
    steps = steps;
    pending_approval_step_ids = [];
    active_collection_id = none;
    diagnostics = [];
    approval_request = none;
  }

  -- `_cancelled`
  unfoldable pub cancelled : Run → Moment → Progress C → PlanStep → World C → World C × Ended C
  cancelled r m p step w = after_ledger (once (Tasks.cancelled r.run_id m.now)) w (λ w'. (
    w',
    finished (
        result_of r OrchestrationState.cancelled (
          p.executions
          ++ execution step StepState.cancelled none (some (codes "user_cancelled")) ∷ [])),
  ))

  -- `_failure`
  unfoldable pub failure : Run → Moment → Progress C → PlanStep → Text → World C → World C × Ended C
  unfolding cancelled
  failure r m p step code w =
      if text_beq code (codes "user_cancelled")
      then cancelled r m p step w
      else after_ledger (once (Tasks.fail r.run_id m.now)) w (λ w'. (
        w',
        finished
            (record (result_of r OrchestrationState.failed
              (p.executions ++ execution step StepState.failed none (some code) ∷ [])) {
                diagnostics = code ∷ [];
              }),
      ))
