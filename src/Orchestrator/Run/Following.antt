-- ===== src/Orchestrator/Run/Following.antt =====
-- How the executions of a run of `ExecutionOrchestrator.execute`
-- (services/execution-orchestrator/src/ai_native_orchestrator/orchestrator.py) follow its plan.
use linux_ai_native_system.Prelude.{
  ℕ, ◌≡◌, ◌⊎◌, false, List, [], ◌∷◌, ◌++◌, Text, text_eq, none, some, Dict, length,
}
use linux_ai_native_system.Permission.Contracts.{execute}
use linux_ai_native_system.Permission.Registry.{Handler}
use linux_ai_native_system.Permission.Registry.Callers.{Called}
use linux_ai_native_system.Orchestrator.Expiring.{Store}
use linux_ai_native_system.Orchestrator.Stores.{put_session}
use linux_ai_native_system.Orchestrator.Plans.{PlanStep}
use linux_ai_native_system.Orchestrator.Contracts.{
  OrchestrationState, StepState, Output, Payload, StepExecution, OrchestrationResult,
  ApprovalSession,
}
use linux_ai_native_system.Orchestrator.Errors.{Raised}
use linux_ai_native_system.Orchestrator.World.{
  World, Moment, Ended, finished, rejected, ledger_raised, invalid_approval_id, approval_not_found,
  uncaught, invocation,
}
use linux_ai_native_system.Orchestrator.World.Recording.{InLedger}
use linux_ai_native_system.Orchestrator.Endings.{Run, execution}
use linux_ai_native_system.Orchestrator.Steps.Raising.{Blamed}
use linux_ai_native_system.Orchestrator.Steps.Outcomes.{Stops, IsOf}

module _ {C : Type 0} (r : Run) (handlers : Dict Text (Handler (Payload C) (Output C) Raised)) where
  -- A step that was completed: the handler of its capability returned the output, called in the
  -- phase EXECUTE and with no approval, and the gateway allowed that.
  pub record Performed (step : PlanStep) (e : StepExecution C) : Type 0 where
    pub moment : Moment
    pub payload : Payload C
    pub o : Output C
    pub completed : e ≡ execution step StepState.completed (some o) none
    pub called :
        Called r.policies handlers
          (invocation moment r.transport false r.plan.plan_id step execute payload)
          o

  -- The executions follow the plan: each step was performed, up to the last execution, which may be of
  -- a step that stops the run in its state.
  abbrev pub Follows : List PlanStep → List (StepExecution C) → OrchestrationState → Type 0
  Follows [] [] state = state ≡ OrchestrationState.completed
  Follows [] (e ∷ es) state = ⊥
  Follows (step ∷ steps) [] state = ⊥
  Follows (step ∷ steps) (e ∷ es) state =
      (Performed step e × Follows steps es state) ⊎ ((es ≡ []) × IsOf step e × Stops e.state state)

  -- The run waits for an answer: its session was put into the store, under the identifier of the request
  -- that the result carries.
  pub record Waits (moments : ℕ → Moment) (sessions : Store (ApprovalSession C)) (w : World C)
      (res : OrchestrationResult C) : Type 0 where
    pub i : ℕ
    pub last : i ≡ length res.steps
    pub session : ApprovalSession C
    pub requested : res.approval_request ≡ some session.request
    pub of_run : session.run_id ≡ r.run_id
    pub steps :
        res.steps
        ≡ session.prior_steps ++ execution session.step StepState.awaiting_approval none none ∷ []
    pub stored :
        w.sessions
        ≡ (put_session (moments i).stored_at session.request.approval_request_id session sessions).0

  -- What a result adds to the executions before it, and what the ledger says then.
  abbrev pub Ends :
      (ℕ → Moment)
      → Store (ApprovalSession C)
      → List PlanStep
      → List (StepExecution C)
      → World C × Ended C
      → Type 0
  Ends moments sessions steps before (w, finished res) =
      ((es : List (StepExecution C)) × (res.steps ≡ before ++ es) × Follows steps es res.state)
      × InLedger r.run_id res.state w.ledger
      × (res.state ≡ OrchestrationState.awaiting_approval → Waits moments sessions w res)
  Ends moments sessions steps before (w, ledger_raised e) = Blamed r handlers e w
  Ends moments sessions steps before (w, rejected e) = ⊥
  Ends moments sessions steps before (w, invalid_approval_id) = ⊥
  Ends moments sessions steps before (w, approval_not_found) = ⊥
  Ends moments sessions steps before (w, uncaught x) = ⊥
