-- ===== src/Orchestrator/World.antt =====
-- What `ExecutionOrchestrator`
-- (services/execution-orchestrator/src/ai_native_orchestrator/orchestrator.py) works on: the registry
-- of handlers, the approval sessions, the task ledger, which may be absent, and the task context. The
-- audit sink is output only.
pub mod Asking
pub mod Recording
use linux_ai_native_system.Prelude.{
  ℕ, Bool, true, false, not, ◌||◌, ◌&&◌, all, any, List, [], ◌∷◌, map, Text, Option, none, some,
  length, ltb, if◌then◌else◌,
}
use linux_ai_native_system.Permission.Contracts.{
  CapabilityInvocation, ExecutionPhase, TransportContext, Reason, is_allowed, risk_value,
}
use linux_ai_native_system.Permission.Gateway.{Policies}
use linux_ai_native_system.Permission.Registry.{
  Registry, Handler, Dispatched, result, capability_busy, configuration_error, handler_raised,
  dispatch,
}
use linux_ai_native_system.Ledger.Contracts.{Database, Error, Result, ok, raised}
use linux_ai_native_system.Ledger.Tasks
use linux_ai_native_system.Orchestrator.Expiring.{Store}
use linux_ai_native_system.Orchestrator.Plans.{PlanStep, PlanError}
use linux_ai_native_system.Orchestrator.Contracts.{
  Output, Payload, OrchestrationResult, ApprovalSession, TaskContext,
}
use linux_ai_native_system.Orchestrator.Errors.{Raised, any_other, value_error}

pub record World (C : Type 0) : Type 0 where
  pub registry : Registry (Handler (Payload C) (Output C) Raised)
  pub sessions : Store (ApprovalSession C)
  pub ledger : Option Database
  pub context : TaskContext

-- What a step finds outside: what other callers have done to the ledger since the step before, the
-- clocks, of which `stored_at` is the reading of `monotonic` when a session is stored, the capability source, the scope source, and new identifiers.
pub record Moment : Type 0 where
  pub meanwhile : Database → Database
  pub now : ℕ
  pub monotonic : ℕ
  pub stored_at : ℕ
  pub reported : Option (List Text)
  pub scopes : List Text
  pub request_id : Text
  pub reference_id : ℕ → Text

-- How a call ends: with a result, or by an exception, of which `uncaught` is one of a handler that no
-- `except` stops.
pub data Ended (C : Type 0) : Type 0 where
  finished : OrchestrationResult C → Ended C
  rejected : PlanError → Ended C
  ledger_raised : Error → Ended C
  invalid_approval_id approval_not_found : Ended C
  uncaught : Raised → Ended C

-- A row of calls of the ledger: each takes effect for itself, and the first that raises ends the row.
abbrev pub Update : Type 0
Update = Database → Database × Option Error

-- one call
abbrev pub once : (Database → Result Database) → Update
once call db = elim (call db) [ raised e ↦ (db, some e) | ok db' ↦ (db', none) ]

-- one row after another
abbrev pub and_then : Update → Update → Update
and_then first second db = elim (first db).1 [
  | none ↦ second (first db).0
  | some e ↦ ((first db).0, some e)
]

module _ {C : Type 0} where
  -- Calls of the ledger, if there is one; what they raise is raised.
  unfoldable pub after_ledger : Update → World C → (World C → World C × Ended C) → World C × Ended C
  after_ledger update w k = elim w.ledger [
    | none ↦ k w
    | some db ↦ elim (update db).1 [
      | none ↦ k (record w { ledger = some (update db).0 })
      | some e ↦ (record w { ledger = some (update db).0 }, ledger_raised e)
    ]
  ]

  -- The same under a `try`: the error, if there was one.
  unfoldable pub try_ledger : Update → World C → World C × Option Error
  try_ledger update w = elim w.ledger [
    | none ↦ (w, none)
    | some db ↦ (record w { ledger = some (update db).0 }, (update db).1)
  ]

  -- `_discard_sessions`: what expired or was evicted failed
  unfoldable pub fail_each : ℕ → List (ApprovalSession C) → Update
  fail_each now [] db = (db, none)
  fail_each now (s ∷ ss) db = and_then (once (Tasks.fail s.run_id now)) (fail_each now ss) db

  -- `_invocation`
  unfoldable pub invocation :
      Moment
      → TransportContext
      → Bool
      → Text
      → PlanStep
      → ExecutionPhase
      → Payload C
      → CapabilityInvocation (Payload C)
  invocation m transport approval_granted plan_id step phase payload = record {
    request_id = m.request_id;
    plan_id = plan_id;
    step_id = step.step_id;
    capability_id = step.capability;
    phase = phase;
    arguments = step.arguments;
    declared_risk = risk_value step.risk;
    declared_approval_required = step.approval_required;
    context = record {
      transport = transport;
      granted_scopes = m.scopes;
      approval_granted = approval_granted;
    };
    deadline_monotonic = none;
    trusted_payload = some payload;
  }

-- What a dispatch comes to: an output under an allowed decision, a denial, or an exception.
pub data Answer (C : Type 0) : Type 0 where
  output : Output C → Answer C
  denied : Reason → Answer C
  threw : Raised → Answer C

module _ {C : Type 0} where
  abbrev pub answer_of : Dispatched (Output C) Raised → Answer C
  answer_of (result decision (some o)) =
      if is_allowed decision then output o else denied decision.reason_code
  answer_of (result decision none) =
      if is_allowed decision then threw any_other else denied decision.reason_code
  answer_of capability_busy = threw any_other
  answer_of configuration_error = threw value_error
  answer_of (handler_raised x) = threw x

  -- The dispatch of an invocation.
  unfoldable pub ask :
      Policies → Moment → World C → CapabilityInvocation (Payload C) → World C × Answer C
  unfolding dispatch is_allowed
  ask g m w inv =
      let (registry, dispatched) = dispatch g m.reported m.monotonic w.registry inv in
      (record w { registry = registry }, answer_of dispatched)
