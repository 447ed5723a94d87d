-- ===== src/Orchestrator/Steps/Raising.antt =====
-- The calls of the ledger that `ExecutionOrchestrator.execute`
-- (services/execution-orchestrator/src/ai_native_orchestrator/orchestrator.py) makes for its own run,
-- and that do not stand under an `except`.
use linux_ai_native_system.Prelude.{
  ℕ, ◌≡◌, ◌≢◌, Text, Option, none, some, false, Dict, arith, Option-cases, inl, inr,
}
use linux_ai_native_system.Permission.Contracts.{execute}
use linux_ai_native_system.Permission.Registry.{Handler}
use linux_ai_native_system.Permission.Registry.Callers.{Called}
use linux_ai_native_system.Ledger.Contracts.{Error, cancellation_requested, ok, raised}
use linux_ai_native_system.Ledger.Tasks
use linux_ai_native_system.Orchestrator.Plans.{PlanStep}
use linux_ai_native_system.Orchestrator.Contracts.{Output, search, SearchOutput, Payload}
use linux_ai_native_system.Orchestrator.Errors.{Raised}
use linux_ai_native_system.Orchestrator.World.{
  World, Moment, Update, once, and_then, invocation, try_ledger,
}
use linux_ai_native_system.Orchestrator.World.Recording.{Raises}
use linux_ai_native_system.Orchestrator.Endings.{Run}
use linux_ai_native_system.Orchestrator.Steps.{ledger_search_results, cancellation}

-- `raise_if_cancelled`, which changes nothing
abbrev check : Text → Update
check run_id db = (
  db,
  elim (Tasks.raise_if_cancelled run_id db) as (λ _. Option Error) [
    | raised e ↦ some e
    | ok u ↦ none
  ],
)

module _ {C : Type 0} (r : Run) (handlers : Dict Text (Handler (Payload C) (Output C) Raised)) where
  -- Such a call, when it raises the error: it begins the run, checks that it is not cancelled,
  -- records what the handler of a step found, or says how the run ends.
  pub data RunCall (e : Error) : Update → Type 0 where
    begins :
        (activity : Text) (now : ℕ)
        → RunCall e (
            and_then
              (once (Tasks.create r.host r.run_id activity none false now))
              (once (Tasks.start r.run_id now)))
    checks : e ≢ cancellation_requested → RunCall e (check r.run_id)
    records :
        (m : Moment) (payload : Payload C) (step : PlanStep) (o : SearchOutput)
        → Called r.policies handlers
            (invocation m r.transport false r.plan.plan_id step execute payload)
            (search o)
        → RunCall e (ledger_search_results r m 0 o.results)
    cancels : (now : ℕ) → RunCall e (once (Tasks.cancelled r.run_id now))
    fails : (now : ℕ) → RunCall e (once (Tasks.fail r.run_id now))
    waits : (now : ℕ) → RunCall e (once (Tasks.awaiting_approval r.run_id now))
    completes : (now : ℕ) → RunCall e (once (Tasks.complete r.run_id now))

  -- One of these calls raised the error, and the ledger is as that call left it.
  abbrev pub Blamed : Error → World C → Type 0
  Blamed e w = (u : Update) × RunCall e u × Raises u e w

module _ {C : Type 0} where
  pub try_ledger-Raises :
      (u : Update) (w : World C) (e : Error)
      → (try_ledger u w).1 ≡ some e
      → Raises u e (try_ledger u w).0
  unfolding try_ledger
  try_ledger-Raises u w e h = elim (Option-cases w.ledger) [
    | inl absent ↦ ground (arith, h, absent)
    | inr (db, l) ↦ (db, ground (arith, h, l), ground (arith, l))
  ]

  pub cancellation-Raises :
      (run_id : Text) (w : World C) (e : Error)
      → cancellation run_id w ≡ some e
      → Raises (check run_id) e w
  cancellation-Raises run_id w e h = elim (Option-cases w.ledger) [
    | inl absent ↦ ground (arith, h, absent)
    | inr (db, l) ↦ (db, ground (arith, h, l), ground (arith, l))
  ]
