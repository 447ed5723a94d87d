-- ===== src/Orchestrator/Run/Promises.antt =====
-- What the caller of `ExecutionOrchestrator.execute`
-- (services/execution-orchestrator/src/ai_native_orchestrator/orchestrator.py) may rely on.
use linux_ai_native_system.Prelude.{
  ℕ, ◌+◌, ◌≤◌, ◌<◌, ◌≡◌, sym, ap, subst, length, Bool, [], ◌∷◌, ◌++◌, Text, text_eq, none, some,
  arith, Option-cases, inl, inr,
}
use linux_ai_native_system.Orchestrator.Expiring.{take}
use linux_ai_native_system.Orchestrator.Expiring.Bounds.{IsValid, take-put}
use linux_ai_native_system.Orchestrator.Stores.{put_session}
use linux_ai_native_system.Orchestrator.Plans.{validate}
use linux_ai_native_system.Orchestrator.Contracts.{
  OrchestrationState, StepState, OrchestrationResult, ApprovalSession,
}
use linux_ai_native_system.Orchestrator.World.{
  World, Moment, Ended, finished, rejected, ledger_raised, invalid_approval_id, approval_not_found,
  uncaught, after_ledger,
}
use linux_ai_native_system.Orchestrator.World.Recording.{InLedger, after_ledger_either}
use linux_ai_native_system.Orchestrator.Run
use linux_ai_native_system.Orchestrator.Endings.{Run, execution}
use linux_ai_native_system.Orchestrator.Run.{others, run_steps, nothing_done, ledger_start}
use linux_ai_native_system.Orchestrator.Steps.Raising.{begins, Blamed}
use linux_ai_native_system.Orchestrator.Run.Following.{Follows, Ends}
use linux_ai_native_system.Orchestrator.Run.Results.{run_steps-Ends}

module _ {C : Type 0} (is_uuid : Text → Bool) (r : Run) (moments : ℕ → Moment) (w : World C) where
  execute-Ends :
      validate is_uuid r.policies r.plan ≡ none
      → Ends r w.registry.handlers moments w.sessions r.plan.steps []
          (Run.execute is_uuid r moments w)
  unfolding Run.execute
  execute-Ends passes =
      let goes =
        Run.run_steps r w.context.last_destination moments 1 (nothing_done w) r.plan.steps in
      subst (Ends r w.registry.handlers moments w.sessions r.plan.steps [])
        {x = after_ledger (ledger_start r (moments 0).now) w goes}
        {y = Run.execute is_uuid r moments w} (ground (arith, passes))
        (after_ledger_either (Ends r w.registry.handlers moments w.sessions r.plan.steps [])
          (ledger_start r (moments 0).now) w goes
          (λ w' g s.
            run_steps-Ends r w.registry.handlers w.context.last_destination moments w.sessions 1
              (nothing_done w) r.plan.steps w' (omega arith) (ap (λ x. x.handlers) g) s)
          (λ w' e raises. (_, begins _ (moments 0).now, raises)))

  -- What is returned, or raised, by a run of a plan that passes the checks: no exception but one that
  -- a call of the ledger raised for the run itself.
  abbrev pub Reports : World C × Ended C → Type 0
  Reports (w', finished res) = Follows r w.registry.handlers r.plan.steps res.steps res.state
  Reports (w', ledger_raised e) = Blamed r w.registry.handlers e w'
  Reports (w', rejected e) = ⊥
  Reports (w', invalid_approval_id) = ⊥
  Reports (w', approval_not_found) = ⊥
  Reports (w', uncaught x) = ⊥

  Ends-Reports :
      (x : World C × Ended C)
      → Ends r w.registry.handlers moments w.sessions r.plan.steps [] x
      → Reports x
  Ends-Reports (w', finished res) ((es, e, f), ledger, waits) =
      subst (λ xs. Follows r w.registry.handlers r.plan.steps xs res.state) (sym e) f
  Ends-Reports (w', ledger_raised e) t = t
  Ends-Reports (w', rejected e) t = t
  Ends-Reports (w', invalid_approval_id) t = t
  Ends-Reports (w', approval_not_found) t = t
  Ends-Reports (w', uncaught x) t = t

  -- Whatever the handlers return or raise and whatever other callers do to the ledger, the run of a
  -- plan that passes the checks returns a result, unless the ledger raises in one of the run's own
  -- calls: the calls that begin the run, check whether it is cancelled, record what the handler of a
  -- step found, or say how the run ends. What is raised then is the error of that call, and there is a
  -- ledger, which is as the call left it; in particular no exception of a handler is passed on. The executions in the result follow the plan's steps in order. Each but the last is of a step whose handler returned
  -- the output, called in the phase EXECUTE, with no approval, for an invocation that the gateway
  -- allowed. The run is completed exactly when that holds of every step of the plan, and otherwise its
  -- state is that of the last execution.
  pub execute_follows :
      validate is_uuid r.policies r.plan ≡ none → Reports (Run.execute is_uuid r moments w)
  execute_follows passes = Ends-Reports _ (execute-Ends passes)

  passed :
      (w' : World C) (res : OrchestrationResult C)
      → Run.execute is_uuid r moments w ≡ (w', finished res)
      → Ends r w.registry.handlers moments w.sessions r.plan.steps [] (w', finished res)
  unfolding Run.execute
  passed w' res h = elim (Option-cases (validate is_uuid r.policies r.plan)) [
    | inl passes ↦
        subst (Ends r w.registry.handlers moments w.sessions r.plan.steps []) h
          (execute-Ends passes)
    | inr (error, e) ↦ ground (arith, h, e)
  ]

  -- When a run returns a result, the ledger, where there is one, has the run's task in the state of the
  -- result.
  pub execute_recorded :
      (w' : World C) (res : OrchestrationResult C)
      → Run.execute is_uuid r moments w ≡ (w', finished res)
      → InLedger r.run_id res.state w'.ledger
  execute_recorded w' res h = (passed w' res h).1

  -- When a run over a valid store of sessions, with room for one, returns a result that awaits an
  -- approval, the store gives the session of the run to whoever asks for the request's identifier
  -- before the session's time to live is over, which counts from the reading of the clock at which
  -- the run's last step stored it: it has the run's identifier, the result's request, and the executions before the step that waits.
  pub execute_waits :
      (w' : World C) (res : OrchestrationResult C) (later : ℕ)
      → Run.execute is_uuid r moments w ≡ (w', finished res)
      → res.state ≡ OrchestrationState.awaiting_approval
      → IsValid w.sessions
      → 1 ≤ w.sessions.capacity
      → later < (moments (length res.steps)).stored_at + w.sessions.ttl
      → (s : ApprovalSession C) × (res.approval_request ≡ some s.request)
        × ((take later s.request.approval_request_id w'.sessions).1 ≡ some s)
        × (s.run_id ≡ r.run_id)
        × (res.steps ≡ s.prior_steps ++ execution s.step StepState.awaiting_approval none none ∷ [])
  unfolding put_session
  execute_waits w' res later h state valid room soon =
      let waits = (passed w' res h).2 state in
      let id = waits.session.request.approval_request_id in
      (
        waits.session,
        waits.requested,
        subst (λ ss. (take later id ss).1 ≡ some waits.session) (sym waits.stored)
            (take-put (moments waits.i).stored_at later id waits.session w.sessions valid room
              (subst (λ i. later < (moments i).stored_at + w.sessions.ttl) (sym waits.last) soon)),
        waits.of_run,
        waits.steps,
      )
