-- ===== src/Orchestrator/Steps/Outcomes.antt =====
-- How the body of the loop of `ExecutionOrchestrator.execute`
-- (services/execution-orchestrator/src/ai_native_orchestrator/orchestrator.py) can end.
use linux_ai_native_system.Prelude.{
  ◌≡◌, refl, sym, ap, ◌∙◌, subst, false, ◌&&◌, [], ◌∷◌, ◌++◌, Text, text_eq, text_beq, codes,
  Option, none, some, arith, Bool-cases, inl, inr,
}
use linux_ai_native_system.Permission.Contracts.{execute}
use linux_ai_native_system.Permission.Registry.Callers.{Called}
use linux_ai_native_system.Ledger.Contracts.{Error}
use linux_ai_native_system.Ledger.Tasks
use linux_ai_native_system.Orchestrator.Stores.{put_session}
use linux_ai_native_system.Orchestrator.Plans.{PlanStep}
use linux_ai_native_system.Orchestrator.Contracts.{
  OrchestrationState, StepState, PreparedOperation, Output, search, copy, operation, prepared,
  other, Payload, StepExecution, OrchestrationResult, ApprovalSession,
}
use linux_ai_native_system.Orchestrator.World.{
  World, Moment, Ended, finished, rejected, ledger_raised, invalid_approval_id, approval_not_found,
  uncaught, Update, once, after_ledger, try_ledger, fail_each, invocation, Answer, output, denied,
  threw,
}
use linux_ai_native_system.Orchestrator.Errors.{any_other, classify_error, of_ledger, policy_code}
use linux_ai_native_system.Orchestrator.World.Recording.{
  InLedger, try_ledger_sessions, Tells, once-Tells, fail-Recorded, cancelled-Recorded,
  awaiting_approval-Recorded,
}
use linux_ai_native_system.Orchestrator.Endings.{
  Run, Progress, execution, result_of, cancelled, failure,
}
use linux_ai_native_system.Orchestrator.Steps.Raising.{RunCall, cancels, fails, Blamed}
use linux_ai_native_system.Orchestrator.Steps.{
  Stepped, ended, continued, stop, awaiting, hold, prepared_step,
}

-- The state of a run whose last step has the given state, which is not `completed`.
abbrev pub Stops : StepState → OrchestrationState → Type 0
Stops StepState.awaiting_approval OrchestrationState.awaiting_approval = Unit
Stops StepState.failed OrchestrationState.failed = Unit
Stops StepState.cancelled OrchestrationState.cancelled = Unit
Stops _ _ = ⊥

module _ {C : Type 0} where
  -- The execution names the step and its capability.
  abbrev pub IsOf : PlanStep → StepExecution C → Type 0
  IsOf step e = (e.step_id ≡ step.step_id) × (e.capability ≡ step.capability)

  -- The session that a step leaves in the store.
  abbrev pub session_of : Run → Progress C → PlanStep → PreparedOperation C → ApprovalSession C
  session_of r p step made = record {
    run_id = r.run_id;
    request = made.approval_request;
    prepared = made;
    step = step;
    prior_steps = p.executions;
    active_collection_id = p.active_collection_id;
  }

module _ {C : Type 0} (r : Run) (m : Moment) (p : Progress C) (step : PlanStep) (w : World C) where
  -- The session was put into the store under the request that the result carries.
  pub record Held (w' : World C) (res : OrchestrationResult C) : Type 0 where
    pub made : PreparedOperation C
    pub requested : res.approval_request ≡ some made.approval_request
    pub steps :
        res.steps ≡ p.executions ++ execution step StepState.awaiting_approval none none ∷ []
    pub stored :
        w'.sessions
        ≡ (put_session m.stored_at made.approval_request.approval_request_id
            (session_of r p step made)
            w.sessions).0

  -- The run ends with this step, and the ledger says how.
  pub record Stopped (w' : World C) (res : OrchestrationResult C) : Type 0 where
    pub last : StepExecution C
    pub steps : res.steps ≡ p.executions ++ last ∷ []
    pub is_of : IsOf step last
    pub stops : Stops last.state res.state
    pub ledger : InLedger r.run_id res.state w'.ledger
    pub held : res.state ≡ OrchestrationState.awaiting_approval → Held w' res

  -- The step is done: its handler returned the output.
  pub record Went (w' : World C) (p' : Progress C) : Type 0 where
    pub o : Output C
    pub executions :
        p'.executions ≡ p.executions ++ execution step StepState.completed (some o) none ∷ []
    pub payload : Payload C
    pub called :
        Called r.policies w.registry.handlers
          (invocation m r.transport false r.plan.plan_id step execute payload)
          o
    pub handlers : w'.registry.handlers ≡ w.registry.handlers
    pub sessions : w'.sessions ≡ w.sessions

  abbrev pub Outcome : World C × Stepped C → Type 0
  Outcome (w', continued p') = Went w' p'
  Outcome (w', ended (finished res)) = Stopped w' res
  Outcome (w', ended (ledger_raised e)) = Blamed r w.registry.handlers e w'
  Outcome (w', ended (rejected e)) = ⊥
  Outcome (w', ended invalid_approval_id) = ⊥
  Outcome (w', ended approval_not_found) = ⊥
  Outcome (w', ended (uncaught x)) = ⊥

  -- A call of the run that tells a result which ends with the step.
  Tells-Outcome :
      (u : Update) (v : World C) (res : OrchestrationResult C) (last : StepExecution C)
      → res.steps ≡ p.executions ++ last ∷ []
      → IsOf step last
      → Stops last.state res.state
      → ((e : Error) → RunCall r w.registry.handlers e u)
      → ((w' : World C)
          → w'.sessions ≡ v.sessions
          → res.state ≡ OrchestrationState.awaiting_approval
          → Held w' res)
      → (x : World C × Ended C) → Tells r.run_id u v res x
      → Outcome (stop x)
  Tells-Outcome u v res last steps is_of stops by held (w', finished res') (same, kept, ledger) =
      subst (λ s. Stopped w' s) (sym same)
        (record {
          last = last;
          steps = steps;
          is_of = is_of;
          stops = stops;
          ledger = ledger;
          held = held w' kept;
        })
  Tells-Outcome u v res last steps is_of stops by held (w', ledger_raised e) t = (u, by e, t)
  Tells-Outcome u v res last steps is_of stops by held (w', rejected e) t = t
  Tells-Outcome u v res last steps is_of stops by held (w', invalid_approval_id) t = t
  Tells-Outcome u v res last steps is_of stops by held (w', approval_not_found) t = t
  Tells-Outcome u v res last steps is_of stops by held (w', uncaught x) t = t

  pub cancelled-Outcome : (v : World C) → Outcome (stop (cancelled r m p step v))
  unfolding cancelled
  cancelled-Outcome v =
      let last = execution step StepState.cancelled none (some (codes "user_cancelled")) in
      let res = result_of r OrchestrationState.cancelled (p.executions ++ last ∷ []) in
      Tells-Outcome (once (Tasks.cancelled r.run_id m.now)) v res last refl (refl, refl) tt
        (λ e. cancels m.now) (λ w' e s. ground (arith, s)) _
        (once-Tells r.run_id (Tasks.cancelled r.run_id m.now) v res
          (λ db db' h. cancelled-Recorded r.run_id m.now db db' h))

  pub failed-Outcome : (code : Text) (v : World C) → Outcome (stop (failure r m p step code v))
  unfolding failure
  failed-Outcome code v = elim (Bool-cases (text_beq code (codes "user_cancelled"))) [
    | inl is ↦ subst (λ x. Outcome (stop x)) (ground (arith, is)) (cancelled-Outcome v)
    | inr not_so ↦
        let last = execution step StepState.failed none (some code) in
        let res : OrchestrationResult C =
          record (result_of r OrchestrationState.failed (p.executions ++ last ∷ [])) {
            diagnostics = code ∷ [];
          } in
        let told = after_ledger (once (Tasks.fail r.run_id m.now)) v (λ w'. (w', finished res)) in
        subst (λ x. Outcome (stop x)) {x = told} {y = failure r m p step code v}
          (ground (arith, not_so))
          (Tells-Outcome (once (Tasks.fail r.run_id m.now)) v res last refl (refl, refl) tt
            (λ e. fails m.now) (λ w' e s. ground (arith, s)) told
            (once-Tells r.run_id (Tasks.fail r.run_id m.now) v res
              (λ db db' h. fail-Recorded r.run_id m.now db db' h)))
  ]

  held_or_failed :
      (made : PreparedOperation C) (error : Option Error) (v : World C)
      → v.sessions
        ≡ (put_session m.stored_at made.approval_request.approval_request_id
            (session_of r p step made)
            w.sessions).0
      → Outcome (
          stop (elim error as (λ _. World C × Ended C) [
            | some e ↦ failure r m p step (classify_error (of_ledger e)) v
            | none ↦ awaiting r m p step made.approval_request v
          ]))
  held_or_failed made (some e) v stored = failed-Outcome (classify_error (of_ledger e)) v
  held_or_failed made none v stored =
      let last = execution step StepState.awaiting_approval none none in
      let res : OrchestrationResult C =
        record (result_of r OrchestrationState.awaiting_approval (p.executions ++ last ∷ [])) {
          pending_approval_step_ids = step.step_id ∷ [];
          active_collection_id = p.active_collection_id;
          approval_request = some made.approval_request;
        } in
      Tells-Outcome (once (Tasks.awaiting_approval r.run_id m.now)) v res last refl (refl, refl) tt
        (λ e. RunCall.waits m.now)
        (λ w' kept s. record {
          made = made;
          requested = refl;
          steps = refl;
          stored = kept ∙ stored;
        })
        (after_ledger (once (Tasks.awaiting_approval r.run_id m.now)) v (λ w'. (w', finished res)))
        (once-Tells r.run_id (Tasks.awaiting_approval r.run_id m.now) v res
          (λ db db' h. awaiting_approval-Recorded r.run_id m.now db db' h))

  hold-Outcome :
      (made : PreparedOperation C) (v : World C)
      → v.sessions ≡ w.sessions
      → Outcome (stop (hold r m p step made v))
  unfolding hold
  hold-Outcome made v same =
      let put =
        put_session m.stored_at made.approval_request.approval_request_id
          (session_of r p step made) in
      let tried =
        try_ledger (fail_each m.now (put v.sessions).1)
          (record v { sessions = (put v.sessions).0 }) in
      held_or_failed made tried.1 tried.0 (
        try_ledger_sessions (fail_each m.now (put v.sessions).1)
          (record v { sessions = (put v.sessions).0 })
        ∙ ap (λ s. (put s).0) same)

  pub prepared-Outcome :
      (x : World C × Answer C)
      → x.0.sessions ≡ w.sessions
      → Outcome (stop (prepared_step r m p step x))
  unfolding prepared_step
  prepared-Outcome (v, denied reason) same = failed-Outcome (policy_code reason) v
  prepared-Outcome (v, threw x) same = failed-Outcome (classify_error x) v
  prepared-Outcome (v, output (prepared made)) same =
      elim (Bool-cases (
        text_beq made.approval_request.plan_id r.plan.plan_id
        && text_beq made.approval_request.step_id step.step_id)) [
          | inl fits ↦
              subst (λ x. Outcome (stop x)) {x = hold r m p step made v}
                {y = prepared_step r m p step (v, output (prepared made))} (ground (arith, fits))
                (hold-Outcome made v same)
          | inr differs ↦
              subst (λ x. Outcome (stop x)) {x = failure r m p step (classify_error any_other) v}
                {y = prepared_step r m p step (v, output (prepared made))} (ground (arith, differs))
                (failed-Outcome (classify_error any_other) v)
        ]
  prepared-Outcome (v, output (search o)) same = failed-Outcome (classify_error any_other) v
  prepared-Outcome (v, output (copy o)) same = failed-Outcome (classify_error any_other) v
  prepared-Outcome (v, output (operation o)) same = failed-Outcome (classify_error any_other) v
  prepared-Outcome (v, output other) same = failed-Outcome (classify_error any_other) v
