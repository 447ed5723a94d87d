-- ===== src/Orchestrator/Run/Results.antt =====
-- What a result of `ExecutionOrchestrator.execute`
-- (services/execution-orchestrator/src/ai_native_orchestrator/orchestrator.py) says of the run.
use linux_ai_native_system.Prelude.{
  ℕ, suc, ◌≡◌, refl, sym, ap, ◌∙◌, subst, false, List, [], ◌∷◌, ◌++◌, Text, text_eq, Option, none,
  some, Dict, length, length-append, arith, inl, inr,
}
use mathlib.Core.List.{append_assoc, append-nil}
use linux_ai_native_system.Permission.Contracts.{execute}
use linux_ai_native_system.Permission.Registry.{Handler}
use linux_ai_native_system.Permission.Registry.Callers.{Called}
use linux_ai_native_system.Ledger.Tasks
use linux_ai_native_system.Orchestrator.Expiring.{Store}
use linux_ai_native_system.Orchestrator.Stores.{put_session}
use linux_ai_native_system.Orchestrator.Plans.{PlanStep}
use linux_ai_native_system.Orchestrator.Contracts.{
  OrchestrationState, StepState, Output, Payload, OrchestrationResult, ApprovalSession,
}
use linux_ai_native_system.Orchestrator.Errors.{Raised}
use linux_ai_native_system.Orchestrator.World.{
  World, Moment, Ended, finished, rejected, ledger_raised, invalid_approval_id, approval_not_found,
  uncaught, once, after_ledger, invocation,
}
use linux_ai_native_system.Orchestrator.World.Recording.{Tells, once-Tells, complete-Recorded}
use linux_ai_native_system.Orchestrator.Endings.{Run, Progress, execution, result_of}
use linux_ai_native_system.Orchestrator.Steps.{Stepped, ended, continued, run_step}
use linux_ai_native_system.Orchestrator.Run.{others, run_steps}
use linux_ai_native_system.Orchestrator.Steps.Executed.{run_step-Outcome}
use linux_ai_native_system.Orchestrator.Steps.Raising.{completes, Blamed}
use linux_ai_native_system.Orchestrator.Steps.Outcomes.{Went, Outcome, session_of}
use linux_ai_native_system.Orchestrator.Run.Following.{Ends}

module _ {C : Type 0} (r : Run) (handlers : Dict Text (Handler (Payload C) (Output C) Raised)) where
  module _ (last_destination : Option Text) (moments : ℕ → Moment)
      (sessions : Store (ApprovalSession C)) where
    finished-Ends :
        (p : Progress C) (w : World C) (res : OrchestrationResult C) (x : World C × Ended C)
        → res.steps ≡ p.executions
        → res.state ≡ OrchestrationState.completed
        → (now : ℕ) → Tells r.run_id (once (Tasks.complete r.run_id now)) w res x
        → Ends r handlers moments sessions [] p.executions x
    finished-Ends p w res (w', finished res') steps state now (same, kept, ledger) =
        subst (λ s. Ends r handlers moments sessions [] p.executions (w', finished s)) (sym same)
          (
            ([], steps ∙ sym (append-nil p.executions), state),
            ledger,
            λ waits. ground (arith, waits, state),
          )
    finished-Ends p w res (w', ledger_raised e) steps state now t = (_, completes now, t)
    finished-Ends p w res (w', rejected e) steps state now t = t
    finished-Ends p w res (w', invalid_approval_id) steps state now t = t
    finished-Ends p w res (w', approval_not_found) steps state now t = t
    finished-Ends p w res (w', uncaught z) steps state now t = t

    further :
        (m : Moment) (p p' : Progress C) (step : PlanStep) (steps : List PlanStep) (w w' : World C)
        (x : World C × Ended C)
        → w.registry.handlers ≡ handlers
        → Went r m p step w w' p'
        → Ends r handlers moments sessions steps p'.executions x
        → Ends r handlers moments sessions (step ∷ steps) p.executions x
    further m p p' step steps w w' (v, finished res) h went ((es, e, f), ledger, waits) = (
      (
        execution step StepState.completed (some went.o) none ∷ es,
        e ∙ ap (λ xs. xs ++ es) went.executions ∙ append_assoc p.executions _ es,
        inl (
          record {
            moment = m;
            payload = went.payload;
            o = went.o;
            completed = refl;
            called =
                subst
                  (λ hs.
                    Called r.policies hs
                      (invocation m r.transport false r.plan.plan_id step execute went.payload)
                      went.o)
                  h went.called;
          },
          f,
        ),
      ),
      ledger,
      waits,
    )
    further m p p' step steps w w' (v, ledger_raised e) h went t = t
    further m p p' step steps w w' (v, rejected e) h went t = t
    further m p p' step steps w w' (v, invalid_approval_id) h went t = t
    further m p p' step steps w w' (v, approval_not_found) h went t = t
    further m p p' step steps w w' (v, uncaught z) h went t = t

    stopped :
        (i : ℕ) (p : Progress C) (step : PlanStep) (steps : List PlanStep) (w w' : World C)
        (e : Ended C)
        → i ≡ suc (length p.executions)
        → w.registry.handlers ≡ handlers
        → w.sessions ≡ sessions
        → Outcome r (moments i) p step w (w', ended e)
        → Ends r handlers moments sessions (step ∷ steps) p.executions (w', e)
    stopped i p step steps w w' (finished res) at h same s = (
      (s.last ∷ [], s.steps, inr (refl, s.is_of, s.stops)),
      s.ledger,
      λ waits.
          let held = s.held waits in
          record {
            i = i;
            last =
                at
                ∙ omega (
                  arith,
                  length-append p.executions
                      (execution step StepState.awaiting_approval none none ∷ []),
                )
                ∙ sym (ap length held.steps);
            session = session_of r p step held.made;
            requested = held.requested;
            of_run = refl;
            steps = held.steps;
            stored =
                held.stored
                ∙ ap
                    (λ ss.
                      (put_session (moments i).stored_at
                        held.made.approval_request.approval_request_id
                        (session_of r p step held.made) ss).0)
                    same;
          },
    )
    stopped i p step steps w w' (ledger_raised e) at h same s = subst (λ hs. Blamed r hs e w') h s
    stopped i p step steps w w' (rejected e) at h same s = s
    stopped i p step steps w w' invalid_approval_id at h same s = s
    stopped i p step steps w w' approval_not_found at h same s = s
    stopped i p step steps w w' (uncaught z) at h same s = s

    step_or_more :
        (i : ℕ) (p : Progress C) (step : PlanStep) (steps : List PlanStep) (w w' : World C)
        (s : Stepped C)
        → i ≡ suc (length p.executions)
        → w.registry.handlers ≡ handlers
        → w.sessions ≡ sessions
        → Outcome r (moments i) p step w (w', s)
        → ((p' : Progress C)
            → suc i ≡ suc (length p'.executions)
            → w'.registry.handlers ≡ handlers
            → w'.sessions ≡ sessions
            → Ends r handlers moments sessions steps p'.executions
                (run_steps r last_destination moments (suc i) p' steps w'))
        → Ends r handlers moments sessions
            (step ∷ steps)
            p.executions
            (elim s as (λ _. World C × Ended C) [
              | ended e ↦ (w', e)
              | continued p' ↦ run_steps r last_destination moments (suc i) p' steps w'
            ])
    step_or_more i p step steps w w' (ended e) at h same o more =
        stopped i p step steps w w' e at h same o
    step_or_more i p step steps w w' (continued p') at h same o more =
        further (moments i) p p' step steps w w'
          (run_steps r last_destination moments (suc i) p' steps w') h o
          (more p'
            (ground (
              arith,
              at,
              o.executions,
              length-append p.executions (execution step StepState.completed (some o.o) none ∷ []),
            ))
            (o.handlers ∙ h) (o.sessions ∙ same))

    pub run_steps-Ends :
        (i : ℕ) (p : Progress C) (steps : List PlanStep) (w : World C)
        → i ≡ suc (length p.executions)
        → w.registry.handlers ≡ handlers
        → w.sessions ≡ sessions
        → Ends r handlers moments sessions steps p.executions
            (run_steps r last_destination moments i p steps w)
    unfolding run_steps
    run_steps-Ends i p [] w at h same =
        let res : OrchestrationResult C =
          record (result_of r OrchestrationState.completed p.executions) {
            active_collection_id = p.active_collection_id;
          } in
        let now = (moments i).now in
        finished-Ends p (others (moments i) w) res
          (after_ledger (once (Tasks.complete r.run_id now)) (others (moments i) w)
            (λ w'. (w', finished res)))
          refl refl now
          (once-Tells r.run_id (Tasks.complete r.run_id now) (others (moments i) w) res
            (λ db db' c. complete-Recorded r.run_id now db db' c))
    run_steps-Ends i p (step ∷ steps) w at h same =
        let v = others (moments i) w in
        let done = run_step r last_destination (moments i) p step v in
        step_or_more i p step steps v done.0 done.1 at h same
          (run_step-Outcome r last_destination (moments i) p step v)
          (λ p' next k kept. run_steps-Ends (suc i) p' steps done.0 next k kept)
