-- ===== src/Orchestrator/Answers/Replies.antt =====
-- What follows an answer that claims a session, in `ExecutionOrchestrator.respond_to_approval`
-- (services/execution-orchestrator/src/ai_native_orchestrator/orchestrator.py).
use linux_ai_native_system.Prelude.{
  ◌≡◌, refl, sym, ap, ◌∙◌, subst, true, [], ◌∷◌, ◌++◌, Text, text_eq, codes, Option, none, some,
  arith,
}
use linux_ai_native_system.Permission.Contracts.{commit}
use linux_ai_native_system.Permission.Registry.Callers.{Called}
use linux_ai_native_system.Ledger.Contracts.{Error}
use linux_ai_native_system.Ledger.Tasks
use linux_ai_native_system.Orchestrator.Contracts.{
  OrchestrationState, StepState, Output, search, copy, operation, prepared, other, commit_of,
  OrchestrationResult, ApprovalSession,
}
use linux_ai_native_system.Orchestrator.Errors.{any_other, classify_error, of_ledger, policy_code}
use linux_ai_native_system.Orchestrator.World.{
  World, Moment, Ended, finished, rejected, ledger_raised, invalid_approval_id, approval_not_found,
  uncaught, Update, once, and_then, after_ledger, try_ledger, invocation, Answer, output, denied,
  threw, ask,
}
use linux_ai_native_system.Orchestrator.World.Asking.{ask-Asked}
use linux_ai_native_system.Orchestrator.World.Recording.{
  InLedger, Recorded, Tells, once-Tells, after_ledger-Tells, and_then_once, fail-Recorded,
  cancelled-Recorded, complete-Recorded, try_ledger_registry,
}
use linux_ai_native_system.Orchestrator.Endings.{execution}
use linux_ai_native_system.Orchestrator.Answers.{
  Response, answered, decline, commit_failed, record_output, committed, commit_answer, confirm,
}

module _ {C : Type 0} (r : Response) (m : Moment) (s : ApprovalSession C) (w : World C) where
  -- The answer was a confirmation, and the handler of the step's capability returned the output that
  -- the result ends with: it was called in the phase COMMIT on what was prepared, with the approval,
  -- and the gateway allowed that.
  pub record Commits (res : OrchestrationResult C) : Type 0 where
    pub confirmed : r.confirmed ≡ true
    pub o : Output C
    pub steps : res.steps ≡ s.prior_steps ++ execution s.step StepState.completed (some o) none ∷ []
    pub called :
        Called r.policies w.registry.handlers
          (invocation m r.transport true s.request.plan_id s.step commit
            (commit_of s.prepared.commit_payload))
          o

  -- A result for the session, with a ledger that agrees with it.
  abbrev pub Replies : World C × Ended C → Type 0
  Replies (w', finished res) =
      (res.run_id ≡ s.run_id)
      × InLedger s.run_id res.state w'.ledger
      × (res.state ≡ OrchestrationState.completed → Commits res)
  Replies (w', ledger_raised e) = Unit
  Replies (w', rejected e) = ⊥
  Replies (w', invalid_approval_id) = ⊥
  Replies (w', approval_not_found) = ⊥
  Replies (w', uncaught x) = ⊥

  Tells-Replies :
      (u : Update) (v : World C) (res : OrchestrationResult C)
      → res.run_id ≡ s.run_id
      → (res.state ≡ OrchestrationState.completed → Commits res)
      → (x : World C × Ended C) → Tells s.run_id u v res x
      → Replies x
  Tells-Replies u v res of_run commits (w', finished res') (same, kept, ledger) =
      subst (λ q. Replies (w', finished q)) (sym same) (of_run, ledger, commits)
  Tells-Replies u v res of_run commits (w', ledger_raised e) t = tt
  Tells-Replies u v res of_run commits (w', rejected e) t = t
  Tells-Replies u v res of_run commits (w', invalid_approval_id) t = t
  Tells-Replies u v res of_run commits (w', approval_not_found) t = t
  Tells-Replies u v res of_run commits (w', uncaught x) t = t

  pub decline-Replies : (v : World C) → Replies (decline m s v)
  unfolding decline
  decline-Replies v =
      let res : OrchestrationResult C =
        answered s OrchestrationState.cancelled StepState.cancelled none
          (some (codes "user_declined")) (codes "user_declined" ∷ []) in
      Tells-Replies _ v res refl (λ e. ground (arith, e))
        (after_ledger (once (Tasks.cancelled s.run_id m.now)) v (λ w'. (w', finished res)))
        (once-Tells s.run_id (Tasks.cancelled s.run_id m.now) v res
          (λ db db' h. cancelled-Recorded s.run_id m.now db db' h))

  failed-Replies : (code : Text) (v : World C) → Replies (commit_failed m s code v)
  unfolding commit_failed
  failed-Replies code v =
      let res : OrchestrationResult C =
        answered s OrchestrationState.failed StepState.failed none (some code) (code ∷ []) in
      Tells-Replies _ v res refl (λ e. ground (arith, e))
        (after_ledger (once (Tasks.fail s.run_id m.now)) v (λ w'. (w', finished res)))
        (once-Tells s.run_id (Tasks.fail s.run_id m.now) v res
          (λ db db' h. fail-Recorded s.run_id m.now db db' h))

  committed-Replies :
      (o : Output C) (v : World C)
      → ((res : OrchestrationResult C)
          → res.steps ≡ s.prior_steps ++ execution s.step StepState.completed (some o) none ∷ []
          → Commits res)
      → Replies (committed r m s o v)
  unfolding committed
  committed-Replies o v commits =
      let res : OrchestrationResult C =
        answered s OrchestrationState.completed StepState.completed (some o) none [] in
      Tells-Replies _ v res refl (λ e. commits res refl)
        (after_ledger
          (and_then (record_output r.host s.run_id m o) (once (Tasks.complete s.run_id m.now))) v
          (λ w'. (w', finished res)))
        (after_ledger-Tells s.run_id
          (and_then (record_output r.host s.run_id m o) (once (Tasks.complete s.run_id m.now))) v
          res
          (and_then_once (record_output r.host s.run_id m o) (Tasks.complete s.run_id m.now)
            (Recorded s.run_id OrchestrationState.completed)
            (λ db db' h. complete-Recorded s.run_id m.now db db' h)))

  commits :
      (x : World C × Answer C) (o : Output C)
      → r.confirmed ≡ true
      → ((u : Output C)
          → x.1 ≡ output u
          → Called r.policies w.registry.handlers
              (invocation m r.transport true s.request.plan_id s.step commit
                (commit_of s.prepared.commit_payload))
              u)
      → x.1 ≡ output o
      → (res : OrchestrationResult C)
      → res.steps ≡ s.prior_steps ++ execution s.step StepState.completed (some o) none ∷ []
      → Commits res
  commits x o y called e res steps = record {
    confirmed = y;
    o = o;
    steps = steps;
    called = called o e;
  }

  commit_answer-Replies :
      (x : World C × Answer C)
      → r.confirmed ≡ true
      → ((u : Output C)
          → x.1 ≡ output u
          → Called r.policies w.registry.handlers
              (invocation m r.transport true s.request.plan_id s.step commit
                (commit_of s.prepared.commit_payload))
              u)
      → Replies (commit_answer r m s x)
  unfolding commit_answer
  commit_answer-Replies (v, denied reason) y called = failed-Replies (policy_code reason) v
  commit_answer-Replies (v, threw x) y called = failed-Replies (classify_error x) v
  commit_answer-Replies (v, output (copy o)) y called =
      committed-Replies (copy o) v (commits (v, output (copy o)) (copy o) y called refl)
  commit_answer-Replies (v, output (operation o)) y called =
      committed-Replies (operation o) v
        (commits (v, output (operation o)) (operation o) y called refl)
  commit_answer-Replies (v, output (search o)) y called =
      failed-Replies (classify_error any_other) v
  commit_answer-Replies (v, output (prepared o)) y called =
      failed-Replies (classify_error any_other) v
  commit_answer-Replies (v, output other) y called = failed-Replies (classify_error any_other) v

  -- A confirmation, once the ledger was told of it.
  received_or_not :
      (error : Option Error) (v : World C)
      → r.confirmed ≡ true
      → v.registry.handlers ≡ w.registry.handlers
      → Replies (elim error as (λ _. World C × Ended C) [
        | some e ↦ commit_failed m s (classify_error (of_ledger e)) v
        | none ↦ commit_answer r m s (
            ask r.policies m v (
              invocation m r.transport true s.request.plan_id s.step commit
                (commit_of s.prepared.commit_payload)))
      ])
  received_or_not (some e) v y same = failed-Replies (classify_error (of_ledger e)) v
  received_or_not none v y same =
      let inv =
        invocation m r.transport true s.request.plan_id s.step commit
          (commit_of s.prepared.commit_payload) in
      commit_answer-Replies (ask r.policies m v inv) y (λ o e.
        subst (λ hs. Called r.policies hs inv o) same ((ask-Asked r.policies m v inv).outputs o e))

  pub confirm-Replies :
      (v : World C) → r.confirmed ≡ true → v.registry ≡ w.registry → Replies (confirm r m s v)
  unfolding confirm
  confirm-Replies v y same =
      let u = once (Tasks.approval_received s.run_id m.now) in
      received_or_not (try_ledger u v).1 (try_ledger u v).0 y
        (ap (λ x. x.handlers) (try_ledger_registry u v ∙ same))
