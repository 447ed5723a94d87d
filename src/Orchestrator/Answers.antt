-- ===== src/Orchestrator/Answers.antt =====
-- `ExecutionOrchestrator.respond_to_approval`
-- (services/execution-orchestrator/src/ai_native_orchestrator/orchestrator.py).
pub mod Replies
pub mod Promises
use linux_ai_native_system.Prelude.{
  ℕ, suc, Bool, true, false, List, [], ◌∷◌, ◌++◌, Text, codes, Option, none, some, if◌then◌else◌,
}
use linux_ai_native_system.Permission.Contracts.{ExecutionPhase, commit, TransportContext}
use linux_ai_native_system.Permission.Gateway.{Policies}
use linux_ai_native_system.Ledger.Contracts.{succeeded}
use linux_ai_native_system.Ledger.Values.{Host}
use linux_ai_native_system.Ledger.Tasks
use linux_ai_native_system.Orchestrator.Stores.{claim_session, claimed, invalid_id, not_found}
use linux_ai_native_system.Orchestrator.Contracts.{
  OrchestrationState, StepState, Output, copy, operation, commit_of, StepExecution,
  OrchestrationResult, ApprovalSession,
}
use linux_ai_native_system.Orchestrator.Errors.{any_other, classify_error, of_ledger, policy_code}
use linux_ai_native_system.Orchestrator.World.{
  World, Moment, Ended, finished, invalid_approval_id, approval_not_found, Update, once, and_then,
  after_ledger, try_ledger, fail_each, invocation, Answer, output, denied, threw, ask,
}
use linux_ai_native_system.Orchestrator.Endings.{execution}

-- What the call is made with, beside the request's identifier.
pub record Response : Type 0 where
  pub host : Host
  pub is_space : ℕ → Bool
  pub policies : Policies
  pub transport : TransportContext
  pub confirmed : Bool

-- `record_item` of each path that was copied
unfoldable pub record_copied : Host → Text → Moment → ℕ → List Text → Update
record_copied host run_id m i [] db = (db, none)
record_copied host run_id m i (path ∷ paths) db =
    and_then
      (once (
        Tasks.record_item host run_id succeeded path none (codes "copied-file") (m.reference_id i)
          m.now))
      (record_copied host run_id m (suc i) paths) db

module _ {C : Type 0} where
  -- The result with the last step's execution.
  abbrev pub answered :
      ApprovalSession C
      → OrchestrationState
      → StepState
      → Option (Output C)
      → Option Text
      → List Text
      → OrchestrationResult C
  answered s state step_state o code diagnostics = record {
    run_id = s.run_id;
    plan_id = s.request.plan_id;
    state = state;
    steps = s.prior_steps ++ execution s.step step_state o code ∷ [];
    pending_approval_step_ids = [];
    active_collection_id = s.active_collection_id;
    diagnostics = diagnostics;
    approval_request = none;
  }

  -- not confirmed
  unfoldable pub decline : Moment → ApprovalSession C → World C → World C × Ended C
  decline m s w = after_ledger (once (Tasks.cancelled s.run_id m.now)) w (λ w'. (
    w',
    finished (
        answered s OrchestrationState.cancelled StepState.cancelled none
          (some (codes "user_declined")) (codes "user_declined" ∷ [])),
  ))

  -- A denial, or an exception that was caught.
  unfoldable pub commit_failed : Moment → ApprovalSession C → Text → World C → World C × Ended C
  commit_failed m s code w = after_ledger (once (Tasks.fail s.run_id m.now)) w (λ w'. (
    w',
    finished (answered s OrchestrationState.failed StepState.failed none (some code) (code ∷ [])),
  ))

  -- What is recorded of a committed output, before `complete`.
  abbrev record_output : Host → Text → Moment → Output C → Update
  record_output host run_id m (copy o) = record_copied host run_id m 0 o.copied_paths
  record_output host run_id m _ = λ db. (db, none)

  unfoldable pub committed :
      Response → Moment → ApprovalSession C → Output C → World C → World C × Ended C
  unfolding record_copied
  committed r m s o w =
      after_ledger
        (and_then (record_output r.host s.run_id m o) (once (Tasks.complete s.run_id m.now))) w
        (λ w'. (
          w',
          finished (answered s OrchestrationState.completed StepState.completed (some o) none []),
        ))

  -- What follows the dispatch.
  unfoldable pub commit_answer :
      Response → Moment → ApprovalSession C → World C × Answer C → World C × Ended C
  unfolding commit_failed committed
  commit_answer r m s (w, denied reason) = commit_failed m s (policy_code reason) w
  commit_answer r m s (w, threw x) = commit_failed m s (classify_error x) w
  commit_answer r m s (w, output (copy o)) = committed r m s (copy o) w
  commit_answer r m s (w, output (operation o)) = committed r m s (operation o) w
  commit_answer r m s (w, output _) = commit_failed m s (classify_error any_other) w

  -- confirmed
  unfoldable pub confirm : Response → Moment → ApprovalSession C → World C → World C × Ended C
  unfolding commit_answer ask invocation
  confirm r m s w =
      let (w', error) = try_ledger (once (Tasks.approval_received s.run_id m.now)) w in
      elim error [
        | some e ↦ commit_failed m s (classify_error (of_ledger e)) w'
        | none ↦ commit_answer r m s (
            ask r.policies m w' (
              invocation m r.transport true s.request.plan_id s.step commit
                (commit_of s.prepared.commit_payload)))
      ]

  -- `respond_to_approval`
  unfoldable pub respond_to_approval : Response → Moment → Text → World C → World C × Ended C
  unfolding claim_session decline confirm fail_each
  respond_to_approval r m id w =
      let (sessions, claim, expired) = claim_session r.is_space m.monotonic id w.sessions in
      after_ledger (fail_each m.now expired) (record w { sessions = sessions })
        (λ w'. elim claim [
          | invalid_id ↦ (w', invalid_approval_id)
          | not_found ↦ (w', approval_not_found)
          | claimed s ↦ if r.confirmed then confirm r m s w' else decline m s w'
        ])
