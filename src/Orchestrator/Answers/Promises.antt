-- ===== src/Orchestrator/Answers/Promises.antt =====
-- What the caller of `ExecutionOrchestrator.respond_to_approval`
-- (services/execution-orchestrator/src/ai_native_orchestrator/orchestrator.py) may rely on.
use linux_ai_native_system.Prelude.{
  ℕ, ◌≡◌, refl, sym, subst, Bool, Text, text_eq, if◌then◌else◌, some, arith, Option-cases,
  Bool-cases, inl, inr,
}
use linux_ai_native_system.Orchestrator.Expiring.{Store, take}
use linux_ai_native_system.Orchestrator.Stores.{
  Claimed, claimed, invalid_id, not_found, claim_session,
}
use linux_ai_native_system.Orchestrator.Contracts.{
  OrchestrationState, OrchestrationResult, ApprovalSession,
}
use linux_ai_native_system.Orchestrator.World.{
  World, Moment, Ended, finished, rejected, ledger_raised, invalid_approval_id, approval_not_found,
  uncaught, fail_each,
}
use linux_ai_native_system.Orchestrator.World.Recording.{InLedger, after_ledger_either}
use linux_ai_native_system.Orchestrator.Answers.{Response, decline, confirm, respond_to_approval}
use linux_ai_native_system.Orchestrator.Answers.Replies.{
  Commits, Replies, decline-Replies, confirm-Replies,
}

claimed_taken :
    {V : Type 0} (is_space : ℕ → Bool) (now : ℕ) (id : Text) (sessions : Store V) (s : V)
    → (claim_session is_space now id sessions).1 ≡ claimed s
    → (take now id sessions).1 ≡ some s
unfolding claim_session
claimed_taken is_space now id sessions s h = elim (Option-cases (take now id sessions).1) [
  | inl absent ↦ ground (arith, h, absent)
  | inr (t, e) ↦ ground (arith, h, e)
]

module _ {C : Type 0} (r : Response) (m : Moment) (id : Text) (w : World C) where
  -- A result is for the session that the store had under the identifier.
  abbrev Settles : World C × Ended C → Type 0
  Settles (w', finished res) =
      (s : ApprovalSession C) × ((take m.monotonic id w.sessions).1 ≡ some s)
      × Replies r m s w (w', finished res)
  Settles (w', ledger_raised e) = Unit
  Settles (w', rejected e) = Unit
  Settles (w', invalid_approval_id) = Unit
  Settles (w', approval_not_found) = Unit
  Settles (w', uncaught x) = Unit

  Replies-Settles :
      (s : ApprovalSession C) (x : World C × Ended C)
      → (take m.monotonic id w.sessions).1 ≡ some s
      → Replies r m s w x
      → Settles x
  Replies-Settles s (w', finished res) e a = (s, e, a)
  Replies-Settles s (w', ledger_raised x) e a = tt
  Replies-Settles s (w', rejected x) e a = tt
  Replies-Settles s (w', invalid_approval_id) e a = tt
  Replies-Settles s (w', approval_not_found) e a = tt
  Replies-Settles s (w', uncaught x) e a = tt

  answered_or_not :
      (claim : Claimed (ApprovalSession C)) (v : World C)
      → (claim_session r.is_space m.monotonic id w.sessions).1 ≡ claim
      → v.registry ≡ w.registry
      → Settles (elim claim as (λ _. World C × Ended C) [
        | invalid_id ↦ (v, invalid_approval_id)
        | not_found ↦ (v, approval_not_found)
        | claimed s ↦ if r.confirmed then confirm r m s v else decline m s v
      ])
  answered_or_not invalid_id v e same = tt
  answered_or_not not_found v e same = tt
  answered_or_not (claimed s) v e same =
      Replies-Settles s (if r.confirmed then confirm r m s v else decline m s v)
        (claimed_taken r.is_space m.monotonic id w.sessions s e)
        (elim (Bool-cases r.confirmed) [
          | inl y ↦
              subst (Replies r m s w) {x = confirm r m s v}
                {y = if r.confirmed then confirm r m s v else decline m s v} (ground (arith, y))
                (confirm-Replies r m s w v y same)
          | inr n ↦
              subst (Replies r m s w) {x = decline m s v}
                {y = if r.confirmed then confirm r m s v else decline m s v} (ground (arith, n))
                (decline-Replies r m s w v)
        ])

  respond-Settles : Settles (respond_to_approval r m id w)
  unfolding respond_to_approval
  respond-Settles =
      let claim = claim_session r.is_space m.monotonic id w.sessions in
      after_ledger_either Settles (fail_each m.now claim.2) (record w { sessions = claim.0 }) _
        (λ w' g s. answered_or_not claim.1 w' refl g) (λ w' e raises. tt)

  settled :
      (w' : World C) (res : OrchestrationResult C)
      → respond_to_approval r m id w ≡ (w', finished res)
      → Settles (w', finished res)
  settled w' res h = subst Settles h respond-Settles

  -- An answer completes a run only when it was a confirmation and the session was in the store, still
  -- in time, under the identifier that was given. Then the last step's output is what the handler of
  -- its capability returned, called in the phase COMMIT on what had been prepared, with the approval,
  -- for an invocation that the gateway allowed.
  pub respond-Commits :
      (w' : World C) (res : OrchestrationResult C)
      → respond_to_approval r m id w ≡ (w', finished res)
      → res.state ≡ OrchestrationState.completed
      → (s : ApprovalSession C) × ((take m.monotonic id w.sessions).1 ≡ some s)
        × Commits r m s w res
  respond-Commits w' res h state = let (s, e, reply) = settled w' res h in (s, e, reply.2 state)

  -- When an answer returns a result, the ledger, where there is one, has the run's task in the state
  -- of the result.
  pub respond_recorded :
      (w' : World C) (res : OrchestrationResult C)
      → respond_to_approval r m id w ≡ (w', finished res)
      → InLedger res.run_id res.state w'.ledger
  respond_recorded w' res h =
      let (s, e, reply) = settled w' res h in
      subst (λ i. InLedger i res.state w'.ledger) (sym reply.0) reply.1
