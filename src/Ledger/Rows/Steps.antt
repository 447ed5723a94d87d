-- ===== src/Ledger/Rows/Steps.antt =====
-- The changes that the methods make to one row, as a step relation, and the state machine that
-- they follow.
use linux_ai_native_system.Prelude.{
  ℕ, ◌≤◌, ◌≡◌, ◌⊎◌, Bool, false, [], ◌∷◌, Text, length, arith, inl,
}
use linux_ai_native_system.Ledger.Contracts.{
  TaskState, planned, running, awaiting_approval, interrupted, completed, completed_with_skips,
  failed, cancelled, ItemOutcome, is_terminal, Task, ok,
}
use linux_ai_native_system.Ledger.Rows
use linux_ai_native_system.Ledger.Rows.{transition, finish, complete_target}
use linux_ai_native_system.Ledger.Rows.Invariant
use linux_ai_native_system.Ledger.Rows.Invariant.{IsValid}

-- One transaction of a method on the row of its task.
pub data RowStep (now : ℕ) (t t' : Task) : Type 0 where
  started : transition (planned ∷ []) running now t ≡ ok t' → RowStep now t t'
  asked : transition (running ∷ []) awaiting_approval now t ≡ ok t' → RowStep now t t'
  approved : transition (awaiting_approval ∷ []) running now t ≡ ok t' → RowStep now t t'
  interrupted_at : Rows.interrupt now t ≡ ok t' → RowStep now t t'
  continue_asked : (b : Bool) → Rows.request_continue now t ≡ ok (b, t') → RowStep now t t'
  continued : Rows.claim_continue now t ≡ ok t' → RowStep now t t'
  cancel_asked : (b : Bool) → Rows.request_cancel now t ≡ ok (b, t') → RowStep now t t'
  cancelled_at :
      finish (running ∷ awaiting_approval ∷ []) cancelled now t ≡ ok t' → RowStep now t t'
  completed_at :
      (read : Task) → finish (running ∷ []) (complete_target read) now t ≡ ok t' → RowStep now t t'
  failed_at :
      finish (planned ∷ running ∷ awaiting_approval ∷ []) failed now t ≡ ok t' → RowStep now t t'
  counted : (o : ItemOutcome) → Rows.record_item o now t ≡ ok t' → RowStep now t t'
  referred : Rows.add_reference now t ≡ ok t' → RowStep now t t'
  checkpointed :
      (version : ℕ) (encoded : Text)
      → 1 ≤ length encoded
      → Rows.save_checkpoint version encoded now t ≡ ok t'
      → RowStep now t t'

pub RowStep-IsValid : (now : ℕ) (t t' : Task) → RowStep now t t' → IsValid t → IsValid t'
RowStep-IsValid now t t' (started h) v = Invariant.start-Keeps now t t' v h
RowStep-IsValid now t t' (asked h) v = Invariant.awaiting_approval-Keeps now t t' v h
RowStep-IsValid now t t' (approved h) v = Invariant.approval_received-Keeps now t t' v h
RowStep-IsValid now t t' (interrupted_at h) v = Invariant.interrupt-Keeps now t t' v h
RowStep-IsValid now t t' (continue_asked b h) v = Invariant.request_continue-IsValid now t t' b v h
RowStep-IsValid now t t' (continued h) v = Invariant.claim_continue-Keeps now t t' v h
RowStep-IsValid now t t' (cancel_asked b h) v = Invariant.request_cancel-IsValid now t t' b v h
RowStep-IsValid now t t' (cancelled_at h) v = Invariant.cancelled-Keeps now t t' v h
RowStep-IsValid now t t' (completed_at read h) v = Invariant.complete-Keeps read now t t' v h
RowStep-IsValid now t t' (failed_at h) v = Invariant.fail-Keeps now t t' v h
RowStep-IsValid now t t' (counted o h) v = Invariant.record_item-Keeps o now t t' v h
RowStep-IsValid now t t' (referred h) v = Invariant.add_reference-Keeps now t t' v h
RowStep-IsValid now t t' (checkpointed version encoded e h) v =
    Invariant.save_checkpoint-Keeps version encoded now e t t' v h

-- The edges of the life of a task.
infix 40 ◌⟶◌
pub data ◌⟶◌ : TaskState → TaskState → Type 0 where
  begin : planned ⟶ running
  ask : running ⟶ awaiting_approval
  approve : awaiting_approval ⟶ running
  pause : running ⟶ interrupted
  continue : interrupted ⟶ running
  cancel_run : running ⟶ cancelled
  cancel_wait : awaiting_approval ⟶ cancelled
  complete_all : running ⟶ completed
  complete_some : running ⟶ completed_with_skips
  pause_wait : awaiting_approval ⟶ interrupted
  abandon : planned ⟶ failed
  fail_run : running ⟶ failed
  fail_wait : awaiting_approval ⟶ failed

pub ruleset edges = (
  begin, ask, approve, pause, continue, cancel_run, cancel_wait, complete_all, complete_some,
  pause_wait, abandon, fail_run, fail_wait,
)

-- A transaction leaves the state or follows an edge.
pub RowStep-⟶ :
    (now : ℕ) (t t' : Task) → RowStep now t t' → (t.state ≡ t'.state) ⊎ (t.state ⟶ t'.state)
unfolding transition finish complete_target Rows.interrupt Rows.request_continue Rows.claim_continue
    Rows.request_cancel Rows.record_item Rows.add_reference Rows.save_checkpoint
RowStep-⟶ now t t' (started h) = grind (arith, edges)
RowStep-⟶ now t t' (asked h) = grind (arith, edges)
RowStep-⟶ now t t' (approved h) = grind (arith, edges)
RowStep-⟶ now t t' (interrupted_at h) = grind (arith, edges)
RowStep-⟶ now t t' (continue_asked b h) = inl (ground arith)
RowStep-⟶ now t t' (continued h) = grind (arith, edges)
RowStep-⟶ now t t' (cancel_asked b h) = inl (ground arith)
RowStep-⟶ now t t' (cancelled_at h) = grind (arith, edges)
RowStep-⟶ now t t' (completed_at read h) = grind (arith, edges)
RowStep-⟶ now t t' (failed_at h) = grind (arith, edges)
RowStep-⟶ now t t' (counted o h) = inl (ground arith)
RowStep-⟶ now t t' (referred h) = inl (ground arith)
RowStep-⟶ now t t' (checkpointed version encoded e h) = inl (ground arith)

-- No transaction touches the row of a finished task.
pub RowStep-not_terminal : (now : ℕ) (t t' : Task) → RowStep now t t' → is_terminal t.state ≡ false
unfolding transition finish Rows.interrupt Rows.request_continue Rows.claim_continue
    Rows.request_cancel Rows.record_item Rows.add_reference Rows.save_checkpoint
RowStep-not_terminal now t t' (started h) = ground arith
RowStep-not_terminal now t t' (asked h) = ground arith
RowStep-not_terminal now t t' (approved h) = ground arith
RowStep-not_terminal now t t' (interrupted_at h) = ground arith
RowStep-not_terminal now t t' (continue_asked b h) = ground arith
RowStep-not_terminal now t t' (continued h) = ground arith
RowStep-not_terminal now t t' (cancel_asked b h) = ground arith
RowStep-not_terminal now t t' (cancelled_at h) = ground arith
RowStep-not_terminal now t t' (completed_at read h) = ground arith
RowStep-not_terminal now t t' (failed_at h) = ground arith
RowStep-not_terminal now t t' (counted o h) = ground arith
RowStep-not_terminal now t t' (referred h) = ground arith
RowStep-not_terminal now t t' (checkpointed version encoded e h) = ground arith
