-- ===== src/Ledger/Rows/Invariant.antt =====
-- The invariant of a task's row, and that every method keeps it.
use linux_ai_native_system.Prelude.{
  ℕ, ◌+◌, ◌≤◌, ◌≡◌, ◌⊎◌, Bool, true, [], ◌∷◌, Text, Option, none, some, is_some, contains, arith,
  length,
}
use linux_ai_native_system.Ledger.Contracts.{
  planned, running, awaiting_approval, interrupted, failed, cancelled, ItemOutcome, succeeded,
  skipped, state_eq, is_terminal, Task, Result, ok,
}
use linux_ai_native_system.Ledger.Rows
use linux_ai_native_system.Ledger.Rows.{new_task, transition, finish, complete_target, recover}

-- A total, where there is one, is not exceeded.
abbrev pub Fits : Option ℕ → ℕ → Type 0
Fits none n = Unit
Fits (some total) n = n ≤ total

-- A stored checkpoint is not an empty text.
abbrev pub NonEmpty : Option Text → Type 0
NonEmpty none = Unit
NonEmpty (some t) = 1 ≤ length t

-- What holds of a task's row between two transactions. That a completed task has no skipped item
-- does not: `complete` picks the final state in a transaction before the one that stores it.
pub record IsValid (t : Task) : Type 0 where
  pub counted : t.processed_count ≡ t.succeeded_count + t.skipped_count
  pub within : Fits t.total_items t.processed_count
  pub finished : is_some t.finished_at ≡ is_terminal t.state
  pub cancelling :
      t.cancel_requested ≡ true
      → (t.state ≡ running) ⊎ ((t.state ≡ awaiting_approval) ⊎ (t.state ≡ interrupted))
  pub continuing : t.continue_requested ≡ true → t.state ≡ interrupted
  pub versioned : is_some t.checkpoint_version ≡ is_some t.checkpoint_json
  pub stored : NonEmpty t.checkpoint_json
  pub resuming : is_some t.checkpoint_json ≡ true → t.resumable ≡ true
  pub interruptible : t.state ≡ interrupted → is_some t.checkpoint_json ≡ true
  pub forgotten : is_terminal t.state ≡ true → t.checkpoint_json ≡ none

-- A change that a method makes to a row keeps the invariant.
abbrev pub Keeps : (Task → Result Task) → Type 0
Keeps change = (t t' : Task) → IsValid t → change t ≡ ok t' → IsValid t'

pub new_task-IsValid :
    (activity : Text) (total : Option ℕ) (resumable : Bool) (now : ℕ)
    → IsValid (new_task activity total resumable now)
unfolding new_task
new_task-IsValid activity none resumable now = ground arith
new_task-IsValid activity (some n) resumable now = ground arith

pub start-Keeps : (now : ℕ) → Keeps (transition (planned ∷ []) running now)
unfolding transition
start-Keeps now t t' v h = ground arith

pub awaiting_approval-Keeps : (now : ℕ) → Keeps (transition (running ∷ []) awaiting_approval now)
unfolding transition
awaiting_approval-Keeps now t t' v h = ground arith

pub approval_received-Keeps : (now : ℕ) → Keeps (transition (awaiting_approval ∷ []) running now)
unfolding transition
approval_received-Keeps now t t' v h = ground arith

pub cancelled-Keeps : (now : ℕ) → Keeps (finish (running ∷ awaiting_approval ∷ []) cancelled now)
unfolding finish
cancelled-Keeps now t t' v h = ground arith

pub fail-Keeps : (now : ℕ) → Keeps (finish (planned ∷ running ∷ awaiting_approval ∷ []) failed now)
unfolding finish
fail-Keeps now t t' v h = ground arith

-- `complete` finishes with the target that it picked for a row it had read before.
pub complete-Keeps :
    (read : Task) (now : ℕ) → Keeps (finish (running ∷ []) (complete_target read) now)
unfolding finish complete_target
complete-Keeps read now t t' v h = ground arith

pub record_item-Keeps : (outcome : ItemOutcome) (now : ℕ) → Keeps (Rows.record_item outcome now)
unfolding Rows.record_item
record_item-Keeps succeeded now t t' v h = ground arith
record_item-Keeps skipped now t t' v h = ground arith

pub add_reference-Keeps : (now : ℕ) → Keeps (Rows.add_reference now)
unfolding Rows.add_reference
add_reference-Keeps now t t' v h = ground arith

pub save_checkpoint-Keeps :
    (version : ℕ) (encoded : Text) (now : ℕ)
    → 1 ≤ length encoded
    → Keeps (Rows.save_checkpoint version encoded now)
unfolding Rows.save_checkpoint
save_checkpoint-Keeps version encoded now e t t' v h = ground arith

pub interrupt-Keeps : (now : ℕ) → Keeps (Rows.interrupt now)
unfolding Rows.interrupt
interrupt-Keeps now t t' v h = ground arith

pub claim_continue-Keeps : (now : ℕ) → Keeps (Rows.claim_continue now)
unfolding Rows.claim_continue
claim_continue-Keeps now t t' v h = ground arith

pub request_continue-IsValid :
    (now : ℕ) (t t' : Task) (b : Bool)
    → IsValid t
    → Rows.request_continue now t ≡ ok (b, t')
    → IsValid t'
unfolding Rows.request_continue
request_continue-IsValid now t t' b v h = ground arith

pub request_cancel-IsValid :
    (now : ℕ) (t t' : Task) (b : Bool)
    → IsValid t
    → Rows.request_cancel now t ≡ ok (b, t')
    → IsValid t'
unfolding Rows.request_cancel
request_cancel-IsValid now t t' b v h = ground arith

-- On an abandoned row the recovery of a restart keeps the invariant.
pub recover-IsValid :
    (now : ℕ) (t : Task)
    → IsValid t
    → contains (running ∷ awaiting_approval ∷ []) t.state ≡ true
    → IsValid (recover now t)
unfolding recover
recover-IsValid now t v h = ground arith
