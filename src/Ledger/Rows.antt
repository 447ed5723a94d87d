-- ===== src/Ledger/Rows.antt =====
-- What each method of `TaskLedger` does to the row of its task: the guards in the order of the
-- source, and the columns that its UPDATE sets
-- (services/task-ledger/src/ai_native_ledger/ledger.py).
pub mod Invariant
pub mod Steps
use linux_ai_native_system.Prelude.{
  ℕ, suc, ◌+◌, Bool, true, false, not, ◌&&◌, ◌||◌, List, [], ◌∷◌, Text, Option, none, some, is_some,
  contains, ltb, leb, nat_beq, length, if◌then◌else◌,
}
use linux_ai_native_system.Ledger.Contracts.{
  TaskState, planned, running, awaiting_approval, interrupted, completed, completed_with_skips,
  failed, cancelled, ItemOutcome, succeeded, skipped, state_eq, Task, Error, Result, ok, raised,
  ◌>>=◌, ◌>>◌, require, transition_not_allowed, task_not_running, total_items_exceeded,
  task_not_active, task_not_resumable, safe_checkpoint_unavailable, task_not_interrupted,
  continue_not_requested,
}

-- The row that `create` inserts.
unfoldable pub new_task : Text → Option ℕ → Bool → ℕ → Task
new_task activity total resumable now = record {
  activity = activity;
  state = planned;
  created_at = now;
  updated_at = now;
  finished_at = none;
  total_items = total;
  processed_count = 0;
  succeeded_count = 0;
  skipped_count = 0;
  resumable = resumable;
  cancel_requested = false;
  continue_requested = false;
  checkpoint_version = none;
  checkpoint_json = none;
}

-- `_transition`
unfoldable pub transition : List TaskState → TaskState → ℕ → Task → Result Task
transition allowed target now t = do
  require (contains allowed t.state) transition_not_allowed
  ok (record t { state = target; updated_at = now })

-- `_finish`
unfoldable pub finish : List TaskState → TaskState → ℕ → Task → Result Task
finish allowed target now t = do
  require (contains allowed t.state) transition_not_allowed
  ok (record t {
    state = target;
    updated_at = now;
    finished_at = some now;
    cancel_requested = false;
    checkpoint_json = none;
    checkpoint_version = none;
  })

is_running : TaskState → Bool
is_running running = true
is_running _ = false

is_interrupted : TaskState → Bool
is_interrupted interrupted = true
is_interrupted _ = false

-- `total is not None and processed_count >= total`
total_reached : Option ℕ → ℕ → Bool
total_reached none processed = false
total_reached (some total) processed = leb total processed

count_if : Bool → ℕ
count_if true = 1
count_if false = 0

is_succeeded : ItemOutcome → Bool
is_succeeded succeeded = true
is_succeeded skipped = false

-- `record_item`
unfoldable pub record_item : ItemOutcome → ℕ → Task → Result Task
unfolding is_running total_reached count_if is_succeeded
record_item outcome now t = do
  require (is_running t.state) task_not_running
  require (not (total_reached t.total_items t.processed_count)) total_items_exceeded
  ok (record t {
    processed_count = t.processed_count + 1;
    succeeded_count = t.succeeded_count + count_if (is_succeeded outcome);
    skipped_count = t.skipped_count + count_if (not (is_succeeded outcome));
    updated_at = now;
  })

-- `add_reference`
unfoldable pub add_reference : ℕ → Task → Result Task
add_reference now t = do
  require (contains (running ∷ awaiting_approval ∷ []) t.state) task_not_active
  ok (record t { updated_at = now })

-- `save_checkpoint`, with the checkpoint encoded
unfoldable pub save_checkpoint : ℕ → Text → ℕ → Task → Result Task
unfolding is_running
save_checkpoint version encoded now t = do
  require t.resumable task_not_resumable
  require (is_running t.state) task_not_running
  ok (record t {
    checkpoint_version = some version;
    checkpoint_json = some encoded;
    updated_at = now;
  })

-- `interrupt`
unfoldable pub interrupt : ℕ → Task → Result Task
unfolding is_running
interrupt now t = do
  require (is_running t.state) task_not_running
  require (t.resumable && is_some t.checkpoint_json) safe_checkpoint_unavailable
  ok (record t { state = interrupted; updated_at = now })

-- `request_continue`: whether the request is new, and the row
unfoldable pub request_continue : ℕ → Task → Result (Bool × Task)
unfolding is_interrupted
request_continue now t = do
  require (is_interrupted t.state) task_not_interrupted
  ok (
      if t.continue_requested
      then (false, t)
      else (true, record t { continue_requested = true; updated_at = now }))

-- `claim_continue`
unfoldable pub claim_continue : ℕ → Task → Result Task
unfolding is_interrupted
claim_continue now t = do
  require (is_interrupted t.state) task_not_interrupted
  require t.continue_requested continue_not_requested
  require (is_some t.checkpoint_json && is_some t.checkpoint_version) safe_checkpoint_unavailable
  ok (record t {
    state = running;
    cancel_requested = false;
    continue_requested = false;
    updated_at = now;
  })

-- `request_cancel`: whether the request is new, and the row
unfoldable pub request_cancel : ℕ → Task → Result (Bool × Task)
unfolding is_running
request_cancel now t = do
  require (is_running t.state) task_not_running
  ok (
      if t.cancel_requested
      then (false, t)
      else (true, record t { cancel_requested = true; updated_at = now }))

-- The target that `complete` picks.
unfoldable pub complete_target : Task → TaskState
complete_target t = if nat_beq t.skipped_count 0 then completed else completed_with_skips

-- `row["resumable"] and row["checkpoint_json"]`: an empty text is false too
unfoldable pub can_resume : Task → Bool
can_resume t =
    t.resumable && elim t.checkpoint_json [ none ↦ false | some j ↦ not (nat_beq (length j) 0) ]

-- The UPDATE of `recover_after_restart`.
unfoldable pub recover : ℕ → Task → Task
unfolding can_resume
recover now t = record t {
  state = if can_resume t then interrupted else failed;
  updated_at = now;
  finished_at = if can_resume t then none else some now;
  cancel_requested = false;
  continue_requested = false;
}
