-- ===== src/Ledger/Tasks.antt =====
-- The methods of `TaskLedger` (services/task-ledger/src/ai_native_ledger/ledger.py) on the
-- database. Each takes the clock's reading, and returns the new database beside its result. A
-- method that raises rolls its transaction back, so the caller keeps the old database.
pub mod Views
pub mod Transactions
use linux_ai_native_system.Prelude.{
  ℕ, suc, ◌+◌, Bool, true, false, not, List, [], ◌∷◌, ◌++◌, Text, text_eq, Option, none, some,
  is_some, any, lookup, assign, ◌==◌, ltb, leb, if◌then◌else◌,
}
use linux_ai_native_system.Ledger.Contracts.{
  TaskState, planned, running, ItemOutcome, succeeded, skipped, Task, Event, EventRow, Reference,
  Database, Error, Result, ok, raised, ◌>>=◌, ◌>>◌, require, invalid_total, invalid_version,
  task_already_exists, task_not_found, cancellation_requested, integrity_error,
}
use linux_ai_native_system.Ledger.Rows
use linux_ai_native_system.Ledger.Rows.{new_task, transition, finish, complete_target}
use linux_ai_native_system.Ledger.Values.{
  Host, validate_uuid, validate_token, validate_label, validate_locator, locator_name,
}

-- `_task_row`
unfoldable pub task_row : Text → Database → Result Task
unfolding validate_uuid
task_row id db = do
  validate_uuid id
  elim (lookup id db.tasks) [ none ↦ raised task_not_found | some t ↦ ok t ]

-- `_event`
abbrev pub add_event : Text → Event → ℕ → Database → Database
add_event id event now db = record db {
  events = db.events ++ record { task_id = id; event = event; occurred_at = now } ∷ [];
}

abbrev pub set_task : Text → Task → Database → Database
set_task id t db = record db { tasks = assign id t db.tasks }

-- A transaction on one row: read it, check and change it, log the event.
unfoldable pub on_task : Text → Event → ℕ → (Task → Result Task) → Database → Result Database
on_task id event now change db = do
  t ← task_row id db
  t' ← change t
  ok (add_event id event now (set_task id t' db))

-- A transaction that changes nothing where the request is not new.
unfoldable pub on_request :
    Text → Event → ℕ → (Task → Result (Bool × Task)) → Database → Result Database
on_request id event now change db = do
  t ← task_row id db
  (is_new, t') ← change t
  ok (if is_new then add_event id event now (set_task id t' db) else db)

unfoldable pub start : Text → ℕ → Database → Result Database
unfolding on_task
start id now = on_task id Event.started now (transition (planned ∷ []) running now)

unfoldable pub awaiting_approval : Text → ℕ → Database → Result Database
unfolding on_task
awaiting_approval id now =
    on_task id Event.awaiting_approval now
      (transition (running ∷ []) TaskState.awaiting_approval now)

unfoldable pub approval_received : Text → ℕ → Database → Result Database
unfolding on_task
approval_received id now =
    on_task id Event.approval_received now
      (transition (TaskState.awaiting_approval ∷ []) running now)

unfoldable pub interrupt : Text → ℕ → Database → Result Database
unfolding on_task
interrupt id now = on_task id Event.interrupted now (Rows.interrupt now)

unfoldable pub request_continue : Text → ℕ → Database → Result Database
unfolding on_request
request_continue id now = on_request id Event.continue_requested now (Rows.request_continue now)

-- `claim_continue`, with the checkpoint of the `ResumePoint`
unfoldable pub claim_continue : Text → ℕ → Database → Result (Option Text × Database)
unfolding on_task
claim_continue id now db = do
  t ← task_row id db
  db' ← on_task id Event.continued now (Rows.claim_continue now) db
  ok (t.checkpoint_json, db')

unfoldable pub request_cancel : Text → ℕ → Database → Result Database
unfolding on_request
request_cancel id now = on_request id Event.cancel_requested now (Rows.request_cancel now)

unfoldable pub raise_if_cancelled : Text → Database → Result (Unit {0})
raise_if_cancelled id db = do
  t ← task_row id db
  require (not t.cancel_requested) cancellation_requested

unfoldable pub cancelled : Text → ℕ → Database → Result Database
unfolding on_task
cancelled id now =
    on_task id Event.cancelled now
      (finish (running ∷ TaskState.awaiting_approval ∷ []) TaskState.cancelled now)

-- `complete` after it has picked the target on a connection of its own
unfoldable pub complete_as : TaskState → Text → ℕ → Database → Result Database
unfolding on_task
complete_as target id now = on_task id Event.completed now (finish (running ∷ []) target now)

-- `complete` with no other call between its two connections
unfoldable pub complete : Text → ℕ → Database → Result Database
unfolding complete_target
complete id now db = do t ← task_row id db; complete_as (complete_target t) id now db

unfoldable pub fail : Text → ℕ → Database → Result Database
unfolding on_task
fail id now =
    on_task id Event.failed now
      (finish (planned ∷ running ∷ TaskState.awaiting_approval ∷ []) TaskState.failed now)

-- `save_checkpoint`; the encoding of the checkpoint is the argument, and `none` where it raises
unfoldable pub save_checkpoint : Text → Option Text → ℕ → ℕ → Database → Result Database
unfolding on_task
save_checkpoint id encoded version now db = do
  require (leb 1 version) invalid_version
  elim encoded [
    | none ↦ raised Error.invalid_checkpoint
    | some text ↦ on_task id Event.checkpoint_saved now (Rows.save_checkpoint version text now) db
  ]

-- `display_name or default`: an empty text is false too
shown_name : Text → Option Text → Text
shown_name default none = default
shown_name default (some []) = default
shown_name default (some (c ∷ s)) = c ∷ s

outcome_event : ItemOutcome → Event
outcome_event succeeded = Event.item_succeeded
outcome_event skipped = Event.item_skipped

-- The INSERT into `task_references`: its key may not be taken.
pub insert_reference : Reference → Database → Result Database
insert_reference ref db = do
  require (not (any (λ r. r.reference_id == ref.reference_id) db.references)) integrity_error
  ok (record db { references = db.references ++ ref ∷ [] })

module _ (host : Host) where
  -- `create`, with the identifier that it was given or made
  unfoldable pub create : Text → Text → Option ℕ → Bool → ℕ → Database → Result Database
  unfolding validate_uuid
  create id activity total resumable now db = do
    validate_uuid id
    validate_token host activity
    require (not (is_some (lookup id db.tasks))) task_already_exists
    ok (add_event id Event.created now (set_task id (new_task activity total resumable now) db))

  -- `record_item`; `reference_id` is the fresh UUID
  unfoldable pub record_item :
      Text → ItemOutcome → Text → Option Text → Text → Text → ℕ → Database → Result Database
  unfolding shown_name insert_reference outcome_event
  record_item id outcome locator display_name kind reference_id now db = do
    validate_token host kind
    validate_locator host locator
    let name = shown_name (locator_name host locator) display_name
    validate_label name
    t ← task_row id db
    t' ← Rows.record_item outcome now t
    db' ←
        insert_reference
          (record {
            reference_id = reference_id;
            task_id = id;
            kind = kind;
            display_name = name;
            locator = locator;
            outcome = outcome;
            created_at = now;
          })
          (set_task id t' db)
    ok (add_event id (outcome_event outcome) now db')

  -- `add_reference`
  unfoldable pub add_reference :
      Text → ItemOutcome → Text → Option Text → Text → Text → ℕ → Database → Result Database
  unfolding shown_name insert_reference
  add_reference id outcome locator display_name kind reference_id now db = do
    validate_token host kind
    validate_locator host locator
    let name = shown_name (locator_name host locator) display_name
    validate_label name
    t ← task_row id db
    t' ← Rows.add_reference now t
    db' ←
        insert_reference
          (record {
            reference_id = reference_id;
            task_id = id;
            kind = kind;
            display_name = name;
            locator = locator;
            outcome = outcome;
            created_at = now;
          })
          (set_task id t' db)
    ok (add_event id Event.reference_added now db')
