-- ===== src/Ledger/Calls/Effects.antt =====
-- What a call that does not raise does to the rows.
use linux_ai_native_system.Prelude.{
  ℕ, ◌≤◌, ◌≡◌, refl, subst, Bool, Text, text_eq, Option, none, some, [], ◌∷◌, arith, lookup, assign,
  inl, inr, length,
}
use linux_ai_native_system.Ledger.Contracts.{
  Task, TaskState, running, Event, Database, Result, ok, Result-cases,
}
use linux_ai_native_system.Ledger.Values.{Host}
use linux_ai_native_system.Ledger.Rows
use linux_ai_native_system.Ledger.Rows.{new_task, finish, complete_target}
use linux_ai_native_system.Ledger.Rows.Steps
use linux_ai_native_system.Ledger.Rows.Steps.{RowStep}
use linux_ai_native_system.Ledger.Startup
use linux_ai_native_system.Ledger.Tasks
use linux_ai_native_system.Ledger.Tasks.{task_row}
use linux_ai_native_system.Ledger.Tasks.Transactions.{
  Changed, on_task-Changed, on_request-Changed, record_item-Changed, add_reference-Changed,
  create-tasks,
}
use linux_ai_native_system.Ledger.Calls.{Call, run_call}

pub data Effect (now : ℕ) (c : Call) (db db' : Database) : Type 0 where
  touched :
      (id : Text) (t t' : Task)
      → lookup id db.tasks ≡ some t
      → RowStep now t t'
      → db'.tasks ≡ assign id t' db.tasks
      → Effect now c db db'
  inserted :
      (id activity : Text) (total : Option ℕ) (resumable : Bool)
      → lookup id db.tasks ≡ none
      → db'.tasks ≡ assign id (new_task activity total resumable now) db.tasks
      → Effect now c db db'
  recovered : db' ≡ (Startup.recover_after_restart now db).0 → Effect now c db db'
  purged :
      (cutoff : ℕ)
      → c ≡ Call.purge_expired cutoff
      → db' ≡ (Startup.purge_expired cutoff db).0
      → Effect now c db db'

-- The encoder returns no empty text.
abbrev pub IsEncoded : Call → Type 0
IsEncoded (Call.save_checkpoint id (some encoded) version) = 1 ≤ length encoded
IsEncoded _ = Unit

touch :
    {c : Call} {id : Text} {change : Task → Result Task} {now : ℕ} {db db' : Database}
    → Changed id change db db'
    → ((t t' : Task) → change t ≡ ok t' → RowStep now t t')
    → Effect now c db db'
touch {id} d step = touched id d.before d.later d.found (step d.before d.later d.made) d.stored

pub complete_as-Changed :
    (target : TaskState) (id : Text) (now : ℕ) (db db' : Database)
    → Tasks.complete_as target id now db ≡ ok db'
    → Changed id (finish (running ∷ []) target now) db db'
unfolding Tasks.complete_as
complete_as-Changed target id now db db' h = on_task-Changed id Event.completed now _ db db' h

request_continue-Effect :
    (c : Call) (id : Text) (now : ℕ) (db db' : Database)
    → Tasks.request_continue id now db ≡ ok db'
    → Effect now c db db'
unfolding Tasks.request_continue Rows.request_continue
request_continue-Effect c id now db db' h =
    let (t, t', b, l, m, s) =
      on_request-Changed id Event.continue_requested now (Rows.request_continue now) db db'
        (λ t t' k. ground arith) h in
    touched id t t' l (Steps.continue_asked b m) s

request_cancel-Effect :
    (c : Call) (id : Text) (now : ℕ) (db db' : Database)
    → Tasks.request_cancel id now db ≡ ok db'
    → Effect now c db db'
unfolding Tasks.request_cancel Rows.request_cancel
request_cancel-Effect c id now db db' h =
    let (t, t', b, l, m, s) =
      on_request-Changed id Event.cancel_requested now (Rows.request_cancel now) db db'
        (λ t t' k. ground arith) h in
    touched id t t' l (Steps.cancel_asked b m) s

claim_continue-Effect :
    (c : Call) (id : Text) (now : ℕ) (db : Database) (r : Option Text × Database)
    → Tasks.claim_continue id now db ≡ ok r
    → Effect now c db r.1
unfolding Tasks.claim_continue
claim_continue-Effect c id now db r h = elim (Result-cases (task_row id db)) [
  | inl (t, l) ↦
      elim (Result-cases (Tasks.on_task id Event.continued now (Rows.claim_continue now) db)) [
        | inl (d, o) ↦
            let same : d ≡ r.1 = ground arith in
            subst (Effect now c db) same (
              touch (on_task-Changed id Event.continued now (Rows.claim_continue now) db d o)
                (λ t t' m. Steps.continued m))
        | inr (x, o) ↦ ground arith
      ]
  | inr (x, l) ↦ ground arith
]

-- A call that does not raise makes one step on one row, inserts a new row, or is one of the passes
-- over all rows.
pub run_call-Effect :
    (host : Host) (now : ℕ) (c : Call) (db db' : Database)
    → IsEncoded c
    → run_call host now c db ≡ ok db'
    → Effect now c db db'
unfolding run_call
run_call-Effect host now (Call.create id activity total resumable) db db' e h =
    let (absent, made) = create-tasks host id activity total resumable now db db' h in
    inserted id activity total resumable absent made
run_call-Effect host now (Call.start id) db db' e h =
    unfold Tasks.start in touch (on_task-Changed id _ now _ db db' h) (λ t t' m. Steps.started m)
run_call-Effect host now (Call.awaiting_approval id) db db' e h =
    unfold Tasks.awaiting_approval in
    touch (on_task-Changed id _ now _ db db' h) (λ t t' m. Steps.asked m)
run_call-Effect host now (Call.approval_received id) db db' e h =
    unfold Tasks.approval_received in
    touch (on_task-Changed id _ now _ db db' h) (λ t t' m. Steps.approved m)
run_call-Effect host now (Call.interrupt id) db db' e h =
    unfold Tasks.interrupt in
    touch (on_task-Changed id _ now _ db db' h) (λ t t' m. Steps.interrupted_at m)
run_call-Effect host now (Call.request_continue id) db db' e h =
    request_continue-Effect _ id now db db' h
run_call-Effect host now (Call.claim_continue id) db db' e h =
    elim (Result-cases (Tasks.claim_continue id now db)) [
      | inl (r, o) ↦
          let same : r.1 ≡ db' = ground arith in
          subst (Effect now _ db) same (claim_continue-Effect _ id now db r o)
      | inr (x, o) ↦ ground arith
    ]
run_call-Effect host now (Call.request_cancel id) db db' e h =
    request_cancel-Effect _ id now db db' h
run_call-Effect host now (Call.cancelled id) db db' e h =
    unfold Tasks.cancelled in
    touch (on_task-Changed id _ now _ db db' h) (λ t t' m. Steps.cancelled_at m)
run_call-Effect host now (Call.complete read id) db db' e h =
    touch (complete_as-Changed (complete_target read) id now db db' h)
      (λ t t' m. Steps.completed_at read m)
run_call-Effect host now (Call.fail id) db db' e h =
    unfold Tasks.fail in touch (on_task-Changed id _ now _ db db' h) (λ t t' m. Steps.failed_at m)
run_call-Effect host now (Call.record_item id outcome locator name kind ref) db db' e h =
    touch (record_item-Changed host id outcome locator name kind ref now db db' h)
      (λ t t' m. Steps.counted outcome m)
run_call-Effect host now (Call.add_reference id outcome locator name kind ref) db db' e h =
    touch (add_reference-Changed host id outcome locator name kind ref now db db' h)
      (λ t t' m. Steps.referred m)
run_call-Effect host now (Call.save_checkpoint id none version) db db' e h =
    unfold Tasks.save_checkpoint in ground arith
run_call-Effect host now (Call.save_checkpoint id (some encoded) version) db db' e h =
    unfold Tasks.save_checkpoint in
    touch
      (on_task-Changed id Event.checkpoint_saved now (Rows.save_checkpoint version encoded now) db
        db' (ground arith))
      (λ t t' m. Steps.checkpointed version encoded e m)
run_call-Effect host now Call.recover_after_restart db db' e h = recovered (ground arith)
run_call-Effect host now (Call.purge_expired cutoff) db db' e h = purged cutoff refl (ground arith)
