-- ===== src/Ledger/Tasks/Transactions.antt =====
-- What a method of the ledger has done to the rows when it does not raise.
use linux_ai_native_system.Prelude.{
  ℕ, ◌≡◌, Bool, true, false, Text, text_eq, Option, none, some, arith, lookup, assign, inl, inr,
  assign_same,
}
use linux_ai_native_system.Ledger.Contracts.{
  ItemOutcome, Task, Event, Database, Reference, Result, ok, raised, ◌>>=◌, Result-cases,
}
use linux_ai_native_system.Ledger.Values.{
  Host, validate_uuid, validate_token, validate_locator, validate_label,
}
use linux_ai_native_system.Ledger.Rows
use linux_ai_native_system.Ledger.Rows.{new_task}
use linux_ai_native_system.Ledger.Tasks
use linux_ai_native_system.Ledger.Tasks.{
  on_task, on_request, task_row, insert_reference, shown_name,
}

-- The row of `id` was changed by `change`, and no other.
pub record Changed (id : Text) (change : Task → Result Task) (db db' : Database) : Type 0 where
  pub before : Task
  pub later : Task
  pub found : lookup id db.tasks ≡ some before
  pub made : change before ≡ ok later
  pub stored : db'.tasks ≡ assign id later db.tasks

pub task_row_lem :
    (id : Text) (db : Database) (t : Task) → task_row id db ≡ ok t → lookup id db.tasks ≡ some t
unfolding task_row
task_row_lem id db t h = elim (Result-cases (validate_uuid id)) [
  | inl (u, e) ↦ ground arith
  | inr (x, e) ↦ ground arith
]

pub on_task-Changed :
    (id : Text) (event : Event) (now : ℕ) (change : Task → Result Task) (db db' : Database)
    → on_task id event now change db ≡ ok db'
    → Changed id change db db'
unfolding on_task
on_task-Changed id event now change db db' h = elim (Result-cases (task_row id db)) [
  | inl (t, l) ↦ elim (Result-cases (change t)) [
    | inl (t', c) ↦ record {
      before = t;
      later = t';
      found = task_row_lem id db t l;
      made = c;
      stored = ground arith;
    }
    | inr (x, c) ↦ ground arith
  ]
  | inr (x, l) ↦ ground arith
]

-- A request that is not new leaves the row as it is: then the row is stored unchanged.
pub on_request-Changed :
    (id : Text) (event : Event) (now : ℕ) (change : Task → Result (Bool × Task)) (db db' : Database)
    → ((t t' : Task) → change t ≡ ok (false, t') → t' ≡ t)
    → on_request id event now change db ≡ ok db'
    → (t : Task) × (t' : Task) × (b : Bool) × (lookup id db.tasks ≡ some t)
      × (change t ≡ ok (b, t'))
      × (db'.tasks ≡ assign id t' db.tasks)
unfolding on_request
on_request-Changed id event now change db db' same h = elim (Result-cases (task_row id db)) [
  | inl (t, l) ↦ elim (Result-cases (change t)) [
    | inl ((true, t'), c) ↦ (t, t', true, task_row_lem id db t l, c, ground arith)
    | inl ((false, t'), c) ↦ (
      t,
      t',
      false,
      task_row_lem id db t l,
      c,
      ground (arith, same t t' c, assign_same id t db.tasks (task_row_lem id db t l)),
    )
    | inr (x, c) ↦ ground arith
  ]
  | inr (x, l) ↦ ground arith
]

insert_reference-tasks :
    (ref : Reference) (db db' : Database) → insert_reference ref db ≡ ok db' → db'.tasks ≡ db.tasks
unfolding insert_reference
insert_reference-tasks ref db db' h = ground arith

-- The checks before the transaction pass or raise.
after_check :
    {A : Type 0} (m : Result (Unit {0})) (k : Result A) {a : A} → (m >>= λ _. k) ≡ ok a → k ≡ ok a
after_check (ok u) k h = h
after_check (raised e) k h = cc

pub with_reference-Changed :
    (id : Text) (event : Event) (now : ℕ) (change : Task → Result Task) (ref : Reference)
    (db db' : Database)
    → (task_row id db >>= λ t. change t >>= λ t'.
        insert_reference ref (Tasks.set_task id t' db) >>= λ d. ok (Tasks.add_event id event now d))
      ≡ ok db'
    → Changed id change db db'
with_reference-Changed id event now change ref db db' h = elim (Result-cases (task_row id db)) [
  | inl (t, l) ↦ elim (Result-cases (change t)) [
    | inl (t', c) ↦ elim (Result-cases (insert_reference ref (Tasks.set_task id t' db))) [
      | inl (d, i) ↦ record {
        before = t;
        later = t';
        found = task_row_lem id db t l;
        made = c;
        stored = ground (arith, insert_reference-tasks ref (Tasks.set_task id t' db) d i);
      }
      | inr (x, i) ↦ ground arith
    ]
    | inr (x, c) ↦ ground arith
  ]
  | inr (x, l) ↦ ground arith
]

module _ (host : Host) where
  pub record_item-Changed :
      (id : Text) (outcome : ItemOutcome) (locator : Text) (name : Option Text) (kind ref : Text)
      (now : ℕ) (db db' : Database)
      → Tasks.record_item host id outcome locator name kind ref now db ≡ ok db'
      → Changed id (Rows.record_item outcome now) db db'
  unfolding Tasks.record_item
  record_item-Changed id outcome locator name kind ref now db db' h =
      with_reference-Changed id _ now (Rows.record_item outcome now) _ db db' (
        after_check (validate_label _) _ (
          after_check (validate_locator host locator) _
            (after_check (validate_token host kind) _ h)))

  pub add_reference-Changed :
      (id : Text) (outcome : ItemOutcome) (locator : Text) (name : Option Text) (kind ref : Text)
      (now : ℕ) (db db' : Database)
      → Tasks.add_reference host id outcome locator name kind ref now db ≡ ok db'
      → Changed id (Rows.add_reference now) db db'
  unfolding Tasks.add_reference
  add_reference-Changed id outcome locator name kind ref now db db' h =
      with_reference-Changed id Event.reference_added now (Rows.add_reference now) _ db db' (
        after_check (validate_label _) _ (
          after_check (validate_locator host locator) _
            (after_check (validate_token host kind) _ h)))

  pub create-tasks :
      (id activity : Text) (total : Option ℕ) (resumable : Bool) (now : ℕ) (db db' : Database)
      → Tasks.create host id activity total resumable now db ≡ ok db'
      → (lookup id db.tasks ≡ none)
        × (db'.tasks ≡ assign id (new_task activity total resumable now) db.tasks)
  unfolding Tasks.create
  create-tasks id activity total resumable now db db' h =
      let k = after_check (validate_token host activity) _ (after_check (validate_uuid id) _ h) in
      (ground (arith, k), ground (arith, k))
