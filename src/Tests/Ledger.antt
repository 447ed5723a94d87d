-- ===== src/Tests/Ledger.antt =====
-- The ledger of services/task-ledger at work on one task.
use linux_ai_native_system.Prelude.{
  keep, text_beq, ℕ, ◌≤◌, ◌≡◌, ◌⊎◌, refl, true, false, Text, text_beq, text_eq, codes, none, some,
  List, [], ◌∷◌, is_lower_ascii, is_digit_ascii, lookup, contains, arith, if◌then◌else◌,
}
use linux_ai_native_system.Permission.Identifiers.{is_canonical_uuid}
use linux_ai_native_system.Ledger.Contracts.{
  running, interrupted, completed, failed, cancelled, succeeded, skipped, Task, Database, ok,
  Result,
}
use linux_ai_native_system.Ledger.Values.{
  Host, validate_uuid, validate_token, validate_label, validate_locator, locator_name,
}
use linux_ai_native_system.Ledger.Rows
use linux_ai_native_system.Ledger.Rows.{
  new_task, transition, finish, complete_target, recover, can_resume,
}
use linux_ai_native_system.Ledger.Rows.Steps.{◌⟶◌}
use linux_ai_native_system.Ledger.Startup
use linux_ai_native_system.Ledger.Startup.{recover_row, is_abandoned, is_expired, purge_expired}
use linux_ai_native_system.Ledger.Startup.Passes.{IsOld, purge_expired_lem}
use linux_ai_native_system.Ledger.Tasks
use linux_ai_native_system.Ledger.Tasks.{task_row, on_task}
use linux_ai_native_system.Ledger.Calls.{Call, run_call, after, run, empty}
use linux_ai_native_system.Ledger.Calls.Validity.{
  AllValid, run-AllValid, empty-AllValid, assign-AllValid,
}
use linux_ai_native_system.Ledger.Calls.Finality.{
  after_terminal, after-⟶, claim_continue_resumes, recover_after_restart_lem, complete_race,
}

abbrev pub host : Host
host = record {
  is_lower = is_lower_ascii;
  is_digit = is_digit_ascii;
  windows_absolute = λ s. false;
  windows_name = λ s. s;
  posix_name = λ s. s;
}

abbrev task : Text
task = codes "6f1c1d0e-2b3a-4c5d-8e9f-0a1b2c3d4e5f"

abbrev paused : List (ℕ × Call)
paused =
    (1, Call.create task (codes "files.copy") (some 3) true)
    ∷ (2, Call.start task)
    ∷ (3, Call.record_item task succeeded (codes "/a") none (codes "file") (codes "r1"))
    ∷ (4, Call.save_checkpoint task (some (codes "{}")) 1)
    ∷ (5, Call.interrupt task)
    ∷ (6, Call.complete (new_task (codes "files.copy") (some 3) true 1) task)
    ∷ (7, Call.request_continue task)
    ∷ []

abbrev paused_task : Task
paused_task = record {
  activity = codes "files.copy";
  state = interrupted;
  created_at = 1;
  updated_at = 7;
  finished_at = none;
  total_items = some 3;
  processed_count = 1;
  succeeded_count = 1;
  skipped_count = 0;
  resumable = true;
  cancel_requested = false;
  continue_requested = true;
  checkpoint_version = some 1;
  checkpoint_json = some (codes "{}");
}

-- the call of `complete` raises
paused_row : lookup task (run host paused empty).tasks ≡ some paused_task
unfolding run run_call Tasks.create Tasks.start Tasks.record_item Tasks.save_checkpoint
    Tasks.interrupt Tasks.complete_as Tasks.request_continue task_row validate_uuid validate_token
    validate_label validate_locator locator_name is_canonical_uuid text_beq new_task transition
    finish complete_target Rows.record_item Rows.save_checkpoint Rows.interrupt
    Rows.request_continue
paused_row = refl

run-AllValid_example : AllValid (run host paused empty).tasks
run-AllValid_example = run-AllValid host paused empty (omega arith) empty-AllValid

claim_continue_resumes_example :
    (saved : Text) × (db' : Database) × (paused_task.checkpoint_json ≡ some saved)
    × (Tasks.claim_continue task 8 (run host paused empty) ≡ ok (some saved, db'))
    × (lookup task db'.tasks
        ≡ some (record paused_task {
          state = running;
          cancel_requested = false;
          continue_requested = false;
          updated_at = 8;
        }))
claim_continue_resumes_example =
    claim_continue_resumes task 8 (run host paused empty) paused_task
      (unfold is_canonical_uuid in refl) run-AllValid_example paused_row refl refl

-- a database with one row
abbrev holding : Task → Database
holding t = record { tasks = (task, t) ∷ []; events = []; references = [] }

found : (t : Task) → lookup task (holding t).tasks ≡ some t
unfolding text_beq
found t = refl

abbrev done : Task
done = record paused_task {
  state = completed;
  finished_at = some 9;
  continue_requested = false;
  checkpoint_version = none;
  checkpoint_json = none;
}

done-AllValid : AllValid (holding done).tasks
done-AllValid = assign-AllValid task done [] empty-AllValid (ground arith)

after_terminal_example :
    (lookup task (after host 10 (Call.fail task) (holding done)).tasks ≡ some done)
    ⊎ ((lookup task (after host 10 (Call.fail task) (holding done)).tasks ≡ none)
        × ((cutoff : ℕ) × (Call.fail task ≡ Call.purge_expired cutoff)
            × (is_expired cutoff done ≡ true)))
after_terminal_example =
    after_terminal host 10 (Call.fail task) (holding done) tt done-AllValid task done (found done)
      refl

abbrev active : Task
active = record paused_task { state = running; continue_requested = false }

active-AllValid : AllValid (holding active).tasks
active-AllValid = assign-AllValid task active [] empty-AllValid (ground arith)

cancelled_row :
    lookup task (after host 10 (Call.cancelled task) (holding active)).tasks
    ≡ some (record active {
      state = cancelled;
      updated_at = 10;
      finished_at = some 10;
      checkpoint_version = none;
      checkpoint_json = none;
    })
unfolding run_call Tasks.cancelled task_row validate_uuid is_canonical_uuid text_beq finish
cancelled_row = refl

after-⟶_example : (running ≡ cancelled) ⊎ (running ⟶ cancelled)
after-⟶_example =
    after-⟶ host 10 (Call.cancelled task) (holding active) tt active-AllValid task active
      (found active)
      (record active {
        state = cancelled;
        updated_at = 10;
        finished_at = some 10;
        checkpoint_version = none;
        checkpoint_json = none;
      })
      cancelled_row

recover_after_restart_lem_example :
    lookup task (Startup.recover_after_restart 11 (holding active)).0.tasks
      ≡ some (recover_row 11 active)
    × (is_abandoned (recover_row 11 active) ≡ false)
    × (is_abandoned active ≡ false → recover_row 11 active ≡ active)
    × (is_abandoned active ≡ true
        → (recover_row 11 active).state ≡ (if can_resume active then interrupted else failed))
    × (contains (Startup.recover_after_restart 11 (holding active)).1 task ≡ is_abandoned active)
recover_after_restart_lem_example =
    recover_after_restart_lem 11 (holding active) task active active-AllValid (found active)

purge_expired_lem_example :
    (IsOld 20 done
      × (lookup task (purge_expired 20 (holding done)).0.tasks ≡ none)
      × (keep (λ r. text_beq r.task_id task) (purge_expired 20 (holding done)).0.events ≡ [])
      × (keep (λ r. text_beq r.task_id task) (purge_expired 20 (holding done)).0.references ≡ []))
    ⊎ ((¬ IsOld 20 done)
        × (lookup task (purge_expired 20 (holding done)).0.tasks ≡ some done)
        × (keep (λ r. text_beq r.task_id task) (purge_expired 20 (holding done)).0.events
            ≡ keep (λ r. text_beq r.task_id task) (holding done).events)
        × (keep (λ r. text_beq r.task_id task) (purge_expired 20 (holding done)).0.references
            ≡ keep (λ r. text_beq r.task_id task) (holding done).references))
purge_expired_lem_example =
    purge_expired_lem 20 (holding done) done-AllValid.keys task done (found done)

abbrev item_of : Result Database → Database
item_of (ok db) = db
item_of (Result.raised e) = empty

skip_item : Result Database
skip_item =
    Tasks.record_item host task skipped (codes "/b") none (codes "file") (codes "r2") 12
      (holding active)

skipped_item : skip_item ≡ ok (item_of skip_item)
unfolding skip_item Tasks.record_item task_row validate_uuid validate_token validate_label
    validate_locator locator_name is_canonical_uuid text_beq Rows.record_item
skipped_item = refl

complete_late : Result Database
complete_late = Tasks.complete_as (complete_target active) task 13 (item_of skip_item)

completed_late : complete_late ≡ ok (item_of complete_late)
unfolding complete_late skip_item Tasks.complete_as complete_target finish Tasks.record_item
    task_row validate_uuid validate_token validate_label validate_locator locator_name
    is_canonical_uuid text_beq Rows.record_item
completed_late = refl

complete_race_example :
    (t : Task) × (lookup task (item_of complete_late).tasks ≡ some t)
    × (t.state ≡ completed)
    × (1 ≤ t.skipped_count)
complete_race_example =
    complete_race host task (codes "/b") none (codes "file") (codes "r2") 12 13 (holding active)
      (item_of skip_item) (item_of complete_late) active (found active) refl
      (unfold skip_item in skipped_item) (unfold complete_late in completed_late)
