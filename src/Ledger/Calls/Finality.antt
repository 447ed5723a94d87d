-- ===== src/Ledger/Calls/Finality.antt =====
-- What calls can and cannot do to a task: the state machine, its final states, and resumption.
use linux_ai_native_system.Prelude.{
  ℕ, ◌≤◌, ◌≡◌, ◌⊎◌, true, false, Text, text_eq, text_beq, text_beq_iff, Option, none, some, [], ◌∷◌,
  arith, lookup, lookup-assign, Option-cases, Bool-cases, inl, inr, if◌then◌else◌, contains,
}
use linux_ai_native_system.Permission.Identifiers.{is_canonical_uuid}
use linux_ai_native_system.Ledger.Contracts.{
  Task, TaskState, running, interrupted, failed, completed, awaiting_approval, skipped, Database,
  Event, ok, Result-cases, is_terminal, state_eq,
}
use linux_ai_native_system.Ledger.Values.{Host, validate_uuid}
use linux_ai_native_system.Ledger.Rows
use linux_ai_native_system.Ledger.Rows.{new_task, recover, complete_target, can_resume, finish}
use linux_ai_native_system.Ledger.Rows.Steps.{RowStep-not_terminal, RowStep-⟶, ◌⟶◌, edges}
use linux_ai_native_system.Ledger.Startup
use linux_ai_native_system.Ledger.Startup.{is_abandoned, recover_row, is_expired}
use linux_ai_native_system.Ledger.Startup.Passes.{recover_some, recover_reports, lookup-purge}
use linux_ai_native_system.Ledger.Tasks
use linux_ai_native_system.Ledger.Tasks.{task_row}
use linux_ai_native_system.Ledger.Tasks.Transactions.{record_item-Changed}
use linux_ai_native_system.Ledger.Calls.{Call, run_call, after}
use linux_ai_native_system.Ledger.Calls.Effects.{
  Effect, touched, inserted, recovered, purged, IsEncoded, run_call-Effect, complete_as-Changed,
}
use linux_ai_native_system.Ledger.Calls.Validity.{AllValid}

recover_row-terminal : (now : ℕ) (t : Task) → is_terminal t.state ≡ true → recover_row now t ≡ t
unfolding recover_row
recover_row-terminal now t h = rw (idle t.state h)
  where
    idle :
        (s : TaskState)
        → is_terminal s ≡ true
        → contains (running ∷ awaiting_approval ∷ []) s ≡ false
    idle s h = ground arith

recover_row-⟶ :
    (now : ℕ) (t : Task)
    → (t.state ≡ (recover_row now t).state) ⊎ (t.state ⟶ (recover_row now t).state)
unfolding recover_row recover
recover_row-⟶ now t = elim (Bool-cases (can_resume t)) [
  | inl more ↦ grind (arith, edges)
  | inr fresh ↦ grind (arith, edges)
]

module _ (now : ℕ) (c : Call) (db db' : Database) (v : AllValid db.tasks) (id : Text) (t : Task)
    (l : lookup id db.tasks ≡ some t) where
  -- A finished row stays, or expires and goes.
  Effect-terminal :
      is_terminal t.state ≡ true
      → Effect now c db db'
      → (lookup id db'.tasks ≡ some t)
        ⊎ ((lookup id db'.tasks ≡ none)
            × ((cutoff : ℕ) × (c ≡ Call.purge_expired cutoff) × (is_expired cutoff t ≡ true)))
  Effect-terminal f (touched j u u' k step s) = elim (Bool-cases (text_beq j id)) [
    | inl same ↦ ground (arith, text_beq_iff j id, RowStep-not_terminal now u u' step)
    | inr other ↦ inl (ground (arith, lookup-assign j id u' db.tasks))
  ]
  Effect-terminal f (inserted j activity total resumable k s) = inl (
      ground (
        arith,
        text_beq_iff j id,
        lookup-assign j id (new_task activity total resumable now) db.tasks,
      ))
  Effect-terminal f (recovered s) =
      inl (ground (arith, recover_some now db id t l, recover_row-terminal now t f))
  Effect-terminal f (purged cutoff asked s) = elim (Bool-cases (is_expired cutoff t)) [
    | inl old ↦ inr (ground (arith, lookup-purge cutoff db v.keys id t l), (cutoff, asked, old))
    | inr recent ↦ inl (ground (arith, lookup-purge cutoff db v.keys id t l))
  ]

  Effect-⟶ :
      (t' : Task)
      → lookup id db'.tasks ≡ some t'
      → Effect now c db db'
      → (t.state ≡ t'.state) ⊎ (t.state ⟶ t'.state)
  Effect-⟶ t' m (touched j u u' k step s) = elim (Bool-cases (text_beq j id)) [
    | inl same ↦
        let before : u ≡ t = ground (arith, text_beq_iff j id) in
        let later : u' ≡ t' = ground (arith, lookup-assign j id u' db.tasks) in
        rw (← before, ← later) (RowStep-⟶ now u u' step)
    | inr other ↦ inl (ground (arith, lookup-assign j id u' db.tasks))
  ]
  Effect-⟶ t' m (inserted j activity total resumable k s) = inl (
      ground (
        arith,
        text_beq_iff j id,
        lookup-assign j id (new_task activity total resumable now) db.tasks,
      ))
  Effect-⟶ t' m (recovered s) =
      let later : recover_row now t ≡ t' = ground (arith, recover_some now db id t l) in
      rw (← later) (recover_row-⟶ now t)
  Effect-⟶ t' m (purged cutoff asked s) = inl (ground (arith, lookup-purge cutoff db v.keys id t l))

module _ (host : Host) (now : ℕ) (c : Call) (db : Database) (e : IsEncoded c)
    (v : AllValid db.tasks) (id : Text) (t : Task) (l : lookup id db.tasks ≡ some t) where
  -- A finished task is final: any call leaves its row unchanged to the last column, except that a
  -- purge deletes it once it has expired.
  pub after_terminal :
      is_terminal t.state ≡ true
      → (lookup id (after host now c db).tasks ≡ some t)
        ⊎ ((lookup id (after host now c db).tasks ≡ none)
            × ((cutoff : ℕ) × (c ≡ Call.purge_expired cutoff) × (is_expired cutoff t ≡ true)))
  after_terminal f = elim (Result-cases (run_call host now c db)) [
    | inl (db', h) ↦
        rw h (Effect-terminal now c db db' v id t l f (run_call-Effect host now c db db' e h))
    | inr (x, h) ↦ rw h (inl l)
  ]

  -- Whatever is called, the state of a task stays or follows an edge of the state machine.
  pub after-⟶ :
      (t' : Task)
      → lookup id (after host now c db).tasks ≡ some t'
      → (t.state ≡ t'.state) ⊎ (t.state ⟶ t'.state)
  after-⟶ t' m = elim (Result-cases (run_call host now c db)) [
    | inl (db', h) ↦
        Effect-⟶ now c db db' v id t l t' (rw h at m) (run_call-Effect host now c db db' e h)
    | inr (x, h) ↦ inl (let stays : lookup id db.tasks ≡ some t' = rw h at m in ground arith)
  ]

-- A task that is interrupted and asked to continue can always be claimed: the claim returns the
-- checkpoint that was saved, and the task runs again with both requests cleared.
pub claim_continue_resumes :
    (id : Text) (now : ℕ) (db : Database) (t : Task)
    → is_canonical_uuid id ≡ true
    → AllValid db.tasks
    → lookup id db.tasks ≡ some t
    → t.state ≡ interrupted
    → t.continue_requested ≡ true
    → (saved : Text) × (db' : Database) × (t.checkpoint_json ≡ some saved)
      × (Tasks.claim_continue id now db ≡ ok (some saved, db'))
      × (lookup id db'.tasks
          ≡ some (record t {
            state = running;
            cancel_requested = false;
            continue_requested = false;
            updated_at = now;
          }))
unfolding Tasks.claim_continue task_row validate_uuid Rows.claim_continue
claim_continue_resumes id now db t u v l s r = elim (Option-cases t.checkpoint_json) [
  | inl lost ↦ ground (arith, (v.rows id t l).interruptible)
  | inr (saved, j) ↦
      let resumed = record t {
        state = running;
        cancel_requested = false;
        continue_requested = false;
        updated_at = now;
      } in
      (
        saved,
        Tasks.add_event id Event.continued now (Tasks.set_task id resumed db),
        j,
        ground (arith, (v.rows id t l).versioned),
        ground (arith, lookup-assign id id resumed db.tasks, text_beq_iff id id),
      )
]

-- After the recovery of a restart no task is running or waits for approval. Such a task is
-- interrupted if it can be resumed from a checkpoint, and has failed otherwise; every other task
-- is as before, and the tasks that are reported are those that were recovered.
pub recover_after_restart_lem :
    (now : ℕ) (db : Database) (id : Text) (t : Task)
    → AllValid db.tasks
    → lookup id db.tasks ≡ some t
    → lookup id (Startup.recover_after_restart now db).0.tasks ≡ some (recover_row now t)
      × (is_abandoned (recover_row now t) ≡ false)
      × (is_abandoned t ≡ false → recover_row now t ≡ t)
      × (is_abandoned t ≡ true
          → (recover_row now t).state ≡ (if can_resume t then interrupted else failed))
      × (contains (Startup.recover_after_restart now db).1 id ≡ is_abandoned t)
unfolding recover_row recover
recover_after_restart_lem now db id t v l = (
  unfold recover_row in recover_some now db id t l,
  ground arith,
  ground arith,
  ground arith,
  recover_reports now db v.keys id t l,
)

-- `complete` reads its target before its own transaction. If a skipped item is recorded in
-- between, a task without skips so far ends as completed, though an item of it was skipped.
pub complete_race :
    (host : Host) (id : Text) (locator : Text) (name : Option Text) (kind ref : Text)
    (now later : ℕ) (db db' db'' : Database) (t : Task)
    → lookup id db.tasks ≡ some t
    → t.skipped_count ≡ 0
    → Tasks.record_item host id skipped locator name kind ref now db ≡ ok db'
    → Tasks.complete_as (complete_target t) id later db' ≡ ok db''
    → (t'' : Task) × (lookup id db''.tasks ≡ some t'')
      × (t''.state ≡ completed)
      × (1 ≤ t''.skipped_count)
unfolding Rows.record_item finish complete_target
complete_race host id locator name kind ref now later db db' db'' t l z h k =
    let a = record_item-Changed host id skipped locator name kind ref now db db' h in
    let b = complete_as-Changed (complete_target t) id later db' db'' k in
    (
      b.later,
      ground (arith, b.stored, lookup-assign id id b.later db'.tasks, text_beq_iff id id),
      ground (arith, b.made),
      ground (
        arith,
        a.made,
        b.made,
        a.stored,
        a.found,
        b.found,
        lookup-assign id id a.later db.tasks,
        text_beq_iff id id,
      ),
    )
