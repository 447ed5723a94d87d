-- ===== src/Ledger/Startup.antt =====
-- `recover_after_restart` and `purge_expired`
-- (services/task-ledger/src/ai_native_ledger/ledger.py): the passes over all tasks.
pub mod Passes
use linux_ai_native_system.Prelude.{
  ℕ, ◌+◌, Bool, true, false, not, ◌&&◌, List, [], ◌∷◌, ◌++◌, Text, text_eq, Option, none, some,
  is_some, keep, lookup, Dict, contains, map, length, ltb, if◌then◌else◌,
}
use linux_ai_native_system.Ledger.Contracts.{
  TaskState, running, awaiting_approval, state_eq, is_terminal, Task, Event, EventRow, Database,
}
use linux_ai_native_system.Ledger.Rows.{can_resume, recover}

-- `state IN ('running', 'awaiting_approval')`
abbrev pub is_abandoned : Task → Bool
is_abandoned t = contains (running ∷ awaiting_approval ∷ []) t.state

-- the row of a task after the recovery of a restart
unfoldable pub recover_row : ℕ → Task → Task
recover_row now t = if is_abandoned t then recover now t else t

recover_rows : ℕ → Dict Text Task → Dict Text Task
recover_rows now [] = []
recover_rows now ((id, t) ∷ rows) = (id, recover_row now t) ∷ recover_rows now rows

recovery_events : ℕ → Dict Text Task → List EventRow
recovery_events now [] = []
recovery_events now ((id, t) ∷ rows) =
    let rest = recovery_events now rows in
    if is_abandoned t
    then record {
      task_id = id;
      event = if can_resume t then Event.interrupted else Event.failed;
      occurred_at = now;
    }
      ∷ rest
    else rest

-- `recover_after_restart`: the new database and the tasks that were recovered
unfoldable pub recover_after_restart : ℕ → Database → Database × List Text
unfolding recover_rows recovery_events
recover_after_restart now db = (
  record db {
    tasks = recover_rows now db.tasks;
    events = db.events ++ recovery_events now db.tasks;
  },
  map (λ e. e.0) (keep (λ e. is_abandoned e.1) db.tasks),
)

-- `state IN (…) AND finished_at < cutoff`; no comparison holds of NULL
unfoldable pub is_expired : ℕ → Task → Bool
is_expired cutoff t =
    is_terminal t.state && elim t.finished_at [ none ↦ false | some at ↦ ltb at cutoff ]

-- the identifiers of the rows that are deleted
expired_ids : ℕ → Dict Text Task → List Text
unfolding is_expired
expired_ids cutoff rows = map (λ e. e.0) (keep (λ e. is_expired cutoff e.1) rows)

-- `purge_expired` with the cutoff computed: the DELETE, its cascades, and `rowcount`
unfoldable pub purge_expired : ℕ → Database → Database × ℕ
unfolding expired_ids
purge_expired cutoff db =
    let gone = expired_ids cutoff db.tasks in
    (
      record {
        tasks = keep (λ e. not (is_expired cutoff e.1)) db.tasks;
        events = keep (λ (r : EventRow). not (contains gone r.task_id)) db.events;
        references = keep (λ r. not (contains gone r.task_id)) db.references;
      },
      length gone,
    )
