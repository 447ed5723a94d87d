-- ===== src/Orchestrator/World/Recording.antt =====
-- What the calls of the ledger leave as it was, and what the ledger says of a run whose result is
-- returned (orchestrator.py of services/execution-orchestrator).
use linux_ai_native_system.Prelude.{
  ℕ, ◌≡◌, refl, sym, subst, true, List, [], ◌∷◌, Text, text_eq, text_beq_iff, Option, none, some,
  lookup, lookup-assign, contains, arith, Option-cases, inl, inr,
}
use linux_ai_native_system.Ledger.Contracts.{
  TaskState, state_eq, Task, Event, Database, Error, Result, ok, Result-cases,
}
use linux_ai_native_system.Ledger.Rows.{transition, finish, complete_target}
use linux_ai_native_system.Ledger.Tasks
use linux_ai_native_system.Ledger.Tasks.{on_task, task_row}
use linux_ai_native_system.Ledger.Tasks.Transactions.{on_task-Changed}
use linux_ai_native_system.Orchestrator.Contracts.{OrchestrationState, OrchestrationResult}
use linux_ai_native_system.Orchestrator.World.{
  World, Ended, finished, rejected, ledger_raised, invalid_approval_id, approval_not_found,
  uncaught, Update, once, and_then, after_ledger, try_ledger,
}

-- the states of the task of a run that ended so
abbrev pub task_states : OrchestrationState → List TaskState
task_states OrchestrationState.completed = TaskState.completed ∷ TaskState.completed_with_skips ∷ []
task_states OrchestrationState.awaiting_approval = TaskState.awaiting_approval ∷ []
task_states OrchestrationState.failed = TaskState.failed ∷ []
task_states OrchestrationState.cancelled = TaskState.cancelled ∷ []

-- The task of the run is in such a state.
abbrev pub Recorded : Text → OrchestrationState → Database → Type 0
Recorded id state db =
    (t : Task) × (lookup id db.tasks ≡ some t) × (contains (task_states state) t.state ≡ true)

-- The same, where there is a ledger.
abbrev pub InLedger : Text → OrchestrationState → Option Database → Type 0
InLedger id state none = Unit
InLedger id state (some db) = Recorded id state db

on_task-Recorded :
    (id : Text) (event : Event) (now : ℕ) (change : Task → Result Task) (state : OrchestrationState)
    (db db' : Database)
    → ((t t' : Task) → change t ≡ ok t' → contains (task_states state) t'.state ≡ true)
    → on_task id event now change db ≡ ok db'
    → Recorded id state db'
on_task-Recorded id event now change state db db' moves h =
    let c = on_task-Changed id event now change db db' h in
    (
      c.later,
      ground (arith, c.stored, lookup-assign id id c.later db.tasks, text_beq_iff id id),
      moves c.before c.later c.made,
    )

pub fail-Recorded :
    (id : Text) (now : ℕ) (db db' : Database)
    → Tasks.fail id now db ≡ ok db'
    → Recorded id OrchestrationState.failed db'
unfolding Tasks.fail finish
fail-Recorded id now db db' h =
    on_task-Recorded id _ now _ OrchestrationState.failed db db' (λ t t' c. ground (arith, c)) h

pub cancelled-Recorded :
    (id : Text) (now : ℕ) (db db' : Database)
    → Tasks.cancelled id now db ≡ ok db'
    → Recorded id OrchestrationState.cancelled db'
unfolding Tasks.cancelled finish
cancelled-Recorded id now db db' h =
    on_task-Recorded id _ now _ OrchestrationState.cancelled db db' (λ t t' c. ground (arith, c)) h

pub awaiting_approval-Recorded :
    (id : Text) (now : ℕ) (db db' : Database)
    → Tasks.awaiting_approval id now db ≡ ok db'
    → Recorded id OrchestrationState.awaiting_approval db'
unfolding Tasks.awaiting_approval transition
awaiting_approval-Recorded id now db db' h =
    on_task-Recorded id _ now _ OrchestrationState.awaiting_approval db db'
      (λ t t' c. ground (arith, c)) h

pub complete-Recorded :
    (id : Text) (now : ℕ) (db db' : Database)
    → Tasks.complete id now db ≡ ok db'
    → Recorded id OrchestrationState.completed db'
unfolding Tasks.complete Tasks.complete_as finish complete_target
complete-Recorded id now db db' h = elim (Result-cases (task_row id db)) [
  | inl (t, l) ↦
      on_task-Recorded id Event.completed now
        (finish (TaskState.running ∷ []) (complete_target t) now) OrchestrationState.completed db
        db' (λ u u' c. ground (arith, c)) (ground (arith, h, l))
  | inr (e, l) ↦ ground (arith, h, l)
]

-- What holds after a call that does not raise.
once_lem :
    (call : Database → Result Database) (Q : Database → Type 0)
    → ((db db' : Database) → call db ≡ ok db' → Q db')
    → (db : Database) → (once call db).1 ≡ none
    → Q (once call db).0
once_lem call Q holds db n = elim (Result-cases (call db)) [
  | inl (db', e) ↦ subst Q {x = db'} {y = (once call db).0} (ground (arith, e)) (holds db db' e)
  | inr (x, e) ↦ ground (arith, n, e)
]

-- The same, after other calls that do not raise.
pub and_then_once :
    (first : Update) (call : Database → Result Database) (Q : Database → Type 0)
    → ((db db' : Database) → call db ≡ ok db' → Q db')
    → (db : Database) → (and_then first (once call) db).1 ≡ none
    → Q (and_then first (once call) db).0
and_then_once first call Q holds db n = elim (Option-cases (first db).1) [
  | inl went ↦
      let same : and_then first (once call) db ≡ once call (first db).0 = ground (arith, went) in
      subst (λ x. Q x.0) (sym same)
        (once_lem call Q holds (first db).0 (subst (λ x. x.1 ≡ none) same n))
  | inr (e, threw) ↦ ground (arith, n, threw)
]

module _ {C : Type 0} where
  -- The calls raised the error on some database, and the ledger is as they left it.
  abbrev pub Raises : Update → Error → World C → Type 0
  Raises u e w = (db : Database) × ((u db).1 ≡ some e) × (w.ledger ≡ some (u db).0)

  -- Calls of the ledger that return the result, with a ledger that agrees with it, or that raise the
  -- ledger's error.
  abbrev pub Tells : Text → Update → World C → OrchestrationResult C → World C × Ended C → Type 0
  Tells id u w res (w', finished res') =
      (res' ≡ res) × (w'.sessions ≡ w.sessions) × InLedger id res.state w'.ledger
  Tells id u w res (w', ledger_raised e) = Raises u e w'
  Tells id u w res (w', rejected e) = ⊥
  Tells id u w res (w', invalid_approval_id) = ⊥
  Tells id u w res (w', approval_not_found) = ⊥
  Tells id u w res (w', uncaught x) = ⊥

  -- The last of the calls of the ledger tells the state of the result.
  pub after_ledger-Tells :
      (id : Text) (u : Update) (w : World C) (res : OrchestrationResult C)
      → ((db : Database) → (u db).1 ≡ none → Recorded id res.state (u db).0)
      → Tells id u w res (after_ledger u w (λ w'. (w', finished res)))
  unfolding after_ledger
  after_ledger-Tells id u w res tells = with_ledger w.ledger refl
    where
      told :
          (db : Database) (error : Option Error)
          → (u db).1 ≡ error
          → Tells id u w res (elim error as (λ _. World C × Ended C) [
            | none ↦ (record w { ledger = some (u db).0 }, finished res)
            | some e ↦ (record w { ledger = some (u db).0 }, ledger_raised e)
          ])
      told db none e = (refl, refl, tells db e)
      told db (some x) e = (db, e, refl)

      with_ledger :
          (l : Option Database)
          → w.ledger ≡ l
          → Tells id u w res (elim l as (λ _. World C × Ended C) [
            | none ↦ (w, finished res)
            | some db ↦ elim (u db).1 [
              | none ↦ (record w { ledger = some (u db).0 }, finished res)
              | some e ↦ (record w { ledger = some (u db).0 }, ledger_raised e)
            ]
          ])
      with_ledger none e = (refl, refl, subst (InLedger id res.state) (sym e) tt)
      with_ledger (some db) e = told db (u db).1 refl

  -- One call of the ledger, which tells the state of the result.
  pub once-Tells :
      (id : Text) (call : Database → Result Database) (w : World C) (res : OrchestrationResult C)
      → ((db db' : Database) → call db ≡ ok db' → Recorded id res.state db')
      → Tells id (once call) w res (after_ledger (once call) w (λ w'. (w', finished res)))
  once-Tells id call w res tells =
      after_ledger-Tells id (once call) w res
        (λ db n. once_lem call (Recorded id res.state) tells db n)

  -- Calls of the ledger come before the rest, or their error ends the call.
  pub after_ledger_either :
      (Q : World C × Ended C → Type 0) (u : Update) (w : World C) (k : World C → World C × Ended C)
      → ((w' : World C) → w'.registry ≡ w.registry → w'.sessions ≡ w.sessions → Q (k w'))
      → ((w' : World C) (e : Error) → Raises u e w' → Q (w', ledger_raised e))
      → Q (after_ledger u w k)
  unfolding after_ledger
  after_ledger_either Q u w k rest raises = with_ledger w.ledger
    where
      told :
          (db : Database) (error : Option Error)
          → (u db).1 ≡ error
          → Q (elim error as (λ _. World C × Ended C) [
            | none ↦ k (record w { ledger = some (u db).0 })
            | some e ↦ (record w { ledger = some (u db).0 }, ledger_raised e)
          ])
      told db none h = rest (record w { ledger = some (u db).0 }) refl refl
      told db (some e) h = raises (record w { ledger = some (u db).0 }) e (db, h, refl)

      with_ledger :
          (l : Option Database)
          → Q (elim l as (λ _. World C × Ended C) [
            | none ↦ k w
            | some db ↦ elim (u db).1 [
              | none ↦ k (record w { ledger = some (u db).0 })
              | some e ↦ (record w { ledger = some (u db).0 }, ledger_raised e)
            ]
          ])
      with_ledger none = rest w refl refl
      with_ledger (some db) = told db (u db).1 refl

  pub try_ledger_sessions : (u : Update) (v : World C) → (try_ledger u v).0.sessions ≡ v.sessions
  unfolding try_ledger
  try_ledger_sessions u v = elim (Option-cases v.ledger) [
    | inl absent ↦ ground (arith, absent)
    | inr (db, l) ↦ ground (arith, l)
  ]

  pub try_ledger_registry : (u : Update) (v : World C) → (try_ledger u v).0.registry ≡ v.registry
  unfolding try_ledger
  try_ledger_registry u v = elim (Option-cases v.ledger) [
    | inl absent ↦ ground (arith, absent)
    | inr (db, l) ↦ ground (arith, l)
  ]
