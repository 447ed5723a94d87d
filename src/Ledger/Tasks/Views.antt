-- ===== src/Ledger/Tasks/Views.antt =====
-- The read methods of `TaskLedger` (services/task-ledger/src/ai_native_ledger/ledger.py): `get`,
-- `list_recent`, `reference`, `event_names`. Whether a path exists is asked of the file system.
use linux_ai_native_system.Prelude.{
  ℕ, zero, suc, ◌≡◌, ◌↔◌, Bool, true, false, not, ◌&&◌, Text, text_eq, Option, none, some, List, [],
  ◌∷◌, arith, ◌==◌, keep, map, ltb, leb, if◌then◌else◌,
}
use linux_ai_native_system.Ledger.Contracts.{
  ItemOutcome, TaskState, running, interrupted, state_eq, Task, Event, EventRow, Database,
  Reference, Result, ok, raised, ◌>>=◌, ◌>>◌, require, invalid_limit, reference_not_found,
}
use linux_ai_native_system.Ledger.Values.{validate_uuid}
use linux_ai_native_system.Ledger.Rows
use linux_ai_native_system.Ledger.Tasks.{task_row}

pub record ObjectReference : Type 0 where
  pub reference_id : Text
  pub kind : Text
  pub display_name : Text
  pub locator : Text
  pub outcome : ItemOutcome
  pub available : Bool

pub record TaskView : Type 0 where
  pub task_id : Text
  pub activity : Text
  pub state : TaskState
  pub created_at : ℕ
  pub updated_at : ℕ
  pub total_items : Option ℕ
  pub processed_count : ℕ
  pub succeeded_count : ℕ
  pub skipped_count : ℕ
  pub cancel_requested : Bool
  pub continue_requested : Bool
  pub can_cancel : Bool
  pub can_continue : Bool
  pub references : List ObjectReference

-- `_reference`
abbrev pub view_reference : (Text → Bool) → Reference → ObjectReference
view_reference exists r = record {
  reference_id = r.reference_id;
  kind = r.kind;
  display_name = r.display_name;
  locator = r.locator;
  outcome = r.outcome;
  available = exists r.locator;
}

-- `ORDER BY created_at`, rows of one time in the order of insertion
insert_by_time : Reference → List Reference → List Reference
insert_by_time r [] = r ∷ []
insert_by_time r (s ∷ ss) =
    if ltb s.created_at r.created_at then s ∷ insert_by_time r ss else r ∷ s ∷ ss

order_by_time : List Reference → List Reference
unfolding insert_by_time
order_by_time [] = []
order_by_time (r ∷ rs) = insert_by_time r (order_by_time rs)

-- `_view`
unfoldable pub view : (Text → Bool) → Database → Text → Task → Bool → TaskView
unfolding order_by_time
view exists db id t include_references = record {
  task_id = id;
  activity = t.activity;
  state = t.state;
  created_at = t.created_at;
  updated_at = t.updated_at;
  total_items = t.total_items;
  processed_count = t.processed_count;
  succeeded_count = t.succeeded_count;
  skipped_count = t.skipped_count;
  cancel_requested = t.cancel_requested;
  continue_requested = t.continue_requested;
  can_cancel = (t.state == running) && not t.cancel_requested;
  can_continue = (t.state == interrupted) && not t.continue_requested;
  references =
      if include_references
      then map (view_reference exists) (order_by_time (keep (λ r. r.task_id == id) db.references))
      else [];
}

-- `get`
unfoldable pub get : (Text → Bool) → Text → Bool → Database → Result TaskView
get exists id include_references db = do
  t ← task_row id db
  ok (view exists db id t include_references)

find_reference : Text → List Reference → Option Reference
find_reference id [] = none
find_reference id (r ∷ rs) = if r.reference_id == id then some r else find_reference id rs

-- `reference`
unfoldable pub reference : (Text → Bool) → Text → Database → Result ObjectReference
unfolding validate_uuid find_reference
reference exists id db = do
  validate_uuid id
  elim (find_reference id db.references) [
    | none ↦ raised reference_not_found
    | some r ↦ ok (view_reference exists r)
  ]

-- `event_names`
unfoldable pub event_names : Text → Database → Result (List Event)
event_names id db = do
  t ← task_row id db
  ok (map (λ (r : EventRow). r.event) (keep (λ r. r.task_id == id) db.events))

-- `ORDER BY created_at DESC`, rows of one time in the order of insertion
insert_recent : Text × Task → List (Text × Task) → List (Text × Task)
insert_recent r [] = r ∷ []
insert_recent (i, t) ((j, u) ∷ rows) =
    if ltb t.created_at u.created_at
    then (j, u) ∷ insert_recent (i, t) rows
    else (i, t) ∷ (j, u) ∷ rows

order_recent : List (Text × Task) → List (Text × Task)
unfolding insert_recent
order_recent [] = []
order_recent (r ∷ rows) = insert_recent r (order_recent rows)

take : ℕ → List (Text × Task) → List (Text × Task)
take zero rows = []
take (suc n) [] = []
take (suc n) (r ∷ rows) = r ∷ take n rows

-- `list_recent`
unfoldable pub list_recent : (Text → Bool) → ℕ → Database → Result (List TaskView)
unfolding order_recent take
list_recent exists limit db = do
  require (leb 1 limit && leb limit 1000) invalid_limit
  ok (map (λ r. view exists db r.0 r.1 false) (take limit (order_recent db.tasks)))

-- The view offers to cancel exactly where a request to cancel is accepted as new, and to continue
-- exactly where a request to continue is.
pub view_offers :
    (exists : Text → Bool) (db : Database) (id : Text) (t : Task) (refs : Bool) (now : ℕ)
    → let v = view exists db id t refs in
      ((v.can_cancel ≡ true) ↔ (
        Rows.request_cancel now t
        ≡ ok (true, record t { cancel_requested = true; updated_at = now })))
      × ((v.can_continue ≡ true) ↔ (
          Rows.request_continue now t
          ≡ ok (true, record t { continue_requested = true; updated_at = now })))
unfolding view Rows.request_cancel Rows.request_continue
view_offers exists db id t refs now = ground arith
