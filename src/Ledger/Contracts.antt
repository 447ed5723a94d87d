-- ===== src/Ledger/Contracts.antt =====
-- services/task-ledger/src/ai_native_ledger/contracts.py and the tables of ledger.py. A timestamp
-- is the number of ticks since a fixed moment, in the order of its ISO text. A table is a list of
-- rows in the order of insertion.
use linux_ai_native_system.Prelude.{
  ℕ, Bool, true, false, Option, List, [], ◌∷◌, ◌≡◌, ◌↔◌, arith, Text, Eq, Dict, contains, ◌⊎◌, inl,
  inr, refl,
}

pub data TaskState : Type 0 where
  planned running awaiting_approval interrupted : TaskState
  completed completed_with_skips failed cancelled : TaskState

pub data ItemOutcome : Type 0 where
  succeeded skipped : ItemOutcome

abbrev pub state_beq : TaskState → TaskState → Bool
state_beq planned planned = true
state_beq running running = true
state_beq awaiting_approval awaiting_approval = true
state_beq interrupted interrupted = true
state_beq completed completed = true
state_beq completed_with_skips completed_with_skips = true
state_beq failed failed = true
state_beq cancelled cancelled = true
state_beq _ _ = false

pub state_beq_iff : (a b : TaskState) → (state_beq a b ≡ true) ↔ (a ≡ b)
state_beq_iff a b = ground arith

instance abbrev pub state_eq : Eq TaskState
state_eq = record { same = state_beq; same_iff = state_beq_iff }

-- `TERMINAL_STATES`
abbrev pub terminal_states : List TaskState
terminal_states = completed ∷ completed_with_skips ∷ failed ∷ cancelled ∷ []

abbrev pub is_terminal : TaskState → Bool
is_terminal s = contains terminal_states s

-- A row of `tasks`, but for its key.
pub record Task : Type 0 where
  pub activity : Text
  pub state : TaskState
  pub created_at : ℕ
  pub updated_at : ℕ
  pub finished_at : Option ℕ
  pub total_items : Option ℕ
  pub processed_count : ℕ
  pub succeeded_count : ℕ
  pub skipped_count : ℕ
  pub resumable : Bool
  pub cancel_requested : Bool
  pub continue_requested : Bool
  pub checkpoint_version : Option ℕ
  pub checkpoint_json : Option Text

-- The names in `task_events`.
pub data Event : Type 0 where
  created started awaiting_approval approval_received : Event
  item_succeeded item_skipped reference_added checkpoint_saved : Event
  interrupted continue_requested continued cancel_requested : Event
  cancelled completed failed : Event

-- A row of `task_events`.
pub record EventRow : Type 0 where
  pub task_id : Text
  pub event : Event
  pub occurred_at : ℕ

-- A row of `task_references`.
pub record Reference : Type 0 where
  pub reference_id : Text
  pub task_id : Text
  pub kind : Text
  pub display_name : Text
  pub locator : Text
  pub outcome : ItemOutcome
  pub created_at : ℕ

pub record Database : Type 0 where
  pub tasks : Dict Text Task
  pub events : List EventRow
  pub references : List Reference

-- What the methods raise: `ValueError` by its subject, and the codes of `LedgerError`.
pub data Error : Type 0 where
  invalid_task_id invalid_token invalid_label invalid_locator : Error
  invalid_total invalid_version invalid_checkpoint : Error
  task_already_exists task_not_found transition_not_allowed task_not_running : Error
  total_items_exceeded task_not_active task_not_resumable safe_checkpoint_unavailable : Error
  task_not_interrupted continue_not_requested cancellation_requested : Error
  integrity_error invalid_limit reference_not_found : Error

pub data Result {ℓ} (A : Type ℓ) : Type ℓ where
  raised : Error → Result A
  ok : A → Result A

module _ {ℓ κ} {A : Type ℓ} {B : Type κ} where
  infixl 5 ◌>>=◌
  abbrev pub ◌>>=◌ : Result A → (A → Result B) → Result B
  raised e >>= step = raised e
  ok a >>= step = step a

module _ {ℓ} {B : Type ℓ} where
  infixl 5 ◌>>◌
  abbrev pub ◌>>◌ : Result (Unit {0}) → Result B → Result B
  first >> next = first >>= λ _. next

-- `if not test: raise …`
abbrev pub require : Bool → Error → Result (Unit {0})
require false error = raised error
require true error = ok tt

abbrev pub result_or {ℓ} : {A : Type ℓ} → Result A → A → A
result_or (ok a) d = a
result_or (raised e) d = d

-- To split on a computed result and keep the equation.
pub Result-cases {ℓ} :
    {A : Type ℓ} (r : Result A) → ((a : A) × (r ≡ ok a)) ⊎ ((e : Error) × (r ≡ raised e))
Result-cases (ok a) = inl (a, refl)
Result-cases (raised e) = inr (e, refl)
