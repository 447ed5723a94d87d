-- ===== src/Orchestrator/Contracts.antt =====
-- services/execution-orchestrator/src/ai_native_orchestrator/contracts.py, with `ApprovalSession` of
-- approval.py and `TaskContext` of services/intent-compiler/src/ai_native_intents. `C` is the type of
-- what a module keeps between the preparation and the commit of an operation. Of a search's
-- coverage, and of a prepared operation's clean-up callback, nothing is read here.
use linux_ai_native_system.Prelude.{
  ℕ, Bool, false, List, [], ◌∷◌, Text, text_eq, Option, none, some, Dict, lookup, ◌==◌,
  if◌then◌else◌,
}
use linux_ai_native_system.Permission.Contracts.{JsonValue}
use linux_ai_native_system.Orchestrator.Plans.{PlanStep}

pub data OrchestrationState : Type 0 where
  completed awaiting_approval failed cancelled : OrchestrationState

pub data StepState : Type 0 where
  completed awaiting_approval not_started failed cancelled : StepState

-- The fields of `QueryResult` that the orchestrator reads.
pub record QueryResult : Type 0 where
  pub path : Text
  pub name : Text

pub record SearchOutput : Type 0 where
  pub collection_id : Text
  pub result_count : ℕ
  pub results : List QueryResult
  pub warnings : List Text
  pub mode : Text
  pub criteria : Text
  pub total_matches : Option ℕ
  pub total_is_exact : Bool
  pub sort_by : Text

pub record CopyOutput : Type 0 where
  pub destination : Text
  pub copied_count : ℕ
  pub copied_paths : List Text

pub record OperationOutput : Type 0 where
  pub action : Text
  pub item_count : ℕ
  pub details : Dict Text JsonValue

pub record ApprovalRequest : Type 0 where
  pub approval_request_id : Text
  pub plan_id : Text
  pub step_id : Text
  pub action : Text
  pub destination : Text
  pub item_count : ℕ
  pub total_bytes : ℕ
  pub item_names : List Text
  pub expires_in_seconds : ℕ

pub record PreparedOperation (C : Type 0) : Type 0 where
  pub approval_request : ApprovalRequest
  pub commit_payload : C

-- What a handler may return, by its class.
pub data Output (C : Type 0) : Type 0 where
  search : SearchOutput → Output C
  copy : CopyOutput → Output C
  operation : OperationOutput → Output C
  prepared : PreparedOperation C → Output C
  other : Output C

pub record ExecutionSnapshot : Type 0 where
  pub run_id : Text
  pub selection_references : Dict Text Text
  pub active_selection_id : Option Text
  pub last_destination : Option Text

-- How `resolve_selection` ends.
pub data Resolved : Type 0 where
  selection : Text → Resolved
  invalid_results_reference results_reference_is_not_trusted : Resolved

-- `reference == self.active_selection_id`
abbrev is_active : Text → Option Text → Bool
is_active reference none = false
is_active reference (some id) = id == reference

-- `ExecutionSnapshot.resolve_selection`
unfoldable pub resolve_selection : ExecutionSnapshot → JsonValue → Resolved
resolve_selection s (JsonValue.str []) = invalid_results_reference
resolve_selection s (JsonValue.str (c ∷ cs)) = elim (lookup (c ∷ cs) s.selection_references) [
  | some id ↦ selection id
  | none ↦
      if is_active (c ∷ cs) s.active_selection_id
      then selection (c ∷ cs)
      else results_reference_is_not_trusted
]
resolve_selection s _ = invalid_results_reference

-- `trusted_payload`
pub data Payload (C : Type 0) : Type 0 where
  snapshot : ExecutionSnapshot → Payload C
  commit_of : C → Payload C

pub record StepExecution (C : Type 0) : Type 0 where
  pub step_id : Text
  pub capability : Text
  pub state : StepState
  pub output : Option (Output C)
  pub error_code : Option Text

pub record OrchestrationResult (C : Type 0) : Type 0 where
  pub run_id : Text
  pub plan_id : Text
  pub state : OrchestrationState
  pub steps : List (StepExecution C)
  pub pending_approval_step_ids : List Text
  pub active_collection_id : Option Text
  pub diagnostics : List Text
  pub approval_request : Option ApprovalRequest

pub record ApprovalSession (C : Type 0) : Type 0 where
  pub run_id : Text
  pub request : ApprovalRequest
  pub prepared : PreparedOperation C
  pub step : PlanStep
  pub prior_steps : List (StepExecution C)
  pub active_collection_id : Option Text

-- The fields of `TaskContext` that a run reads.
pub record TaskContext : Type 0 where
  pub active_collection_id : Option Text
  pub last_destination : Option Text
