-- ===== src/Orchestrator/Errors.antt =====
-- The exceptions that meet in `ExecutionOrchestrator._classify_error`
-- (services/execution-orchestrator/src/ai_native_orchestrator/orchestrator.py), and the codes of a
-- failed step.
use linux_ai_native_system.Prelude.{Text, codes, ◌++◌}
use linux_ai_native_system.Permission.Contracts.{Reason}
use linux_ai_native_system.Ledger.Contracts.{
  Error, cancellation_requested, invalid_task_id, invalid_token, invalid_label, invalid_locator,
  invalid_total, invalid_version, invalid_checkpoint, invalid_limit,
}

-- An exception, by the first class of `_classify_error` that it is an instance of.
pub data Raised : Type 0 where
  capability_execution_error : Text → Raised
  cancelled_by_user timeout_error integrity_failure destination_failure space_failure : Raised
  rollback_failure permission_failure file_exists os_error key_error value_error : Raised
  any_other : Raised

-- `_classify_error`
unfoldable pub classify_error : Raised → Text
classify_error (capability_execution_error code) = code
classify_error cancelled_by_user = codes "user_cancelled"
classify_error timeout_error = codes "capability_timeout"
classify_error integrity_failure = codes "integrity_check_failed"
classify_error destination_failure = codes "destination_changed"
classify_error space_failure = codes "insufficient_space"
classify_error rollback_failure = codes "rollback_incomplete"
classify_error permission_failure = codes "permission_denied"
classify_error file_exists = codes "destination_conflict"
classify_error os_error = codes "storage_unavailable"
classify_error key_error = codes "resource_not_found"
classify_error value_error = codes "invalid_step_arguments"
classify_error any_other = codes "capability_internal_error"

-- the class of what the ledger raises: `CancellationRequested`, `ValueError`, or another error
abbrev pub of_ledger : Error → Raised
of_ledger cancellation_requested = cancelled_by_user
of_ledger invalid_task_id = value_error
of_ledger invalid_token = value_error
of_ledger invalid_label = value_error
of_ledger invalid_locator = value_error
of_ledger invalid_total = value_error
of_ledger invalid_version = value_error
of_ledger invalid_checkpoint = value_error
of_ledger invalid_limit = value_error
of_ledger _ = any_other

-- the text of a `reason_code`
abbrev reason_text : Reason → Text
reason_text Reason.allowed = codes "allowed"
reason_text Reason.invalid_invocation_identity = codes "invalid_invocation_identity"
reason_text Reason.policy_not_found = codes "policy_not_found"
reason_text Reason.capability_unavailable = codes "capability_unavailable"
reason_text Reason.declared_risk_mismatch = codes "declared_risk_mismatch"
reason_text Reason.declared_approval_mismatch = codes "declared_approval_mismatch"
reason_text Reason.phase_not_allowed = codes "phase_not_allowed"
reason_text Reason.transport_not_allowed = codes "transport_not_allowed"
reason_text Reason.approval_required = codes "approval_required"
reason_text Reason.scope_not_granted = codes "scope_not_granted"
reason_text Reason.required_arguments_missing = codes "required_arguments_missing"
reason_text Reason.arguments_not_allowed = codes "arguments_not_allowed"
reason_text Reason.invalid_argument_value = codes "invalid_argument_value"
reason_text Reason.handler_unavailable = codes "handler_unavailable"

-- `f"policy_{dispatch.decision.reason_code}"`
unfoldable pub policy_code : Reason → Text
policy_code reason = codes "policy_" ++ reason_text reason
