-- ===== src/Tests/Permission.antt =====
-- The gateway of services/permission-gateway at work on one policy.
use linux_ai_native_system.Prelude.{
  ℕ, ◌≡◌, ◌≢◌, refl, true, false, not, ◌&&◌, Text, text_beq, text_eq, codes, none, some, List, [],
  ◌∷◌, lookup, contains, arith, sorted,
}
use linux_ai_native_system.Permission.Contracts.{
  JsonValue, CapabilityPolicy, CapabilityInvocation, PhasePolicy, ExecutionPhase, privileged,
  read_only, execute, commit, internal, loopback_http, internal_context, Reason, is_allowed,
  rule_for, risk_value,
}
use linux_ai_native_system.Permission.Identifiers.{is_capability_id, is_step_id, is_canonical_uuid}
use linux_ai_native_system.Permission.Policy.{validate_policy, rule_error, rules_error}
use linux_ai_native_system.Permission.Gateway.{
  Policies, Configured, ok, configure, init, evaluate, valid_invocation_identity, valid_arguments,
  source,
}
use linux_ai_native_system.Permission.Gateway.Decisions.{
  Authorised, evaluate-Authorised_iff, evaluate_missing_scopes, evaluate_mono, with_scopes,
}
use linux_ai_native_system.Permission.Gateway.Configuration.{
  IsWellFormed, validate_policy-IsWellFormed,
}
use linux_ai_native_system.Permission.Builtin.{builtin_policies}
use linux_ai_native_system.Permission.Builtin.Guards.{builtin_guards}
use linux_ai_native_system.Permission.Scopes
use linux_ai_native_system.Permission.Scopes.{Scopes, validate_scopes}
use linux_ai_native_system.Permission.Scopes.Calls.{
  Call, grant_all, revoke_all, run_call, run, AllScopes, run-AllScopes,
}

identifiers :
    (is_capability_id (codes "files.items.move") ≡ true)
    × (is_capability_id (codes "files") ≡ false)
    × (is_capability_id (codes "files..move") ≡ false)
    × (is_step_id (codes "step_copy_1") ≡ true)
    × (is_step_id (codes "step_1") ≡ false)
    × (is_canonical_uuid (codes "6f1c1d0e-2b3a-4c5d-8e9f-0a1b2c3d4e5f") ≡ true)
    × (is_canonical_uuid (codes "6F1C1D0E-2b3a-4c5d-8e9f-0a1b2c3d4e5f") ≡ false)
unfolding is_capability_id is_step_id is_canonical_uuid
identifiers = (refl, refl, refl, refl, refl, refl, refl)

abbrev pub request : Text
request = codes "6f1c1d0e-2b3a-4c5d-8e9f-0a1b2c3d4e5f"

abbrev pub inspect_id : Text
inspect_id = codes "files.items.inspect"

-- the policy of one read-only capability
abbrev pub inspect : CapabilityPolicy
inspect = record {
  capability_id = inspect_id;
  risk = read_only;
  plan_approval_required = false;
  allowed_arguments = codes "results_from" ∷ [];
  required_arguments = codes "results_from" ∷ [];
  phases =
      record {
        phase = execute;
        allowed_transports = internal ∷ [];
        required_scopes = codes "filesystem.read" ∷ [];
        approval_required = false;
      }
      ∷ [];
  max_concurrency = 2;
  timeout_seconds = 10;
}

abbrev pub policies : Policies
policies = (inspect_id, inspect) ∷ []

abbrev pub call : List Text → CapabilityInvocation ℕ
call scopes = record {
  request_id = request;
  plan_id = request;
  step_id = codes "step_look";
  capability_id = inspect_id;
  phase = execute;
  arguments = (codes "results_from", JsonValue.str (codes "find")) ∷ [];
  declared_risk = codes "R0";
  declared_approval_required = false;
  context = record {
    transport = internal_context;
    granted_scopes = scopes;
    approval_granted = false;
  };
  deadline_monotonic = none;
  trusted_payload = none;
}

abbrev pub granted : List Text
granted = codes "filesystem.read" ∷ []

pub call_allowed : is_allowed (evaluate policies none (call granted)) ≡ true
unfolding evaluate valid_invocation_identity is_capability_id is_step_id is_canonical_uuid source
    risk_value rule_for valid_arguments is_allowed text_beq sorted
call_allowed = refl

evaluate-Authorised_iff_example : Authorised policies none (call granted)
evaluate-Authorised_iff_example =
    (evaluate-Authorised_iff policies none (call granted)).0 call_allowed

pub call_refused : (evaluate policies none (call [])).reason_code ≡ Reason.scope_not_granted
unfolding evaluate valid_invocation_identity is_capability_id is_step_id is_canonical_uuid source
    risk_value rule_for valid_arguments text_beq sorted
call_refused = refl

evaluate_missing_scopes_example :
    (policy : CapabilityPolicy) × (rule : PhasePolicy) × (lookup inspect_id policies ≡ some policy)
    × (rule_for policy execute ≡ some rule)
    × ((evaluate policies none (call [])).required_scopes ≢ [])
    × ((s : Text)
        → contains (evaluate policies none (call [])).required_scopes s
          ≡ (contains rule.required_scopes s && not (contains {A = Text} [] s)))
evaluate_missing_scopes_example = evaluate_missing_scopes policies none (call []) call_refused

abbrev more : List Text
more = codes "filesystem.write" ∷ granted

more_grows : (s : Text) → contains granted s ≡ true → contains more s ≡ true
more_grows s h = ground arith

evaluate_mono_example : is_allowed (evaluate policies none (with_scopes more (call granted))) ≡ true
evaluate_mono_example = evaluate_mono policies none (call granted) more more_grows call_allowed

inspect_valid : validate_policy inspect ≡ none
unfolding validate_policy is_capability_id rules_error rule_error text_beq
inspect_valid = refl

validate_policy-IsWellFormed_example : IsWellFormed inspect
validate_policy-IsWellFormed_example = validate_policy-IsWellFormed inspect inspect_valid

policies_built : init (inspect ∷ []) ≡ ok policies
unfolding init configure validate_policy is_capability_id rules_error rule_error text_beq
policies_built = refl

abbrev policies_of : Configured → Policies
policies_of (ok g) = g
policies_of (Configured.raised e) = []

-- the gateway of the built-in policies
built_in : Policies
built_in = policies_of (init builtin_policies)

built_in_built : init builtin_policies ≡ ok built_in
unfolding built_in init configure validate_policy is_capability_id rules_error rule_error text_beq
    builtin_policies
built_in_built = refl

-- a copy that the user has approved
abbrev copy : CapabilityInvocation ℕ
copy = record {
  request_id = request;
  plan_id = request;
  step_id = codes "step_copy";
  capability_id = codes "storage.materialize.plan-copy";
  phase = commit;
  arguments =
      (codes "results_from", JsonValue.str (codes "find"))
      ∷ (codes "destination", JsonValue.str (codes "desktop"))
      ∷ [];
  declared_risk = codes "R1";
  declared_approval_required = true;
  context = record {
    transport = internal_context;
    granted_scopes = codes "filesystem.read-content" ∷ codes "filesystem.write-content" ∷ [];
    approval_granted = true;
  };
  deadline_monotonic = none;
  trusted_payload = none;
}

copy_allowed : is_allowed (evaluate built_in none copy) ≡ true
unfolding built_in init configure validate_policy is_capability_id rules_error rule_error text_beq
    builtin_policies evaluate valid_invocation_identity is_step_id is_canonical_uuid source
    risk_value rule_for valid_arguments is_allowed sorted
copy_allowed = refl

builtin_guards_example :
    (ExecutionPhase.commit ≡ commit
      → (copy.context.approval_granted ≡ true) × (copy.context.transport.transport ≢ loopback_http))
    × (ExecutionPhase.commit ≡ execute → copy.declared_approval_required ≡ false)
    × (copy.declared_risk ≡ risk_value privileged → ExecutionPhase.commit ≡ commit)
builtin_guards_example = builtin_guards built_in none copy built_in_built copy_allowed

scope_valid : run_call (grant_all granted) [] ≡ some granted
unfolding Scopes.grant validate_scopes is_capability_id text_beq
scope_valid = refl

abbrev changes : List Call
changes = grant_all more ∷ grant_all (codes "bad" ∷ []) ∷ revoke_all granted ∷ []

-- the call with a malformed scope raises and changes nothing
run-changes : run changes [] ≡ codes "filesystem.write" ∷ []
unfolding run Scopes.grant Scopes.revoke validate_scopes is_capability_id text_beq
run-changes = refl

run-AllScopes_example : AllScopes (run changes [])
run-AllScopes_example = run-AllScopes changes [] (λ x h. cc)
