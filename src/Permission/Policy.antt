-- ===== src/Permission/Policy.antt =====
-- `PermissionGateway._validate_policy`
-- (services/permission-gateway/src/ai_native_permissions/gateway.py).
use linux_ai_native_system.Prelude.{
  text_eq, Bool, not, ◌||◌, List, [], ◌∷◌, ◌++◌, Text, Option, none, some, map, any, length, ltb,
  to_set, is_subset, nat_beq, if◌then◌else◌,
}
use linux_ai_native_system.Permission.Contracts.{PhasePolicy, CapabilityPolicy, phase_eq}
use linux_ai_native_system.Permission.Identifiers.{is_capability_id}

-- The messages of `PolicyConfigurationError`.
pub data PolicyError : Type 0 where
  invalid_capability_id phases_not_unique limits_not_positive : PolicyError
  required_not_allowed invalid_argument_name no_transport invalid_scope_id : PolicyError
  duplicate_capability no_policies no_trusted_policy : PolicyError

unfoldable pub rule_error : PhasePolicy → Option PolicyError
rule_error rule = elim rule.allowed_transports [
  | [] ↦ some no_transport
  | _ ∷ _ ↦
      if any (λ s. not (is_capability_id s)) rule.required_scopes
      then some invalid_scope_id
      else none
]

-- The loop over the phases: the first error.
unfoldable pub rules_error : List PhasePolicy → Option PolicyError
rules_error [] = none
rules_error (rule ∷ rules) = elim (rule_error rule) [ none ↦ rules_error rules | some e ↦ some e ]

abbrev pub bad_argument_name : Text → Bool
bad_argument_name name = nat_beq (length name) 0 || ltb 64 (length name)

-- `none` where the source returns, the error that it raises otherwise.
unfoldable pub validate_policy : CapabilityPolicy → Option PolicyError
validate_policy p =
    if not (is_capability_id p.capability_id)
    then some invalid_capability_id
    else if nat_beq (length p.phases) 0
        || not (nat_beq (length (to_set (map (λ r. r.phase) p.phases))) (length p.phases))
    then some phases_not_unique
    else if ltb p.max_concurrency 1 || ltb p.timeout_seconds 1
    then some limits_not_positive
    else if not (is_subset p.required_arguments p.allowed_arguments)
    then some required_not_allowed
    else if any bad_argument_name (p.allowed_arguments ++ p.required_arguments)
    then some invalid_argument_name
    else rules_error p.phases
