-- ===== src/Permission/Gateway.antt =====
-- `PermissionGateway` (services/permission-gateway/src/ai_native_permissions/gateway.py). What a
-- configured `capability_source` returns at a call is the argument `reported`, and `none` stands
-- for the default source, the configured identifiers.
pub mod Decisions
pub mod Configuration
use linux_ai_native_system.Prelude.{
  ℕ, Bool, true, false, not, ◌&&◌, ◌||◌, List, [], ◌∷◌, Text, text_eq, bool_eq, Eq, ◌==◌, Option,
  none, some, map, any, all, length, ltb, to_set, is_subset, nat_beq, if◌then◌else◌, Dict, lookup,
  assign, contains, difference, sorted, union, keep, is_some,
}
use linux_ai_native_system.Permission.Contracts.{
  Item, JsonValue, DecisionKind, allow, deny, PhasePolicy, CapabilityPolicy, rule_for, risk_value,
  CapabilityInvocation, PermissionDecision, Reason, transport_eq, phase_eq,
}
use linux_ai_native_system.Permission.Identifiers.{is_capability_id, is_step_id, is_canonical_uuid}
use linux_ai_native_system.Permission.Policy.{
  PolicyError, duplicate_capability, no_policies, no_trusted_policy, validate_policy,
}

-- `_policies`
abbrev pub Policies : Type 0
Policies = Dict Text CapabilityPolicy

pub data Configured : Type 0 where
  ok : Policies → Configured
  raised : PolicyError → Configured

-- The loop of `__init__` over the policies still to come.
unfoldable pub configure : List CapabilityPolicy → Policies → Configured
configure [] configured = ok configured
configure (policy ∷ rest) configured = elim (validate_policy policy) [
  | some e ↦ raised e
  | none ↦ elim (is_some (lookup policy.capability_id configured)) [
    | true ↦ raised duplicate_capability
    | false ↦ configure rest (assign policy.capability_id policy configured)
  ]
]

reject_empty : Configured → Configured
reject_empty (ok []) = raised no_policies
reject_empty c = c

-- `PermissionGateway.__init__`
unfoldable pub init : List CapabilityPolicy → Configured
unfolding configure reject_empty
init policies = reject_empty (configure policies [])

-- `policy`; `none` where it raises `PolicyConfigurationError`
unfoldable pub policy : Policies → Text → Option CapabilityPolicy
policy g capability_id = lookup capability_id g

-- `self._capability_source()`
unfoldable pub source : Policies → Option (List Text) → List Text
source g none = map (λ e. e.0) g
source g (some ids) = ids

-- `available_capabilities`
unfoldable pub available_capabilities : Policies → Option (List Text) → List Text
unfolding source sorted
available_capabilities g reported =
    sorted (keep (λ c. is_some (lookup c g)) (to_set (source g reported)))

required_scopes_of : List PhasePolicy → List Text
required_scopes_of [] = []
required_scopes_of (rule ∷ rules) = union rule.required_scopes (required_scopes_of rules)

-- `required_scopes`
unfoldable pub required_scopes : Policies → Text → Option (List Text)
unfolding policy required_scopes_of
required_scopes g capability_id = elim (policy g capability_id) [
  | none ↦ none
  | some p ↦ some (required_scopes_of p.phases)
]

-- `_valid_invocation_identity`
unfoldable pub valid_invocation_identity : {P : Type 0} → CapabilityInvocation P → Bool
valid_invocation_identity inv =
    is_canonical_uuid inv.request_id
    && is_canonical_uuid inv.plan_id
    && is_step_id inv.step_id
    && is_capability_id inv.capability_id

-- A non-empty string of at most `limit` characters with no control character.
bounded_text : ℕ → Text → Bool
bounded_text limit s =
    not (nat_beq (length s) 0) && not (ltb limit (length s)) && not (any (λ c. ltb c 32) s)

valid_item : Item → Bool
unfolding bounded_text
valid_item (Item.str s) = bounded_text 300 s
valid_item Item.other = false

valid_value : JsonValue → Bool
unfolding bounded_text valid_item
valid_value (JsonValue.str s) = bounded_text 4096 s
valid_value (JsonValue.tuple items) = not (ltb 100 (length items)) && all valid_item items
valid_value (JsonValue.bool b) = true
valid_value (JsonValue.int n) = true
valid_value (JsonValue.negative_int n) = true
valid_value JsonValue.float = true
valid_value JsonValue.null = true
valid_value JsonValue.other = false

-- `_valid_arguments`, on arguments that are a dict
unfoldable pub valid_arguments : Dict Text JsonValue → Bool
unfolding valid_value
valid_arguments arguments = not (ltb 32 (length arguments)) && all (λ e. valid_value e.1) arguments

module _ {P : Type 0} where
  -- `denied`
  unfoldable pub denied :
      CapabilityInvocation P → Option CapabilityPolicy → Reason → PermissionDecision
  denied inv p reason = record {
    kind = deny;
    capability_id = inv.capability_id;
    phase = inv.phase;
    risk = elim p [ none ↦ none | some p ↦ some p.risk ];
    reason_code = reason;
    required_scopes = [];
  }

  -- `evaluate`, from the check of the scopes on
  evaluate_grants : CapabilityInvocation P → CapabilityPolicy → PhasePolicy → PermissionDecision
  unfolding denied
  evaluate_grants inv p rule =
      let missing = sorted (difference rule.required_scopes inv.context.granted_scopes) in
      let keys = map (λ e. e.0) inv.arguments in
      if not (nat_beq (length missing) 0)
      then record {
        kind = deny;
        capability_id = inv.capability_id;
        phase = inv.phase;
        risk = some p.risk;
        reason_code = Reason.scope_not_granted;
        required_scopes = missing;
      }
      else if not (is_subset p.required_arguments keys)
      then denied inv (some p) Reason.required_arguments_missing
      else if not (is_subset keys p.allowed_arguments)
      then denied inv (some p) Reason.arguments_not_allowed
      else if not (valid_arguments inv.arguments)
      then denied inv (some p) Reason.invalid_argument_value
      else record {
        kind = allow;
        capability_id = inv.capability_id;
        phase = inv.phase;
        risk = some p.risk;
        reason_code = Reason.allowed;
        required_scopes = [];
      }

  -- `evaluate`, from the check of the phase's rule on
  evaluate_rule :
      CapabilityInvocation P → CapabilityPolicy → Option PhasePolicy → PermissionDecision
  unfolding denied
  evaluate_rule inv p none = denied inv (some p) Reason.phase_not_allowed
  evaluate_rule inv p (some rule) =
      if not (contains rule.allowed_transports inv.context.transport.transport)
      then denied inv (some p) Reason.transport_not_allowed
      else if rule.approval_required && not inv.context.approval_granted
      then denied inv (some p) Reason.approval_required
      else evaluate_grants inv p rule

  -- `evaluate`, from the check of the source on
  evaluate_policy :
      Option (List Text)
      → Policies
      → CapabilityInvocation P
      → Option CapabilityPolicy
      → PermissionDecision
  unfolding denied
  evaluate_policy reported g inv none = denied inv none Reason.policy_not_found
  evaluate_policy reported g inv (some p) =
      if not (contains (to_set (source g reported)) inv.capability_id)
      then denied inv (some p) Reason.capability_unavailable
      else if not (inv.declared_risk == risk_value p.risk)
      then denied inv (some p) Reason.declared_risk_mismatch
      else if not (inv.declared_approval_required == p.plan_approval_required)
      then denied inv (some p) Reason.declared_approval_mismatch
      else evaluate_rule inv p (rule_for p inv.phase)

  -- `evaluate`
  unfoldable pub evaluate :
      Policies → Option (List Text) → CapabilityInvocation P → PermissionDecision
  unfolding denied evaluate_policy evaluate_rule evaluate_grants
  evaluate g reported inv =
      if not (valid_invocation_identity inv)
      then denied inv none Reason.invalid_invocation_identity
      else evaluate_policy reported g inv (lookup inv.capability_id g)
