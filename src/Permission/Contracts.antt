-- ===== src/Permission/Contracts.antt =====
-- services/permission-gateway/src/ai_native_permissions/contracts.py: the data that crosses the
-- gateway. Durations and clock readings are whole ticks. `P` is the type of trusted payloads.
use linux_ai_native_system.Prelude.{
  ℕ, Bool, true, false, Option, none, some, List, [], ◌∷◌, ◌≡◌, ◌↔◌, arith, Text, Eq, ◌==◌, Dict,
  codes, if◌then◌else◌,
}

-- An element of a tuple argument: a string, or any other Python value.
pub data Item : Type 0 where
  str : Text → Item
  other : Item

-- An argument's value. The payload of a float is never read; `other` is any value outside
-- `JsonValue`, such as a list.
pub data JsonValue : Type 0 where
  str : Text → JsonValue
  int : ℕ → JsonValue
  negative_int : ℕ → JsonValue
  float : JsonValue
  bool : Bool → JsonValue
  null : JsonValue
  tuple : List Item → JsonValue
  other : JsonValue

pub data RiskLevel : Type 0 where
  read_only reversible_write important_write privileged : RiskLevel

pub data ExecutionPhase : Type 0 where
  execute prepare commit : ExecutionPhase

pub data TransportKind : Type 0 where
  internal unix_peer loopback_http : TransportKind

pub data DecisionKind : Type 0 where
  allow deny : DecisionKind

-- `RiskLevel.value`
unfoldable pub risk_value : RiskLevel → Text
risk_value read_only = codes "R0"
risk_value reversible_write = codes "R1"
risk_value important_write = codes "R2"
risk_value privileged = codes "R3"

abbrev pub phase_beq : ExecutionPhase → ExecutionPhase → Bool
phase_beq execute execute = true
phase_beq prepare prepare = true
phase_beq commit commit = true
phase_beq _ _ = false

pub phase_beq_iff : (a b : ExecutionPhase) → (phase_beq a b ≡ true) ↔ (a ≡ b)
phase_beq_iff a b = ground arith

instance abbrev pub phase_eq : Eq ExecutionPhase
phase_eq = record { same = phase_beq; same_iff = phase_beq_iff }

abbrev pub transport_beq : TransportKind → TransportKind → Bool
transport_beq internal internal = true
transport_beq unix_peer unix_peer = true
transport_beq loopback_http loopback_http = true
transport_beq _ _ = false

pub transport_beq_iff : (a b : TransportKind) → (transport_beq a b ≡ true) ↔ (a ≡ b)
transport_beq_iff a b = ground arith

instance abbrev pub transport_eq : Eq TransportKind
transport_eq = record { same = transport_beq; same_iff = transport_beq_iff }

pub record PhasePolicy : Type 0 where
  pub phase : ExecutionPhase
  pub allowed_transports : List TransportKind
  pub required_scopes : List Text
  pub approval_required : Bool

pub record CapabilityPolicy : Type 0 where
  pub capability_id : Text
  pub risk : RiskLevel
  pub plan_approval_required : Bool
  pub allowed_arguments : List Text
  pub required_arguments : List Text
  pub phases : List PhasePolicy
  pub max_concurrency : ℕ
  pub timeout_seconds : ℕ

-- the first rule of the phase
unfoldable pub find_rule : ExecutionPhase → List PhasePolicy → Option PhasePolicy
find_rule phase [] = none
find_rule phase (rule ∷ rules) = if rule.phase == phase then some rule else find_rule phase rules

-- `CapabilityPolicy.rule_for`
unfoldable pub rule_for : CapabilityPolicy → ExecutionPhase → Option PhasePolicy
unfolding find_rule
rule_for policy phase = find_rule phase policy.phases

pub record TransportContext : Type 0 where
  pub transport : TransportKind
  pub principal : Text
  pub peer_pid : Option ℕ
  pub peer_uid : Option ℕ
  pub peer_gid : Option ℕ

-- `TransportContext.internal`
abbrev pub internal_context : TransportContext
internal_context = record {
  transport = internal;
  principal = codes "core";
  peer_pid = none;
  peer_uid = none;
  peer_gid = none;
}

pub record ExecutionContext : Type 0 where
  pub transport : TransportContext
  pub granted_scopes : List Text
  pub approval_granted : Bool

pub record CapabilityInvocation (P : Type 0) : Type 0 where
  pub request_id : Text
  pub plan_id : Text
  pub step_id : Text
  pub capability_id : Text
  pub phase : ExecutionPhase
  pub arguments : Dict Text JsonValue
  pub declared_risk : Text
  pub declared_approval_required : Bool
  pub context : ExecutionContext
  pub deadline_monotonic : Option ℕ
  pub trusted_payload : Option P

-- The strings of `reason_code`.
pub data Reason : Type 0 where
  allowed invalid_invocation_identity policy_not_found capability_unavailable : Reason
  declared_risk_mismatch declared_approval_mismatch phase_not_allowed : Reason
  transport_not_allowed approval_required scope_not_granted : Reason
  required_arguments_missing arguments_not_allowed invalid_argument_value : Reason
  handler_unavailable : Reason

pub record PermissionDecision : Type 0 where
  pub kind : DecisionKind
  pub capability_id : Text
  pub phase : ExecutionPhase
  pub risk : Option RiskLevel
  pub reason_code : Reason
  pub required_scopes : List Text

-- `PermissionDecision.allowed`
unfoldable pub is_allowed : PermissionDecision → Bool
is_allowed d = elim d.kind [ allow ↦ true | deny ↦ false ]
