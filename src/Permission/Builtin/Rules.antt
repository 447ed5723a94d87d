-- ===== src/Permission/Builtin/Rules.antt =====
-- The shared parts of services/permission-gateway/src/ai_native_permissions/builtin.py.
use linux_ai_native_system.Prelude.{ℕ, Bool, List, [], ◌∷◌, Text}
use linux_ai_native_system.Permission.Contracts.{
  ExecutionPhase, TransportKind, PhasePolicy, internal, unix_peer, loopback_http,
}

-- `PhasePolicy(phase, transports, scopes, approval_required=…)`
abbrev pub rule : ExecutionPhase → List TransportKind → List Text → Bool → PhasePolicy
rule phase transports scopes approval = record {
  phase = phase;
  allowed_transports = transports;
  required_scopes = scopes;
  approval_required = approval;
}

-- `ALL_LOCAL_TRANSPORTS`
abbrev pub all_local_transports : List TransportKind
all_local_transports = internal ∷ unix_peer ∷ loopback_http ∷ []

-- `SECURE_WRITE_TRANSPORTS`
abbrev pub secure_write_transports : List TransportKind
secure_write_transports = internal ∷ unix_peer ∷ []

-- `max_concurrency` where the call leaves it out
abbrev pub default_concurrency : ℕ
default_concurrency = 1
