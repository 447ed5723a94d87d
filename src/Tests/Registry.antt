-- ===== src/Tests/Registry.antt =====
-- The registry of services/permission-gateway at work: one capability with two units.
use linux_ai_native_system.Prelude.{
  ◌+◌, ℕ, ◌≤◌, ◌≡◌, refl, true, Text, text_beq, text_eq, Option, none, some, List, [], ◌∷◌, lookup,
  arith, count, sorted,
}
use linux_ai_native_system.Permission.Contracts.{
  CapabilityPolicy, CapabilityInvocation, PermissionDecision, is_allowed, rule_for, risk_value,
}
use linux_ai_native_system.Permission.Identifiers.{is_capability_id, is_step_id, is_canonical_uuid}
use linux_ai_native_system.Permission.Gateway.{
  evaluate, valid_invocation_identity, valid_arguments, source, policy,
}
use linux_ai_native_system.Permission.Registry.{
  Registry, registered, returned, Handler, empty, register, started, busy, begin, result, dispatch,
}
use linux_ai_native_system.Permission.Registry.Dispatch.{
  Starts, begin-Starts, WithinLimits, dispatch_restores, dispatch_output,
}
use linux_ai_native_system.Permission.Registry.Concurrency.{
  System, register_handler, start_call, Reach, here, next, running-le-max_concurrency, begin_busy,
}
use linux_ai_native_system.Tests.Permission.{inspect_id, inspect, policies, call, granted}

-- a handler that reports its deadline
abbrev Inspector : Type 0
Inspector = Handler ℕ (Option ℕ) Text

abbrev inspector : Inspector
inspector inv = returned inv.deadline_monotonic

-- the registry with that handler and the given number of free units
abbrev with_units : ℕ → Registry Inspector
with_units n = record {
  handlers = (inspect_id, inspector) ∷ [];
  limits = (inspect_id, record { initial = 2; value = n }) ∷ [];
}

abbrev decision : PermissionDecision
decision = evaluate policies none (call granted)

abbrev bounded : CapabilityInvocation ℕ
bounded = record (call granted) { deadline_monotonic = some 110 }

begun :
    begin policies none 100 (with_units 2) (call granted)
    ≡ started (with_units 1) decision inspector bounded
unfolding begin policy evaluate valid_invocation_identity is_capability_id is_step_id
    is_canonical_uuid source risk_value rule_for valid_arguments is_allowed text_beq sorted
begun = refl

begin-Starts_example :
    Starts policies none 100 (with_units 2) (call granted) (with_units 1) decision inspector bounded
begin-Starts_example =
    begin-Starts policies none 100 (with_units 2) (call granted) (with_units 1) decision inspector
      bounded begun

within : WithinLimits (with_units 2)
within id limit h = ground arith

dispatch_restores_example :
    (dispatch policies none 100 (with_units 2) (call granted)).0 ≡ with_units 2
dispatch_restores_example = dispatch_restores policies none 100 (with_units 2) (call granted) within

dispatched :
    (dispatch policies none 100 (with_units 2) (call granted)).1 ≡ result decision (some (some 110))
unfolding dispatch begin policy evaluate valid_invocation_identity is_capability_id is_step_id
    is_canonical_uuid source risk_value rule_for valid_arguments is_allowed text_beq sorted
dispatched = refl

dispatch_output_example :
    (is_allowed (evaluate policies none (call granted)) ≡ true)
    × (decision ≡ evaluate policies none (call granted))
    × ((rules : CapabilityPolicy) × (handler : Inspector) × (lookup inspect_id policies
          ≡ some rules)
        × (lookup inspect_id (with_units 2).handlers ≡ some handler)
        × (handler
              (record (call granted) { deadline_monotonic = some (100 + rules.timeout_seconds) })
            ≡ returned (some 110)))
dispatch_output_example =
    dispatch_output policies none 100 (with_units 2) (call granted) decision (some 110) dispatched

abbrev system : ℕ → List Text → System Inspector
system n running = record { registry = with_units n; running = running }

registers : register policies inspect_id (some inspector) empty ≡ registered (with_units 2)
unfolding register policy text_beq
registers = refl

begun_again :
    begin policies none 100 (with_units 1) (call granted)
    ≡ started (with_units 0) decision inspector bounded
unfolding begin policy evaluate valid_invocation_identity is_capability_id is_step_id
    is_canonical_uuid source risk_value rule_for valid_arguments is_allowed text_beq sorted
begun_again = refl

two_calls : Reach ℕ policies (system 0 (inspect_id ∷ inspect_id ∷ []))
two_calls =
    next
      (next (next here (register_handler inspect_id (some inspector) (with_units 2) registers refl))
        (start_call none 100 (call granted) (with_units 1) decision inspector bounded begun refl))
      (start_call none 100 (call granted) (with_units 0) decision inspector bounded begun_again
        refl)

running-le-max_concurrency_example : count inspect_id (inspect_id ∷ inspect_id ∷ []) ≤ 2
running-le-max_concurrency_example =
    running-le-max_concurrency policies inspect_id inspect two_calls (unfold text_beq in refl)

third_busy : begin policies none 100 (with_units 0) (call granted) ≡ busy
unfolding begin policy evaluate valid_invocation_identity is_capability_id is_step_id
    is_canonical_uuid source risk_value rule_for valid_arguments is_allowed text_beq sorted
third_busy = refl

begin_busy_example : count inspect_id (inspect_id ∷ inspect_id ∷ []) ≡ 2
begin_busy_example =
    begin_busy policies inspect none 100 (call granted) two_calls (unfold text_beq in refl)
      third_busy
