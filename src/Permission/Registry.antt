-- ===== src/Permission/Registry.antt =====
-- `CapabilityExecutionRegistry`
-- (services/permission-gateway/src/ai_native_permissions/registry.py). A dispatch is two steps on
-- the shared state, up to the call of the handler and after its return, so that calls on other
-- threads may come between. Handlers are the code of other modules: a handler is any function.
pub mod Concurrency
pub mod Dispatch
pub mod Callers
use linux_ai_native_system.Prelude.{
  ℕ, ◌+◌, ◌-◌, Bool, true, false, List, [], ◌∷◌, Text, text_eq, Option, none, some, is_some, Dict,
  lookup, assign, map, sorted, ltb, nat_beq, if◌then◌else◌,
}
use linux_ai_native_system.Permission.Contracts.{
  CapabilityInvocation, PermissionDecision, Reason, is_allowed,
}
use linux_ai_native_system.Permission.Gateway.{Policies, policy, denied, evaluate}

-- `BoundedSemaphore(initial)`
pub record Semaphore : Type 0 where
  pub initial : ℕ
  pub value : ℕ

-- How a handler ends: with an output, or by an exception.
pub data Ended (O X : Type 0) : Type 0 where
  returned : O → Ended O X
  raised : X → Ended O X

pub record Registry (H : Type 0) : Type 0 where
  pub handlers : Dict Text H
  pub limits : Dict Text Semaphore

-- How `register` ends.
pub data Registered (H : Type 0) : Type 0 where
  registered : Registry H → Registered H
  not_callable no_trusted_policy duplicate_handler : Registered H

module _ {H : Type 0} where
  -- `__init__`
  abbrev pub empty : Registry H
  empty = record { handlers = []; limits = [] }

  -- `register`; the handler is `none` where it is not callable
  unfoldable pub register : Policies → Text → Option H → Registry H → Registered H
  register g capability_id none r = not_callable
  register g capability_id (some handler) r = elim (policy g capability_id) [
    | none ↦ no_trusted_policy
    | some p ↦
        if is_some (lookup capability_id r.handlers)
        then duplicate_handler
        else registered (record {
          handlers = assign capability_id handler r.handlers;
          limits =
              assign capability_id
                (record { initial = p.max_concurrency; value = p.max_concurrency }) r.limits;
        })
  ]

  -- `registered_capabilities`
  unfoldable pub registered_capabilities : Registry H → List Text
  registered_capabilities r = sorted (map (λ e. e.0) r.handlers)

  -- `limit.release()`: a release beyond the initial value raises and changes nothing
  unfoldable pub release : Text → Registry H → Registry H
  release capability_id r = elim (lookup capability_id r.limits) [
    | none ↦ r
    | some limit ↦
        if ltb limit.value limit.initial
        then record r {
          limits = assign capability_id (record limit { value = limit.value + 1 }) r.limits;
        }
        else r
  ]

-- Where a dispatch stands when it is about to call the handler.
pub data Begun (P H : Type 0) : Type 0 where
  refused : PermissionDecision → Begun P H
  busy configuration_error : Begun P H
  started : Registry H → PermissionDecision → H → CapabilityInvocation P → Begun P H

module _ {P H : Type 0} where
  -- The part of `dispatch` after the handler and its limit were found.
  acquire :
      Policies
      → ℕ
      → Registry H
      → CapabilityInvocation P
      → PermissionDecision
      → H
      → Semaphore
      → Begun P H
  acquire g now r inv decision handler limit =
      if nat_beq limit.value 0 then busy else elim (policy g inv.capability_id) [
        | none ↦ configuration_error
        | some p ↦
            started
              (record r {
                limits =
                    assign inv.capability_id (record limit { value = limit.value - 1 }) r.limits;
              })
              decision handler (record inv { deadline_monotonic = some (now + p.timeout_seconds) })
      ]

  handler_unavailable : Policies → CapabilityInvocation P → Begun P H
  handler_unavailable g inv = elim (policy g inv.capability_id) [
    | none ↦ configuration_error
    | some p ↦ refused (denied inv (some p) Reason.handler_unavailable)
  ]

  find_handler :
      Policies
      → ℕ
      → Registry H
      → CapabilityInvocation P
      → PermissionDecision
      → Option H
      → Option Semaphore
      → Begun P H
  unfolding acquire handler_unavailable
  find_handler g now r inv decision (some handler) (some limit) =
      acquire g now r inv decision handler limit
  find_handler g now r inv decision _ _ = handler_unavailable g inv

  -- `dispatch` up to the call of the handler
  unfoldable pub begin :
      Policies → Option (List Text) → ℕ → Registry H → CapabilityInvocation P → Begun P H
  unfolding find_handler
  begin g reported now r inv =
      let decision = evaluate g reported inv in
      if is_allowed decision
      then find_handler g now r inv decision (lookup inv.capability_id r.handlers)
          (lookup inv.capability_id r.limits)
      else refused decision

abbrev pub Handler : Type 0 → Type 0 → Type 0 → Type 0
Handler P O X = CapabilityInvocation P → Ended O X

-- How `dispatch` ends.
pub data Dispatched (O X : Type 0) : Type 0 where
  result : PermissionDecision → Option O → Dispatched O X
  capability_busy configuration_error : Dispatched O X
  handler_raised : X → Dispatched O X

finish : {O X : Type 0} → PermissionDecision → Ended O X → Dispatched O X
finish decision (returned o) = result decision (some o)
finish decision (raised x) = handler_raised x

module _ {P O X : Type 0} where
  conclude :
      Registry (Handler P O X)
      → CapabilityInvocation P
      → Begun P (Handler P O X)
      → Registry (Handler P O X) × Dispatched O X
  unfolding finish
  conclude r inv (refused decision) = (r, result decision none)
  conclude r inv Begun.busy = (r, capability_busy)
  conclude r inv Begun.configuration_error = (r, Dispatched.configuration_error)
  conclude r inv (started r' decision handler bounded) =
      (release inv.capability_id r', finish decision (handler bounded))

  -- `dispatch` with no other call in between: the limit is released however the handler ends.
  unfoldable pub dispatch :
      Policies
      → Option (List Text)
      → ℕ
      → Registry (Handler P O X)
      → CapabilityInvocation P
      → Registry (Handler P O X) × Dispatched O X
  unfolding conclude
  dispatch g reported now r inv = conclude r inv (begin g reported now r inv)
