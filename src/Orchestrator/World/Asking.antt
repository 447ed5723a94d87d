-- ===== src/Orchestrator/World/Asking.antt =====
-- What a dispatch of the orchestrator leaves as it was, and where an output comes from.
use linux_ai_native_system.Prelude.{◌≡◌, refl, none, some, arith, Bool-cases, inl, inr}
use linux_ai_native_system.Permission.Contracts.{
  CapabilityInvocation, PermissionDecision, is_allowed,
}
use linux_ai_native_system.Permission.Gateway.{Policies}
use linux_ai_native_system.Permission.Registry.{
  Dispatched, result, capability_busy, configuration_error, handler_raised, dispatch,
}
use linux_ai_native_system.Permission.Registry.Callers.{Called, dispatch_handlers, dispatch-Called}
use linux_ai_native_system.Orchestrator.Contracts.{Output, Payload}
use linux_ai_native_system.Orchestrator.Errors.{Raised}
use linux_ai_native_system.Orchestrator.World.{World, Moment, Answer, output, answer_of, ask}

module _ {C : Type 0} where
  -- What is asked changes no session and no task, and an output comes from the handler.
  pub record Asked (g : Policies) (inv : CapabilityInvocation (Payload C)) (w : World C)
      (x : World C × Answer C) : Type 0 where
    pub sessions : x.0.sessions ≡ w.sessions
    pub ledger : x.0.ledger ≡ w.ledger
    pub handlers : x.0.registry.handlers ≡ w.registry.handlers
    pub outputs : (o : Output C) → x.1 ≡ output o → Called g w.registry.handlers inv o

  answer_of_output :
      (d : Dispatched (Output C) Raised) (o : Output C)
      → answer_of d ≡ output o
      → (decision : PermissionDecision) × (d ≡ result decision (some o))
  answer_of_output (result decision (some u)) o h = elim (Bool-cases (is_allowed decision)) [
    | inl may ↦ (decision, ground (arith, h, may))
    | inr bars ↦ ground (arith, h, bars)
  ]
  answer_of_output (result decision none) o h = elim (Bool-cases (is_allowed decision)) [
    | inl may ↦ ground (arith, h, may)
    | inr bars ↦ ground (arith, h, bars)
  ]
  answer_of_output capability_busy o h = ground (arith, h)
  answer_of_output configuration_error o h = ground (arith, h)
  answer_of_output (handler_raised x) o h = ground (arith, h)

  pub ask-Asked :
      (g : Policies) (m : Moment) (w : World C) (inv : CapabilityInvocation (Payload C))
      → Asked g inv w (ask g m w inv)
  unfolding ask
  ask-Asked g m w inv = record {
    sessions = refl;
    ledger = refl;
    handlers = dispatch_handlers g m.reported m.monotonic w.registry inv;
    outputs = λ o h.
        let (d, e) = answer_of_output (dispatch g m.reported m.monotonic w.registry inv).1 o h in
        dispatch-Called g m.reported m.monotonic w.registry inv d o e;
  }
