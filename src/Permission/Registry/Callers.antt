-- ===== src/Permission/Registry/Callers.antt =====
-- What a caller of `CapabilityExecutionRegistry.dispatch`
-- (services/permission-gateway/src/ai_native_permissions/registry.py) may rely on.
use linux_ai_native_system.Prelude.{
  ℕ, ◌+◌, ◌≡◌, refl, ap, ◌∙◌, subst, true, List, Text, text_eq, Option, some, lookup, Dict, arith,
  Option-cases, inl, inr,
}
use linux_ai_native_system.Permission.Contracts.{
  CapabilityInvocation, PermissionDecision, is_allowed,
}
use linux_ai_native_system.Permission.Gateway.{Policies, evaluate}
use linux_ai_native_system.Permission.Registry.{
  Registry, Handler, Begun, started, Ended, result, begin, conclude, dispatch, release, finish,
}
use linux_ai_native_system.Permission.Registry.Dispatch.{begin-Starts}

module _ {P O X : Type 0} (g : Policies) where
  -- The handler of the invocation's capability returned the output, when it was called on the
  -- invocation with a deadline, and the gateway allowed that.
  pub record Called (handlers : Dict Text (Handler P O X)) (inv : CapabilityInvocation P) (o : O)
      : Type 0 where
    pub reported : Option (List Text)
    pub permitted : is_allowed (evaluate g reported inv) ≡ true
    pub handler : Handler P O X
    pub registered : lookup inv.capability_id handlers ≡ some handler
    pub deadline : ℕ
    pub returned : handler (record inv { deadline_monotonic = some deadline }) ≡ Ended.returned o

  release_handlers :
      (id : Text) (r : Registry (Handler P O X)) → (release id r).handlers ≡ r.handlers
  unfolding release
  release_handlers id r = elim (Option-cases (lookup id r.limits)) [
    | inl absent ↦ ground (arith, absent)
    | inr (limit, l) ↦ ground (arith, l)
  ]

  module _ (reported : Option (List Text)) (now : ℕ) (r : Registry (Handler P O X))
      (inv : CapabilityInvocation P) where
    conclude_handlers :
        (b : Begun P (Handler P O X))
        → begin g reported now r inv ≡ b
        → (conclude r inv b).0.handlers ≡ r.handlers
    unfolding conclude
    conclude_handlers (Begun.refused d) e = refl
    conclude_handlers Begun.busy e = refl
    conclude_handlers Begun.configuration_error e = refl
    conclude_handlers (started r' d handler bounded) e =
        release_handlers inv.capability_id r'
        ∙ ap (λ s. s.handlers) (begin-Starts g reported now r inv r' d handler bounded e).taken

    pub dispatch_handlers : (dispatch g reported now r inv).0.handlers ≡ r.handlers
    unfolding dispatch
    dispatch_handlers = conclude_handlers (begin g reported now r inv) refl

    finish_returned :
        (d d' : PermissionDecision) (e : Ended O X) (o : O)
        → finish d e ≡ result d' (some o)
        → e ≡ Ended.returned o
    unfolding finish
    finish_returned d d' (Ended.returned u) o h = ground (arith, h)
    finish_returned d d' (Ended.raised x) o h = ground (arith, h)

    conclude-Called :
        (b : Begun P (Handler P O X)) (d : PermissionDecision) (o : O)
        → begin g reported now r inv ≡ b
        → (conclude r inv b).1 ≡ result d (some o)
        → Called r.handlers inv o
    unfolding conclude
    conclude-Called (Begun.refused x) d o e h = ground (arith, h)
    conclude-Called Begun.busy d o e h = ground (arith, h)
    conclude-Called Begun.configuration_error d o e h = ground (arith, h)
    conclude-Called (started r' x handler bounded) d o e h =
        let s = begin-Starts g reported now r inv r' x handler bounded e in
        record {
          reported = reported;
          permitted = s.permitted;
          handler = handler;
          registered = s.found;
          deadline = now + s.rules.timeout_seconds;
          returned =
              subst (λ b. handler b ≡ Ended.returned o) s.deadline
                (finish_returned x d (handler bounded) o h);
        }

    pub dispatch-Called :
        (d : PermissionDecision) (o : O)
        → (dispatch g reported now r inv).1 ≡ result d (some o)
        → Called r.handlers inv o
    unfolding dispatch
    dispatch-Called d o h = conclude-Called (begin g reported now r inv) d o refl h
