-- ===== src/Permission/Registry/Dispatch.antt =====
-- What a dispatch does to the registry and to whom it hands the call.
use linux_ai_native_system.Prelude.{
  ℕ, ◌+◌, ◌-◌, ◌≤◌, true, false, ◌≡◌, refl, sym, subst, ◌∙◌, List, Text, text_eq, text_beq_iff,
  Option, none, some, lookup, assign, lookup-assign, assign-assign, assign_same, arith,
  Option-cases, inl, inr,
}
use linux_ai_native_system.Permission.Contracts.{
  CapabilityInvocation, CapabilityPolicy, PermissionDecision, is_allowed,
}
use linux_ai_native_system.Permission.Gateway.{Policies, policy, evaluate}
use linux_ai_native_system.Permission.Registry.{
  Semaphore, Registry, Begun, started, Ended, Handler, result, release, begin, conclude, dispatch,
  finish,
}

-- The invocation that the handler sees: the caller's, with the deadline of the policy.
pub record Starts {P H : Type 0} (g : Policies) (reported : Option (List Text)) (now : ℕ)
    (r : Registry H) (inv : CapabilityInvocation P) (r' : Registry H) (d : PermissionDecision)
    (handler : H) (bounded : CapabilityInvocation P) : Type 0 where
  pub decision : d ≡ evaluate g reported inv
  pub permitted : is_allowed (evaluate g reported inv) ≡ true
  pub found : lookup inv.capability_id r.handlers ≡ some handler
  pub rules : CapabilityPolicy
  pub configured : lookup inv.capability_id g ≡ some rules
  pub limit : Semaphore
  pub limited : lookup inv.capability_id r.limits ≡ some limit
  pub free : 1 ≤ limit.value
  pub taken : r' ≡ record r {
    limits = assign inv.capability_id (record limit { value = limit.value - 1 }) r.limits;
  }
  pub deadline : bounded ≡ record inv { deadline_monotonic = some (now + rules.timeout_seconds) }

module _ {P H : Type 0} (g : Policies) (reported : Option (List Text)) (now : ℕ) (r : Registry H)
    (inv : CapabilityInvocation P) where
  -- A handler is called only for an invocation that the gateway allows, with its own arguments and
  -- the deadline of its policy, and with one unit of its limit taken.
  pub begin-Starts :
      (r' : Registry H) (d : PermissionDecision) (handler : H) (bounded : CapabilityInvocation P)
      → begin g reported now r inv ≡ started r' d handler bounded
      → Starts g reported now r inv r' d handler bounded
  unfolding begin policy
  begin-Starts r' d handler bounded h = elim (Option-cases (lookup inv.capability_id r.handlers)) [
    | inl absent ↦ ground arith
    | inr (f, e) ↦ elim (Option-cases (lookup inv.capability_id r.limits)) [
      | inl absent ↦ ground arith
      | inr (limit, l) ↦ elim (Option-cases (lookup inv.capability_id g)) [
        | inl absent ↦ ground arith
        | inr (p, c) ↦ record {
          decision = ground arith;
          permitted = ground arith;
          found = ground arith;
          rules = p;
          configured = c;
          limit = limit;
          limited = l;
          free = ground arith;
          taken = ground arith;
          deadline = ground arith;
        }
      ]
    ]
  ]

-- No limit stands above its initial value.
abbrev pub WithinLimits : {H : Type 0} → Registry H → Type 0
WithinLimits r =
    (id : Text) (limit : Semaphore) → lookup id r.limits ≡ some limit → limit.value ≤ limit.initial

-- To take one unit and to give it back leaves the registry as it was.
pub release_taken :
    {H : Type 0} (r : Registry H) (id : Text) (limit : Semaphore)
    → WithinLimits r
    → lookup id r.limits ≡ some limit
    → 1 ≤ limit.value
    → release id
        (record r { limits = assign id (record limit { value = limit.value - 1 }) r.limits })
      ≡ r
unfolding release
release_taken r id limit w l v = ground (
  arith,
  lookup-assign id id (record limit { value = limit.value - 1 }) r.limits,
  text_beq_iff id id,
  w id limit l,
  assign-assign id limit (record limit { value = limit.value - 1 }) r.limits,
  assign_same id limit r.limits l,
)

module _ {P O X : Type 0} (g : Policies) (reported : Option (List Text)) (now : ℕ)
    (r : Registry (Handler P O X)) (inv : CapabilityInvocation P) where
  -- However a dispatch ends, by a refusal, a busy limit, an output or an exception of the handler,
  -- it leaves the registry as it found it: what it took from a limit, it gave back.
  pub dispatch_restores : WithinLimits r → (dispatch g reported now r inv).0 ≡ r
  unfolding dispatch
  dispatch_restores w = after (begin g reported now r inv) refl
    where
      after :
          (b : Begun P (Handler P O X)) → begin g reported now r inv ≡ b → (conclude r inv b).0 ≡ r
      after (Begun.refused d) e = refl
      after Begun.busy e = refl
      after Begun.configuration_error e = refl
      after (started r' d handler bounded) e =
          let s = begin-Starts g reported now r inv r' d handler bounded e in
          rw s.taken (release_taken r inv.capability_id s.limit w s.limited s.free)

  -- A refused invocation reaches no handler: the outcome is the gateway's decision, with no output.
  pub dispatch_denied :
      is_allowed (evaluate g reported inv) ≡ false
      → dispatch g reported now r inv ≡ (r, result (evaluate g reported inv) none)
  unfolding dispatch begin
  dispatch_denied h = rw h

  -- An output comes only for an invocation that the gateway allows, under the gateway's own
  -- decision: it is what the handler registered for the capability returned when it was called on
  -- that same invocation, with only its deadline set, to the one of the capability's policy.
  pub dispatch_output :
      (d : PermissionDecision) (o : O)
      → (dispatch g reported now r inv).1 ≡ result d (some o)
      → (is_allowed (evaluate g reported inv) ≡ true)
        × (d ≡ evaluate g reported inv)
        × ((rules : CapabilityPolicy) × (handler : Handler P O X) × (lookup inv.capability_id g
              ≡ some rules)
            × (lookup inv.capability_id r.handlers ≡ some handler)
            × (handler (record inv { deadline_monotonic = some (now + rules.timeout_seconds) })
                ≡ Ended.returned o))
  unfolding dispatch
  dispatch_output d o h = after (begin g reported now r inv) refl h
    where
      output_of :
          (d d' : PermissionDecision) (e : Ended O X)
          → finish d e ≡ result d' (some o)
          → (d ≡ d') × (e ≡ Ended.returned o)
      output_of d d' (Ended.returned u) k = ground arith
      output_of d d' (Ended.raised x) k = ground arith

      after :
          (b : Begun P (Handler P O X))
          → begin g reported now r inv ≡ b
          → (conclude r inv b).1 ≡ result d (some o)
          → (is_allowed (evaluate g reported inv) ≡ true)
            × (d ≡ evaluate g reported inv)
            × ((rules : CapabilityPolicy) × (handler : Handler P O X) × (lookup inv.capability_id g
                  ≡ some rules)
                × (lookup inv.capability_id r.handlers ≡ some handler)
                × (handler (record inv { deadline_monotonic = some (now + rules.timeout_seconds) })
                    ≡ Ended.returned o))
      after (Begun.refused d') e k = ground arith
      after Begun.busy e k = ground arith
      after Begun.configuration_error e k = ground arith
      after (started r' d' handler bounded) e k =
          let s = begin-Starts g reported now r inv r' d' handler bounded e in
          let (same, out) = output_of d' d (handler bounded) k in
          (
            s.permitted,
            sym same ∙ s.decision,
            (
              s.rules,
              handler,
              s.configured,
              s.found,
              subst (λ b. handler b ≡ Ended.returned o) s.deadline out,
            ),
          )
