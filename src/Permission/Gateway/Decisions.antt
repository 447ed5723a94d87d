-- ===== src/Permission/Gateway/Decisions.antt =====
-- What `PermissionGateway.evaluate` decides, against an independent statement of who may call.
use linux_ai_native_system.Prelude.{
  true, not, ◌&&◌, ◌≡◌, sym, ◌∙◌, ◌≢◌, ◌↔◌, contains-sorted, contains-keys, List, [], Text, text_eq,
  Option, some, is_some, lookup, contains, contains-to_set, contains-difference,
  contains_of_is_subset, difference, is_subset, arith, Bool-cases, Option-cases, inl, inr, map,
  length, sorted, nat_beq, length-sorted, contains-nil, nil_of_not_contains, all_of_contains,
  text_beq_iff, bool_beq_iff, bool_eq,
}
use linux_ai_native_system.Permission.Contracts.{
  deny, CapabilityPolicy, PhasePolicy, rule_for, risk_value, CapabilityInvocation, Reason,
  is_allowed, transport_eq,
}
use linux_ai_native_system.Permission.Gateway.{
  Policies, source, valid_invocation_identity, valid_arguments, evaluate,
}

-- The conditions under which the policies let an invocation through.
pub record Authorised {P : Type 0} (g : Policies) (reported : Option (List Text))
    (inv : CapabilityInvocation P) : Type 0 where
  pub identity : valid_invocation_identity inv ≡ true
  pub policy : CapabilityPolicy
  pub configured : lookup inv.capability_id g ≡ some policy
  pub available : contains (source g reported) inv.capability_id ≡ true
  pub risk : inv.declared_risk ≡ risk_value policy.risk
  pub approval : inv.declared_approval_required ≡ policy.plan_approval_required
  pub rule : PhasePolicy
  pub phase : rule_for policy inv.phase ≡ some rule
  pub transport : contains rule.allowed_transports inv.context.transport.transport ≡ true
  pub approved : rule.approval_required ≡ true → inv.context.approval_granted ≡ true
  pub scopes :
      (s : Text)
      → contains rule.required_scopes s ≡ true
      → contains inv.context.granted_scopes s ≡ true
  pub required :
      (a : Text)
      → contains policy.required_arguments a ≡ true
      → is_some (lookup a inv.arguments) ≡ true
  pub allowed :
      (a : Text)
      → is_some (lookup a inv.arguments) ≡ true
      → contains policy.allowed_arguments a ≡ true
  pub values : valid_arguments inv.arguments ≡ true

-- No scope is missing exactly when each required one is granted.
none_missing_iff :
    (xs ys : List Text)
    → (nat_beq (length (sorted (difference xs ys))) 0 ≡ true)
      ↔ ((s : Text) → contains xs s ≡ true → contains ys s ≡ true)
none_missing_iff xs ys = (
  λ h s m. elim (Bool-cases (contains ys s)) [
    | inl granted ↦ granted
    | inr missing ↦ ground (
      arith,
      length-sorted (difference xs ys),
      contains-difference xs ys s,
      contains-nil (difference xs ys) s,
    )
  ],
  λ h.
      let empty : difference xs ys ≡ [] =
        nil_of_not_contains (difference xs ys)
          (λ s. ground (arith, contains-difference xs ys s, h s)) in
      rw (length-sorted (difference xs ys), empty),
)

module _ {P : Type 0} (g : Policies) (reported : Option (List Text))
    (inv : CapabilityInvocation P) where
  -- An invocation that `evaluate` allows meets every condition.
  pub evaluate_sound : is_allowed (evaluate g reported inv) ≡ true → Authorised g reported inv
  unfolding evaluate is_allowed
  evaluate_sound h = elim (Option-cases (lookup inv.capability_id g)) [
    | inl unknown ↦ ground arith
    | inr (p, e) ↦ elim (Option-cases (rule_for p inv.phase)) [
      | inl absent ↦ ground arith
      | inr (rule, f) ↦ record {
        identity = ground arith;
        policy = p;
        configured = e;
        available = ground (arith, contains-to_set (source g reported) inv.capability_id);
        risk = ground (arith, text_beq_iff inv.declared_risk (risk_value p.risk));
        approval =
            ground (arith, bool_beq_iff inv.declared_approval_required p.plan_approval_required);
        rule = rule;
        phase = f;
        transport = ground arith;
        approved = ground arith;
        scopes = (none_missing_iff _ _).0 (ground arith);
        required = λ a m. ground (
          arith,
          contains-keys a inv.arguments,
          contains_of_is_subset p.required_arguments (map (λ e. e.0) inv.arguments) a,
        );
        allowed = λ a m. ground (
          arith,
          contains-keys a inv.arguments,
          contains_of_is_subset (map (λ e. e.0) inv.arguments) p.allowed_arguments a,
        );
        values = ground arith;
      }
    ]
  ]

  -- An invocation that meets every condition is allowed.
  pub evaluate_complete : Authorised g reported inv → is_allowed (evaluate g reported inv) ≡ true
  unfolding evaluate is_allowed
  evaluate_complete h = ground (
    arith,
    h.identity,
    h.configured,
    h.phase,
    h.transport,
    h.approved,
    h.values,
    contains-to_set (source g reported) inv.capability_id,
    h.available,
    text_beq_iff inv.declared_risk (risk_value h.policy.risk),
    h.risk,
    bool_beq_iff inv.declared_approval_required h.policy.plan_approval_required,
    h.approval,
    (none_missing_iff h.rule.required_scopes inv.context.granted_scopes).1 h.scopes,
    required_subset h,
    allowed_subset h,
  )
    where
      required_subset :
          (h : Authorised g reported inv)
          → is_subset h.policy.required_arguments (map (λ e. e.0) inv.arguments) ≡ true
      required_subset h =
          all_of_contains _ h.policy.required_arguments
            (λ a m. contains-keys a inv.arguments ∙ h.required a m)

      allowed_subset :
          (h : Authorised g reported inv)
          → is_subset (map (λ e. e.0) inv.arguments) h.policy.allowed_arguments ≡ true
      allowed_subset h =
          all_of_contains _ (map (λ e. e.0) inv.arguments)
            (λ a m. h.allowed a (sym (contains-keys a inv.arguments) ∙ m))

  -- `evaluate` allows exactly the invocations whose identifiers are canonical, whose capability is
  -- configured and available at the risk and approval that it declares, and whose phase has a rule
  -- that accepts the transport, the approval, the granted scopes and the arguments.
  pub evaluate-Authorised_iff :
      (is_allowed (evaluate g reported inv) ≡ true) ↔ Authorised g reported inv
  evaluate-Authorised_iff = (evaluate_sound, evaluate_complete)

  -- A refusal for scopes names exactly the scopes that the rule of the phase requires and the
  -- context lacks, and there is one.
  pub evaluate_missing_scopes :
      (evaluate g reported inv).reason_code ≡ Reason.scope_not_granted
      → (policy : CapabilityPolicy) × (rule : PhasePolicy) × (lookup inv.capability_id g
          ≡ some policy)
        × (rule_for policy inv.phase ≡ some rule)
        × ((evaluate g reported inv).required_scopes ≢ [])
        × ((s : Text)
            → contains (evaluate g reported inv).required_scopes s
              ≡ (contains rule.required_scopes s && not (contains inv.context.granted_scopes s)))
  unfolding evaluate
  evaluate_missing_scopes h = elim (Option-cases (lookup inv.capability_id g)) [
    | inl unknown ↦ ground arith
    | inr (p, e) ↦ elim (Option-cases (rule_for p inv.phase)) [
      | inl absent ↦ ground arith
      | inr (rule, f) ↦ (
        p,
        rule,
        e,
        f,
        ground arith,
        λ s. ground (
          arith,
          contains-sorted (difference rule.required_scopes inv.context.granted_scopes) s,
          contains-difference rule.required_scopes inv.context.granted_scopes s,
        ),
      )
    ]
  ]

  -- Every decision is about the capability and the phase of the invocation, and it is to deny
  -- exactly when its reason is not `allowed`.
  pub evaluate_echoes :
      let d = evaluate g reported inv in
      (d.capability_id ≡ inv.capability_id)
      × (d.phase ≡ inv.phase)
      × ((d.kind ≡ deny) ↔ (d.reason_code ≢ Reason.allowed))
  unfolding evaluate
  evaluate_echoes = elim (Option-cases (lookup inv.capability_id g)) [
    | inl unknown ↦ ground arith
    | inr (p, e) ↦ elim (Option-cases (rule_for p inv.phase)) [
      | inl absent ↦ ground arith
      | inr (rule, f) ↦ ground arith
    ]
  ]

-- The same call with other scopes granted.
abbrev pub with_scopes : {P : Type 0} → List Text → CapabilityInvocation P → CapabilityInvocation P
with_scopes scopes inv = record inv { context = record (inv.context) { granted_scopes = scopes } }

-- More scopes never turn a permission into a refusal.
pub evaluate_mono :
    {P : Type 0} (g : Policies) (reported : Option (List Text)) (inv : CapabilityInvocation P)
    (more : List Text)
    → ((s : Text) → contains inv.context.granted_scopes s ≡ true → contains more s ≡ true)
    → is_allowed (evaluate g reported inv) ≡ true
    → is_allowed (evaluate g reported (with_scopes more inv)) ≡ true
unfolding valid_invocation_identity
evaluate_mono g reported inv more grows h =
    let a = evaluate_sound g reported inv h in
    evaluate_complete g reported (with_scopes more inv) (record {
      identity = a.identity;
      policy = a.policy;
      configured = a.configured;
      available = a.available;
      risk = a.risk;
      approval = a.approval;
      rule = a.rule;
      phase = a.phase;
      transport = a.transport;
      approved = a.approved;
      scopes = λ s m. grows s (a.scopes s m);
      required = a.required;
      allowed = a.allowed;
      values = a.values;
    })
