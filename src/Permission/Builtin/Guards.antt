-- ===== src/Permission/Builtin/Guards.antt =====
-- What the built-in policies let through, for every invocation.
use linux_ai_native_system.Prelude.{
  Bool, true, false, not, ◌&&◌, ◌||◌, ◌≡◌, ◌≢◌, refl, sym, ap, ◌∙◌, ◌⊎◌, List, Text, text_eq,
  text_beq, Option, none, some, is_some, arith, all, contains,
}
use linux_ai_native_system.Permission.Contracts.{
  ExecutionPhase, execute, prepare, commit, RiskLevel, privileged, loopback_http, CapabilityPolicy,
  PhasePolicy, rule_for, risk_value, CapabilityInvocation, is_allowed, transport_eq,
}
use linux_ai_native_system.Permission.Gateway.{Policies, ok, init, evaluate}
use linux_ai_native_system.Permission.Gateway.Configuration.{init_from}
use linux_ai_native_system.Permission.Gateway.Decisions.{Authorised, evaluate_sound}
use linux_ai_native_system.Permission.Builtin.{builtin_policies}

-- A rule that a commit may pass asks for approval and refuses loopback HTTP.
abbrev commit_is_guarded : Option PhasePolicy → Bool
commit_is_guarded none = true
commit_is_guarded (some r) =
    r.approval_required && not (contains r.allowed_transports loopback_http)

abbrev is_privileged : RiskLevel → Bool
is_privileged privileged = true
is_privileged _ = false

is_guarded : CapabilityPolicy → Bool
is_guarded p =
    commit_is_guarded (rule_for p commit)
    && (not p.plan_approval_required || not (is_some (rule_for p execute)))
    && (not (is_privileged p.risk)
        || (not (is_some (rule_for p execute)) && not (is_some (rule_for p prepare))))

builtin_are_guarded : all is_guarded builtin_policies ≡ true
unfolding is_guarded builtin_policies rule_for
builtin_are_guarded = refl

phase-cases : (p : ExecutionPhase) → (p ≡ execute) ⊎ ((p ≡ prepare) ⊎ (p ≡ commit))
phase-cases p = ground arith

true_ne_false : true ≢ false
true_ne_false = λ h. cc

risk_of_value : (r : RiskLevel) → risk_value privileged ≡ risk_value r → r ≡ privileged
unfolding risk_value text_beq
risk_of_value privileged h = refl
risk_of_value _ h = absurd (true_ne_false (ap (text_beq (risk_value privileged)) h))

-- Under the built-in policies an allowed commit has the user's approval and did not come over
-- loopback HTTP; an allowed call that executes at once is of a capability that needs no approval;
-- and an allowed call that declares the privileged risk is a commit.
pub builtin_guards :
    {P : Type 0} (g : Policies) (reported : Option (List Text)) (inv : CapabilityInvocation P)
    → init builtin_policies ≡ ok g
    → is_allowed (evaluate g reported inv) ≡ true
    → (inv.phase ≡ commit
        → (inv.context.approval_granted ≡ true) × (inv.context.transport.transport ≢ loopback_http))
      × (inv.phase ≡ execute → inv.declared_approval_required ≡ false)
      × (inv.declared_risk ≡ risk_value privileged → inv.phase ≡ commit)
unfolding is_guarded
builtin_guards g reported inv built h =
    let a = evaluate_sound g reported inv h in
    let guarded =
      init_from is_guarded builtin_policies g builtin_are_guarded built inv.capability_id a.policy
        a.configured in
    (
      λ e. (
        ground (arith, guarded, rule_at a e, a.approved),
        λ t. ground (arith, guarded, rule_at a e, a.transport),
      ),
      λ e. ground (arith, guarded, rule_at a e, a.approval),
      λ e. ground (
        arith,
        guarded,
        a.phase,
        risk_of_value a.policy.risk (sym e ∙ a.risk),
        phase-cases inv.phase,
      ),
    )
  where
    rule_at :
        {phase : ExecutionPhase} (a : Authorised g reported inv)
        → inv.phase ≡ phase
        → rule_for a.policy phase ≡ some a.rule
    rule_at a e = ap (rule_for a.policy) (sym e) ∙ a.phase
