-- ===== src/Permission/Gateway/Configuration.antt =====
-- What a gateway that `PermissionGateway.__init__` accepts holds.
use linux_ai_native_system.Prelude.{
  suc, ◌≤◌, Bool, true, false, not, ◌≡◌, refl, ap, ◌≢◌, List, [], ◌∷◌, Text, text_eq, none, some,
  is_some, lookup, assign, lookup-assign, arith, Bool-cases, Option-cases, inl, inr, map, All,
  length, to_set, contains, Eq, any, all, contains_of_is_subset, text_beq_iff,
}
use linux_ai_native_system.Permission.Contracts.{
  ExecutionPhase, CapabilityPolicy, PhasePolicy, rule_for, find_rule, phase_eq, phase_beq_iff,
}
use linux_ai_native_system.Permission.Identifiers.{is_capability_id}
use linux_ai_native_system.Permission.Policy.{validate_policy, rules_error, rule_error}
use linux_ai_native_system.Permission.Gateway.{Policies, ok, configure, init, reject_empty}

-- Each policy stands under its own identifier and has passed validation.
abbrev pub AllValid : Policies → Type 0
AllValid g =
    (id : Text) (p : CapabilityPolicy)
    → lookup id g ≡ some p
    → (p.capability_id ≡ id) × (validate_policy p ≡ none)

configure-AllValid :
    (policies : List CapabilityPolicy) (g h : Policies)
    → AllValid g
    → configure policies g ≡ ok h
    → AllValid h
unfolding configure
configure-AllValid [] g h v e = λ id p m. v id p (ground arith)
configure-AllValid (policy ∷ rest) g h v e = elim (Option-cases (validate_policy policy)) [
  | inl valid ↦ elim (Bool-cases (is_some (lookup policy.capability_id g))) [
    | inl old ↦ ground arith
    | inr new ↦
        configure-AllValid rest (assign policy.capability_id policy g) h
          (λ id p m. ground (
            arith,
            lookup-assign policy.capability_id id policy g,
            text_beq_iff policy.capability_id id,
            v id p,
          ))
          (ground arith)
  ]
  | inr (x, bad) ↦ ground arith
]

-- An entry of the configuration stays as the loop goes on.
configure_keeps :
    (policies : List CapabilityPolicy) (g h : Policies) (id : Text) (p : CapabilityPolicy)
    → configure policies g ≡ ok h
    → lookup id g ≡ some p
    → lookup id h ≡ some p
unfolding configure
configure_keeps [] g h id p e m = ground arith
configure_keeps (policy ∷ rest) g h id p e m = elim (Option-cases (validate_policy policy)) [
  | inl valid ↦ elim (Bool-cases (is_some (lookup policy.capability_id g))) [
    | inl old ↦ ground arith
    | inr new ↦ configure_keeps rest (assign policy.capability_id policy g) h id p (ground arith) (
        ground (
          arith,
          lookup-assign policy.capability_id id policy g,
          text_beq_iff policy.capability_id id,
        ))
  ]
  | inr (x, bad) ↦ ground arith
]

configure_stores :
    (policies : List CapabilityPolicy) (g h : Policies)
    → configure policies g ≡ ok h
    → All (λ p. lookup p.capability_id h ≡ some p) policies
unfolding configure
configure_stores [] g h e = tt
configure_stores (policy ∷ rest) g h e = elim (Option-cases (validate_policy policy)) [
  | inl valid ↦ elim (Bool-cases (is_some (lookup policy.capability_id g))) [
    | inl old ↦ ground arith
    | inr new ↦
        let g' = assign policy.capability_id policy g in
        (
          configure_keeps rest g' h policy.capability_id policy (ground arith) (
              ground (
                arith,
                lookup-assign policy.capability_id policy.capability_id policy g,
                text_beq_iff policy.capability_id policy.capability_id,
              )),
          configure_stores rest g' h (ground arith),
        )
  ]
  | inr (x, bad) ↦ ground arith
]

init_configured :
    (policies : List CapabilityPolicy) (g : Policies)
    → init policies ≡ ok g
    → configure policies [] ≡ ok g
unfolding init reject_empty
init_configured policies g h = ground arith

-- A gateway that is constructed holds every policy it was given under the policy's own identifier,
-- and it holds nothing but policies that pass validation.
pub init_lem :
    (policies : List CapabilityPolicy) (g : Policies)
    → init policies ≡ ok g
    → All (λ p. lookup p.capability_id g ≡ some p) policies × AllValid g
init_lem policies g h = (
  configure_stores policies [] g (init_configured policies g h),
  configure-AllValid policies [] g (λ id p m. cc) (init_configured policies g h),
)

configure_from :
    (q : CapabilityPolicy → Bool) (policies : List CapabilityPolicy) (g h : Policies)
    → all q policies ≡ true
    → ((id : Text) (p : CapabilityPolicy) → lookup id g ≡ some p → q p ≡ true)
    → configure policies g ≡ ok h
    → (id : Text) (p : CapabilityPolicy) → lookup id h ≡ some p
    → q p ≡ true
unfolding configure
configure_from q [] g h a v e id p m = v id p (ground arith)
configure_from q (policy ∷ rest) g h a v e id p m = elim (Option-cases (validate_policy policy)) [
  | inl valid ↦ elim (Bool-cases (is_some (lookup policy.capability_id g))) [
    | inl old ↦ ground arith
    | inr new ↦
        configure_from q rest (assign policy.capability_id policy g) h (ground arith)
          (λ j r n. ground (arith, lookup-assign policy.capability_id j policy g, v j r))
          (ground arith) id p m
  ]
  | inr (x, bad) ↦ ground arith
]

-- What a test finds in all policies, it finds in every configured one.
pub init_from :
    (q : CapabilityPolicy → Bool) (policies : List CapabilityPolicy) (g : Policies)
    → all q policies ≡ true
    → init policies ≡ ok g
    → (id : Text) (p : CapabilityPolicy) → lookup id g ≡ some p
    → q p ≡ true
init_from q policies g a h =
    configure_from q policies [] g a (λ id p m. cc) (init_configured policies g h)

-- The test on sizes, `len({…}) != len(…)`, finds every repetition.
module _ {ℓ} {A : Type ℓ} ⦃e : Eq A⦄ where
  length-to_set-le : (xs : List A) → length (to_set xs) ≤ length xs
  length-to_set-le [] = omega arith
  length-to_set-le (x ∷ xs) = ground (arith, length-to_set-le xs)

  -- no element stands twice
  abbrev Distinct : List A → Type 0
  Distinct [] = Unit
  Distinct (x ∷ xs) = (contains xs x ≡ false) × Distinct xs

  Distinct-of_length : (xs : List A) → length (to_set xs) ≡ length xs → Distinct xs
  Distinct-of_length [] h = tt
  Distinct-of_length (x ∷ xs) h = ground (arith, length-to_set-le xs, Distinct-of_length xs)

find_rule-ne :
    (rules : List PhasePolicy) (phase : ExecutionPhase)
    → contains (map (λ r. r.phase) rules) phase ≡ false
    → find_rule phase rules ≡ none
unfolding find_rule
find_rule-ne [] phase h = refl
find_rule-ne (r ∷ rules) phase h = ground (arith, find_rule-ne rules phase)

contains_find :
    (rules : List PhasePolicy) (phase : ExecutionPhase) (r : PhasePolicy)
    → find_rule phase rules ≡ some r
    → r.phase ≡ phase
unfolding find_rule
contains_find [] phase r h = cc
contains_find (q ∷ rules) phase r h =
    ground (arith, phase_beq_iff q.phase phase, contains_find rules phase r)

found_past :
    (q : PhasePolicy) (rules sub : List PhasePolicy)
    → contains (map (λ r. r.phase) sub) q.phase ≡ false
    → All (λ r. find_rule r.phase rules ≡ some r) sub
    → All (λ r. find_rule r.phase (q ∷ rules) ≡ some r) sub
unfolding find_rule
found_past q rules [] n h = tt
found_past q rules (r ∷ sub) n h = (
  ground (arith, phase_beq_iff q.phase r.phase, phase_beq_iff r.phase q.phase),
  found_past q rules sub (ground arith) h.1,
)

-- With distinct phases each rule is the one that its phase finds.
Distinct-found :
    (rules : List PhasePolicy)
    → Distinct (map (λ r. r.phase) rules)
    → All (λ r. find_rule r.phase rules ≡ some r) rules
unfolding find_rule
Distinct-found [] d = tt
Distinct-found (q ∷ rules) d = (
  ground (arith, phase_beq_iff q.phase q.phase),
  found_past q rules rules d.0 (Distinct-found rules d.1),
)

length-map : (rules : List PhasePolicy) → length (map (λ r. r.phase) rules) ≡ length rules
length-map [] = refl
length-map (r ∷ rules) = ap suc (length-map rules)

any-false :
    (s : List Text) → any (λ c. not (is_capability_id c)) s ≡ false → all is_capability_id s ≡ true
any-false [] h = refl
any-false (c ∷ s) h = ground (arith, any-false s)

rules_checked :
    (rules : List PhasePolicy)
    → rules_error rules ≡ none
    → All (λ r. (r.allowed_transports ≢ []) × (all is_capability_id r.required_scopes ≡ true)) rules
unfolding rules_error rule_error
rules_checked [] h = tt
rules_checked (r ∷ rules) h =
    (ground (arith, any-false r.required_scopes), rules_checked rules (ground arith))

-- What the rest of the gateway relies on in a policy.
pub record IsWellFormed (p : CapabilityPolicy) : Type 0 where
  pub identifier : is_capability_id p.capability_id ≡ true
  pub some_phase : p.phases ≢ []
  pub reachable : All (λ r. rule_for p r.phase ≡ some r) p.phases
  pub concurrency : 1 ≤ p.max_concurrency
  pub timeout : 1 ≤ p.timeout_seconds
  pub arguments :
      (a : Text) → contains p.required_arguments a ≡ true → contains p.allowed_arguments a ≡ true
  pub rules :
      All
        (λ r. (r.allowed_transports ≢ []) × (all is_capability_id r.required_scopes ≡ true))
        p.phases

-- Validation lets through only well-formed policies: among others each rule is the one that its
-- phase finds, so no rule is shadowed, and no argument is required without being allowed.
pub validate_policy-IsWellFormed :
    (p : CapabilityPolicy) → validate_policy p ≡ none → IsWellFormed p
unfolding validate_policy rule_for
validate_policy-IsWellFormed p h = record {
  identifier = ground arith;
  some_phase = ground arith;
  reachable = Distinct-found p.phases (Distinct-of_length _ (ground (arith, length-map p.phases)));
  concurrency = ground arith;
  timeout = ground arith;
  arguments =
      λ a m. contains_of_is_subset p.required_arguments p.allowed_arguments a (ground arith) m;
  rules = rules_checked p.phases (ground arith);
}
