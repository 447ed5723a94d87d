-- ===== src/Permission/Registry/Concurrency.antt =====
-- Calls on several threads: at most `max_concurrency` handlers of one capability run at a time.
use linux_ai_native_system.Prelude.{
  ℕ, ◌+◌, ◌-◌, ◌≤◌, true, false, ◌≡◌, refl, List, [], ◌∷◌, Text, text_eq, text_beq, text_beq_iff,
  Option, none, some, is_some, lookup, assign, lookup-assign, arith, Option-cases, Bool-cases, inl,
  inr, contains, count, erase, count-erase, count-pos,
}
use linux_ai_native_system.Permission.Contracts.{
  CapabilityInvocation, CapabilityPolicy, PermissionDecision,
}
use linux_ai_native_system.Permission.Gateway.{Policies, policy}
use linux_ai_native_system.Permission.Registry.{
  Semaphore, Registry, empty, Begun, started, registered, register, release, begin,
}
use linux_ai_native_system.Permission.Registry.Dispatch.{begin-Starts}

-- The registry, and the capability of each handler that is running.
pub record System (H : Type 0) : Type 0 where
  pub registry : Registry H
  pub running : List Text

-- What a thread does: it registers a handler, starts a call, or returns from one.
pub data Step (P : Type 0) {H : Type 0} (g : Policies) (s t : System H) : Type 0 where
  register_handler :
      (id : Text) (h : Option H) (r : Registry H)
      → register g id h s.registry ≡ registered r
      → t ≡ record { registry = r; running = s.running }
      → Step P g s t
  start_call :
      (reported : Option (List Text)) (now : ℕ) (inv : CapabilityInvocation P) (r : Registry H)
      (d : PermissionDecision) (h : H) (bounded : CapabilityInvocation P)
      → begin g reported now s.registry inv ≡ started r d h bounded
      → t ≡ record { registry = r; running = inv.capability_id ∷ s.running }
      → Step P g s t
  end_call :
      (id : Text)
      → contains s.running id ≡ true
      → t ≡ record { registry = release id s.registry; running = erase id s.running }
      → Step P g s t

pub data Reach (P : Type 0) {H : Type 0} (g : Policies) : System H → Type 0 where
  here : Reach P g (record { registry = empty; running = [] })
  next : {s t : System H} → Reach P g s → Step P g s t → Reach P g t

-- The units taken from a capability's limit are the calls that run.
abbrev pub Balanced : Option CapabilityPolicy → Option Semaphore → ℕ → Type 0
Balanced p none n = n ≡ 0
Balanced none (some s) n = ⊥
Balanced (some p) (some s) n = (s.initial ≡ p.max_concurrency) × (s.value + n ≡ s.initial)

-- The limits and the handlers have the same keys, and each limit is balanced.
pub record IsBalanced {H : Type 0} (g : Policies) (s : System H) : Type 0 where
  pub keys :
      (id : Text) → is_some (lookup id s.registry.handlers) ≡ is_some (lookup id s.registry.limits)
  pub units :
      (id : Text) → Balanced (lookup id g) (lookup id s.registry.limits) (count id s.running)

abbrev fresh : CapabilityPolicy → Semaphore
fresh p = record { initial = p.max_concurrency; value = p.max_concurrency }

module _ {H : Type 0} (g : Policies) where
  -- A registration adds a handler and a full limit for a configured capability that had none.
  registered_lem :
      (r t : Registry H) (id : Text) (h : Option H)
      → register g id h r ≡ registered t
      → (p : CapabilityPolicy) × (f : H) × (lookup id g ≡ some p)
        × (lookup id r.handlers ≡ none)
        × (t ≡ record { handlers = assign id f r.handlers; limits = assign id (fresh p) r.limits })
  unfolding register policy
  registered_lem r t id none e = ground arith
  registered_lem r t id (some f) e = elim (Option-cases (lookup id g)) [
    | inl absent ↦ ground arith
    | inr (p, c) ↦ (p, f, c, ground arith, ground arith)
  ]

  register-IsBalanced :
      (s : System H) (id : Text) (h : Option H) (r : Registry H)
      → IsBalanced g s
      → register g id h s.registry ≡ registered r
      → IsBalanced g (record { registry = r; running = s.running })
  register-IsBalanced s id h r b e =
      let (p, f, c, absent, made) = registered_lem s.registry r id h e in
      rw made (record {
        keys = λ j. ground (
          arith,
          lookup-assign id j f s.registry.handlers,
          lookup-assign id j (fresh p) s.registry.limits,
          b.keys j,
        );
        units = λ j. elim (Bool-cases (text_beq id j)) [
          | inl same ↦
              rw (lookup-assign id j (fresh p) s.registry.limits, same)
                (rw (← (text_beq_iff id j).0 same, c) (refl, full p id absent c b))
          | inr other ↦ rw (lookup-assign id j (fresh p) s.registry.limits, other) (b.units j)
        ];
      })
    where
      full :
          (p : CapabilityPolicy) (id : Text)
          → lookup id s.registry.handlers ≡ none
          → lookup id g ≡ some p
          → IsBalanced g s
          → p.max_concurrency + count id s.running ≡ p.max_concurrency
      full p id absent c b =
          let gone : lookup id s.registry.limits ≡ none = ground (arith, b.keys id) in
          let none_running : count id s.running ≡ 0 = rw gone at (b.units id) in omega arith

  -- the units of a capability whose policy and limit are known
  units_at :
      (s : System H) (id : Text) (limit : Semaphore)
      → IsBalanced g s
      → lookup id s.registry.limits ≡ some limit
      → (p : CapabilityPolicy) × (lookup id g ≡ some p)
        × (limit.initial ≡ p.max_concurrency)
        × (limit.value + count id s.running ≡ limit.initial)
  units_at s id limit b l = elim (Option-cases (lookup id g)) [
    | inl absent ↦ elim (rw (l, absent) at (b.units id)) [ ]
    | inr (p, c) ↦
        let u : Balanced (some p) (some limit) (count id s.running) = rw (l, c) at (b.units id) in
        (p, c, u.0, u.1)
  ]

  -- One limit changes by what the count of its running calls changes.
  move-IsBalanced :
      (s : System H) (id : Text) (limit changed : Semaphore) (running : List Text)
      → IsBalanced g s
      → lookup id s.registry.limits ≡ some limit
      → changed.initial ≡ limit.initial
      → changed.value + count id running ≡ limit.value + count id s.running
      → ((j : Text) → text_beq id j ≡ false → count j running ≡ count j s.running)
      → IsBalanced g (record {
        registry = record (s.registry) { limits = assign id changed s.registry.limits };
        running = running;
      })
  move-IsBalanced s id limit changed running b l same_initial moved others = record {
    keys = λ j.
        ground (arith, lookup-assign id j changed s.registry.limits, text_beq_iff id j, b.keys j);
    units = λ j. elim (Bool-cases (text_beq id j)) [
      | inl same ↦
          let (p, c, initial, units) = units_at s id limit b l in
          rw (lookup-assign id j changed s.registry.limits, same)
            (rw (← (text_beq_iff id j).0 same, c) (omega arith, omega arith))
      | inr other ↦
          rw (lookup-assign id j changed s.registry.limits, other) (rw (others j other) (b.units j))
    ];
  }

  release-IsBalanced :
      (s : System H) (id : Text)
      → IsBalanced g s
      → contains s.running id ≡ true
      → IsBalanced g (record { registry = release id s.registry; running = erase id s.running })
  unfolding release
  release-IsBalanced s id b m = elim (Option-cases (lookup id s.registry.limits)) [
    | inl absent ↦
        let none_running : count id s.running ≡ 0 = rw absent at (b.units id) in
        absurd (omega (arith, count-pos id s.running m))
    | inr (limit, l) ↦
        let (p, c, initial, units) = units_at s id limit b l in
        let given : release id s.registry ≡ record (s.registry) {
          limits = assign id (record limit { value = limit.value + 1 }) s.registry.limits;
        } =
          ground (arith, l, units, count-pos id s.running m) in
        rw given (
          move-IsBalanced s id limit (record limit { value = limit.value + 1 }) (erase id s.running)
            b l refl (ground (arith, count-erase id id s.running m, text_beq_iff id id))
            (λ j other. ground (arith, count-erase id j s.running m)))
  ]

  Step-IsBalanced : {P : Type 0} (s t : System H) → Step P g s t → IsBalanced g s → IsBalanced g t
  Step-IsBalanced s t (register_handler id h r e q) b = rw q (register-IsBalanced s id h r b e)
  Step-IsBalanced s t (start_call reported now inv r d h bounded e q) b =
      let a = begin-Starts g reported now s.registry inv r d h bounded e in
      rw (q, a.taken)
        (move-IsBalanced s inv.capability_id a.limit
          (record (a.limit) { value = a.limit.value - 1 }) (inv.capability_id ∷ s.running) b
          a.limited refl (ground (arith, a.free, text_beq_iff inv.capability_id inv.capability_id))
          (λ j other. ground arith))
  Step-IsBalanced s t (end_call id m q) b = rw q (release-IsBalanced s id b m)

  Reach-IsBalanced : {P : Type 0} {s : System H} → Reach P g s → IsBalanced g s
  Reach-IsBalanced here = record { keys = λ id. refl; units = λ id. refl }
  Reach-IsBalanced (next {s} {t} r st) = Step-IsBalanced s t st (Reach-IsBalanced r)

  -- Whatever threads register, call and return, in whatever order, at no time do more handlers of
  -- a capability run than its policy allows.
  pub running-le-max_concurrency :
      {P : Type 0} {s : System H} (id : Text) (p : CapabilityPolicy)
      → Reach P g s
      → lookup id g ≡ some p
      → count id s.running ≤ p.max_concurrency
  running-le-max_concurrency {s} id p r c = elim (Option-cases (lookup id s.registry.limits)) [
    | inl absent ↦
        let idle : count id s.running ≡ 0 = rw absent at ((Reach-IsBalanced r).units id) in
        omega arith
    | inr (limit, l) ↦
        let (q, d, initial, units) = units_at s id limit (Reach-IsBalanced r) l in
        ground (arith, c, d, initial, units)
  ]

  -- In every reachable state an allowed call with a registered handler is turned away as busy only
  -- when as many handlers of its capability run as the policy allows.
  pub begin_busy :
      {P : Type 0} {s : System H} (p : CapabilityPolicy) (reported : Option (List Text)) (now : ℕ)
      (inv : CapabilityInvocation P)
      → Reach P g s
      → lookup inv.capability_id g ≡ some p
      → begin g reported now s.registry inv ≡ Begun.busy
      → count inv.capability_id s.running ≡ p.max_concurrency
  unfolding begin policy
  begin_busy {s} p reported now inv r c e =
      elim (Option-cases (lookup inv.capability_id s.registry.limits)) [
        | inl absent ↦ ground (arith, (Reach-IsBalanced r).keys inv.capability_id)
        | inr (limit, l) ↦
            let (q, d, initial, units) =
              units_at s inv.capability_id limit (Reach-IsBalanced r) l in
            ground (arith, c, d, initial, units)
      ]
