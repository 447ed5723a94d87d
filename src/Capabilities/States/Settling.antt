-- ===== src/Capabilities/States/Settling.antt =====
-- The `while changed` loop of `refresh_states` (registry.py of services/capability-registry): it
-- ends, it only takes modules out, and at its end no enabled module has a dependency that is not.
use linux_ai_native_system.Prelude.{
  ℕ, zero, suc, ◌≤◌, ◌<◌, ◌≡◌, refl, sym, ap, ◌∙◌, subst, codes, ◌++◌, ◌⊎◌, Bool, true, false, not,
  List, [], ◌∷◌, Option, none, some, is_some, Text, text_eq, text_beq, text_beq_iff, lookup, assign,
  lookup-assign, contains, length, if◌then◌else◌, All, arith, Bool-cases, Option-cases, inl, inr,
}
use linux_ai_native_system.Capabilities.Contracts.{unavailable, is_enabled}
use linux_ai_native_system.Capabilities.Cycles.{Graph}
use linux_ai_native_system.Capabilities.States.{
  Status, Statuses, find_first, enabled_in, demote, pass, settle,
}

pub find_first-none :
    (test : Text → Bool) (ds : List Text) (d : Text)
    → find_first test ds ≡ none
    → contains ds d ≡ true
    → test d ≡ false
unfolding find_first
find_first-none test [] d h m = ground arith
find_first-none test (x ∷ ds) d h m = ground (arith, text_beq_iff x d, find_first-none test ds d)

pub find_first-some :
    (test : Text → Bool) (ds : List Text) (d : Text)
    → find_first test ds ≡ some d
    → (contains ds d ≡ true) × (test d ≡ true)
unfolding find_first
find_first-some test [] d h = ground arith
find_first-some test (x ∷ ds) d h =
    ground (arith, text_beq_iff x x, text_beq_iff x d, find_first-some test ds d)

some_injective : {a b : Statuses} → ◌≡◌ {A = Option Statuses} (some a) (some b) → a ≡ b
some_injective h = cc

-- how many modules are enabled
unfoldable pub count_enabled : Statuses → ℕ
count_enabled [] = 0
count_enabled ((id, s) ∷ st) = let n = count_enabled st in if is_enabled s.state then suc n else n

pub count_enabled-le : (st : Statuses) → count_enabled st ≤ length st
unfolding count_enabled
count_enabled-le [] = omega arith
count_enabled-le ((id, s) ∷ st) = ground (arith, count_enabled-le st)

count_enabled-assign :
    (id : Text) (s : Status) (st : Statuses)
    → enabled_in st id ≡ true
    → is_enabled s.state ≡ false
    → suc (count_enabled (assign id s st)) ≡ count_enabled st
unfolding count_enabled
count_enabled-assign id s [] e u = ground arith
count_enabled-assign id s ((j, t) ∷ st) e u = ground (arith, count_enabled-assign id s st)

-- Every dependency of an enabled module is enabled.
abbrev pub Settled : Statuses → Text × List Text → Type 0
Settled st e =
    enabled_in st e.0 ≡ true → (d : Text) → contains e.1 d ≡ true → enabled_in st d ≡ true

-- the status of a module that a dependency blocks
abbrev blocked_by : Text → Status
blocked_by b = record { state = unavailable; reason = some (codes "dependency_not_enabled:" ++ b) }

-- A demotion takes an enabled module with a dependency that is not, or it changes nothing.
pub demote-cases :
    (id : Text) (ds : List Text) (st : Statuses)
    → ((demote id ds st ≡ (st, false)) × Settled st (id, ds))
      ⊎ ((b : Text) × (demote id ds st ≡ (assign id (blocked_by b) st, true))
          × (enabled_in st id ≡ true)
          × (contains ds b ≡ true)
          × (enabled_in st b ≡ false))
unfolding demote
demote-cases id ds st = elim (Bool-cases (enabled_in st id)) [
  | inl on ↦ elim (Option-cases (find_first (λ d. not (enabled_in st d)) ds)) [
    | inl free ↦ inl (
      ground (arith, on, free),
      λ h d m. ground (arith, find_first-none (λ d. not (enabled_in st d)) ds d free m),
    )
    | inr (b, blocked) ↦
        let (m, off) = find_first-some (λ d. not (enabled_in st d)) ds b blocked in
        inr (b, ground (arith, on, blocked), on, m, ground (arith, off))
  ]
  | inr off ↦ inl (ground (arith, off), λ h. ground (arith, off, h))
]

-- What a pass over some modules does.
pub record PassKeeps (modules : Graph) (st : Statuses) : Type 0 where
  pub fewer : count_enabled (pass modules st).0 ≤ count_enabled st
  pub shrinks : (pass modules st).1 ≡ true → count_enabled (pass modules st).0 < count_enabled st
  pub keys : (id : Text) → is_some (lookup id (pass modules st).0) ≡ is_some (lookup id st)
  pub lowers : (id : Text) → enabled_in (pass modules st).0 id ≡ true → enabled_in st id ≡ true
  pub stable : (pass modules st).1 ≡ false → ((pass modules st).0 ≡ st) × All (Settled st) modules

enabled_in-assign :
    (id k : Text) (b : Text) (st : Statuses)
    → enabled_in (assign id (blocked_by b) st) k ≡ true
    → enabled_in st k ≡ true
enabled_in-assign id k b st h = ground (arith, h, lookup-assign id k (blocked_by b) st)

assign_keys :
    (id k : Text) (b : Text) (st : Statuses)
    → enabled_in st id ≡ true
    → is_some (lookup k (assign id (blocked_by b) st)) ≡ is_some (lookup k st)
assign_keys id k b st on =
    ground (arith, on, text_beq_iff id k, lookup-assign id k (blocked_by b) st)

pub pass-Keeps : (modules : Graph) (st : Statuses) → PassKeeps modules st
unfolding pass
pass-Keeps [] st = record {
  fewer = omega arith;
  shrinks = λ h. ground (arith, h);
  keys = λ id. refl;
  lowers = λ id h. h;
  stable = λ h. (refl, tt);
}
pass-Keeps ((id, ds) ∷ modules) st = elim (demote-cases id ds st) [
  | inl (e, settled) ↦
      let rest = pass-Keeps modules st in
      record {
        fewer = rw e rest.fewer;
        shrinks = rw e rest.shrinks;
        keys = rw e rest.keys;
        lowers = rw e rest.lowers;
        stable =
            rw e (λ h. let (same, all_settled) = rest.stable h in (same, (settled, all_settled)));
      }
  | inr (b, e, on, m, off) ↦
      let taken = assign id (blocked_by b) st in
      let rest = pass-Keeps modules taken in
      let fell = count_enabled-assign id (blocked_by b) st on refl in
      record {
        fewer = rw e (omega (arith, rest.fewer, fell));
        shrinks = rw e (λ h. omega (arith, rest.fewer, fell));
        keys = rw e (λ k. rest.keys k ∙ assign_keys id k b st on);
        lowers = rw e (λ k h. enabled_in-assign id k b st (rest.lowers k h));
        stable = rw e (λ h. ground (arith, h));
      }
]

-- A set of modules, each of them enabled at first and with its dependencies in the set, stays
-- enabled.
pub pass_spares {ℓ} :
    (P : Text → Type ℓ) (modules : Graph) (st : Statuses)
    → All (λ e. P e.0 → (d : Text) → contains e.1 d ≡ true → P d) modules
    → ((id : Text) → P id → enabled_in st id ≡ true)
    → (id : Text) → P id
    → enabled_in (pass modules st).0 id ≡ true
unfolding pass
pass_spares P [] st closed on k p = on k p
pass_spares P ((id, ds) ∷ modules) st closed on k p = elim (demote-cases id ds st) [
  | inl (e, settled) ↦ rw e (pass_spares P modules st closed.1 on k p)
  | inr (b, e, was_on, m, off) ↦ rw e (
      pass_spares P modules (assign id (blocked_by b) st) closed.1
        (λ j q. elim (Bool-cases (text_beq id j)) [
          | inl is ↦
              let blocked : enabled_in st b ≡ true =
                on b (closed.0 (subst P (sym ((text_beq_iff id j).0 is)) q) b m) in
              ground (arith, blocked, off)
          | inr other ↦ ground (arith, other, on j q, lookup-assign id j (blocked_by b) st)
        ])
        k p)
]

settle_again :
    (fuel : ℕ) (modules : Graph) (st : Statuses)
    → (pass modules st).1 ≡ true
    → settle (suc fuel) modules st ≡ settle fuel modules (pass modules st).0
unfolding settle
settle_again fuel modules st h = rw (h, settle)

settle_stops :
    (fuel : ℕ) (modules : Graph) (st : Statuses)
    → (pass modules st).1 ≡ false
    → settle (suc fuel) modules st ≡ some (pass modules st).0
unfolding settle
settle_stops fuel modules st h = rw (h, settle)

-- What the loop ends with.
pub record Ended (modules : Graph) (st st' : Statuses) : Type 0 where
  pub keys : (id : Text) → is_some (lookup id st') ≡ is_some (lookup id st)
  pub lowers : (id : Text) → enabled_in st' id ≡ true → enabled_in st id ≡ true
  pub settled : All (Settled st') modules

-- The loop ends: with more rounds than there are enabled modules it never runs out.
pub settle_ends :
    (fuel : ℕ) (modules : Graph) (st : Statuses)
    → count_enabled st < fuel
    → (st' : Statuses) × (settle fuel modules st ≡ some st') × Ended modules st st'
settle_ends zero modules st h = elim h [ ]
settle_ends (suc fuel) modules st h =
    let kept = pass-Keeps modules st in
    elim (Bool-cases (pass modules st).1) [
      | inl changed ↦
          let (st', e, ended) =
            settle_ends fuel modules (pass modules st).0 (omega (arith, kept.shrinks changed)) in
          (
            st',
            settle_again fuel modules st changed ∙ e,
            record {
              keys = λ id. ended.keys id ∙ kept.keys id;
              lowers = λ id on. kept.lowers id (ended.lowers id on);
              settled = ended.settled;
            },
          )
      | inr unchanged ↦
          let (same, all_settled) = kept.stable unchanged in
          (
            st,
            settle_stops fuel modules st unchanged ∙ ap some same,
            record { keys = λ id. refl; lowers = λ id on. on; settled = all_settled },
          )
    ]

pub settle_spares {ℓ} :
    (P : Text → Type ℓ) (fuel : ℕ) (modules : Graph) (st st' : Statuses)
    → All (λ e. P e.0 → (d : Text) → contains e.1 d ≡ true → P d) modules
    → ((id : Text) → P id → enabled_in st id ≡ true)
    → settle fuel modules st ≡ some st'
    → (id : Text) → P id
    → enabled_in st' id ≡ true
unfolding settle
settle_spares P zero modules st st' closed on e id p = ground (arith, e)
settle_spares P (suc fuel) modules st st' closed on e id p = elim (Bool-cases (pass modules st).1) [
  | inl changed ↦
      settle_spares P fuel modules (pass modules st).0 st' closed
        (pass_spares P modules st closed on) (sym (settle_again fuel modules st changed) ∙ e) id p
  | inr unchanged ↦
      subst (λ s. enabled_in s id ≡ true)
        (some_injective (sym (settle_stops fuel modules st unchanged) ∙ e))
        (pass_spares P modules st closed on id p)
]
