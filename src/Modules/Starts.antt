-- ===== src/Modules/Starts.antt =====
-- The start of an enabled module (manager.py of services/module-manager) ends, and runs into no
-- other obstacle than a worker that does not become ready.
use linux_ai_native_system.Prelude.{
  ℕ, zero, suc, ◌+◌, ◌≤◌, ◌≡◌, refl, sym, subst, true, false, List, [], ◌∷◌, Option, some, Text,
  text_eq, text_beq_iff, DistinctKeys, lookup, contains, Bool-cases, inl, inr, arith,
}
use linux_ai_native_system.Capabilities.Contracts.{Row, Rows, is_enabled}
use linux_ai_native_system.Capabilities.States.{refresh_states}
use linux_ai_native_system.Capabilities.States.Runnable.{
  Runnable, runnable, is_enabled_in, refresh_states_refines, refresh_states_keeps,
}
use linux_ai_native_system.Modules.{started, start_each, launch, start}
use linux_ai_native_system.Modules.Launching.{
  Closed, Launches, LaunchesAll, Grows-same, one_more, launch_lem,
}

-- enough fuel for the module, whatever runs
abbrev Enough : Rows → (Text → Option Text) → ℕ → Text → Type 0
Enough rows boot n id =
    (fuel : ℕ) (running : List Text)
    → n ≤ fuel
    → Closed rows running
    → Launches rows boot running id (start fuel rows boot id running)

start_each_all :
    (rows : Rows) (boot : Text → Option Text) (ds : List Text)
    → ((d : Text) → contains ds d ≡ true → (n : ℕ) × Enough rows boot n d)
    → (n : ℕ) × ((fuel : ℕ) (running : List Text)
        → n ≤ fuel
        → Closed rows running
        → LaunchesAll rows boot running ds (start_each (start fuel rows boot) ds running))
unfolding start_each
start_each_all rows boot [] each =
    (0, λ fuel running h c. (λ d m. ground (arith, m), Grows-same rows boot running c))
start_each_all rows boot (d ∷ ds) each =
    let (n, first) = each d (ground (arith, text_beq_iff d d)) in
    let (k, rest) = start_each_all rows boot ds (λ x m. each x (ground (arith, m))) in
    (
      n + k,
      λ fuel running h c.
          one_more rows boot d ds running (start fuel rows boot) (start fuel rows boot d running)
            (first fuel running (omega arith) c) (λ now c'. rest fuel now (omega arith) c'),
    )

start_now :
    (rows : Rows) (boot : Text → Option Text) (fuel : ℕ) (id : Text) (running : List Text)
    → contains running id ≡ true
    → start (suc fuel) rows boot id running ≡ started running
unfolding start
start_now rows boot fuel id running h = ground (arith, h)

start_enabled :
    (rows : Rows) (boot : Text → Option Text) (fuel : ℕ) (id : Text) (running : List Text)
    (row : Row)
    → contains running id ≡ false
    → lookup id rows ≡ some row
    → is_enabled row.state ≡ true
    → start (suc fuel) rows boot id running
      ≡ launch id (boot id) (start_each (start fuel rows boot) row.manifest.dependencies running)
unfolding start
start_enabled rows boot fuel id running row h l on = ground (arith, h, l, on)

Enough-suc :
    (rows : Rows) (boot : Text → Option Text) (k : ℕ) (id : Text) (row : Row)
    → lookup id rows ≡ some row
    → is_enabled row.state ≡ true
    → ((fuel : ℕ) (running : List Text)
        → k ≤ fuel
        → Closed rows running
        → LaunchesAll rows boot running row.manifest.dependencies
            (start_each (start fuel rows boot) row.manifest.dependencies running))
    → Enough rows boot (suc k) id
Enough-suc rows boot k id row l on all zero running h c = absurd (omega arith)
Enough-suc rows boot k id row l on all (suc fuel) running h c =
    elim (Bool-cases (contains running id)) [
      | inl runs ↦
          subst (Launches rows boot running id) (sym (start_now rows boot fuel id running runs))
            (runs, Grows-same rows boot running c)
      | inr new ↦
          subst (Launches rows boot running id)
            (sym (start_enabled rows boot fuel id running row new l on))
            (launch_lem rows boot running id row (boot id) _ l refl
              (all fuel running (omega arith) c))
    ]

Runnable-starts :
    (rows rows' : Rows) (boot : Text → Option Text) (id : Text)
    → refresh_states rows ≡ some rows'
    → ((m : Text) → Runnable rows m → is_enabled_in rows' m ≡ true)
    → Runnable rows id
    → (n : ℕ) × Enough rows' boot n id
Runnable-starts rows rows' boot id h on (runnable row l e deps) =
    let (s, reason, l') = refresh_states_keeps rows rows' id row h l in
    let row' = record row { state = s; state_reason = reason } in
    let is_on : is_enabled s ≡ true = ground (arith, on id (runnable row l e deps), l') in
    let (k, all) =
      start_each_all rows' boot row.manifest.dependencies
        (λ d m. Runnable-starts rows rows' boot d h on (deps d m)) in
    (suc k, Enough-suc rows' boot k id row' l' is_on all)

-- In a registry without a repeated key whose states are fresh the start of an enabled module ends,
-- whichever modules run already with their dependencies: from some depth on, either the module runs
-- in the end, or the failure of a worker is reported with the error that this worker gave. No
-- module is met that is unknown or not enabled; what ran still runs, each module that was started
-- has a worker that became ready, and with each module that runs its dependencies run.
pub start_ends :
    (rows rows' : Rows) (boot : Text → Option Text) (id : Text) (running : List Text)
    → DistinctKeys rows
    → refresh_states rows ≡ some rows'
    → is_enabled_in rows' id ≡ true
    → Closed rows' running
    → (n : ℕ) × ((extra : ℕ)
        → Launches rows' boot running id (start (n + extra) rows' boot id running))
start_ends rows rows' boot id running distinct h on closed =
    let (fresh, e, runs) = refresh_states_refines rows distinct in
    let same : fresh ≡ rows' = ground (arith, h, e) in
    let (n, enough) =
      Runnable-starts rows rows' boot id h
        (λ m r. subst (λ x. is_enabled_in x m ≡ true) same ((runs m).1 r))
        ((runs id).0 (subst (λ x. is_enabled_in x id ≡ true) (sym same) on)) in
    (n, λ extra. enough (n + extra) running (omega arith) closed)
