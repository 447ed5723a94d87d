-- ===== src/Ledger/Startup/Passes.antt =====
-- What the passes over all tasks do to each row.
use linux_ai_native_system.Prelude.{
  ℕ, ◌≡◌, refl, not, [], ◌∷◌, Text, text_eq, none, some, keep, lookup, Dict, DistinctKeys, contains,
  arith, true, List, ◌<◌, ◌↔◌, ◌⊎◌, text_beq, text_beq_iff, Option-cases, if◌then◌else◌,
  lookup-keep, lookup-keep-none, contains-keys, Bool-cases, inl, inr, keep-DistinctKeys,
}
use linux_ai_native_system.Ledger.Contracts.{
  state_eq, is_terminal, Task, EventRow, Reference, Database,
}
use linux_ai_native_system.Ledger.Startup.{
  is_abandoned, recover_row, recover_rows, recover_after_restart, is_expired, expired_ids,
  purge_expired,
}

lookup-recover_rows-some :
    (now : ℕ) (id : Text) (t : Task) (rows : Dict Text Task)
    → lookup id rows ≡ some t
    → lookup id (recover_rows now rows) ≡ some (recover_row now t)
unfolding recover_rows
lookup-recover_rows-some now id t [] h = cc
lookup-recover_rows-some now id t ((j, u) ∷ rows) h =
    ground (arith, lookup-recover_rows-some now id t rows)

lookup-recover_rows-none :
    (now : ℕ) (id : Text) (rows : Dict Text Task)
    → lookup id rows ≡ none
    → lookup id (recover_rows now rows) ≡ none
unfolding recover_rows
lookup-recover_rows-none now id [] h = refl
lookup-recover_rows-none now id ((j, u) ∷ rows) h =
    ground (arith, lookup-recover_rows-none now id rows)

recover_rows-DistinctKeys :
    (now : ℕ) (rows : Dict Text Task) → DistinctKeys rows → DistinctKeys (recover_rows now rows)
unfolding recover_rows
recover_rows-DistinctKeys now [] h = tt
recover_rows-DistinctKeys now ((j, u) ∷ rows) h =
    (lookup-recover_rows-none now j rows h.0, recover_rows-DistinctKeys now rows h.1)

module _ (now : ℕ) (db : Database) where
  pub recover_some :
      (id : Text) (t : Task)
      → lookup id db.tasks ≡ some t
      → lookup id (recover_after_restart now db).0.tasks ≡ some (recover_row now t)
  unfolding recover_after_restart
  recover_some id t h = lookup-recover_rows-some now id t db.tasks h

  pub recover_none :
      (id : Text)
      → lookup id db.tasks ≡ none
      → lookup id (recover_after_restart now db).0.tasks ≡ none
  unfolding recover_after_restart
  recover_none id h = lookup-recover_rows-none now id db.tasks h

  pub recover-DistinctKeys :
      DistinctKeys db.tasks → DistinctKeys (recover_after_restart now db).0.tasks
  unfolding recover_after_restart
  recover-DistinctKeys h = recover_rows-DistinctKeys now db.tasks h

-- The recovery reports exactly the abandoned tasks.
pub recover_reports :
    (now : ℕ) (db : Database)
    → DistinctKeys db.tasks
    → (id : Text) (t : Task) → lookup id db.tasks ≡ some t
    → contains (recover_after_restart now db).1 id ≡ is_abandoned t
unfolding recover_after_restart
recover_reports now db keys id t l = elim (Bool-cases (is_abandoned t)) [
  | inl h ↦ ground (
    arith,
    contains-keys id (keep (λ e. is_abandoned e.1) db.tasks),
    lookup-keep (λ e. is_abandoned e.1) id t db.tasks keys l,
  )
  | inr h ↦ ground (
    arith,
    contains-keys id (keep (λ e. is_abandoned e.1) db.tasks),
    lookup-keep (λ e. is_abandoned e.1) id t db.tasks keys l,
  )
]

-- the rows of one task among those that a cascade leaves
cascade :
    {A : Type 0} (owner : A → Text) (gone : List Text) (id : Text) (rows : List A)
    → keep (λ r. text_beq (owner r) id) (keep (λ r. not (contains gone (owner r))) rows)
      ≡ (if contains gone id then [] else keep (λ r. text_beq (owner r) id) rows)
cascade owner gone id [] = elim (Bool-cases (contains gone id)) [
  | inl h ↦ ground (arith, h)
  | inr h ↦ ground (arith, h)
]
cascade owner gone id (r ∷ rows) =
    ground (arith, cascade owner gone id rows, text_beq_iff (owner r) id)

-- a final state, and an end before the cutoff
abbrev pub IsOld : ℕ → Task → Type 0
IsOld cutoff t =
    (is_terminal t.state ≡ true) × ((at : ℕ) × (t.finished_at ≡ some at) × (at < cutoff))

is_expired-IsOld : (cutoff : ℕ) (t : Task) → (is_expired cutoff t ≡ true) ↔ IsOld cutoff t
unfolding is_expired
is_expired-IsOld cutoff t = elim (Option-cases t.finished_at) [
  | inl running ↦ (λ h. ground (arith, h), λ h. ground (arith, h))
  | inr (at, e) ↦ (λ h. (ground (arith, h), (at, e, ground (arith, h))), λ h. ground (arith, h))
]

module _ (cutoff : ℕ) (db : Database) (keys : DistinctKeys db.tasks) where
  pub lookup-purge :
      (id : Text) (t : Task)
      → lookup id db.tasks ≡ some t
      → lookup id (purge_expired cutoff db).0.tasks ≡ (if is_expired cutoff t then none else some t)
  unfolding purge_expired
  lookup-purge id t h =
      ground (arith, lookup-keep (λ e. not (is_expired cutoff e.1)) id t db.tasks keys h)

  pub purge-DistinctKeys : DistinctKeys (purge_expired cutoff db).0.tasks
  unfolding purge_expired
  purge-DistinctKeys = keep-DistinctKeys (λ e. not (is_expired cutoff e.1)) db.tasks keys

  pub lookup-purge_none :
      (id : Text) → lookup id db.tasks ≡ none → lookup id (purge_expired cutoff db).0.tasks ≡ none
  unfolding purge_expired
  lookup-purge_none id h = lookup-keep-none (λ e. not (is_expired cutoff e.1)) id db.tasks h

  contains-expired_ids :
      (id : Text) (t : Task)
      → lookup id db.tasks ≡ some t
      → contains (expired_ids cutoff db.tasks) id ≡ is_expired cutoff t
  unfolding expired_ids
  contains-expired_ids id t l = ground (
    arith,
    contains-keys id (keep (λ e. is_expired cutoff e.1) db.tasks),
    lookup-keep (λ e. is_expired cutoff e.1) id t db.tasks keys l,
  )

  -- A purge deletes the row of a task exactly when the task is in a final state and ended before
  -- the cutoff; otherwise it leaves the row as it is. With the row go all events and all references
  -- of the task, and those of a task that stays are kept, in their order.
  pub purge_expired_lem :
      (id : Text) (t : Task)
      → lookup id db.tasks ≡ some t
      → let after = (purge_expired cutoff db).0 in
        ((IsOld cutoff t
            × (lookup id after.tasks ≡ none)
            × (keep (λ r. text_beq r.task_id id) after.events ≡ [])
            × (keep (λ r. text_beq r.task_id id) after.references ≡ []))
          ⊎ ((¬ IsOld cutoff t)
              × (lookup id after.tasks ≡ some t)
              × (keep (λ r. text_beq r.task_id id) after.events
                  ≡ keep (λ r. text_beq r.task_id id) db.events)
              × (keep (λ r. text_beq r.task_id id) after.references
                  ≡ keep (λ r. text_beq r.task_id id) db.references)))
  unfolding purge_expired
  purge_expired_lem id t l =
      let row = lookup-purge id t l in
      let gone = contains-expired_ids id t l in
      let events =
        cascade (λ (r : EventRow). r.task_id) (expired_ids cutoff db.tasks) id db.events in
      let references =
        cascade (λ (r : Reference). r.task_id) (expired_ids cutoff db.tasks) id db.references in
      elim (Bool-cases (is_expired cutoff t)) [
        | inl old ↦ inl (
          (is_expired-IsOld cutoff t).0 old,
          ground (arith, row),
          ground (arith, events, gone),
          ground (arith, references, gone),
        )
        | inr recent ↦ inr (
          λ o. (let b = (is_expired-IsOld cutoff t).1 o in ground arith),
          ground (arith, row),
          ground (arith, events, gone),
          ground (arith, references, gone),
        )
      ]
