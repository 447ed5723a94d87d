-- ===== src/Capabilities/Registry/Quarantine.antt =====
-- What a quarantine (registry.py of services/capability-registry) stops.
use linux_ai_native_system.Prelude.{
  strip, ℕ, ◌≡◌, sym, subst, Bool, true, false, some, Text, text_eq, text_beq_iff, DistinctKeys,
  lookup, assign, lookup-assign, assign-DistinctKeys, contains, Bool-cases, Option-cases, inl, inr,
  arith,
}
use linux_ai_native_system.Capabilities.Contracts.{Row, Rows}
use linux_ai_native_system.Capabilities.States.Runnable.{
  Runnable, runnable, is_enabled_in, refresh_states_refines,
}
use linux_ai_native_system.Capabilities.Registry.{Inventory, updated, quarantine}

-- The first module is the second, or depends on a module that relies on it.
pub data ReliesOn (rows : Rows) (id : Text) : Text → Type 0 where
  itself : ReliesOn rows id id
  through :
      {m d : Text} (row : Row)
      → lookup m rows ≡ some row
      → contains row.manifest.dependencies d ≡ true
      → ReliesOn rows id d
      → ReliesOn rows id m

-- the row with the quarantine set
abbrev put_away : Text → Row → Row
put_away reason row = record row { is_quarantined = true; quarantine_reason = some reason }

not_Runnable :
    (rows : Rows) (id reason : Text) (row : Row) {m : Text}
    → lookup id rows ≡ some row
    → ReliesOn rows id m
    → ¬ Runnable (assign id (put_away reason row) rows) m
not_Runnable rows id reason row l itself (runnable row' l' e deps) =
    ground (arith, e, l', lookup-assign id id (put_away reason row) rows, text_beq_iff id id)
not_Runnable rows id reason row {m} l (through {d} rm lm dep rest) (runnable row' l' e deps) =
    not_Runnable rows id reason row l rest (
      deps d (
        ground (
          arith,
          l,
          lm,
          l',
          dep,
          lookup-assign id m (put_away reason row) rows,
          text_beq_iff id m,
        )))

-- After a quarantine in a table without a repeated key neither the module nor any module that relies on it, through however many
-- others, is enabled.
pub quarantine_stops :
    (is_space : ℕ → Bool) (id reason m : Text) (inv inv' : Inventory)
    → DistinctKeys inv.modules
    → quarantine is_space id reason inv ≡ updated inv'
    → ReliesOn inv.modules id m
    → is_enabled_in inv'.modules m ≡ false
unfolding quarantine
quarantine_stops is_space id reason m inv inv' distinct h r =
    elim (Option-cases (lookup id inv.modules)) [
      | inl absent ↦ ground (arith, h, absent)
      | inr (row, l) ↦
          let away = put_away (strip is_space reason) row in
          let rows = assign id away inv.modules in
          let (rows', e, runs) =
            refresh_states_refines rows (assign-DistinctKeys id away inv.modules distinct) in
          let same : rows' ≡ inv'.modules = ground (arith, h, l, e) in
          elim (Bool-cases (is_enabled_in inv'.modules m)) [
            | inl on ↦ absurd (
                not_Runnable inv.modules id (strip is_space reason) row l r
                  ((runs m).0 (subst (λ x. is_enabled_in x m ≡ true) (sym same) on)))
            | inr off ↦ off
          ]
    ]
