-- ===== src/Capabilities/Registry.antt =====
-- `CapabilityRegistry` (services/capability-registry/src/ai_native_capabilities/registry.py): the
-- methods that change the tables, each followed by `refresh_states`, and the queries. The manifests
-- on disk are what `load` says of a path; a stored manifest validates again.
pub mod Quarantine
use linux_ai_native_system.Prelude.{
  strip, sorted, ℕ, ◌+◌, Bool, true, false, not, ◌&&◌, ◌||◌, any, all, List, [], ◌∷◌, ◌++◌, map,
  Option, none, some, is_some, Text, text_eq, text_beq, codes, Dict, lookup, assign, keep,
  map_values, contains, length, ltb, if◌then◌else◌,
}
use linux_ai_native_system.Capabilities.Contracts.{
  ModuleState, installed, unavailable, ModuleManifest, Row, Rows, is_enabled,
}
use linux_ai_native_system.Capabilities.States.{refresh_states}

-- The tables `modules` and `module_capabilities`.
pub record Inventory : Type 0 where
  pub modules : Rows
  pub capabilities : List (Text × Text)

-- How a method that changes the tables ends.
pub data Outcome : Type 0 where
  updated : Inventory → Outcome
  unknown_module invalid_reason out_of_fuel : Outcome

abbrev refreshed : Inventory → Outcome
refreshed inv = elim (refresh_states inv.modules) [
  | none ↦ out_of_fuel
  | some rows ↦ updated (record inv { modules = rows })
]

-- `UPDATE modules SET … WHERE module_id = ?`, which must meet a row
abbrev on_row : Text → (Row → Row) → Inventory → Outcome
on_row id f inv = elim (lookup id inv.modules) [
  | none ↦ unknown_module
  | some row ↦ refreshed (record inv { modules = assign id (f row) inv.modules })
]

-- `set_enabled`
unfoldable pub set_enabled : Text → Bool → Inventory → Outcome
set_enabled id wanted =
    on_row id (λ row. record row { desired_enabled = wanted; user_configured = true })

-- `not text`
abbrev is_empty : Text → Bool
is_empty [] = true
is_empty (c ∷ cs) = false

-- `quarantine`
unfoldable pub quarantine : (ℕ → Bool) → Text → Text → Inventory → Outcome
unfolding strip
quarantine is_space id reason inv =
    let text = strip is_space reason in
    if is_empty text || ltb 500 (length text)
    then invalid_reason
    else on_row id (λ row. record row { is_quarantined = true; quarantine_reason = some text }) inv

-- `clear_quarantine`
unfoldable pub clear_quarantine : Text → Inventory → Outcome
clear_quarantine id =
    on_row id (λ row. record row { is_quarantined = false; quarantine_reason = none })

-- the row that `_upsert` inserts
abbrev new_row : ℕ → Text → ModuleManifest → Row
new_row now path manifest = record {
  manifest = manifest;
  manifest_path = path;
  manifest_valid = true;
  desired_enabled = manifest.default_enabled;
  user_configured = false;
  is_quarantined = false;
  quarantine_reason = none;
  state = installed;
  state_reason = none;
  last_seen_at = now;
}

-- `ON CONFLICT(module_id) DO UPDATE`: what the user decided stays, and so does a quarantine.
unfoldable pub updated_row : ℕ → Text → ModuleManifest → Row → Row
updated_row now path manifest row = record row {
  manifest = manifest;
  manifest_path = path;
  manifest_valid = true;
  desired_enabled = if row.user_configured then row.desired_enabled else manifest.default_enabled;
  state_reason = none;
  last_seen_at = now;
}

-- Another module has the path.
abbrev path_taken : Text → Text → Rows → Bool
path_taken path id rows = any (λ e. text_beq e.1.manifest_path path && not (text_beq e.0 id)) rows

-- `_upsert`: the new tables, and whether the module was there; `none` where it raises
unfoldable pub upsert : ℕ → Text → ModuleManifest → Inventory → Option (Inventory × Bool)
unfolding updated_row
upsert now path manifest inv =
    let id = manifest.module_id in
    if path_taken path id inv.modules
    then none
    else some (
      record {
        modules =
            assign id
              (elim (lookup id inv.modules) [
                | none ↦ new_row now path manifest
                | some row ↦ updated_row now path manifest row
              ])
              inv.modules;
        capabilities =
            keep (λ e. not (text_beq e.0 id)) inv.capabilities
            ++ map (λ c. (id, c)) manifest.capability_ids;
      },
      is_some (lookup id inv.modules),
    )

-- `_mark_invalid_path`
unfoldable pub mark_invalid_path : ℕ → Text → Text → Inventory → Inventory
mark_invalid_path now path error inv = record inv {
  modules =
      map_values
        (λ id row.
          if text_beq row.manifest_path path
          then record row {
            manifest_valid = false;
            state = unavailable;
            state_reason = some (codes "invalid_manifest:" ++ error);
            last_seen_at = now;
          }
          else row)
        inv.modules;
}

-- What `load_manifest` makes of a path: a manifest, or an error's text.
pub data Loaded : Type 0 where
  manifest : ModuleManifest → Loaded
  invalid : Text → Loaded

-- The counts of `SyncReport`, with the paths of its issues.
pub record SyncReport : Type 0 where
  pub registered : ℕ
  pub updates : ℕ
  pub issues : List Text

-- The variables of the loop of `sync`.
pub record Syncing : Type 0 where
  pub tables : Inventory
  pub report : SyncReport
  pub seen : List Text

abbrev with_issue : Text → Syncing → Syncing
with_issue path s = record s { report = record s.report { issues = s.report.issues ++ path ∷ [] } }

abbrev after_upsert : Text → Text → Syncing → Option (Inventory × Bool) → Syncing
after_upsert path id s none = with_issue path (record s { seen = id ∷ s.seen })
after_upsert path id s (some (tables, true)) = record s {
  tables = tables;
  report = record s.report { updates = s.report.updates + 1 };
  seen = id ∷ s.seen;
}
after_upsert path id s (some (tables, false)) = record s {
  tables = tables;
  report = record s.report { registered = s.report.registered + 1 };
  seen = id ∷ s.seen;
}

-- The body of the loop.
unfoldable pub sync_path : ℕ → Text → Loaded → Syncing → Syncing
unfolding upsert mark_invalid_path
sync_path now path (invalid error) s =
    with_issue path (record s { tables = mark_invalid_path now path error s.tables })
sync_path now path (manifest m) s =
    if contains s.seen m.module_id
    then with_issue path s
    else after_upsert path m.module_id s (upsert now path m s.tables)

unfoldable pub sync_paths : ℕ → (Text → Loaded) → List Text → Syncing → Syncing
unfolding sync_path
sync_paths now load [] s = s
sync_paths now load (path ∷ paths) s = sync_paths now load paths (sync_path now path (load path) s)

-- `sync` over the manifests that were found
unfoldable pub sync : ℕ → (Text → Loaded) → List Text → Inventory → Option (Inventory × SyncReport)
unfolding sync_paths
sync now load paths inv =
    let done = sync_paths now load paths (record {
      tables = inv;
      report = record { registered = 0; updates = 0; issues = [] };
      seen = [];
    }) in
    elim (refresh_states done.tables.modules) [
      | none ↦ none
      | some rows ↦ some (record done.tables { modules = rows }, done.report)
    ]

-- `m.state = 'enabled'` of the module of a row of `module_capabilities`
abbrev pub provided : Inventory → Text × Text → Bool
provided inv e = elim (lookup e.0 inv.modules) [ none ↦ false | some row ↦ is_enabled row.state ]

-- `providers(capability_id)`: the identifiers of the modules
unfoldable pub providers : Text → Inventory → List Text
unfolding sorted
providers capability_id inv =
    sorted
      (map (λ e. e.0) (keep (λ e. text_beq e.1 capability_id && provided inv e) inv.capabilities))
