-- ===== src/Capabilities/States/Runnable.antt =====
-- What `refresh_states` (registry.py of services/capability-registry) comes to: a module is enabled
-- exactly when it may run together with all that it depends on.
use linux_ai_native_system.Prelude.{
  suc, ◌≡◌, ◌↔◌, sym, subst, ◌∙◌, Bool, true, false, not, ◌&&◌, List, [], ◌∷◌, Option, none, some,
  is_some, Text, text_eq, text_beq, text_beq_iff, DistinctKeys, lookup, map_values,
  lookup-map_values, contains, contains-keys, contains-keep, length-map_values, lookup-entries,
  length, All, All-lookup, arith, Bool-cases, Option-cases, inl, inr,
}
use linux_ai_native_system.Capabilities.Contracts.{ModuleState, Row, Rows, is_enabled}
use linux_ai_native_system.Capabilities.Cycles.{targets}
use linux_ai_native_system.Capabilities.Cycles.Order.{DependsOn, Ordered, Marked}
use linux_ai_native_system.Capabilities.Cycles.Visits.{cycle_members_ends, keys}
use linux_ai_native_system.Capabilities.States.{
  Statuses, find_first, core_api_version, first_status, enabled_in, graph_of, write_back,
  refresh_states,
}
use linux_ai_native_system.Capabilities.States.Settling.{
  find_first-none, find_first-some, Settled, Ended, settle_ends, settle_spares, count_enabled-le,
}

-- A module that nothing of its own keeps from running.
abbrev pub eligible : Row → Bool
eligible row =
    row.manifest_valid
    && not row.is_quarantined
    && row.desired_enabled
    && text_beq row.manifest.core_api core_api_version

-- A module that may run: it is eligible, and each of its dependencies may run.
pub data Runnable (rows : Rows) : Text → Type 0 where
  runnable :
      {id : Text} (row : Row)
      → lookup id rows ≡ some row
      → eligible row ≡ true
      → ((d : Text) → contains row.manifest.dependencies d ≡ true → Runnable rows d)
      → Runnable rows id

-- the module is enabled in the table
abbrev pub is_enabled_in : Rows → Text → Bool
is_enabled_in rows id = elim (lookup id rows) [ none ↦ false | some row ↦ is_enabled row.state ]

graph_lookup :
    (rows : Rows) (id : Text) (row : Row)
    → lookup id rows ≡ some row
    → lookup id (graph_of rows) ≡ some row.manifest.dependencies
graph_lookup rows id row l =
    ground (arith, l, lookup-map_values (λ (_ : Text) (r : Row). r.manifest.dependencies) id rows)

-- A dependency of a module that is itself in the table is a node's target in the graph.
targets_dep :
    (rows : Rows) (id d : Text) (row : Row)
    → lookup id rows ≡ some row
    → contains row.manifest.dependencies d ≡ true
    → is_some (lookup d rows) ≡ true
    → DependsOn (graph_of rows) id d
unfolding targets
targets_dep rows id d row l m there = ground (
  arith,
  m,
  there,
  graph_lookup rows id row l,
  lookup-map_values (λ (_ : Text) (r : Row). r.manifest.dependencies) d rows,
  contains-keep (λ x. is_some (lookup x (graph_of rows))) row.manifest.dependencies d,
)

-- A target in the graph is a dependency of the module.
dep_of_target :
    (rows : Rows) (id d : Text) (row : Row)
    → lookup id rows ≡ some row
    → DependsOn (graph_of rows) id d
    → contains row.manifest.dependencies d ≡ true
unfolding targets
dep_of_target rows id d row l m = ground (
  arith,
  m,
  graph_lookup rows id row l,
  contains-keep (λ x. is_some (lookup x (graph_of rows))) row.manifest.dependencies d,
)

Runnable-deps :
    (rows : Rows) (id : Text) (row : Row)
    → lookup id rows ≡ some row
    → Runnable rows id
    → (d : Text) → contains row.manifest.dependencies d ≡ true
    → Runnable rows d
Runnable-deps rows id row l (runnable row' l' e deps) d m = deps d (ground (arith, l, l', m))

-- No module that may run is marked.
Runnable-unmarked :
    (rows : Rows) (cycles : List Text) (id : Text)
    → Marked (graph_of rows) cycles
    → Runnable rows id
    → contains cycles id ≡ false
Runnable-unmarked rows cycles id marked (runnable row l e deps) =
    elim (Bool-cases (contains cycles id)) [
      | inl on ↦
          let (d, edge, at) = marked id on in
          let off =
            Runnable-unmarked rows cycles d marked (deps d (dep_of_target rows id d row l edge)) in
          ground (arith, at, off)
      | inr off ↦ off
    ]

Runnable-there : (rows : Rows) (id : Text) → Runnable rows id → is_some (lookup id rows) ≡ true
Runnable-there rows id (runnable row l e deps) = ground (arith, l)

-- A module that may run is enabled at first.
first_enabled :
    (rows : Rows) (cycles : List Text) (id : Text)
    → Marked (graph_of rows) cycles
    → Runnable rows id
    → enabled_in (map_values (first_status cycles rows) rows) id ≡ true
unfolding first_status
first_enabled rows cycles id marked (runnable row l e deps) =
    let missing : Text → Bool = λ d. not (is_some (lookup d rows)) in
    let unmarked = Runnable-unmarked rows cycles id marked (runnable row l e deps) in
    elim (Option-cases (find_first missing row.manifest.dependencies)) [
      | inl none_missing ↦ ground (
        arith,
        l,
        e,
        unmarked,
        none_missing,
        lookup-map_values (first_status cycles rows) id rows,
      )
      | inr (d, found) ↦
          let (m, lacks) = find_first-some missing row.manifest.dependencies d found in
          ground (arith, lacks, Runnable-there rows d (deps d m))
    ]

-- A module that is enabled at first is eligible, unmarked, and has no dependency missing.
first_enabled_only :
    (rows : Rows) (cycles : List Text) (id : Text)
    → enabled_in (map_values (first_status cycles rows) rows) id ≡ true
    → (row : Row) × (lookup id rows ≡ some row)
      × (eligible row ≡ true)
      × (contains cycles id ≡ false)
      × ((d : Text) → contains row.manifest.dependencies d ≡ true → is_some (lookup d rows) ≡ true)
unfolding first_status
first_enabled_only rows cycles id h = elim (Option-cases (lookup id rows)) [
  | inl absent ↦ ground (arith, h, absent, lookup-map_values (first_status cycles rows) id rows)
  | inr (row, l) ↦
      let missing : Text → Bool = λ d. not (is_some (lookup d rows)) in
      let status : is_enabled (first_status cycles rows id row).state ≡ true =
        ground (arith, h, l, lookup-map_values (first_status cycles rows) id rows) in
      let all_there : find_first missing row.manifest.dependencies ≡ none =
        ground (arith, status) in
      (
        row,
        l,
        ground (arith, status),
        ground (arith, status),
        λ d m. ground (arith, find_first-none missing row.manifest.dependencies d all_there m),
      )
]

-- In an order with dependencies after their dependents each enabled module may run.
enabled_runs :
    (rows : Rows) (cycles : List Text) (st : Statuses) (order : List Text) (id : Text)
    → Ended (graph_of rows) (map_values (first_status cycles rows) rows) st
    → Ordered (graph_of rows) cycles order
    → contains order id ≡ true
    → enabled_in st id ≡ true
    → Runnable rows id
enabled_runs rows cycles st [] id ended o m on = ground (arith, m)
enabled_runs rows cycles st (u ∷ order) id ended o m on = elim (Bool-cases (text_beq u id)) [
  | inl is ↦
      let (row, l, e, unmarked, there) = first_enabled_only rows cycles id (ended.lowers id on) in
      runnable row l e (λ d dep.
        enabled_runs rows cycles st order d ended o.1
          (elim (o.0 d (
            subst (λ x. DependsOn (graph_of rows) x d) (sym ((text_beq_iff u id).0 is))
              (targets_dep rows id d row l dep (there d dep)))) [
                | inl later ↦ later
                | inr marked ↦ ground (arith, marked, unmarked, text_beq_iff u id)
              ])
          (All-lookup (Settled st) id row.manifest.dependencies (graph_of rows) ended.settled
            (graph_lookup rows id row l) on d dep))
  | inr other ↦ enabled_runs rows cycles st order id ended o.1 (ground (arith, m, other)) on
]

-- The table says what the loop ended with.
written :
    (rows : Rows) (cycles : List Text) (st : Statuses) (id : Text)
    → Ended (graph_of rows) (map_values (first_status cycles rows) rows) st
    → is_enabled_in (map_values (write_back st) rows) id ≡ enabled_in st id
written rows cycles st id ended = ground (
  arith,
  ended.keys id,
  lookup-map_values (write_back st) id rows,
  lookup-map_values (first_status cycles rows) id rows,
)

known :
    (rows : Rows) (cycles : List Text) (st : Statuses) (id : Text)
    → Ended (graph_of rows) (map_values (first_status cycles rows) rows) st
    → enabled_in st id ≡ true
    → contains (keys (graph_of rows)) id ≡ true
known rows cycles st id ended on = ground (
  arith,
  on,
  ended.keys id,
  contains-keys id (graph_of rows),
  lookup-map_values (λ (_ : Text) (r : Row). r.manifest.dependencies) id rows,
  lookup-map_values (first_status cycles rows) id rows,
)

-- The dependencies of a module that may run may run.
closed :
    (rows some_rows : Rows)
    → All (λ e. lookup e.0 rows ≡ some e.1) some_rows
    → All
        (λ e. Runnable rows e.0 → (d : Text) → contains e.1 d ≡ true → Runnable rows d)
        (graph_of some_rows)
closed rows [] a = tt
closed rows ((id, row) ∷ more) a = (Runnable-deps rows id row a.0, closed rows more a.1)

-- On a table without a repeated key `refresh_states` ends, and then a module is enabled exactly when it may run: its manifest
-- is valid and of this version of the core, it is wanted and not in quarantine, and each of its
-- dependencies may run.
pub refresh_states_refines :
    (rows : Rows)
    → DistinctKeys rows
    → (rows' : Rows) × (refresh_states rows ≡ some rows')
      × ((id : Text) → (is_enabled_in rows' id ≡ true) ↔ Runnable rows id)
unfolding refresh_states
refresh_states_refines rows distinct =
    let (cycles, e, found) = cycle_members_ends (graph_of rows) in
    let first = map_values (first_status cycles rows) rows in
    let (st, settles, ended) =
      settle_ends (suc (length rows)) (graph_of rows) first (
        omega (arith, count_enabled-le first, length-map_values (first_status cycles rows) rows)) in
    (
      map_values (write_back st) rows,
      ground (arith, e, settles),
      λ id. (
        λ on.
            enabled_runs rows cycles st found.order id ended found.ordered
              (found.complete id
                (known rows cycles st id ended (sym (written rows cycles st id ended) ∙ on)))
              (sym (written rows cycles st id ended) ∙ on),
        λ r.
            written rows cycles st id ended
            ∙ settle_spares (Runnable rows) (suc (length rows)) (graph_of rows) first st
                (closed rows rows (lookup-entries rows distinct))
                (λ k p. first_enabled rows cycles k found.marked p) settles id r,
      ),
    )

-- `refresh_states` writes states and reasons and nothing else.
pub refresh_states_keeps :
    (rows rows' : Rows) (id : Text) (row : Row)
    → refresh_states rows ≡ some rows'
    → lookup id rows ≡ some row
    → (s : ModuleState) × (reason : Option Text) × (lookup id rows'
        ≡ some (record row { state = s; state_reason = reason }))
unfolding refresh_states
refresh_states_keeps rows rows' id row h l =
    let (cycles, e, found) = cycle_members_ends (graph_of rows) in
    let first = map_values (first_status cycles rows) rows in
    let (st, settles, ended) =
      settle_ends (suc (length rows)) (graph_of rows) first (
        omega (arith, count_enabled-le first, length-map_values (first_status cycles rows) rows)) in
    let same : map_values (write_back st) rows ≡ rows' = ground (arith, h, e, settles) in
    elim (Option-cases (lookup id st)) [
      | inl none_there ↦ (
        row.state,
        row.state_reason,
        subst (λ x. lookup id x ≡ some row) same
            (ground (arith, l, none_there, lookup-map_values (write_back st) id rows)),
      )
      | inr (s, there) ↦ (
        s.state,
        s.reason,
        subst (λ x. lookup id x ≡ some (record row { state = s.state; state_reason = s.reason }))
            same (ground (arith, l, there, lookup-map_values (write_back st) id rows)),
      )
    ]
