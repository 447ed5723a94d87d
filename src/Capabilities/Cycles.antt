-- ===== src/Capabilities/Cycles.antt =====
-- `CapabilityRegistry._cycle_members`
-- (services/capability-registry/src/ai_native_capabilities/registry.py): a depth-first search for
-- modules that depend on themselves. The nested function `visit` takes fuel for its depth; `none`
-- means that the fuel ran out.
pub mod Order
pub mod Visits
use linux_ai_native_system.Prelude.{
  ℕ, zero, suc, ◌+◌, Bool, true, false, List, [], ◌∷◌, ◌++◌, map, Option, none, some, is_some, Text,
  text_eq, Dict, lookup, keep, contains, length, ◌==◌, if◌then◌else◌,
}

-- the dependencies of each module
abbrev pub Graph : Type 0
Graph = Dict Text (List Text)

-- The variables of `_cycle_members`. `active` has the newest node first, and `active_set` holds the
-- same nodes.
pub record Search : Type 0 where
  pub visited : List Text
  pub active : List Text
  pub cycles : List Text

-- the dependencies of a node that are nodes
unfoldable pub targets : Graph → Text → List Text
targets g node = elim (lookup node g) [ none ↦ [] | some ds ↦ keep (λ d. is_some (lookup d g)) ds ]

-- `active[active.index(node):]`, the newest node first
unfoldable pub from_node : Text → List Text → List Text
from_node node [] = []
from_node node (u ∷ active) =
    let older = from_node node active in if u == node then u ∷ [] else u ∷ older

-- `for dependency in …: visit(dependency)`
unfoldable pub visit_each : (Text → Search → Option Search) → List Text → Search → Option Search
visit_each visit [] s = some s
visit_each visit (d ∷ ds) s = elim (visit d s) [ none ↦ none | some t ↦ visit_each visit ds t ]

-- `active.pop(); active_set.remove(node); visited.add(node)`
abbrev pub leave : Text → Search → Search
leave node t = record t {
  active = elim t.active [ [] ↦ [] | u ∷ older ↦ older ];
  visited = node ∷ t.visited;
}

unfoldable pub visit : ℕ → Graph → Text → Search → Option Search
unfolding visit_each targets from_node
visit zero g node s = none
visit (suc fuel) g node s = elim (contains s.active node) [
  | true ↦ some (record s { cycles = from_node node s.active ++ s.cycles })
  | false ↦ elim (contains s.visited node) [
    | true ↦ some s
    | false ↦
        elim (visit_each (visit fuel g) (targets g node) (record s { active = node ∷ s.active })) [
          | none ↦ none
          | some t ↦ some (leave node t)
        ]
  ]
]

abbrev pub start : Search
start = record { visited = []; active = []; cycles = [] }

-- `_cycle_members`
unfoldable pub cycle_members : Graph → Option (List Text)
unfolding visit
cycle_members g = elim (visit_each (visit (suc (length g)) g) (map (λ e. e.0) g) start) [
  | none ↦ none
  | some s ↦ some s.cycles
]
