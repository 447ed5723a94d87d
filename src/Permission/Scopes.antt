-- ===== src/Permission/Scopes.antt =====
-- `ScopeGrantStore` (services/permission-gateway/src/ai_native_permissions/gateway.py). Each
-- method body runs under the store's lock, so it is one step on the set of scopes.
pub mod Calls
use linux_ai_native_system.Prelude.{
  Bool, true, false, not, List, [], ◌∷◌, Text, text_eq, Option, none, some, any, to_set, union,
  difference, if◌then◌else◌,
}
use linux_ai_native_system.Permission.Identifiers.{is_capability_id}

-- The scopes of the store: `_scopes`.
abbrev pub Scopes : Type 0
Scopes = List Text

-- `_validate`: `none` where it raises `ValueError`
unfoldable pub validate_scopes : List Text → Option Scopes
validate_scopes scopes =
    let values = to_set scopes in
    if any (λ s. not (is_capability_id s)) values then none else some values

-- A call's new set, or `none` where it raises; a raising call leaves the store as it was.
unfoldable pub replace : List Text → Scopes → Option Scopes
unfolding validate_scopes
replace scopes current = validate_scopes scopes

unfoldable pub grant : List Text → Scopes → Option Scopes
unfolding validate_scopes
grant scopes current = elim (validate_scopes scopes) [
  | none ↦ none
  | some additions ↦ some (union current additions)
]

unfoldable pub revoke : List Text → Scopes → Option Scopes
unfolding validate_scopes
revoke scopes current = elim (validate_scopes scopes) [
  | none ↦ none
  | some removals ↦ some (difference current removals)
]

-- `ScopeGrantStore(scopes)`
unfoldable pub init : List Text → Option Scopes
unfolding replace
init scopes = replace scopes []
