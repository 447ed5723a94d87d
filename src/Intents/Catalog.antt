-- ===== src/Intents/Catalog.antt =====
-- `OperationCatalog` (services/intent-compiler/src/ai_native_intents/catalog.py), as far as planning
-- reads it.
use linux_ai_native_system.Prelude.{
  Bool, ◌||◌, List, [], ◌∷◌, map, Text, text_beq, Option, none, some, length, ltb, if◌then◌else◌,
}
use linux_ai_native_system.Permission.Contracts.{RiskLevel}
use linux_ai_native_system.Orchestrator.Plans.{is_nil, has_duplicates}

-- The fields of `OperationDefinition` that planning reads.
pub record OperationDefinition : Type 0 where
  pub operation : Text
  pub capability_id : Text
  pub risk : RiskLevel
  pub approval_required : Bool

-- `OperationCatalog.__init__`; `none` where it raises
unfoldable pub make_catalog : List OperationDefinition → Option (List OperationDefinition)
unfolding has_duplicates
make_catalog values =
    if is_nil values || ltb 128 (length values)
    then none
    else if has_duplicates (map (λ v. v.operation) values)
        || has_duplicates (map (λ v. v.capability_id) values)
    then none
    else some values

-- `OperationCatalog.operation`; `none` where it raises
unfoldable pub find_operation : Text → List OperationDefinition → Option OperationDefinition
find_operation name [] = none
find_operation name (v ∷ values) =
    let rest = find_operation name values in if text_beq v.operation name then some v else rest
