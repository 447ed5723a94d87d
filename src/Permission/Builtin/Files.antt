-- ===== src/Permission/Builtin/Files.antt =====
-- The first-party policies of services/permission-gateway/src/ai_native_permissions/builtin.py
-- for documents and files.
use linux_ai_native_system.Prelude.{true, false, [], ◌∷◌, codes}
use linux_ai_native_system.Permission.Contracts.{
  CapabilityPolicy, read_only, reversible_write, execute, prepare, commit,
}
use linux_ai_native_system.Permission.Builtin.Rules.{
  rule, all_local_transports, secure_write_transports,
}

unfoldable pub documents_query_search : CapabilityPolicy
documents_query_search = record {
  capability_id = codes "documents.query.search";
  risk = read_only;
  plan_approval_required = false;
  allowed_arguments =
      codes "mode"
      ∷ codes "text"
      ∷ codes "content_match"
      ∷ codes "name_terms"
      ∷ codes "extensions"
      ∷ codes "volume_ids"
      ∷ codes "sort_by"
      ∷ codes "limit"
      ∷ [];
  required_arguments = [];
  phases =
      (rule execute all_local_transports
        (codes "filesystem.read-metadata" ∷ codes "filesystem.read-content" ∷ []) false)
      ∷ [];
  max_concurrency = 4;
  timeout_seconds = 15;
}

unfoldable pub storage_materialize_plan_copy : CapabilityPolicy
storage_materialize_plan_copy = record {
  capability_id = codes "storage.materialize.plan-copy";
  risk = reversible_write;
  plan_approval_required = true;
  allowed_arguments = codes "results_from" ∷ codes "destination" ∷ codes "directory_name" ∷ [];
  required_arguments = codes "results_from" ∷ codes "destination" ∷ [];
  phases =
      (rule prepare all_local_transports
        (codes "filesystem.read-metadata" ∷ codes "filesystem.read-content" ∷ []) false)
      ∷ (rule commit secure_write_transports
          (codes "filesystem.read-content" ∷ codes "filesystem.write-content" ∷ []) true)
      ∷ [];
  max_concurrency = 1;
  timeout_seconds = 300;
}

unfoldable pub files_items_inspect : CapabilityPolicy
files_items_inspect = record {
  capability_id = codes "files.items.inspect";
  risk = read_only;
  plan_approval_required = false;
  allowed_arguments = codes "results_from" ∷ [];
  required_arguments = codes "results_from" ∷ [];
  phases = (rule execute all_local_transports (codes "filesystem.read-metadata" ∷ []) false) ∷ [];
  max_concurrency = 4;
  timeout_seconds = 10;
}

unfoldable pub files_directory_create : CapabilityPolicy
files_directory_create = record {
  capability_id = codes "files.directory.create";
  risk = reversible_write;
  plan_approval_required = true;
  allowed_arguments = codes "destination" ∷ codes "directory_name" ∷ [];
  required_arguments = codes "destination" ∷ codes "directory_name" ∷ [];
  phases =
      (rule prepare all_local_transports (codes "filesystem.read-metadata" ∷ []) false)
      ∷ (rule commit secure_write_transports (codes "filesystem.write-content" ∷ []) true)
      ∷ [];
  max_concurrency = 1;
  timeout_seconds = 30;
}

unfoldable pub files_items_move : CapabilityPolicy
files_items_move = record {
  capability_id = codes "files.items.move";
  risk = reversible_write;
  plan_approval_required = true;
  allowed_arguments =
      codes "results_from"
      ∷ codes "destination"
      ∷ codes "directory_name"
      ∷ codes "conflict_policy"
      ∷ [];
  required_arguments = codes "results_from" ∷ codes "destination" ∷ [];
  phases =
      (rule prepare all_local_transports
        (codes "filesystem.read-metadata" ∷ codes "filesystem.read-content" ∷ []) false)
      ∷ (rule commit secure_write_transports
          (codes "filesystem.read-content" ∷ codes "filesystem.write-content" ∷ []) true)
      ∷ [];
  max_concurrency = 1;
  timeout_seconds = 300;
}

unfoldable pub files_items_rename : CapabilityPolicy
files_items_rename = record {
  capability_id = codes "files.items.rename";
  risk = reversible_write;
  plan_approval_required = true;
  allowed_arguments = codes "results_from" ∷ codes "new_name" ∷ codes "conflict_policy" ∷ [];
  required_arguments = codes "results_from" ∷ codes "new_name" ∷ [];
  phases =
      (rule prepare all_local_transports (codes "filesystem.read-metadata" ∷ []) false)
      ∷ (rule commit secure_write_transports (codes "filesystem.write-content" ∷ []) true)
      ∷ [];
  max_concurrency = 1;
  timeout_seconds = 30;
}

unfoldable pub files_items_trash : CapabilityPolicy
files_items_trash = record {
  capability_id = codes "files.items.trash";
  risk = reversible_write;
  plan_approval_required = true;
  allowed_arguments = codes "results_from" ∷ [];
  required_arguments = codes "results_from" ∷ [];
  phases =
      (rule prepare all_local_transports (codes "filesystem.read-metadata" ∷ []) false)
      ∷ (rule commit secure_write_transports (codes "filesystem.write-content" ∷ []) true)
      ∷ [];
  max_concurrency = 1;
  timeout_seconds = 60;
}
