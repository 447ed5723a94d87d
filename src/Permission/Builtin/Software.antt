-- ===== src/Permission/Builtin/Software.antt =====
-- The first-party policies of services/permission-gateway/src/ai_native_permissions/builtin.py
-- for software.
use linux_ai_native_system.Prelude.{true, false, [], ◌∷◌, codes}
use linux_ai_native_system.Permission.Contracts.{
  CapabilityPolicy, reversible_write, privileged, execute, prepare, commit,
}
use linux_ai_native_system.Permission.Builtin.Rules.{
  rule, secure_write_transports, default_concurrency,
}

unfoldable pub software_install_prepare : CapabilityPolicy
software_install_prepare = record {
  capability_id = codes "software.install.prepare";
  risk = reversible_write;
  plan_approval_required = true;
  allowed_arguments =
      codes "application_id"
      ∷ codes "locale"
      ∷ codes "install_location"
      ∷ codes "selected_options"
      ∷ [];
  required_arguments = codes "application_id" ∷ [];
  phases = (rule prepare secure_write_transports (codes "software.manage" ∷ []) false) ∷ [];
  max_concurrency = default_concurrency;
  timeout_seconds = 15;
}

unfoldable pub software_install_commit : CapabilityPolicy
software_install_commit = record {
  capability_id = codes "software.install.commit";
  risk = privileged;
  plan_approval_required = true;
  allowed_arguments = codes "task_id" ∷ [];
  required_arguments = codes "task_id" ∷ [];
  phases = (rule commit secure_write_transports (codes "software.manage" ∷ []) true) ∷ [];
  max_concurrency = default_concurrency;
  timeout_seconds = 60;
}

unfoldable pub software_remove_prepare : CapabilityPolicy
software_remove_prepare = record {
  capability_id = codes "software.remove.prepare";
  risk = reversible_write;
  plan_approval_required = true;
  allowed_arguments = codes "application_id" ∷ codes "create_backup" ∷ [];
  required_arguments = codes "application_id" ∷ codes "create_backup" ∷ [];
  phases = (rule prepare secure_write_transports (codes "software.manage" ∷ []) false) ∷ [];
  max_concurrency = default_concurrency;
  timeout_seconds = 15;
}

unfoldable pub software_remove_commit : CapabilityPolicy
software_remove_commit = record {
  capability_id = codes "software.remove.commit";
  risk = privileged;
  plan_approval_required = true;
  allowed_arguments = codes "task_id" ∷ codes "final_confirmation" ∷ [];
  required_arguments = codes "task_id" ∷ codes "final_confirmation" ∷ [];
  phases = (rule commit secure_write_transports (codes "software.manage" ∷ []) true) ∷ [];
  max_concurrency = default_concurrency;
  timeout_seconds = 60;
}

unfoldable pub software_tasks_control : CapabilityPolicy
software_tasks_control = record {
  capability_id = codes "software.tasks.control";
  risk = reversible_write;
  plan_approval_required = false;
  allowed_arguments = codes "task_id" ∷ codes "action" ∷ [];
  required_arguments = codes "task_id" ∷ codes "action" ∷ [];
  phases = (rule execute secure_write_transports (codes "software.manage" ∷ []) false) ∷ [];
  max_concurrency = default_concurrency;
  timeout_seconds = 60;
}

unfoldable pub software_backup_restore : CapabilityPolicy
software_backup_restore = record {
  capability_id = codes "software.backup.restore";
  risk = privileged;
  plan_approval_required = true;
  allowed_arguments = codes "backup_id" ∷ [];
  required_arguments = codes "backup_id" ∷ [];
  phases = (rule commit secure_write_transports (codes "software.manage" ∷ []) true) ∷ [];
  max_concurrency = default_concurrency;
  timeout_seconds = 60;
}
