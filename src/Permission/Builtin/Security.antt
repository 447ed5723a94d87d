-- ===== src/Permission/Builtin/Security.antt =====
-- The first-party policies of services/permission-gateway/src/ai_native_permissions/builtin.py
-- for security.
use linux_ai_native_system.Prelude.{true, false, [], ◌∷◌, codes}
use linux_ai_native_system.Permission.Contracts.{
  CapabilityPolicy, read_only, reversible_write, execute, prepare, commit,
}
use linux_ai_native_system.Permission.Builtin.Rules.{
  rule, all_local_transports, secure_write_transports, default_concurrency,
}

unfoldable pub security_module_status : CapabilityPolicy
security_module_status = record {
  capability_id = codes "security.module.status";
  risk = read_only;
  plan_approval_required = false;
  allowed_arguments = [];
  required_arguments = [];
  phases = (rule execute all_local_transports (codes "security.read-status" ∷ []) false) ∷ [];
  max_concurrency = default_concurrency;
  timeout_seconds = 5;
}

unfoldable pub security_files_scan : CapabilityPolicy
security_files_scan = record {
  capability_id = codes "security.files.scan";
  risk = read_only;
  plan_approval_required = false;
  allowed_arguments = codes "resource_id" ∷ codes "relative_path" ∷ [];
  required_arguments = codes "resource_id" ∷ codes "relative_path" ∷ [];
  phases =
      (rule execute all_local_transports
        (codes "filesystem.read-metadata"
          ∷ codes "filesystem.read-content"
          ∷ codes "security.write-findings"
          ∷ [])
        false)
      ∷ [];
  max_concurrency = 2;
  timeout_seconds = 30;
}

unfoldable pub security_scan_run : CapabilityPolicy
security_scan_run = record {
  capability_id = codes "security.scan.run";
  risk = read_only;
  plan_approval_required = false;
  allowed_arguments = codes "resource_id" ∷ codes "relative_path" ∷ codes "mode" ∷ [];
  required_arguments = codes "resource_id" ∷ codes "mode" ∷ [];
  phases =
      (rule execute all_local_transports
        (codes "filesystem.read-metadata"
          ∷ codes "filesystem.read-content"
          ∷ codes "security.write-findings"
          ∷ [])
        false)
      ∷ [];
  max_concurrency = 1;
  timeout_seconds = 60;
}

unfoldable pub security_findings_list : CapabilityPolicy
security_findings_list = record {
  capability_id = codes "security.findings.list";
  risk = read_only;
  plan_approval_required = false;
  allowed_arguments = codes "state" ∷ codes "limit" ∷ [];
  required_arguments = [];
  phases = (rule execute all_local_transports (codes "security.read-findings" ∷ []) false) ∷ [];
  max_concurrency = 2;
  timeout_seconds = 5;
}

unfoldable pub security_posture_scan : CapabilityPolicy
security_posture_scan = record {
  capability_id = codes "security.posture.scan";
  risk = read_only;
  plan_approval_required = false;
  allowed_arguments = [];
  required_arguments = [];
  phases = (rule execute all_local_transports (codes "security.read-posture" ∷ []) false) ∷ [];
  max_concurrency = 1;
  timeout_seconds = 30;
}

unfoldable pub security_quarantine_list : CapabilityPolicy
security_quarantine_list = record {
  capability_id = codes "security.quarantine.list";
  risk = read_only;
  plan_approval_required = false;
  allowed_arguments = codes "state" ∷ codes "limit" ∷ [];
  required_arguments = [];
  phases = (rule execute all_local_transports (codes "security.read-findings" ∷ []) false) ∷ [];
  max_concurrency = 4;
  timeout_seconds = 15;
}

unfoldable pub security_quarantine_prepare : CapabilityPolicy
security_quarantine_prepare = record {
  capability_id = codes "security.quarantine.prepare";
  risk = reversible_write;
  plan_approval_required = true;
  allowed_arguments = codes "finding_id" ∷ [];
  required_arguments = codes "finding_id" ∷ [];
  phases =
      (rule prepare secure_write_transports
        (codes "security.read-findings"
          ∷ codes "filesystem.read-metadata"
          ∷ codes "filesystem.read-content"
          ∷ [])
        false)
      ∷ [];
  max_concurrency = 1;
  timeout_seconds = 15;
}

unfoldable pub security_quarantine_commit : CapabilityPolicy
security_quarantine_commit = record {
  capability_id = codes "security.quarantine.commit";
  risk = reversible_write;
  plan_approval_required = true;
  allowed_arguments = codes "quarantine_id" ∷ [];
  required_arguments = codes "quarantine_id" ∷ [];
  phases =
      (rule commit secure_write_transports
        (codes "filesystem.read-metadata"
          ∷ codes "filesystem.read-content"
          ∷ codes "security.write-quarantine"
          ∷ [])
        true)
      ∷ [];
  max_concurrency = 1;
  timeout_seconds = 30;
}

unfoldable pub security_quarantine_restore : CapabilityPolicy
security_quarantine_restore = record {
  capability_id = codes "security.quarantine.restore";
  risk = reversible_write;
  plan_approval_required = true;
  allowed_arguments = codes "quarantine_id" ∷ [];
  required_arguments = codes "quarantine_id" ∷ [];
  phases =
      (rule commit secure_write_transports
        (codes "security.write-quarantine" ∷ codes "filesystem.write-content" ∷ []) true)
      ∷ [];
  max_concurrency = 1;
  timeout_seconds = 30;
}
