-- ===== src/Permission/Builtin.antt =====
-- `builtin_policies` of services/permission-gateway/src/ai_native_permissions/builtin.py.
pub mod Rules
pub mod Files
pub mod Software
pub mod Security
pub mod Guards
use linux_ai_native_system.Prelude.{List, [], ◌∷◌}
use linux_ai_native_system.Permission.Contracts.{CapabilityPolicy}
use linux_ai_native_system.Permission.Builtin.Files.{
  documents_query_search, storage_materialize_plan_copy, files_items_inspect,
  files_directory_create, files_items_move, files_items_rename, files_items_trash,
}
use linux_ai_native_system.Permission.Builtin.Software.{
  software_install_prepare, software_install_commit, software_remove_prepare,
  software_remove_commit, software_tasks_control, software_backup_restore,
}
use linux_ai_native_system.Permission.Builtin.Security.{
  security_module_status, security_files_scan, security_scan_run, security_findings_list,
  security_posture_scan, security_quarantine_list, security_quarantine_prepare,
  security_quarantine_commit, security_quarantine_restore,
}

unfoldable pub builtin_policies : List CapabilityPolicy
unfolding documents_query_search storage_materialize_plan_copy files_items_inspect
    files_directory_create files_items_move files_items_rename files_items_trash
    software_install_prepare software_install_commit software_remove_prepare software_remove_commit
    software_tasks_control software_backup_restore security_module_status security_files_scan
    security_scan_run security_findings_list security_posture_scan security_quarantine_list
    security_quarantine_prepare security_quarantine_commit security_quarantine_restore
builtin_policies =
    documents_query_search ∷ storage_materialize_plan_copy ∷ files_items_inspect
    ∷ files_directory_create ∷ files_items_move ∷ files_items_rename ∷ files_items_trash
    ∷ software_install_prepare ∷ software_install_commit ∷ software_remove_prepare
    ∷ software_remove_commit ∷ software_tasks_control ∷ software_backup_restore
    ∷ security_module_status ∷ security_files_scan ∷ security_scan_run ∷ security_findings_list
    ∷ security_posture_scan ∷ security_quarantine_list ∷ security_quarantine_prepare
    ∷ security_quarantine_commit ∷ security_quarantine_restore ∷ []
