-- ===== src/Scans/Validation.antt =====
-- `validate_scan_job` of lifecycle.py: what a claimed scan must satisfy before it runs.
use web_security_audit_platf.Prelude.{
  String, Bool, true, false, not, ◌&&◌, ◌||◌, Option, none, some, str_eq, opt_str_eq, is_some,
  is_none, if◌then◌else◌, Result, raise_if, ◌>>◌,
}
use web_security_audit_platf.Contracts.{passive, active_demo, modern_web_crawl, ajax_short, repo}
use web_security_audit_platf.Scans.Scan.{Scan, SnapshotValue, missing, text, not_text, has_mode}
use web_security_audit_platf.Scans.Lease.{JobError, lifecycle_error}
use web_security_audit_platf.Scans.Progress.{is_truthy}

-- `snapshot.get(key) == value`, where None equals None.
abbrev pub snapshot_eq : SnapshotValue → Option String → Bool
snapshot_eq missing none = true
snapshot_eq missing (some s) = false
snapshot_eq (text t) none = false
snapshot_eq (text t) (some s) = str_eq t s
snapshot_eq not_text v = false

unfoldable pub validate_repository_scan : Scan → Result JobError (Unit {0})
validate_repository_scan scan = do
  raise_if (is_none scan.repository_workspace_id) (lifecycle_error none)
  raise_if (not (opt_str_eq (some scan.workspace_id) scan.repository_workspace_id))
      (lifecycle_error none)
  raise_if (not (is_truthy scan.repo_path_snapshot)) (lifecycle_error none)
  raise_if (not (snapshot_eq scan.authorization_snapshot.subject_type (some "repository_asset")))
      (lifecycle_error none)
  raise_if (not (snapshot_eq scan.authorization_snapshot.subject_id scan.repository_asset_id))
      (lifecycle_error none)
  raise_if (not (snapshot_eq scan.authorization_snapshot.relative_path scan.repo_path_snapshot))
      (lifecycle_error none)

unfoldable pub validate_web_scan : Scan → Result JobError (Unit {0})
validate_web_scan scan = do
  raise_if (is_none scan.target_workspace_id) (lifecycle_error none)
  raise_if (not (opt_str_eq (some scan.workspace_id) scan.target_workspace_id))
      (lifecycle_error none)
  raise_if (not (snapshot_eq scan.authorization_snapshot.subject_type (some "web_target")))
      (lifecycle_error none)
  raise_if (not (snapshot_eq scan.authorization_snapshot.subject_id scan.target_id))
      (lifecycle_error none)

unfoldable pub validate_scan_job : Scan → Result JobError (Unit {0})
validate_scan_job scan = do
  raise_if (has_mode ajax_short scan.mode) (lifecycle_error (some "retired_profile"))
  raise_if
      (not (
        has_mode passive scan.mode
        || has_mode active_demo scan.mode
        || has_mode modern_web_crawl scan.mode
        || has_mode repo scan.mode))
      (lifecycle_error none)
  raise_if (str_eq scan.created_by_user_id "") (lifecycle_error none)
  if has_mode repo scan.mode then validate_repository_scan scan else validate_web_scan scan
  raise_if (is_some scan.auth_profile_id && not (has_mode passive scan.mode)) (lifecycle_error none)
