-- ===== src/Scans/Progress.antt =====
-- The writes of a running job: `update_scan_progress`, `mark_scan_failed` and their helpers in
-- lifecycle.py, on a row that is locked.
use web_security_audit_platf.Prelude.{
  ℕ, ◌+◌, String, Bool, true, false, Option, none, some, List, [], ◌∷◌, str_eq, mem_str,
  if◌then◌else◌,
}
use web_security_audit_platf.Contracts.{ScanStatus, ScanStep}
use web_security_audit_platf.Scans.Scan.{Scan, Settings}
use web_security_audit_platf.Scans.Lease.{
  JobError, lifecycle_error, scan_cancelled, scan_deadline_exceeded, scan_lease_lost,
  zap_client_spider_cancelled, other_error,
}

-- `elif scan.lease_owner:` is false for None and for "".
abbrev pub is_truthy : Option String → Bool
is_truthy none = false
is_truthy (some s) = if str_eq s "" then false else true

-- The arguments of one call of `update_scan_progress`.
pub record Progress : Type 0 where
  pub status : ScanStatus
  pub current_step : Option ScanStep
  pub progress_percent : ℕ
  pub started_at : Option ℕ
  pub completed_at : Option ℕ

abbrev pub or_else {ℓ} : {A : Type ℓ} → Option A → Option A → Option A
or_else none b = b
or_else (some a) b = some a

unfoldable pub set_progress : Settings → ℕ → Progress → Scan → Scan
set_progress settings now p scan =
    let written = record scan {
      status = p.status;
      current_step = p.current_step;
      progress_percent = p.progress_percent;
      started_at = or_else p.started_at scan.started_at;
    } in
    elim p.completed_at [
      | some t ↦ record written {
        completed_at = some t;
        lease_owner = none;
        lease_expires_at = none;
        lease_heartbeat_at = none;
      }
      | none ↦
          if is_truthy scan.lease_owner
          then record written {
            lease_heartbeat_at = some now;
            lease_expires_at = some (now + settings.worker_lease_seconds);
          }
          else written
    ]

-- `getattr(exc, "code", "scan_worker_failed")`
abbrev pub error_code : JobError → String
error_code (lifecycle_error (some c)) = c
error_code (lifecycle_error none) = "scan_worker_failed"
error_code scan_cancelled = "scan_worker_failed"
error_code scan_deadline_exceeded = "scan_deadline_exceeded"
error_code scan_lease_lost = "worker_interrupted"
error_code zap_client_spider_cancelled = "scan_worker_failed"
error_code (other_error (some c)) = c
error_code (other_error none) = "scan_worker_failed"

abbrev pub known_failure_codes : List String
known_failure_codes =
    "auth_profile_invalid" ∷ "client_spider_failed" ∷ "repo_limit_exceeded" ∷ "repo_staging_failed"
    ∷ "repo_tool_failed" ∷ "repo_tool_output_invalid" ∷ "repo_tool_timeout"
    ∷ "repo_tool_unavailable" ∷ "retired_profile" ∷ "scan_deadline_exceeded" ∷ "scan_worker_failed"
    ∷ "target_validation_failed" ∷ "worker_interrupted" ∷ []

-- The code that `mark_scan_failed` records.
unfoldable pub failure_code : JobError → String
failure_code exc =
    let code = error_code exc in
    if mem_str code known_failure_codes then code else "scan_worker_failed"
