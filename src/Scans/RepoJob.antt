-- ===== src/Scans/RepoJob.antt =====
-- `run_repo_scan_job` of lifecycle.py.
use web_security_audit_platf.Prelude.{String, not, Option, none, List, Result, raise_if}
use web_security_audit_platf.Contracts.{
  repo, validating, running, normalizing, target_validation, repo_secrets_scan,
  repo_dependency_scan, normalizing_findings,
}
use web_security_audit_platf.Findings.{NormalizedFindingInput, ToolReceipt}
use web_security_audit_platf.Scans.Scan.{Settings, has_mode}
use web_security_audit_platf.Scans.Lease.{
  JobError, lifecycle_error, scan_cancelled, scan_lease_lost,
}
use web_security_audit_platf.Scans.Validation.{validate_scan_job}
use web_security_audit_platf.Scans.World.{Exec, pure, lift, catch, ◌>>=◌, ◌>>◌, get_scan}
use web_security_audit_platf.Scans.Steps.{persist_tool_receipts}
use web_security_audit_platf.Scans.JobParts.{
  Tool, stage, is_nonempty, checkpoint, run_tool, update, record_results, fail_job,
}

pub record RepoScanResult : Type 0 where
  pub findings : List NormalizedFindingInput
  pub receipts : List ToolReceipt
  pub warning_codes : List String

-- What the job calls outside lifecycle.py, by its outcome.
pub record RepoTools : Type 0 where
  pub resolve_path : Option String → Result JobError (Unit {0})
  pub artifact_dir : Result JobError (Unit {0})
  pub staging : Result JobError (Unit {0})
  pub scanners : Tool RepoScanResult
  pub persist : Result JobError (Unit {0})
  pub risk : Result JobError (Unit {0})

module _ (settings : Settings) (expected : Option String) (tools : RepoTools) where
  unfoldable pub repo_prepare : Exec (Unit {0})
  repo_prepare = do
    scan ← get_scan
    lift (validate_scan_job scan)
    checkpoint settings expected
    lift (raise_if (not (has_mode repo scan.mode)) (lifecycle_error none))
    update settings expected (stage validating target_validation 10)
    checkpoint settings expected
    lift (tools.resolve_path scan.repo_path_snapshot)
    lift tools.artifact_dir

  unfoldable pub repo_scan : Exec RepoScanResult
  repo_scan = do
    update settings expected (stage running repo_secrets_scan 35)
    lift tools.staging
    checkpoint settings expected
    result ← run_tool settings expected tools.scanners
    checkpoint settings expected
    pure result

  unfoldable pub repo_record : RepoScanResult → Exec (Unit {0})
  repo_record result = do
    update settings expected (stage running repo_dependency_scan 65)
    persist_tool_receipts settings expected result.receipts
    update settings expected (stage normalizing normalizing_findings 85)
    record_results settings expected tools.persist tools.risk result.findings
        (is_nonempty result.warning_codes)

  -- The body of the `try`.
  unfoldable pub repo_body : Exec (Unit {0})
  repo_body = do repo_prepare; result ← repo_scan; repo_record result

  unfoldable pub handle_repo_error : JobError → Exec (Unit {0})
  handle_repo_error scan_cancelled = pure tt
  handle_repo_error scan_lease_lost = pure tt
  handle_repo_error exc = fail_job settings expected exc

-- The `try` statement, for the lease owner that is read once, when the job starts.
unfoldable pub repo_job : Settings → RepoTools → Option String → Exec (Unit {0})
repo_job settings tools expected =
    catch (repo_body settings expected tools) (handle_repo_error settings expected tools)

unfoldable pub run_repo_scan_job : Settings → RepoTools → Exec (Unit {0})
run_repo_scan_job settings tools = do scan ← get_scan; repo_job settings tools scan.lease_owner
