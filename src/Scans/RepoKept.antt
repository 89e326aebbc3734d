-- ===== src/Scans/RepoKept.antt =====
-- What other processes and owned writes keep, `run_repo_scan_job` keeps.
use mathlib.Core.Path.{subst}
use web_security_audit_platf.Prelude.{sym, ℕ, ◌≤◌, inl, String, ◌≡◌, refl, true, some, arith}
use web_security_audit_platf.Contracts.{
  ScanStatus, ScanStep, validating, running, normalizing, target_validation, repo_secrets_scan,
  repo_dependency_scan, normalizing_findings,
}
use web_security_audit_platf.Scans.Scan.{Settings, is_leased_status}
use web_security_audit_platf.Scans.Lease.{JobError, scan_cancelled, scan_lease_lost}
use web_security_audit_platf.Scans.Events.{Shared}
use web_security_audit_platf.Scans.World.{World, ◌>>=◌, get_scan}
use web_security_audit_platf.Scans.JobParts.{stage, checkpoint, update}
use web_security_audit_platf.Scans.RepoJob.{
  RepoTools, RepoScanResult, repo_prepare, repo_scan, repo_record, repo_body, handle_repo_error,
  repo_job, run_repo_scan_job,
}
use web_security_audit_platf.Scans.Triples.{
  Keeps, Keeps-state, keeps_rules, Keeps-bind, Keeps-catch, Keeps-lift, Keeps-get_scan,
}
use web_security_audit_platf.Scans.Kept.{
  OfShared, IsKeptBy, checkpoint-Keeps, persist_tool_receipts-Keeps,
}
use web_security_audit_platf.Scans.JobKept.{
  run_tool-Keeps, update-Keeps, record_results-Keeps, fail_job-Keeps,
}

module _ (settings : Settings) (worker : String) {P : Shared → Type 0}
    (kept : IsKeptBy settings worker P) where
  check : Keeps (OfShared P) (checkpoint settings (some worker))
  check = checkpoint-Keeps settings worker kept

  pub stage-Keeps :
      (status : ScanStatus) (step : ScanStep) (percent : ℕ)
      → is_leased_status status ≡ true
      → percent ≤ 99
      → Keeps (OfShared P) (update settings (some worker) (stage status step percent))
  stage-Keeps status step percent live le =
      update-Keeps settings worker kept _ (inl (live, refl, le))

  module _ (tools : RepoTools) where
    repo_prepare-Keeps : Keeps (OfShared P) (repo_prepare settings (some worker) tools)
    unfolding repo_prepare
    repo_prepare-Keeps = Keeps-bind _ _ Keeps-get_scan λ scan. Keeps-bind _ _ (Keeps-lift _) λ u.
        Keeps-bind _ _ check λ u. Keeps-bind _ _ (Keeps-lift _) λ u.
          Keeps-bind _ _ (stage-Keeps validating target_validation 10 refl (omega arith))
            λ u. Keeps-bind _ _ check λ u. search keeps_rules

    repo_scan-Keeps : Keeps (OfShared P) (repo_scan settings (some worker) tools)
    unfolding repo_scan
    repo_scan-Keeps =
        Keeps-bind _ _ (stage-Keeps running repo_secrets_scan 35 refl (omega arith)) λ u.
          Keeps-bind _ _ (Keeps-lift _) λ u. Keeps-bind _ _ check λ u.
            Keeps-bind _ _ (run_tool-Keeps settings worker kept _) λ r. search (keeps_rules, check)

    repo_record-Keeps :
        (result : RepoScanResult)
        → Keeps (OfShared P) (repo_record settings (some worker) tools result)
    unfolding repo_record
    repo_record-Keeps result =
        Keeps-bind _ _ (stage-Keeps running repo_dependency_scan 65 refl (omega arith)) λ u.
          Keeps-bind _ _ (persist_tool_receipts-Keeps settings worker kept _) λ u.
            Keeps-bind _ _ (stage-Keeps normalizing normalizing_findings 85 refl (omega arith))
              λ u. record_results-Keeps settings worker kept _ _ _ _

    repo_body-Keeps : Keeps (OfShared P) (repo_body settings (some worker) tools)
    unfolding repo_body
    repo_body-Keeps =
        Keeps-bind _ _ repo_prepare-Keeps λ u. Keeps-bind _ _ repo_scan-Keeps repo_record-Keeps

    handle_repo_error-Keeps :
        (e : JobError) → Keeps (OfShared P) (handle_repo_error settings (some worker) tools e)
    unfolding handle_repo_error
    handle_repo_error-Keeps scan_cancelled = search keeps_rules
    handle_repo_error-Keeps scan_lease_lost = search keeps_rules
    handle_repo_error-Keeps e = fail_job-Keeps settings worker kept e

    repo_job-Keeps : Keeps (OfShared P) (repo_job settings tools (some worker))
    unfolding repo_job
    repo_job-Keeps = Keeps-catch _ _ repo_body-Keeps handle_repo_error-Keeps

    -- From a row that `worker` has leased.
    pub run_repo_scan_job-keeps :
        (w : World)
        → w.shared.row.lease_owner ≡ some worker
        → P w.shared
        → P (run_repo_scan_job settings tools w).1.shared
    unfolding run_repo_scan_job get_scan ◌>>=◌
    run_repo_scan_job-keeps w mine p =
        subst (λ o. P (repo_job settings tools o w).1.shared) (sym mine)
          (Keeps-state _ repo_job-Keeps w p)
