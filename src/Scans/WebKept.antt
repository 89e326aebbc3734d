-- ===== src/Scans/WebKept.antt =====
-- What other processes and owned writes keep, `run_passive_scan_job` keeps.
use mathlib.Core.Path.{subst}
use web_security_audit_platf.Prelude.{
  sym, ℕ, ◌≤◌, String, ◌≡◌, refl, Bool, true, false, some, arith,
}
use web_security_audit_platf.Contracts.{
  ScanStatus, ScanStep, validating, running, normalizing, target_validation, custom_crawl,
  custom_checks, normalizing_findings,
}
use web_security_audit_platf.Scans.Scan.{Scan, Settings, is_leased_status}
use web_security_audit_platf.Scans.Lease.{
  JobError, scan_cancelled, scan_lease_lost, zap_client_spider_cancelled,
}
use web_security_audit_platf.Scans.Events.{Shared}
use web_security_audit_platf.Scans.Invariant.{IsWellFormed}
use web_security_audit_platf.Scans.World.{World, Exec, ◌>>=◌, get_scan}
use web_security_audit_platf.Scans.Steps.{set_zap_locked, with_zap_daemon_lock}
use web_security_audit_platf.Scans.JobParts.{Tool, stage, checkpoint, update}
use web_security_audit_platf.Scans.WebJob.{
  WebTools, EngineResult, Collected, web_prepare, web_crawl, zap_run, zap_extra, web_zap,
  web_record, web_body, after_cancelled, handle_web_error, web_job, run_passive_scan_job,
}
use web_security_audit_platf.Scans.Triples.{
  Keeps, Keeps-state, Keeps-bind, Keeps-catch, Keeps-lift, Keeps-get_scan, Keeps-now, Keeps-if,
  Keeps-pure, Keeps-raise,
}
use web_security_audit_platf.Scans.Kept.{
  OfShared, IsKeptBy, checkpoint-Keeps, persist_tool_receipts-Keeps, mark_scan_cancelled-Keeps,
}
use web_security_audit_platf.Scans.JobKept.{run_tool-Keeps, record_results-Keeps, fail_job-Keeps}
use web_security_audit_platf.Scans.RepoKept.{stage-Keeps}
use web_security_audit_platf.Scans.JobInvariant.{IsWellFormed-kept}

set_zap_locked-Keeps : (P : Shared → Type 0) (b : Bool) → Keeps (OfShared P) (set_zap_locked b)
unfolding set_zap_locked
set_zap_locked-Keeps P b = record { at = λ w p. p }

with_zap_daemon_lock-Keeps {ℓ} :
    {A : Type ℓ} (P : Shared → Type 0) (body : Exec A)
    → Keeps (OfShared P) body
    → Keeps (OfShared P) (with_zap_daemon_lock body)
unfolding with_zap_daemon_lock
with_zap_daemon_lock-Keeps P body k = Keeps-bind _ _ (set_zap_locked-Keeps P true) λ u.
    Keeps-bind _ _
      (Keeps-catch _ _ k λ e. Keeps-bind _ _ (set_zap_locked-Keeps P false) λ u. Keeps-raise e)
      λ a. Keeps-bind _ _ (set_zap_locked-Keeps P false) λ u. Keeps-pure a

module _ (settings : Settings) (worker : String) {P : Shared → Type 0}
    (kept : IsKeptBy settings worker P) where
  check : Keeps (OfShared P) (checkpoint settings (some worker))
  check = checkpoint-Keeps settings worker kept

  at_stage :
      (status : ScanStatus) (step : ScanStep) (percent : ℕ)
      → is_leased_status status ≡ true
      → percent ≤ 99
      → Keeps (OfShared P) (update settings (some worker) (stage status step percent))
  at_stage = stage-Keeps settings worker kept

  module _ (tools : WebTools) where
    web_prepare-Keeps : Keeps (OfShared P) (web_prepare settings (some worker) tools)
    unfolding web_prepare
    web_prepare-Keeps = Keeps-bind _ _ Keeps-get_scan λ scan. Keeps-bind _ _ (Keeps-lift _) λ u.
        Keeps-bind _ _ check λ u. Keeps-bind _ _ Keeps-get_scan λ scan.
          Keeps-bind _ _ (Keeps-lift _) λ a. Keeps-bind _ _ (Keeps-lift _) λ engines.
            Keeps-bind _ _ (at_stage validating target_validation 10 refl (omega arith)) λ u.
              Keeps-bind _ _ check λ u.
                Keeps-bind _ _ (at_stage running custom_crawl 30 refl (omega arith))
                  λ u. Keeps-bind _ _ check λ u. Keeps-pure engines

    web_crawl-Keeps : Keeps (OfShared P) (web_crawl settings (some worker) tools)
    unfolding web_crawl
    web_crawl-Keeps = Keeps-bind _ _ Keeps-now λ t.
        Keeps-bind _ _ (run_tool-Keeps settings worker kept _) λ r. Keeps-bind _ _ Keeps-now λ t'.
          Keeps-bind _ _ check λ u.
            Keeps-bind _ _ (at_stage running custom_checks 70 refl (omega arith)) λ u. Keeps-pure _

    zap_run-Keeps :
        (step : ScanStep) (percent : ℕ) (name warning : String) (tool : Tool EngineResult)
        (c : Collected)
        → percent ≤ 99
        → Keeps (OfShared P) (zap_run settings (some worker) tools step percent name warning tool c)
    unfolding zap_run
    zap_run-Keeps step percent name warning tool c le =
        Keeps-bind _ _ (at_stage running step percent refl le) λ u. Keeps-bind _ _ Keeps-now λ t.
          Keeps-bind _ _
            (with_zap_daemon_lock-Keeps P _
              (Keeps-bind _ _ check λ u. run_tool-Keeps settings worker kept tool))
            λ r. Keeps-bind _ _ Keeps-now λ t'. Keeps-pure _

    zap_extra-Keeps :
        (wanted : Bool) (step : ScanStep) (name warning : String) (tool : Tool EngineResult)
        (c : Collected)
        → Keeps
            (OfShared P)
            (zap_extra settings (some worker) tools wanted step name warning tool c)
    unfolding zap_extra
    zap_extra-Keeps wanted step name warning tool c =
        Keeps-if wanted _ _
          (Keeps-bind _ _ check λ u. zap_run-Keeps step 82 name warning tool c (omega arith))
          (Keeps-pure c)

    web_zap-Keeps :
        (scan : Scan) (c : Collected)
        → Keeps (OfShared P) (web_zap settings (some worker) tools scan c)
    unfolding web_zap
    web_zap-Keeps scan c =
        Keeps-bind _ _ (zap_run-Keeps _ 76 _ _ _ c (omega arith))
          λ c1. Keeps-bind _ _ (zap_extra-Keeps _ _ _ _ _ c1) λ c2. zap_extra-Keeps _ _ _ _ _ c2

    web_record-Keeps :
        (c : Collected) → Keeps (OfShared P) (web_record settings (some worker) tools c)
    unfolding web_record
    web_record-Keeps c = Keeps-bind _ _ check λ u.
        Keeps-bind _ _ (persist_tool_receipts-Keeps settings worker kept _) λ u.
          Keeps-bind _ _ (at_stage normalizing normalizing_findings 85 refl (omega arith))
            λ u. record_results-Keeps settings worker kept _ _ _ _

    web_body-Keeps : Keeps (OfShared P) (web_body settings (some worker) tools)
    unfolding web_body
    web_body-Keeps = Keeps-bind _ _ web_prepare-Keeps λ engines.
        Keeps-bind _ _ Keeps-get_scan λ scan. Keeps-bind _ _ web_crawl-Keeps λ c.
          Keeps-bind _ _ (Keeps-if _ _ _ (web_zap-Keeps scan c) (Keeps-pure c)) web_record-Keeps

    after_cancelled-Keeps : Keeps (OfShared P) (after_cancelled settings (some worker) tools)
    unfolding after_cancelled
    after_cancelled-Keeps =
        Keeps-bind _ _ Keeps-get_scan
          λ scan. Keeps-if _ _ _ (Keeps-pure tt) (mark_scan_cancelled-Keeps settings worker kept)

    handle_web_error-Keeps :
        (e : JobError) → Keeps (OfShared P) (handle_web_error settings (some worker) tools e)
    unfolding handle_web_error
    handle_web_error-Keeps scan_cancelled = after_cancelled-Keeps
    handle_web_error-Keeps zap_client_spider_cancelled = after_cancelled-Keeps
    handle_web_error-Keeps scan_lease_lost = Keeps-pure tt
    handle_web_error-Keeps e = fail_job-Keeps settings worker kept e

    web_job-Keeps : Keeps (OfShared P) (web_job settings tools (some worker))
    unfolding web_job
    web_job-Keeps = Keeps-catch _ _ web_body-Keeps handle_web_error-Keeps

    -- From a row that `worker` has leased.
    pub run_passive_scan_job-keeps :
        (w : World)
        → w.shared.row.lease_owner ≡ some worker
        → P w.shared
        → P (run_passive_scan_job settings tools w).1.shared
    unfolding run_passive_scan_job get_scan ◌>>=◌
    run_passive_scan_job-keeps w mine p =
        subst (λ o. P (web_job settings tools o w).1.shared) (sym mine)
          (Keeps-state _ web_job-Keeps w p)

-- A web job, from a well-formed row that its worker has leased, leaves a well-formed row, whatever
-- its engines return or raise and whatever other processes do meanwhile.
pub run_passive_scan_job-IsWellFormed :
    (settings : Settings) (worker : String) (tools : WebTools) (w : World)
    → w.shared.row.lease_owner ≡ some worker
    → IsWellFormed w.shared.row
    → IsWellFormed (run_passive_scan_job settings tools w).1.shared.row
run_passive_scan_job-IsWellFormed settings worker tools w mine h =
    run_passive_scan_job-keeps settings worker (IsWellFormed-kept settings worker) tools w mine h
