-- ===== src/Scans/WebRelease.antt =====
-- `run_passive_scan_job` returns normally and leaves no live lease behind.
use mathlib.Core.Path.{subst}
use web_security_audit_platf.Prelude.{
  ◌≡◌, refl, sym, ap, Bool, some, String, Result, ok, err, if◌then◌else◌, ℕ,
}
use web_security_audit_platf.Contracts.{ScanStep}
use web_security_audit_platf.Scans.Scan.{Settings, Scan, is_cancelled_status}
use web_security_audit_platf.Scans.Lease.{
  JobError, scan_cancelled, scan_lease_lost, zap_client_spider_cancelled,
}
use web_security_audit_platf.Scans.Ownership.{IsLost}
use web_security_audit_platf.Scans.Foreign.{RaisesForeign, validate_scan_job-RaisesForeign}
use web_security_audit_platf.Scans.World.{World, pure, ◌>>=◌, get_scan}
use web_security_audit_platf.Scans.Steps.{mark_scan_cancelled}
use web_security_audit_platf.Scans.JobParts.{Tool}
use web_security_audit_platf.Scans.WebJob.{
  WebTools, EngineResult, Collected, web_prepare, web_crawl, zap_run, zap_extra, web_zap,
  web_record, web_body, after_cancelled, handle_web_error, web_job, run_passive_scan_job,
}
use web_security_audit_platf.Scans.Triples.{
  Post, Triple, Triple-bind, Triple-pure, Triple-if, Triple-catch, Triple-get_scan, Triple-now,
  Triple-weaken,
}
use web_security_audit_platf.Scans.Release.{IsLive, Raised, Ended}
use web_security_audit_platf.Scans.ReleaseParts.{
  lift-Live, update-Live, checkpoint-Live, run_tool-Live,
}
use web_security_audit_platf.Scans.ReleaseRecords.{
  Released, NoRaise, persist_tool_receipts-Live, record_results-Lost, fail_job-Released,
}
use web_security_audit_platf.Scans.WebForeign.{
  IsForeignTools, load_web_scan_authority-RaisesForeign, authorize_engines-RaisesForeign,
  with_zap_daemon_lock-Live,
}

module _ (settings : Settings) (worker : String) where
  module _ (tools : WebTools) (foreign : IsForeignTools tools) where
    web_prepare-Live :
        Triple IsLive
          (web_prepare settings (some worker) tools)
          (λ es. IsLive)
          (Raised settings worker)
    unfolding web_prepare
    web_prepare-Live = Triple-bind _ _ Triple-get_scan λ claimed.
        Triple-bind _ _ (lift-Live settings worker _ (validate_scan_job-RaisesForeign claimed)) λ u.
          Triple-bind _ _ (checkpoint-Live settings worker) λ u.
            Triple-bind _ _ Triple-get_scan λ scan.
              Triple-bind _ _
                (lift-Live settings worker _ (load_web_scan_authority-RaisesForeign _ scan _))
                λ a.
                  Triple-bind _ _
                    (lift-Live settings worker _ (authorize_engines-RaisesForeign _ _ scan _))
                    λ engines. Triple-bind _ _ (update-Live settings worker _ refl) λ u.
                      Triple-bind _ _ (checkpoint-Live settings worker) λ u.
                        Triple-bind _ _ (update-Live settings worker _ refl) λ u.
                          Triple-bind _ _ (checkpoint-Live settings worker)
                            λ u. Triple-pure engines (λ w h. h)

    web_crawl-Live :
        Triple IsLive
          (web_crawl settings (some worker) tools)
          (λ c. IsLive)
          (Raised settings worker)
    unfolding web_crawl
    web_crawl-Live = Triple-bind _ _ Triple-now λ t.
        Triple-bind _ _ (run_tool-Live settings worker _ foreign.crawl) λ r.
          Triple-bind _ _ Triple-now λ t'.
            Triple-bind _ _ (checkpoint-Live settings worker) λ u.
              Triple-bind _ _ (update-Live settings worker _ refl) λ u. Triple-pure _ (λ w h. h)

    zap_run-Live :
        (step : ScanStep) (percent : ℕ) (name warning : String) (tool : Tool EngineResult)
        (c : Collected)
        → RaisesForeign tool.outcome
        → Triple IsLive
            (zap_run settings (some worker) tools step percent name warning tool c)
            (λ c. IsLive)
            (Raised settings worker)
    unfolding zap_run
    zap_run-Live step percent name warning tool c f =
        Triple-bind _ _ (update-Live settings worker _ refl) λ u. Triple-bind _ _ Triple-now λ t.
          Triple-bind _ _
            (with_zap_daemon_lock-Live settings worker _ (
              Triple-bind _ _ (checkpoint-Live settings worker)
                λ u. run_tool-Live settings worker tool f))
            λ r. Triple-bind _ _ Triple-now λ t'. Triple-pure _ (λ w h. h)

    zap_extra-Live :
        (wanted : Bool) (step : ScanStep) (name warning : String) (tool : Tool EngineResult)
        (c : Collected)
        → RaisesForeign tool.outcome
        → Triple IsLive
            (zap_extra settings (some worker) tools wanted step name warning tool c)
            (λ c. IsLive)
            (Raised settings worker)
    unfolding zap_extra
    zap_extra-Live wanted step name warning tool c f =
        Triple-if wanted _ _
          (λ e.
            Triple-bind _ _ (checkpoint-Live settings worker)
              λ u. zap_run-Live step 82 name warning tool c f)
          (λ e. Triple-pure c (λ w h. h))

    web_zap-Live :
        (scan : Scan) (c : Collected)
        → Triple IsLive
            (web_zap settings (some worker) tools scan c)
            (λ c. IsLive)
            (Raised settings worker)
    unfolding web_zap
    web_zap-Live scan c = Triple-bind _ _ (zap_run-Live _ 76 _ _ _ c foreign.zap_passive_scan) λ c1.
        Triple-bind _ _ (zap_extra-Live _ _ _ _ _ c1 foreign.zap_active_scan)
          λ c2. zap_extra-Live _ _ _ _ _ c2 foreign.zap_client_spider_scan

    web_record-Lost :
        (c : Collected)
        → Triple IsLive
            (web_record settings (some worker) tools c)
            (λ u w. IsLive w × IsLost worker w.shared)
            (Raised settings worker)
    unfolding web_record
    web_record-Lost c = Triple-bind _ _ (checkpoint-Live settings worker) λ u.
        Triple-bind _ _ (persist_tool_receipts-Live settings worker _) λ u.
          Triple-bind _ _ (update-Live settings worker _ refl)
            λ u. record_results-Lost settings worker _ _ _ _ foreign.persist foreign.risk

    web_body-Lost :
        Triple IsLive
          (web_body settings (some worker) tools)
          (λ u w. IsLive w × IsLost worker w.shared)
          (Raised settings worker)
    unfolding web_body
    web_body-Lost = Triple-bind _ _ web_prepare-Live λ engines.
        Triple-bind _ _ Triple-get_scan λ scan. Triple-bind _ _ web_crawl-Live λ c.
          Triple-bind _ _
            (Triple-if _ _ _ (λ e. web_zap-Live scan c) (λ e. Triple-pure c (λ w h. h)))
            web_record-Lost

    -- The status is cancelled already, and no second write is tried.
    after_cancelled-Released :
        Triple
          (λ w. IsLive w × Ended settings worker w)
          (after_cancelled settings (some worker) tools)
          (λ u. Released settings worker)
          (NoRaise settings worker)
    unfolding after_cancelled ◌>>=◌ get_scan pure
    after_cancelled-Released = record {
      at = λ w h.
          subst
            (λ b.
              Post (λ u. Released settings worker) (NoRaise settings worker)
                ((if b then pure tt else mark_scan_cancelled settings (some worker)) w))
            (sym (ap is_cancelled_status (h.1).0)) (h.1).1;
    }

    handle_web_error-Released :
        (e : JobError)
        → Triple
            (Raised settings worker e)
            (handle_web_error settings (some worker) tools e)
            (λ u. Released settings worker)
            (NoRaise settings worker)
    unfolding handle_web_error
    handle_web_error-Released scan_cancelled = after_cancelled-Released
    handle_web_error-Released zap_client_spider_cancelled = record { at = λ w h. absurd h.1 }
    handle_web_error-Released scan_lease_lost = Triple-pure _ (λ w h. h.1)
    handle_web_error-Released e =
        Triple-weaken _ (fail_job-Released settings worker e) (λ w h. h.0) (λ u w h. h) (λ x w h. h)

    web_job-Released :
        Triple IsLive
          (web_job settings tools (some worker))
          (λ u. Released settings worker)
          (NoRaise settings worker)
    unfolding web_job
    web_job-Released =
        Triple-catch _ _ (Triple-weaken _ web_body-Lost (λ w h. h) (λ u w h. h.1) (λ e w h. h))
          handle_web_error-Released

    -- A web job that starts on a claimed scan, with a monitor that signals nothing and engines that
    -- raise none of the exceptions of the job's own control, returns normally,
    -- and then its worker owns the scan no more, whatever other processes did meanwhile.
    pub run_passive_scan_job-releases :
        (w : World)
        → w.shared.row.lease_owner ≡ some worker
        → IsLive w
        → ((run_passive_scan_job settings tools w).0 ≡ ok tt)
          × IsLost worker (run_passive_scan_job settings tools w).1.shared
    unfolding run_passive_scan_job get_scan ◌>>=◌
    run_passive_scan_job-releases w mine live =
        subst
          (λ o.
            ((web_job settings tools o w).0 ≡ ok tt)
            × IsLost worker (web_job settings tools o w).1.shared)
          (sym mine)
          (returned (web_job settings tools (some worker) w) (web_job-Released.at w live))
      where
        returned :
            (x : Result JobError (Unit {0}) × World)
            → Post (λ u. Released settings worker) (NoRaise settings worker) x
            → (x.0 ≡ ok tt) × IsLost worker x.1.shared
        returned (ok u, w) h = (refl, h)
        returned (err e, w) h = absurd h
