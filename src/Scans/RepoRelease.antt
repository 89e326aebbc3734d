-- ===== src/Scans/RepoRelease.antt =====
-- `run_repo_scan_job` returns normally and leaves no live lease behind.
use web_security_audit_platf.Prelude.{◌≡◌, refl, sym, some, Option, Result, ok, err, String}
use mathlib.Core.Path.{subst}
use web_security_audit_platf.Scans.Scan.{Settings}
use web_security_audit_platf.Scans.Lease.{JobError, scan_cancelled, scan_lease_lost}
use web_security_audit_platf.Scans.Ownership.{IsLost}
use web_security_audit_platf.Scans.Foreign.{
  RaisesForeign, raise_if-RaisesForeign, validate_scan_job-RaisesForeign,
}
use web_security_audit_platf.Scans.World.{World, ◌>>=◌, get_scan}
use web_security_audit_platf.Scans.RepoJob.{
  RepoTools, RepoScanResult, repo_prepare, repo_scan, repo_record, repo_body, handle_repo_error,
  repo_job, run_repo_scan_job,
}
use web_security_audit_platf.Scans.Triples.{
  Post, Triple, Triple-bind, Triple-pure, Triple-catch, Triple-get_scan, Triple-weaken,
}
use web_security_audit_platf.Scans.Release.{IsLive, Raised}
use web_security_audit_platf.Scans.ReleaseParts.{
  lift-Live, update-Live, checkpoint-Live, run_tool-Live,
}
use web_security_audit_platf.Scans.ReleaseRecords.{
  Released, NoRaise, persist_tool_receipts-Live, record_results-Lost, fail_job-Released,
}

-- What the job calls raises none of the exceptions of the job's own control.
pub record IsForeignTools (tools : RepoTools) : Type 0 where
  pub resolve_path : (path : Option String) → RaisesForeign (tools.resolve_path path)
  pub artifact_dir : RaisesForeign tools.artifact_dir
  pub staging : RaisesForeign tools.staging
  pub scanners : RaisesForeign tools.scanners.outcome
  pub persist : RaisesForeign tools.persist
  pub risk : RaisesForeign tools.risk

module _ (settings : Settings) (worker : String) (tools : RepoTools)
    (foreign : IsForeignTools tools) where
  repo_prepare-Live :
      Triple IsLive
        (repo_prepare settings (some worker) tools)
        (λ u. IsLive)
        (Raised settings worker)
  unfolding repo_prepare
  repo_prepare-Live = Triple-bind _ _ Triple-get_scan λ scan.
      Triple-bind _ _ (lift-Live settings worker _ (validate_scan_job-RaisesForeign scan)) λ u.
        Triple-bind _ _ (checkpoint-Live settings worker) λ u.
          Triple-bind _ _ (lift-Live settings worker _ (raise_if-RaisesForeign _ _ tt)) λ u.
            Triple-bind _ _ (update-Live settings worker _ refl) λ u.
              Triple-bind _ _ (checkpoint-Live settings worker) λ u.
                Triple-bind _ _
                  (lift-Live settings worker _ (foreign.resolve_path scan.repo_path_snapshot))
                  λ u. lift-Live settings worker _ foreign.artifact_dir

  repo_scan-Live :
      Triple IsLive (repo_scan settings (some worker) tools) (λ r. IsLive) (Raised settings worker)
  unfolding repo_scan
  repo_scan-Live = Triple-bind _ _ (update-Live settings worker _ refl) λ u.
      Triple-bind _ _ (lift-Live settings worker _ foreign.staging) λ u.
        Triple-bind _ _ (checkpoint-Live settings worker) λ u.
          Triple-bind _ _ (run_tool-Live settings worker _ foreign.scanners)
            λ r. Triple-bind _ _ (checkpoint-Live settings worker) λ u. Triple-pure _ (λ w h. h)

  repo_record-Lost :
      (result : RepoScanResult)
      → Triple IsLive
          (repo_record settings (some worker) tools result)
          (λ u w. IsLive w × IsLost worker w.shared)
          (Raised settings worker)
  unfolding repo_record
  repo_record-Lost result = Triple-bind _ _ (update-Live settings worker _ refl) λ u.
      Triple-bind _ _ (persist_tool_receipts-Live settings worker _) λ u.
        Triple-bind _ _ (update-Live settings worker _ refl)
          λ u. record_results-Lost settings worker _ _ _ _ foreign.persist foreign.risk

  handle_repo_error-Released :
      (e : JobError)
      → Triple
          (Raised settings worker e)
          (handle_repo_error settings (some worker) tools e)
          (λ u. Released settings worker)
          (NoRaise settings worker)
  unfolding handle_repo_error
  handle_repo_error-Released scan_cancelled = Triple-pure _ (λ w h. (h.1).1)
  handle_repo_error-Released scan_lease_lost = Triple-pure _ (λ w h. h.1)
  handle_repo_error-Released e =
      Triple-weaken _ (fail_job-Released settings worker e) (λ w h. h.0) (λ u w h. h) (λ x w h. h)

  repo_job-Released :
      Triple IsLive
        (repo_job settings tools (some worker))
        (λ u. Released settings worker)
        (NoRaise settings worker)
  unfolding repo_job repo_body
  repo_job-Released =
      Triple-catch _ _
        (Triple-bind _ _ repo_prepare-Live λ u.
          Triple-bind _ _ repo_scan-Live
            λ r. Triple-weaken _ (repo_record-Lost r) (λ w h. h) (λ u w h. h.1) (λ e w h. h))
        handle_repo_error-Released

  -- A repository job that starts on a claimed scan, with a monitor that signals nothing and tools
  -- that raise none of the exceptions of the job's own control, returns normally, and
  -- then its worker owns the scan no more, whatever other processes did meanwhile.
  pub run_repo_scan_job-releases :
      (w : World)
      → w.shared.row.lease_owner ≡ some worker
      → IsLive w
      → ((run_repo_scan_job settings tools w).0 ≡ ok tt)
        × IsLost worker (run_repo_scan_job settings tools w).1.shared
  unfolding run_repo_scan_job get_scan ◌>>=◌
  run_repo_scan_job-releases w mine live =
      subst
        (λ o.
          ((repo_job settings tools o w).0 ≡ ok tt)
          × IsLost worker (repo_job settings tools o w).1.shared)
        (sym mine)
        (returned (repo_job settings tools (some worker) w) (repo_job-Released.at w live))
    where
      returned :
          (x : Result JobError (Unit {0}) × World)
          → Post (λ u. Released settings worker) (NoRaise settings worker) x
          → (x.0 ≡ ok tt) × IsLost worker x.1.shared
      returned (ok u, w) h = (refl, h)
      returned (err e, w) h = absurd h
