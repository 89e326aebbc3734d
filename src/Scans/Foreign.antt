-- ===== src/Scans/Foreign.antt =====
-- Exceptions other than the lost lease and the cancellations.
use web_security_audit_platf.Prelude.{
  ◌≢◌, refl, arith, Bool, true, false, Result, ok, err, raise_if,
}
use web_security_audit_platf.Scans.Scan.{Scan}
use web_security_audit_platf.Scans.Lease.{
  JobError, scan_cancelled, scan_lease_lost, zap_client_spider_cancelled,
}
use web_security_audit_platf.Scans.Validation.{
  validate_scan_job, validate_repository_scan, validate_web_scan,
}

-- An exception that code outside lifecycle.py raises is neither of the two that the checkpoint raises,
-- nor the cancellation of the client spider, which is raised only for a `should_cancel` callback, and
-- the job passes none.
abbrev pub IsForeign : JobError → Type 0
IsForeign scan_lease_lost = ⊥
IsForeign scan_cancelled = ⊥
IsForeign zap_client_spider_cancelled = ⊥
IsForeign _ = Unit

abbrev pub RaisesForeign {ℓ} : {A : Type ℓ} → Result JobError A → Type 0
RaisesForeign (ok a) = Unit
RaisesForeign (err e) = IsForeign e

pub raise_if-RaisesForeign : (b : Bool) (e : JobError) → IsForeign e → RaisesForeign (raise_if b e)
raise_if-RaisesForeign true e f = f
raise_if-RaisesForeign false e f = tt

pub foreign_of_ne {ℓ} :
    {A : Type ℓ} (r : Result JobError A)
    → r ≢ err scan_lease_lost
    → r ≢ err scan_cancelled
    → r ≢ err zap_client_spider_cancelled
    → RaisesForeign r
foreign_of_ne (ok u) h k l = tt
foreign_of_ne (err scan_lease_lost) h k l = h refl
foreign_of_ne (err scan_cancelled) h k l = k refl
foreign_of_ne (err zap_client_spider_cancelled) h k l = l refl
foreign_of_ne (err _) h k l = tt

-- Validation raises none of them.
pub validate_scan_job-RaisesForeign : (scan : Scan) → RaisesForeign (validate_scan_job scan)
unfolding validate_scan_job validate_repository_scan validate_web_scan
validate_scan_job-RaisesForeign scan =
    foreign_of_ne (validate_scan_job scan) (ground arith) (ground arith) (ground arith)
