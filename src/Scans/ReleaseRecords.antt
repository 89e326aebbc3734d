-- ===== src/Scans/ReleaseRecords.antt =====
-- The writes at the end of a job, and its handler of failures.
use web_security_audit_platf.Prelude.{
  ℕ, String, refl, Bool, true, false, some, List, Result, ok, err,
}
use web_security_audit_platf.Findings.{ToolReceipt, NormalizedFindingInput}
use web_security_audit_platf.Scans.Scan.{Settings}
use web_security_audit_platf.Scans.Lease.{JobError, scan_lease_lost}
use web_security_audit_platf.Scans.Ownership.{IsLost}
use web_security_audit_platf.Scans.World.{World}
use web_security_audit_platf.Scans.Steps.{
  lock_scan_for_owned_write, write_tool_runs, persist_tool_receipts,
}
use web_security_audit_platf.Scans.JobParts.{
  persist_normalized_findings, persist_scan_risk_score, finish_at, update, record_results,
  lease_lost_or_raise, fail_job,
}
use web_security_audit_platf.Scans.Foreign.{RaisesForeign}
use web_security_audit_platf.Scans.Triples.{
  Triple, Triple-bind, Triple-pure, Triple-raise, Triple-weaken, Triple-catch, Triple-now,
}
use web_security_audit_platf.Scans.Release.{IsLive, Raised, LeaseLost, LeaseLost-Raised, lock-Live}
use web_security_audit_platf.Scans.ReleaseParts.{
  foreign-Raised, update-Lost, mark_scan_failed-Lost, checkpoint-Live,
}

module _ (settings : Settings) (worker : String) where
  lock :
      Triple IsLive
        (lock_scan_for_owned_write settings (some worker))
        (λ u. IsLive)
        (Raised settings worker)
  lock =
      Triple-weaken _ (lock-Live settings worker) (λ w p. p) (λ u w h. h.0)
        (LeaseLost-Raised settings worker)

  pub persist_tool_receipts-Live :
      (receipts : List ToolReceipt)
      → Triple IsLive
          (persist_tool_receipts settings (some worker) receipts)
          (λ u. IsLive)
          (Raised settings worker)
  unfolding persist_tool_receipts write_tool_runs
  persist_tool_receipts-Live receipts =
      Triple-bind _ _ lock
        (λ u. record { at = λ w h. record { claimed = h.claimed; quiet = h.quiet } })

  persist-Live :
      (r : Result JobError (Unit {0})) (fs : List NormalizedFindingInput)
      → RaisesForeign r
      → Triple IsLive (persist_normalized_findings r fs) (λ u. IsLive) (Raised settings worker)
  unfolding persist_normalized_findings
  persist-Live (ok u) fs f = record { at = λ w h. record { claimed = h.claimed; quiet = h.quiet } }
  persist-Live (err e) fs f = record { at = λ w h. foreign-Raised settings worker e w f h }

  risk-Live :
      (r : Result JobError (Unit {0}))
      → RaisesForeign r
      → Triple IsLive (persist_scan_risk_score r) (λ u. IsLive) (Raised settings worker)
  unfolding persist_scan_risk_score
  risk-Live (ok u) f = record { at = λ w h. record { claimed = h.claimed; quiet = h.quiet } }
  risk-Live (err e) f = record { at = λ w h. foreign-Raised settings worker e w f h }

  finish-Lost :
      (t : ℕ) (warned : Bool)
      → Triple IsLive
          (update settings (some worker) (finish_at t warned))
          (λ u w. IsLive w × IsLost worker w.shared)
          (Raised settings worker)
  finish-Lost t true = update-Lost settings worker _ refl
  finish-Lost t false = update-Lost settings worker _ refl

  pub record_results-Lost :
      (persist risk : Result JobError (Unit {0})) (fs : List NormalizedFindingInput) (warned : Bool)
      → RaisesForeign persist
      → RaisesForeign risk
      → Triple IsLive
          (record_results settings (some worker) persist risk fs warned)
          (λ u w. IsLive w × IsLost worker w.shared)
          (Raised settings worker)
  unfolding record_results
  record_results-Lost persist risk fs warned fp fr = Triple-bind _ _ lock λ u.
      Triple-bind _ _ (persist-Live persist fs fp) λ u. Triple-bind _ _ lock λ u.
        Triple-bind _ _ (risk-Live risk fr) λ u.
          Triple-bind _ _ (checkpoint-Live settings worker)
            λ u. Triple-bind _ _ Triple-now λ t. finish-Lost t warned

  -- No exception leaves the handler.
  abbrev pub Released : World → Type 0
  Released w = IsLost worker w.shared

  abbrev pub NoRaise : JobError → World → Type 0
  NoRaise e w = ⊥

  lease_lost_or_raise-Released :
      (e : JobError)
      → Triple (LeaseLost settings worker e) (lease_lost_or_raise e) (λ u. Released) NoRaise
  unfolding lease_lost_or_raise
  lease_lost_or_raise-Released scan_lease_lost = Triple-pure _ (λ w h. h.2)
  lease_lost_or_raise-Released _ = Triple-raise _ (λ w h. cc (h.0))

  pub fail_job-Released :
      (exc : JobError) → Triple IsLive (fail_job settings (some worker) exc) (λ u. Released) NoRaise
  unfolding fail_job
  fail_job-Released exc =
      Triple-catch _ _
        (Triple-weaken _ (mark_scan_failed-Lost settings worker exc) (λ w p. p) (λ u w h. h.1)
          (λ e w h. h))
        lease_lost_or_raise-Released
