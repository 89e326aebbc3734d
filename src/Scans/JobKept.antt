-- ===== src/Scans/JobKept.antt =====
-- What other processes and owned writes keep, a whole job keeps.
use web_security_audit_platf.Prelude.{
  ℕ, inr, String, refl, Bool, true, false, some, List, [], ◌∷◌, Result, ok, err, arith,
}
use web_security_audit_platf.Findings.{NormalizedFindingInput}
use web_security_audit_platf.Scans.Scan.{Settings}
use web_security_audit_platf.Scans.Lease.{JobError, scan_lease_lost}
use web_security_audit_platf.Scans.Progress.{Progress}
use web_security_audit_platf.Scans.Events.{Shared}
use web_security_audit_platf.Scans.Steps.{lock_scan_for_owned_write}
use web_security_audit_platf.Scans.JobParts.{
  Tool, persist_normalized_findings, persist_scan_risk_score, finish_at, checkpoint, run_probes,
  run_tool, update, record_results, lease_lost_or_raise, fail_job,
}
use web_security_audit_platf.Scans.Triples.{Keeps, keeps_rules, Keeps-bind, Keeps-catch}
use web_security_audit_platf.Scans.Kept.{
  IsCoherent, OfShared, IsKeptBy, lock-Keeps, update_scan_progress-Keeps, mark_scan_failed-Keeps,
  checkpoint-Keeps,
}

module _ (settings : Settings) (worker : String) {P : Shared → Type 0}
    (kept : IsKeptBy settings worker P) where
  check : Keeps (OfShared P) (checkpoint settings (some worker))
  check = checkpoint-Keeps settings worker kept

  run_probes-Keeps :
      (probes : List Bool) → Keeps (OfShared P) (run_probes settings (some worker) probes)
  unfolding run_probes
  run_probes-Keeps [] = search keeps_rules
  run_probes-Keeps (b ∷ bs) =
      Keeps-bind _ _ (search (keeps_rules, check)) (λ u. run_probes-Keeps bs)

  pub run_tool-Keeps {ℓ} :
      {A : Type ℓ} (tool : Tool A) → Keeps (OfShared P) (run_tool settings (some worker) tool)
  unfolding run_tool
  run_tool-Keeps tool = search (keeps_rules, run_probes-Keeps)

  pub update-Keeps :
      (p : Progress) → IsCoherent p → Keeps (OfShared P) (update settings (some worker) p)
  unfolding update
  update-Keeps p c = update_scan_progress-Keeps settings worker kept p c

  persist_normalized_findings-Keeps :
      (r : Result JobError (Unit {0})) (fs : List NormalizedFindingInput)
      → Keeps (OfShared P) (persist_normalized_findings r fs)
  unfolding persist_normalized_findings
  persist_normalized_findings-Keeps (ok u) fs = record { at = λ w p. p }
  persist_normalized_findings-Keeps (err e) fs = record { at = λ w p. p }

  persist_scan_risk_score-Keeps :
      (r : Result JobError (Unit {0})) → Keeps (OfShared P) (persist_scan_risk_score r)
  unfolding persist_scan_risk_score
  persist_scan_risk_score-Keeps (ok u) = record { at = λ w p. p }
  persist_scan_risk_score-Keeps (err e) = record { at = λ w p. p }

  finish_at-IsCoherent : (t : ℕ) (warned : Bool) → IsCoherent (finish_at t warned)
  finish_at-IsCoherent t true = inr (refl, refl, omega arith)
  finish_at-IsCoherent t false = inr (refl, refl, omega arith)

  finish-Keeps :
      (t : ℕ) (warned : Bool)
      → Keeps (OfShared P) (update settings (some worker) (finish_at t warned))
  finish-Keeps t warned = update-Keeps _ (finish_at-IsCoherent t warned)

  lock : Keeps (OfShared P) (lock_scan_for_owned_write settings (some worker))
  lock = lock-Keeps settings worker kept

  pub record_results-Keeps :
      (persist risk : Result JobError (Unit {0})) (fs : List NormalizedFindingInput) (warned : Bool)
      → Keeps (OfShared P) (record_results settings (some worker) persist risk fs warned)
  unfolding record_results
  record_results-Keeps persist risk fs warned = Keeps-bind _ _ lock (λ u.
      Keeps-bind _ _ (persist_normalized_findings-Keeps persist fs) (λ u. Keeps-bind _ _ lock (λ u.
        Keeps-bind _ _ (persist_scan_risk_score-Keeps risk)
          (λ u. Keeps-bind _ _ check (λ u. search (keeps_rules, finish-Keeps))))))

  lease_lost_or_raise-Keeps : (e : JobError) → Keeps (OfShared P) (lease_lost_or_raise e)
  unfolding lease_lost_or_raise
  lease_lost_or_raise-Keeps scan_lease_lost = search keeps_rules
  lease_lost_or_raise-Keeps _ = search keeps_rules

  pub fail_job-Keeps : (e : JobError) → Keeps (OfShared P) (fail_job settings (some worker) e)
  unfolding fail_job
  fail_job-Keeps e =
      Keeps-catch _ _ (mark_scan_failed-Keeps settings worker kept e) lease_lost_or_raise-Keeps
