-- ===== src/Scans/JobParts.antt =====
-- The parts that the two jobs of lifecycle.py share: engines under a checkpoint, progress updates,
-- the persistence of the results, and the handler of unexpected errors.
use web_security_audit_platf.Prelude.{
  ℕ, String, Bool, true, false, Option, none, some, List, [], ◌∷◌, ◌++◌, if◌then◌else◌, Result, ok,
  err,
}
use web_security_audit_platf.Contracts.{
  ScanStatus, completed, completed_with_warnings, ScanStep, normalizing_findings,
}
use web_security_audit_platf.Findings.{NormalizedFindingInput}
use web_security_audit_platf.Scans.Scan.{Settings}
use web_security_audit_platf.Scans.Lease.{JobError, scan_lease_lost}
use web_security_audit_platf.Scans.Progress.{Progress}
use web_security_audit_platf.Scans.World.{Exec, pure, raise, lift, catch, ◌>>=◌, ◌>>◌, now}
use web_security_audit_platf.Scans.Steps.{
  checkpoint_scan_execution, update_scan_progress, lock_scan_for_owned_write, mark_scan_failed,
}

-- An engine: it calls the job's checkpoint a number of times, some under a handler that swallows
-- what it raises (`except ValueError` round a request of the crawl), and then returns or raises.
pub record Tool {ℓ} (A : Type ℓ) : Type ℓ where
  pub probes : List Bool
  pub outcome : Result JobError A

-- One write of another module: it succeeds, or raises and is rolled back.
unfoldable pub persist_normalized_findings :
    Result JobError (Unit {0}) → List NormalizedFindingInput → Exec (Unit {0})
persist_normalized_findings (ok u) fs w = (ok tt, record w { findings = w.findings ++ fs })
persist_normalized_findings (err e) fs w = (err e, w)

unfoldable pub persist_scan_risk_score : Result JobError (Unit {0}) → Exec (Unit {0})
persist_scan_risk_score (ok u) w = (ok tt, record w { risk_scored = true })
persist_scan_risk_score (err e) w = (err e, w)

-- The arguments of a progress update of a running job.
abbrev pub stage : ScanStatus → ScanStep → ℕ → Progress
stage status step percent = record {
  status = status;
  current_step = some step;
  progress_percent = percent;
  started_at = none;
  completed_at = none;
}

-- The arguments of the last one.
abbrev pub finish_at : ℕ → Bool → Progress
finish_at t warned = record {
  status = if warned then completed_with_warnings else completed;
  current_step = some normalizing_findings;
  progress_percent = 100;
  started_at = none;
  completed_at = some t;
}

abbrev pub is_nonempty {ℓ} : {A : Type ℓ} → List A → Bool
is_nonempty [] = false
is_nonempty (x ∷ xs) = true

module _ (settings : Settings) (expected : Option String) where
  unfoldable pub checkpoint : Exec (Unit {0})
  checkpoint = checkpoint_scan_execution settings expected

  unfoldable pub run_probes : List Bool → Exec (Unit {0})
  run_probes [] = pure tt
  run_probes (swallowed ∷ rest) = do
    if swallowed then catch checkpoint (λ e. pure tt) else checkpoint
    run_probes rest

  unfoldable pub run_tool {ℓ} : {A : Type ℓ} → Tool A → Exec A
  run_tool tool = do run_probes tool.probes; lift tool.outcome

  unfoldable pub update : Progress → Exec (Unit {0})
  update p = update_scan_progress settings expected p

  -- The end that both jobs share: findings, risk score and the last update.
  unfoldable pub record_results :
      Result JobError (Unit {0})
      → Result JobError (Unit {0})
      → List NormalizedFindingInput
      → Bool
      → Exec (Unit {0})
  record_results persist risk fs warned = do
    lock_scan_for_owned_write settings expected
    persist_normalized_findings persist fs
    lock_scan_for_owned_write settings expected
    persist_scan_risk_score risk
    checkpoint
    t ← now
    update (finish_at t warned)

-- `except ScanLeaseLostError` round `mark_scan_failed`.
unfoldable pub lease_lost_or_raise : JobError → Exec (Unit {0})
lease_lost_or_raise scan_lease_lost = pure tt
lease_lost_or_raise e = raise e

unfoldable pub fail_job : Settings → Option String → JobError → Exec (Unit {0})
unfolding lease_lost_or_raise
fail_job settings expected exc = catch (mark_scan_failed settings expected exc) lease_lost_or_raise
