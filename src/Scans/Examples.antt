-- ===== src/Scans/Examples.antt =====
-- A repository scan, its job and its rivals, on which the theorems are run.
use web_security_audit_platf.Prelude.{
  ℕ, ◌↔◌, ◌≡◌, ◌≢◌, refl, false, none, some, List, [], ◌∷◌, ok, arith,
}
use web_security_audit_platf.Contracts.{
  repo, validating, cancelled, failed, completed, target_validation,
}
use web_security_audit_platf.Scans.Scan.{
  Scan, Settings, known, text, missing, AuthorizationSnapshot,
}
use web_security_audit_platf.Scans.Lease.{set_failed, set_cancelled, assert_scan_ownership}
use web_security_audit_platf.Scans.Events.{
  Event, elapse, cancel_request, renewal, recovery, apply_event, apply_events,
}
use web_security_audit_platf.Scans.Invariant.{IsWellFormed}
use web_security_audit_platf.Scans.RowSteps.{
  cancelled_write, RowStep, by_other, by_job, apply_steps, apply_steps-IsWellFormed, IsExpired,
  stale-IsExpired,
}
use web_security_audit_platf.Scans.Ownership.{IsLost, apply_event-IsLost}
use web_security_audit_platf.Scans.Validation.{
  validate_scan_job, validate_repository_scan, validate_web_scan,
}
use web_security_audit_platf.Scans.ValidationLaws.{IsRunnableIn, validate_scan_job_iff}
use web_security_audit_platf.Scans.Progress.{set_progress, failure_code}
use web_security_audit_platf.Scans.World.{World, refresh, write, get_scan, now, ◌>>=◌, catch}
use web_security_audit_platf.Scans.Steps.{
  checkpoint_scan_execution, execution_checkpoint, check_scan_cancelled, honor_cancellation,
  mark_scan_cancelled, mark_scan_failed, update_scan_progress, persist_tool_receipts,
  lock_scan_for_owned_write, assert_owned, upsert_tool_runs,
}
use web_security_audit_platf.Scans.JobParts.{
  checkpoint, run_tool, run_probes, update, record_results, fail_job, persist_normalized_findings,
  persist_scan_risk_score,
}
use web_security_audit_platf.Scans.RepoJob.{
  RepoTools, RepoScanResult, repo_job, run_repo_scan_job, repo_body, repo_prepare, repo_scan,
  repo_record, handle_repo_error,
}
use web_security_audit_platf.Scans.JobInvariant.{run_repo_scan_job-IsWellFormed}
use web_security_audit_platf.Scans.Fencing.{IsFenced, repo_job-IsFenced}
use web_security_audit_platf.Scans.RepoRelease.{IsForeignTools, run_repo_scan_job-releases}

abbrev settings : Settings
settings = record { worker_id = "w1"; worker_lease_seconds = 60; scan_timeout_seconds = 600 }

abbrev snapshot : AuthorizationSnapshot
snapshot = record {
  subject_type = text "repository_asset";
  subject_id = text "asset-1";
  relative_path = text "demo";
  target_url = missing;
  allowlist_id = missing;
  policy_fingerprint = missing;
  auth_profile_id = missing;
}

-- Claimed by "w1" at time 100.
abbrev claimed_scan : Scan
claimed_scan = record {
  id = "scan-1";
  workspace_id = "ws-1";
  created_by_user_id = "user-1";
  target_id = none;
  repository_asset_id = some "asset-1";
  target_workspace_id = none;
  repository_workspace_id = some "ws-1";
  repo_path_snapshot = some "demo";
  target_policy_fingerprint = none;
  authorization_snapshot = snapshot;
  auth_profile_id = none;
  scan_profile_id = "repository";
  mode = known repo;
  status = validating;
  current_step = some target_validation;
  progress_percent = 5;
  error_code = none;
  created_at = 90;
  started_at = some 100;
  completed_at = none;
  cancellation_requested_at = none;
  cancellation_requested_by_user_id = none;
  lease_owner = some "w1";
  lease_expires_at = some 160;
  lease_heartbeat_at = some 100;
  attempt_count = 1;
}

abbrev scanned : RepoScanResult
scanned = record { findings = []; receipts = []; warning_codes = [] }

abbrev tools : RepoTools
tools = record {
  resolve_path = λ p. ok tt;
  artifact_dir = ok tt;
  staging = ok tt;
  scanners = record { probes = false ∷ []; outcome = ok scanned };
  persist = ok tt;
  risk = ok tt;
}

abbrev world_at : ℕ → Scan → List (List Event) → World
world_at clock row schedule = record {
  shared = record { clock = clock; row = row };
  schedule = schedule;
  signals = [];
  zap_locked = false;
  tool_runs = [];
  findings = [];
  risk_scored = false;
}

-- The API asks for cancellation at the job's first refresh.
abbrev interrupted : World
interrupted = world_at 101 claimed_scan ((cancel_request "user-1" ∷ []) ∷ [])

-- The lease has run out.
abbrev expired : World
expired = world_at 161 claimed_scan ((recovery ∷ []) ∷ [])

-- What a run of the job computes with.
job : Unit {0}
unfolding run_repo_scan_job repo_job repo_body repo_prepare repo_scan repo_record handle_repo_error
    checkpoint run_tool run_probes update record_results fail_job persist_normalized_findings
    persist_scan_risk_score checkpoint_scan_execution execution_checkpoint check_scan_cancelled
    honor_cancellation mark_scan_cancelled mark_scan_failed update_scan_progress
    persist_tool_receipts lock_scan_for_owned_write assert_owned assert_scan_ownership
    upsert_tool_runs refresh apply_events apply_event write get_scan now ◌>>=◌ catch set_progress
    set_cancelled set_failed failure_code validate_scan_job validate_repository_scan
    validate_web_scan
job = tt

job_tests :
    ((run_repo_scan_job settings tools (world_at 101 claimed_scan [])).1.shared.row.status
      ≡ completed)
    × ((run_repo_scan_job settings tools interrupted).1.shared.row.status ≡ cancelled)
    × ((run_repo_scan_job settings tools expired).1.shared.row.status ≡ failed)
unfolding job
job_tests = (refl, refl, refl)

claimed_scan-IsWellFormed : IsWellFormed claimed_scan
claimed_scan-IsWellFormed = ground arith

-- A cancellation is asked for, "w1" is too late with a write, and the lease is recovered.
abbrev late : List RowStep
late =
    by_other (cancel_request "user-1")
    ∷ by_job "w1" cancelled_write
    ∷ by_other (elapse 100)
    ∷ by_other recovery
    ∷ []

apply_steps-IsWellFormed_example : IsWellFormed (apply_steps settings late expired.shared).row
apply_steps-IsWellFormed_example =
    apply_steps-IsWellFormed settings late expired.shared (tt, (tt, (tt, (tt, tt))))
      claimed_scan-IsWellFormed

run_repo_scan_job-IsWellFormed_example :
    IsWellFormed (run_repo_scan_job settings tools interrupted).1.shared.row
run_repo_scan_job-IsWellFormed_example =
    run_repo_scan_job-IsWellFormed settings "w1" tools interrupted refl claimed_scan-IsWellFormed

expired-IsLost : IsLost "w1" expired.shared
expired-IsLost = record { unowned = refl; claimed = refl }

apply_event-IsLost_example : IsLost "w1" (apply_event settings (renewal "w1" none) expired.shared)
apply_event-IsLost_example =
    apply_event-IsLost settings "w1" (renewal "w1" none) expired.shared expired-IsLost

stale-IsExpired_example : IsExpired settings expired.shared
stale-IsExpired_example = stale-IsExpired settings expired.shared refl

repo_job-IsFenced_example :
    ((repo_job settings tools (some "w1") expired).0 ≡ ok tt)
    × IsFenced "w1" expired (repo_job settings tools (some "w1") expired).1
repo_job-IsFenced_example = repo_job-IsFenced settings "w1" tools expired expired-IsLost

tools-IsForeign : IsForeignTools tools
tools-IsForeign = record {
  resolve_path = λ p. tt;
  artifact_dir = tt;
  staging = tt;
  scanners = tt;
  persist = tt;
  risk = tt;
}

run_repo_scan_job-releases_example :
    ((run_repo_scan_job settings tools interrupted).0 ≡ ok tt)
    × IsLost "w1" (run_repo_scan_job settings tools interrupted).1.shared
run_repo_scan_job-releases_example =
    run_repo_scan_job-releases settings "w1" tools tools-IsForeign interrupted refl
      (record { claimed = refl; quiet = tt })

validate_scan_job_iff_example :
    (validate_scan_job claimed_scan ≡ ok tt)
    ↔ ((claimed_scan.created_by_user_id ≢ "") × IsRunnableIn claimed_scan.mode claimed_scan)
validate_scan_job_iff_example = validate_scan_job_iff claimed_scan
