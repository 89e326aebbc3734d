-- ===== src/Scans/JobInvariant.antt =====
-- The columns of a scan agree with its status through a whole job.
use web_security_audit_platf.Prelude.{ℕ, String, ◌≡◌, true, some, arith}
use web_security_audit_platf.Scans.Scan.{Scan, Settings}
use web_security_audit_platf.Scans.Lease.{owns}
use web_security_audit_platf.Scans.Progress.{Progress, set_progress}
use web_security_audit_platf.Scans.Invariant.{
  IsWellFormed, set_cancelled-IsWellFormed, set_failed-IsWellFormed, apply_event-IsWellFormed,
}
use web_security_audit_platf.Scans.World.{World}
use web_security_audit_platf.Scans.RepoJob.{RepoTools, run_repo_scan_job}
use web_security_audit_platf.Scans.Kept.{IsCoherent, IsKeptBy}
use web_security_audit_platf.Scans.RepoKept.{run_repo_scan_job-keeps}

pub set_progress-IsWellFormed :
    (settings : Settings) (worker : String) (now : ℕ) (p : Progress) (row : Scan)
    → IsCoherent p
    → IsWellFormed row
    → owns worker now row ≡ true
    → IsWellFormed (set_progress settings now p row)
unfolding set_progress
set_progress-IsWellFormed settings worker now p row c h o = ground arith

pub IsWellFormed-kept :
    (settings : Settings) (worker : String) → IsKeptBy settings worker (λ s. IsWellFormed s.row)
IsWellFormed-kept settings worker = record {
  stable = apply_event-IsWellFormed settings;
  progress = λ s p c h o. set_progress-IsWellFormed settings worker s.clock p s.row c h o;
  cancelled = λ s h o. set_cancelled-IsWellFormed s.clock s.row h;
  failed = λ s code h o. set_failed-IsWellFormed s.clock code s.row h;
}

-- A repository job, from a well-formed row that its worker has leased, leaves a well-formed row,
-- whatever its tools return or raise and whatever other processes do meanwhile.
pub run_repo_scan_job-IsWellFormed :
    (settings : Settings) (worker : String) (tools : RepoTools) (w : World)
    → w.shared.row.lease_owner ≡ some worker
    → IsWellFormed w.shared.row
    → IsWellFormed (run_repo_scan_job settings tools w).1.shared.row
run_repo_scan_job-IsWellFormed settings worker tools w mine h =
    run_repo_scan_job-keeps settings worker (IsWellFormed-kept settings worker) tools w mine h
