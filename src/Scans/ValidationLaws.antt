-- ===== src/Scans/ValidationLaws.antt =====
-- `validate_scan_job` against a description of a runnable scan.
use web_security_audit_platf.Prelude.{
  ◌≡◌, ◌≢◌, ◌↔◌, String, true, Option, none, some, arith, eq_iff, opt_str_eq_iff, ok, refl,
}
use web_security_audit_platf.Contracts.{passive, active_demo, modern_web_crawl, ajax_short, repo}
use web_security_audit_platf.Scans.Scan.{
  Scan, StoredMode, known, unknown, SnapshotValue, missing, text, not_text,
}
use web_security_audit_platf.Scans.Progress.{is_truthy}
use web_security_audit_platf.Scans.Validation.{
  validate_scan_job, validate_repository_scan, validate_web_scan, snapshot_eq,
}

-- The snapshot records this value, or nothing where there is none.
abbrev pub Records : SnapshotValue → Option String → Type 0
Records v none = v ≡ missing
Records v (some s) = v ≡ text s

truthy_iff : (o : Option String) → (is_truthy o ≡ true) ↔ ((o ≢ none) × (o ≢ some ""))
truthy_iff none = ground arith
truthy_iff (some s) = ground (arith, eq_iff s "")

snapshot_eq_iff : (v : SnapshotValue) (o : Option String) → (snapshot_eq v o ≡ true) ↔ Records v o
snapshot_eq_iff missing none = ground arith
snapshot_eq_iff missing (some s) = ground arith
snapshot_eq_iff (text t) none = ground arith
snapshot_eq_iff (text t) (some s) = ground (arith, eq_iff t s)
snapshot_eq_iff not_text none = ground arith
snapshot_eq_iff not_text (some s) = ground arith

-- The repository row is in the scan's workspace, and the snapshot records that repository and the
-- path that will be scanned.
pub record RecordsRepository (scan : Scan) : Type 0 where
  pub workspace : scan.repository_workspace_id ≡ some scan.workspace_id
  pub path_present : scan.repo_path_snapshot ≢ none
  pub path_nonempty : scan.repo_path_snapshot ≢ some ""
  pub subject_type : scan.authorization_snapshot.subject_type ≡ text "repository_asset"
  pub subject : Records scan.authorization_snapshot.subject_id scan.repository_asset_id
  pub path : Records scan.authorization_snapshot.relative_path scan.repo_path_snapshot

-- The target row is in the scan's workspace, and the snapshot records that target.
pub record RecordsTarget (scan : Scan) : Type 0 where
  pub workspace : scan.target_workspace_id ≡ some scan.workspace_id
  pub subject_type : scan.authorization_snapshot.subject_type ≡ text "web_target"
  pub subject : Records scan.authorization_snapshot.subject_id scan.target_id

-- Which subject each mode runs on, and that only a passive scan uses an auth profile.
abbrev pub IsRunnableIn : StoredMode → Scan → Type 0
IsRunnableIn (known passive) scan = RecordsTarget scan
IsRunnableIn (known active_demo) scan = RecordsTarget scan × (scan.auth_profile_id ≡ none)
IsRunnableIn (known modern_web_crawl) scan = RecordsTarget scan × (scan.auth_profile_id ≡ none)
IsRunnableIn (known repo) scan = RecordsRepository scan × (scan.auth_profile_id ≡ none)
IsRunnableIn (known ajax_short) scan = ⊥
IsRunnableIn (unknown s) scan = ⊥

validate_repository_scan_iff :
    (scan : Scan) → (validate_repository_scan scan ≡ ok tt) ↔ RecordsRepository scan
unfolding validate_repository_scan
validate_repository_scan_iff scan = ground (
  arith,
  opt_str_eq_iff (some scan.workspace_id) scan.repository_workspace_id,
  snapshot_eq_iff scan.authorization_snapshot.subject_type (some "repository_asset"),
  snapshot_eq_iff scan.authorization_snapshot.subject_id scan.repository_asset_id,
  snapshot_eq_iff scan.authorization_snapshot.relative_path scan.repo_path_snapshot,
  truthy_iff scan.repo_path_snapshot,
)

validate_web_scan_iff : (scan : Scan) → (validate_web_scan scan ≡ ok tt) ↔ RecordsTarget scan
unfolding validate_web_scan
validate_web_scan_iff scan = ground (
  arith,
  opt_str_eq_iff (some scan.workspace_id) scan.target_workspace_id,
  snapshot_eq_iff scan.authorization_snapshot.subject_type (some "web_target"),
  snapshot_eq_iff scan.authorization_snapshot.subject_id scan.target_id,
)

validate_scan_job_in :
    (m : StoredMode) (scan : Scan)
    → scan.mode ≡ m
    → (validate_scan_job scan ≡ ok tt) ↔ ((scan.created_by_user_id ≢ "") × IsRunnableIn m scan)
unfolding validate_scan_job
validate_scan_job_in (unknown s) scan e = ground arith
validate_scan_job_in (known ajax_short) scan e = ground arith
validate_scan_job_in (known repo) scan e =
    ground (arith, eq_iff scan.created_by_user_id "", validate_repository_scan_iff scan)
validate_scan_job_in (known m) scan e =
    ground (arith, eq_iff scan.created_by_user_id "", validate_web_scan_iff scan)

-- The job's validation accepts exactly the scans with a creator, a supported mode, a subject in
-- their own workspace that the immutable snapshot records, and an auth profile only if passive.
pub validate_scan_job_iff :
    (scan : Scan)
    → (validate_scan_job scan ≡ ok tt)
      ↔ ((scan.created_by_user_id ≢ "") × IsRunnableIn scan.mode scan)
validate_scan_job_iff scan = validate_scan_job_in scan.mode scan refl
