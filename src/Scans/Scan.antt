-- ===== src/Scans/Scan.antt =====
-- A row of the scans table (the class Scan of backend/app/models.py): the columns that
-- lifecycle.py reads or writes. `status_message` is text for people and is left out.
-- Times are seconds.
use web_security_audit_platf.Prelude.{ℕ, String, Bool, true, false, Option}
use web_security_audit_platf.Contracts.{
  ScanMode, passive, active_demo, modern_web_crawl, ajax_short, repo, ScanStatus, queued,
  validating, running, normalizing, completed, completed_with_warnings, failed, cancelled, ScanStep,
}

-- The mode column is a plain string: a known mode, or any other text.
pub data StoredMode : Type 0 where
  known : ScanMode → StoredMode
  unknown : String → StoredMode

-- A value of the JSON column `authorization_snapshot`, as `.get(key)` returns it.
pub data SnapshotValue : Type 0 where
  missing : SnapshotValue
  text : String → SnapshotValue
  not_text : SnapshotValue

pub record AuthorizationSnapshot : Type 0 where
  pub subject_type : SnapshotValue
  pub subject_id : SnapshotValue
  pub relative_path : SnapshotValue
  pub target_url : SnapshotValue
  pub allowlist_id : SnapshotValue
  pub policy_fingerprint : SnapshotValue
  pub auth_profile_id : SnapshotValue

pub record Scan : Type 0 where
  pub id : String
  pub workspace_id : String
  pub created_by_user_id : String
  pub target_id : Option String
  pub repository_asset_id : Option String
  -- the workspace of the related target or repository row, if that row exists
  pub target_workspace_id : Option String
  pub repository_workspace_id : Option String
  pub repo_path_snapshot : Option String
  pub target_policy_fingerprint : Option String
  pub authorization_snapshot : AuthorizationSnapshot
  pub auth_profile_id : Option String
  pub scan_profile_id : String
  pub mode : StoredMode
  pub status : ScanStatus
  pub current_step : Option ScanStep
  pub progress_percent : ℕ
  pub error_code : Option String
  pub created_at : ℕ
  pub started_at : Option ℕ
  pub completed_at : Option ℕ
  pub cancellation_requested_at : Option ℕ
  pub cancellation_requested_by_user_id : Option String
  pub lease_owner : Option String
  pub lease_expires_at : Option ℕ
  pub lease_heartbeat_at : Option ℕ
  pub attempt_count : ℕ

-- `status in LEASED_SCAN_STATUSES`
abbrev pub is_leased_status : ScanStatus → Bool
is_leased_status validating = true
is_leased_status running = true
is_leased_status normalizing = true
is_leased_status _ = false

-- `status in terminal_statuses`
abbrev pub is_terminal_status : ScanStatus → Bool
is_terminal_status completed = true
is_terminal_status completed_with_warnings = true
is_terminal_status failed = true
is_terminal_status cancelled = true
is_terminal_status _ = false

abbrev pub is_queued_status : ScanStatus → Bool
is_queued_status queued = true
is_queued_status _ = false

abbrev pub is_cancelled_status : ScanStatus → Bool
is_cancelled_status cancelled = true
is_cancelled_status _ = false

abbrev pub has_mode : ScanMode → StoredMode → Bool
has_mode m (unknown s) = false
has_mode passive (known passive) = true
has_mode active_demo (known active_demo) = true
has_mode modern_web_crawl (known modern_web_crawl) = true
has_mode ajax_short (known ajax_short) = true
has_mode repo (known repo) = true
has_mode _ (known _) = false

-- The settings that the lifecycle reads.
pub record Settings : Type 0 where
  pub worker_id : String
  pub worker_lease_seconds : ℕ
  pub scan_timeout_seconds : ℕ
