-- ===== src/Launch/Create.antt =====
-- `create_scan` and `authorization_snapshot` of backend/app/api/scans.py.
use web_security_audit_platf.Prelude.{
  ℕ, String, not, Option, none, some, List, ◌∷◌, if◌then◌else◌, Result, ok, err, raise_if, ◌>>=◌,
  ◌>>◌,
}
use web_security_audit_platf.Contracts.{ScanProfile, queued, target_validation}
use web_security_audit_platf.RateLimits.{
  RateLimitError, RateScope, enforce_api_rate_limit, CallTime,
}
use web_security_audit_platf.Scans.Scan.{
  Scan, AuthorizationSnapshot, SnapshotValue, missing, text, known,
}
use web_security_audit_platf.Launch.{
  AuthenticatedPrincipal, ScanCreate, Target, RepositoryAsset, LaunchError, too_many_requests,
  invalid_subject, not_the_repository_profile, Tables, Database, Setting,
}
use web_security_audit_platf.Launch.Subjects.{
  get_target_for_scan, get_repository_asset_for_scan, validate_repository_asset_scope,
  compatibility_repository_asset, save_asset,
}
use web_security_audit_platf.Launch.Profiles.{
  resolve_scan_profile, require_acknowledgements, validate_web_scan_profile,
}

-- What is scanned: a web target with the fingerprint of its policy, or a repository with its path.
-- A repository that belongs to a target's path may be a new or a changed row.
pub data ScanSubject : Type 0 where
  web : Target → Option String → ScanSubject
  repository : RepositoryAsset → String → ScanSubject

-- A stored text, or None.
abbrev pub snapshot_value : Option String → SnapshotValue
snapshot_value none = missing
snapshot_value (some s) = text s

unfoldable pub authorization_snapshot : ScanSubject → AuthorizationSnapshot
authorization_snapshot (repository asset path) = record {
  subject_type = text "repository_asset";
  subject_id = text asset.id;
  relative_path = text asset.relative_path;
  target_url = missing;
  allowlist_id = missing;
  policy_fingerprint = missing;
  auth_profile_id = missing;
}
authorization_snapshot (web target fingerprint) = record {
  subject_type = text "web_target";
  subject_id = text target.id;
  relative_path = missing;
  target_url = text target.base_url;
  allowlist_id = text target.allowlist_id;
  policy_fingerprint = snapshot_value fingerprint;
  auth_profile_id = snapshot_value target.auth_profile_id;
}

abbrev pub subject_target_id : ScanSubject → Option String
subject_target_id (web target fingerprint) = some target.id
subject_target_id (repository asset path) = none

abbrev pub subject_asset_id : ScanSubject → Option String
subject_asset_id (web target fingerprint) = none
subject_asset_id (repository asset path) = some asset.id

abbrev pub subject_target_workspace : ScanSubject → Option String
subject_target_workspace (web target fingerprint) = some target.workspace_id
subject_target_workspace (repository asset path) = none

abbrev pub subject_asset_workspace : ScanSubject → Option String
subject_asset_workspace (web target fingerprint) = none
subject_asset_workspace (repository asset path) = some asset.workspace_id

abbrev pub subject_path : ScanSubject → Option String
subject_path (web target fingerprint) = none
subject_path (repository asset path) = some path

abbrev pub subject_fingerprint : ScanSubject → Option String
subject_fingerprint (web target fingerprint) = fingerprint
subject_fingerprint (repository asset path) = none

abbrev pub subject_auth_profile : ScanSubject → Option String
subject_auth_profile (web target fingerprint) = target.auth_profile_id
subject_auth_profile (repository asset path) = none

-- The columns that the handler leaves out have the defaults of the table.
unfoldable pub new_scan : Setting → ℕ → AuthenticatedPrincipal → ScanProfile → ScanSubject → Scan
new_scan setting now principal profile subject = record {
  id = setting.new_scan_id;
  workspace_id = principal.workspace_id;
  created_by_user_id = principal.user_id;
  target_id = subject_target_id subject;
  repository_asset_id = subject_asset_id subject;
  target_workspace_id = subject_target_workspace subject;
  repository_workspace_id = subject_asset_workspace subject;
  repo_path_snapshot = subject_path subject;
  target_policy_fingerprint = subject_fingerprint subject;
  authorization_snapshot = authorization_snapshot subject;
  auth_profile_id = subject_auth_profile subject;
  scan_profile_id = profile.id;
  mode = known profile.mode;
  status = queued;
  current_step = some target_validation;
  progress_percent = 0;
  error_code = none;
  created_at = now;
  started_at = none;
  completed_at = none;
  cancellation_requested_at = none;
  cancellation_requested_by_user_id = none;
  lease_owner = none;
  lease_expires_at = none;
  lease_heartbeat_at = none;
  attempt_count = 0;
}

module _ (setting : Setting) (now : ℕ) (tables : Tables) (principal : AuthenticatedPrincipal) where
  unfoldable pub repository_subject :
      ScanProfile → String → List RepositoryAsset → Result LaunchError ScanSubject
  repository_subject profile asset_id assets = do
    raise_if (not profile.requires_repo_path) not_the_repository_profile
    asset ← get_repository_asset_for_scan assets asset_id principal.workspace_id
    path ← validate_repository_asset_scope setting asset
    ok (repository asset path)

  unfoldable pub target_repository_subject :
      Target → List RepositoryAsset → Result LaunchError ScanSubject
  target_repository_subject target assets = do
    asset ← compatibility_repository_asset setting now principal target.repo_path assets
    path ← validate_repository_asset_scope setting asset
    ok (repository asset path)

  unfoldable pub web_subject : ScanProfile → Target → Result LaunchError ScanSubject
  web_subject profile target = do
    fingerprint ← validate_web_scan_profile setting profile target
    ok (web target fingerprint)

  unfoldable pub target_subject :
      ScanProfile → String → List RepositoryAsset → Result LaunchError ScanSubject
  target_subject profile target_id assets = do
    target ← get_target_for_scan tables target_id principal.workspace_id
    if profile.requires_repo_path
        then target_repository_subject target assets
        else web_subject profile target

  -- The branch on `repository_asset_id`, of a payload that has exactly one of the two.
  unfoldable pub find_subject :
      ScanProfile
      → Option String
      → Option String
      → List RepositoryAsset
      → Result LaunchError ScanSubject
  find_subject profile (some asset_id) none assets = repository_subject profile asset_id assets
  find_subject profile none (some target_id) assets = target_subject profile target_id assets
  find_subject profile none none assets = err invalid_subject
  find_subject profile (some asset_id) (some target_id) assets = err invalid_subject

  abbrev pub limit_checked : Result RateLimitError (Unit {0}) → Result LaunchError (Unit {0})
  limit_checked (ok u) = ok tt
  limit_checked (err e) = err too_many_requests

  -- The row of a new scan with its subject, after the rate limit.
  unfoldable pub launch :
      ScanCreate → List RepositoryAsset → Result LaunchError (ScanSubject × Scan)
  launch payload assets = do
    profile ← resolve_scan_profile payload
    require_acknowledgements profile payload.acknowledgements
    subject ← find_subject profile payload.repository_asset_id payload.target_id assets
    ok (subject, new_scan setting now principal profile subject)

  abbrev pub saved_assets : ScanSubject → List RepositoryAsset → List RepositoryAsset
  saved_assets (web target fingerprint) assets = assets
  saved_assets (repository asset path) assets = save_asset asset assets

  -- One transaction: what the handler raises rolls everything back but a refusal of the rate limit.
  unfoldable pub create_scan : ScanCreate → Database → Result LaunchError Scan × Database
  create_scan payload db =
      let scope : RateScope = record {
        workspace_id = principal.workspace_id;
        user_id = principal.user_id;
        action = "scan_create";
      } in
      let time : CallTime = record { started = now; checked = setting.rate_checked_at } in
      let enforced = enforce_api_rate_limit setting.scan_create_limit scope time db.rate_log in
      elim (limit_checked enforced.result >> launch payload db.assets) [
        | err e ↦ (err e, record db { rate_log = enforced.rolled_back })
        | ok (subject, scan) ↦ (
          ok scan,
          record db {
            rate_log = enforced.committed;
            assets = saved_assets subject db.assets;
            scans = scan ∷ db.scans;
          },
        )
      ]
