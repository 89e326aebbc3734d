-- ===== src/Launch.antt =====
-- `create_scan` of backend/app/api/scans.py: the rows it reads and what it needs besides. Names and
-- status messages are texts for people and are left out, and so is the audit event.
use web_security_audit_platf.Prelude.{ℕ, String, Bool, Option, List}
use web_security_audit_platf.Security.Paths.{Text}
use web_security_audit_platf.Security.Policy.{AllowlistTarget, ConnectionPolicy}
use web_security_audit_platf.Security.Ssrf.{IpAddress, UrlParts}
use web_security_audit_platf.RepoPaths.{FileSystem, PosixPath}
use web_security_audit_platf.RateLimits.{RateLimit, ApiRateLimitLog}
use web_security_audit_platf.Scans.Scan.{Scan}
pub mod Subjects
pub mod Profiles
pub mod Create
pub mod Accepted
pub mod Current
pub mod Runnable
pub mod Worker
pub mod Created
mod Examples

pub record AuthenticatedPrincipal : Type 0 where
  pub user_id : String
  pub workspace_id : String

pub record ScanCreate : Type 0 where
  pub target_id : Option String
  pub repository_asset_id : Option String
  pub scan_profile_id : String
  pub acknowledgements : List String

pub record AuthProfile : Type 0 where
  pub id : String
  pub workspace_id : String
  pub revoked_at : Option ℕ

pub record Target : Type 0 where
  pub id : String
  pub workspace_id : String
  pub allowlist_id : String
  pub base_url : String
  pub policy_fingerprint : Option String
  pub policy_scope_base_url : Option String
  pub permission_confirmed : Bool
  pub repo_path : Option String
  pub auth_profile_id : Option String
  pub archived_at : Option ℕ

pub record RepositoryAsset : Type 0 where
  pub id : String
  pub workspace_id : String
  pub created_by_user_id : String
  pub relative_path : String
  pub permission_confirmed : Bool
  pub authorization_confirmed_at : Option ℕ
  pub archived_at : Option ℕ
  pub archived_by_user_id : Option String

-- An HTTPException, named for its detail.
pub data LaunchError : Type 0 where
  too_many_requests invalid_subject unsupported_profile missing_acknowledgements : LaunchError
  not_the_repository_profile asset_not_found asset_unconfirmed bad_repository_path : LaunchError
  target_not_found authorization_changed auth_profile_unavailable target_unconfirmed : LaunchError
  no_repository_path profile_not_allowed local_demo_only auth_profile_unsupported : LaunchError
  target_no_longer_matches repository_asset_required policy_changed : LaunchError

-- What the tables hold at the reads of the handler: other transactions may commit between the
-- first read of a target and the row locks on its auth profile and on itself.
pub record Tables : Type 0 where
  pub preliminary_targets : List Target
  pub auth_profiles : List AuthProfile
  pub targets : List Target

-- The rows that the handler writes.
pub record Database : Type 0 where
  pub assets : List RepositoryAsset
  pub scans : List Scan
  pub rate_log : List ApiRateLimitLog

-- Settings, the allowlist and the outside world. `fingerprint_of` and `base_url_of` are the digest and the
-- text of a policy's URL; `new_scan_id` and `new_asset_id` are what `uuid4` gives.
pub record Setting : Type 0 where
  pub allowlist : List AllowlistTarget
  pub fingerprint_of : AllowlistTarget → String
  pub base_url_of : AllowlistTarget → String
  pub normalize : String → Option UrlParts
  pub parse : Text → Option IpAddress
  pub resolve : ConnectionPolicy → List Text
  pub file_system : FileSystem
  pub repo_scan_root : PosixPath
  pub scan_create_limit : RateLimit
  pub new_scan_id : String
  pub rate_checked_at : ℕ  -- the time of the rate limit's check
  pub new_asset_id : String
