-- ===== src/Scans/WebAuthority.antt =====
-- `load_web_scan_authority`, `load_scan_auth_headers` and the authorization checks of
-- `run_passive_scan_job`: lifecycle.py.
use web_security_audit_platf.Prelude.{
  String, Bool, true, false, not, ◌&&◌, ◌||◌, Option, none, some, List, any, str_eq, opt_str_eq,
  is_none, if◌then◌else◌, Result, ok, err, raise_if, ◌>>=◌, ◌>>◌,
}
use web_security_audit_platf.Contracts.{active_demo, modern_web_crawl}
use web_security_audit_platf.Security.Policy.{
  ScanEngine, scopeharbor_passive, zap_passive, zap_active, zap_client_spider, has_engine,
  is_zap_engine, AllowlistTarget, engines_for_profile, get_target,
}
use web_security_audit_platf.Scans.Scan.{Scan, SnapshotValue, text, not_text, has_mode}
use web_security_audit_platf.Scans.Lease.{JobError, lifecycle_error}
use web_security_audit_platf.Scans.Progress.{is_truthy}
use web_security_audit_platf.Scans.Validation.{snapshot_eq}

pub record WebScanAuthority : Type 0 where
  pub target_id : String
  pub target_url : String
  pub allowlist_id : String
  pub policy_fingerprint : String
  pub allowlist_target : AllowlistTarget

-- `isinstance(value, str)`, with the string.
abbrev pub as_text : SnapshotValue → Option String
as_text (text s) = some s
as_text _ = none

-- `value is not None and not isinstance(value, str)`
abbrev pub is_malformed : SnapshotValue → Bool
is_malformed not_text = true
is_malformed _ = false

abbrev pub require_text : SnapshotValue → Result JobError String
require_text (text s) = ok s
require_text _ = err (lifecycle_error none)

-- A policy of that id, if its fingerprint is still the recorded one.
abbrev pub unchanged_policy :
    (AllowlistTarget → String) → String → Option AllowlistTarget → Result JobError AllowlistTarget
unchanged_policy fingerprint_of fingerprint none = err (lifecycle_error none)
unchanged_policy fingerprint_of fingerprint (some policy) =
    if str_eq (fingerprint_of policy) fingerprint then ok policy else err (lifecycle_error none)

-- `policy_fingerprint`, a digest of the policy, is a parameter.
unfoldable pub load_web_scan_authority :
    (AllowlistTarget → String) → Scan → List AllowlistTarget → Result JobError WebScanAuthority
load_web_scan_authority fingerprint_of scan targets = do
  let snapshot = scan.authorization_snapshot
  target_id ← require_text snapshot.subject_id
  target_url ← require_text snapshot.target_url
  allowlist_id ← require_text snapshot.allowlist_id
  fingerprint ← require_text snapshot.policy_fingerprint
  raise_if (is_malformed snapshot.auth_profile_id) (lifecycle_error none)
  raise_if
      (not (opt_str_eq (some target_id) scan.target_id)
        || not (opt_str_eq (some fingerprint) scan.target_policy_fingerprint))
      (lifecycle_error none)
  raise_if (not (snapshot_eq snapshot.auth_profile_id scan.auth_profile_id)) (lifecycle_error none)
  policy ← unchanged_policy fingerprint_of fingerprint (get_target allowlist_id targets)
  ok (record {
    target_id = target_id;
    target_url = target_url;
    allowlist_id = allowlist_id;
    policy_fingerprint = fingerprint;
    allowlist_target = policy;
  })

-- What the query and the decryption of an auth profile give.
pub data AuthLookup : Type 0 where
  no_profile invalid_profile headers : AuthLookup

abbrev pub auth_headers : AuthLookup → Result JobError (Unit {0})
auth_headers no_profile = err (lifecycle_error none)
auth_headers invalid_profile = err (lifecycle_error (some "auth_profile_invalid"))
auth_headers headers = ok tt

unfoldable pub load_scan_auth_headers : AuthLookup → Scan → Result JobError (Unit {0})
load_scan_auth_headers found scan =
    if is_none scan.auth_profile_id then ok tt else auth_headers found

-- What a profile with a ZAP engine of its own needs.
unfoldable pub check_zap_profile :
    ScanEngine → AllowlistTarget → List ScanEngine → Option String → Result JobError (Unit {0})
check_zap_profile engine target engines zap_base_url = do
  raise_if (not target.disposable_demo) (lifecycle_error none)
  raise_if (not (has_engine engine engines)) (lifecycle_error none)
  raise_if (not (is_truthy zap_base_url)) (lifecycle_error none)

-- The tests between the authority and the first progress update; they give the engines.
unfoldable pub authorize_engines :
    AuthLookup → Option String → Scan → AllowlistTarget → Result JobError (List ScanEngine)
unfolding check_zap_profile load_scan_auth_headers
authorize_engines found zap_base_url scan target = do
  let engines = engines_for_profile target scan.scan_profile_id
  raise_if (not (has_engine scopeharbor_passive engines)) (lifecycle_error none)
  raise_if (any is_zap_engine engines && not target.disposable_demo) (lifecycle_error none)
  load_scan_auth_headers found scan
  if has_mode active_demo scan.mode
      then check_zap_profile zap_active target engines zap_base_url
      else ok tt
  if has_mode modern_web_crawl scan.mode
      then check_zap_profile zap_client_spider target engines zap_base_url
      else ok tt
  raise_if (has_engine zap_passive engines && not (is_truthy zap_base_url)) (lifecycle_error none)
  ok engines
