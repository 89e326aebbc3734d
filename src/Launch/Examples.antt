-- ===== src/Launch/Examples.antt =====
-- A workspace with one web target and one repository, and scans of both.
use web_security_audit_platf.Prelude.{
  ◌≡◌, ◌≢◌, refl, String, true, false, Option, none, some, List, [], ◌∷◌, eq_iff, arith, Result, ok,
  err,
}
use web_security_audit_platf.Contracts.{scan_profile_for_id, passive}
use web_security_audit_platf.Security.Paths.{
  Text, path_is_within_scope, canonical_scope_path, has_invalid_percent, has_ambiguous_percent,
  split_slash, unquote, rstrip_slash,
}
use web_security_audit_platf.Security.Policy.{
  AllowlistTarget, http, system, host_gateway, scopeharbor_passive, get_target, allowed_modes,
}
use web_security_audit_platf.Security.Matching.{match_allowlisted_target}
use web_security_audit_platf.Security.Ssrf.{
  IpAddress, ipv4, octets, validate_ip_for_target, validate_ips, validate_destination,
  is_metadata_ip, is_never_allowed_internal_address, is_private_target_address,
  is_local_demo_network_address, is_loopback, is_link_local, is_multicast, is_reserved,
  is_unspecified,
}
use web_security_audit_platf.Security.Redirects.{lstrip, rstrip}
use web_security_audit_platf.RepoPaths.{
  FileSystem, resolve_stored_repo_path, validate_repo_path, parse_path, path_text, relative_to,
  reject_symlink_components_under_root, reject_symlinks,
}
use web_security_audit_platf.RateLimits.{enforce_api_rate_limit, ApiRateLimitLog}
use web_security_audit_platf.Scans.Scan.{Scan}
use web_security_audit_platf.Scans.Invariant.{IsWellFormed}
use web_security_audit_platf.Scans.Validation.{validate_scan_job}
use web_security_audit_platf.Scans.WebAuthority.{WebScanAuthority, load_web_scan_authority}
use web_security_audit_platf.Launch.{
  AuthenticatedPrincipal, ScanCreate, Target, LaunchError, Tables, Setting, Database,
  missing_acknowledgements, policy_changed, too_many_requests,
}
use web_security_audit_platf.Launch.Subjects.{
  get_target_for_scan, validate_repository_asset_scope, locked_profile,
  compatibility_repository_asset, save_asset,
}
use web_security_audit_platf.Launch.Profiles.{
  resolve_scan_profile, require_acknowledgements, validate_web_scan_profile, validate_scan_profile,
  revalidate_target_record,
}
use web_security_audit_platf.Launch.Create.{
  web, new_scan, launch, create_scan, find_subject, target_subject, web_subject,
  target_repository_subject,
}
use web_security_audit_platf.Launch.Created.{
  create_scan-validated, create_scan-authority, create_scan-failed, IsRolledBack,
}

abbrev host : Text
host = b'd' ∷ []

abbrev gateway : IpAddress
gateway = ipv4 (octets 172 20 0 1)

abbrev policy : AllowlistTarget
policy = record {
  id = "demo";
  scheme = http;
  hostname = host;
  port = 80;
  base_path = b'/' ∷ [];
  connection = host_gateway host 80 ((b'g' ∷ []) ∷ []);
  profile_engines = ("passive-web", scopeharbor_passive ∷ []) ∷ [];
  disposable_demo = true;
  trust = system;
  max_redirects = 3;
  retired_modes = [];
  legacy_mode_order = [];
}

abbrev file_system : FileSystem
file_system = record {
  resolve = λ p. p;
  is_symlink = λ p. false;
  exists = λ p. true;
  is_dir = λ p. true;
}

abbrev setting : Setting
setting = record {
  allowlist = policy ∷ [];
  fingerprint_of = λ p. "digest";
  base_url_of = λ p. "http://d/";
  normalize = λ s. some (record { scheme = http; host = host; port = 80; path = b'/' ∷ [] });
  parse = λ raw_ip. some gateway;
  resolve = λ connection. (b'g' ∷ []) ∷ [];
  file_system = file_system;
  repo_scan_root = record { absolute = true; parts = (b'r' ∷ []) ∷ [] };
  scan_create_limit = record { max_requests = 1; window_seconds = 60 };
  new_scan_id = "scan";
  rate_checked_at = 6;
  new_asset_id = "new asset";
}

abbrev principal : AuthenticatedPrincipal
principal = record { user_id = "user"; workspace_id = "work" }

abbrev target : Option String → Target
target recorded = record {
  id = "target";
  workspace_id = "work";
  allowlist_id = "demo";
  base_url = "http://d/";
  policy_fingerprint = recorded;
  policy_scope_base_url = some "http://d/";
  permission_confirmed = true;
  repo_path = some "app";
  auth_profile_id = none;
  archived_at = none;
}

abbrev tables : Option String → Tables
tables recorded = record {
  preliminary_targets = target recorded ∷ [];
  auth_profiles = [];
  targets = target recorded ∷ [];
}

abbrev db : Database
db = record { assets = []; scans = []; rate_log = [] }

abbrev payload : String → List String → ScanCreate
payload id acknowledgements = record {
  target_id = some "target";
  repository_asset_id = none;
  scan_profile_id = id;
  acknowledgements = acknowledgements;
}

abbrev current : Tables
current = tables (some "digest")

abbrev web_payload : ScanCreate
web_payload = payload "passive-web" ("authorized_target" ∷ [])

steps : Unit {0}
unfolding create_scan launch find_subject target_subject web_subject target_repository_subject
    get_target_for_scan locked_profile resolve_scan_profile scan_profile_for_id
    require_acknowledgements validate_web_scan_profile validate_scan_profile
    revalidate_target_record get_target allowed_modes match_allowlisted_target
    compatibility_repository_asset validate_repository_asset_scope save_asset
    resolve_stored_repo_path validate_repo_path parse_path path_text relative_to
    reject_symlink_components_under_root reject_symlinks lstrip rstrip enforce_api_rate_limit
    validate_ip_for_target validate_ips validate_destination is_metadata_ip
    is_never_allowed_internal_address is_private_target_address is_local_demo_network_address
    is_loopback is_link_local is_multicast is_reserved is_unspecified path_is_within_scope
    canonical_scope_path has_invalid_percent has_ambiguous_percent split_slash unquote rstrip_slash
steps = tt

abbrev outcome : Tables → ScanCreate → Result LaunchError Scan × Database
outcome at_read request = create_scan setting 5 at_read principal request db

abbrev passive_scan : Scan
passive_scan =
    new_scan setting 5 principal
      (record {
        id = "passive-web";
        mode = passive;
        required_acknowledgements = "authorized_target" ∷ [];
        requires_repo_path = false;
        local_demo_only = false;
        reports_enabled = true;
        ai_enabled = true;
      })
      (web (target (some "digest")) (some "digest"))

abbrev logged : ApiRateLimitLog
logged = record {
  scope = record { workspace_id = "work"; user_id = "user"; action = "scan_create" };
  allowed = true;
  created_at = 5;
}

abbrev after : Database
after = record { assets = []; scans = passive_scan ∷ []; rate_log = logged ∷ [] }

-- The rate limit refuses a second scan.
abbrev refused : Database
refused = record after { rate_log = record logged { allowed = false } ∷ logged ∷ [] }

create_tests :
    (create_scan setting 5 current principal web_payload db ≡ (ok passive_scan, after))
    × ((outcome current (payload "passive-web" [])).0 ≡ err missing_acknowledgements)
    × (create_scan setting 5 (tables (some "old digest")) principal web_payload db
        ≡ (err policy_changed, db))
    × (create_scan setting 5 current principal web_payload after ≡ (err too_many_requests, refused))
unfolding steps
create_tests = (refl, refl, refl, refl)

user_named : principal.user_id ≢ ""
user_named = ground (arith, eq_iff principal.user_id "")

is_web : passive_scan.target_id ≢ none
unfolding new_scan
is_web = ground arith

create_scan-validated_example :
    (after.scans ≡ passive_scan ∷ db.scans)
    × (passive_scan.workspace_id ≡ principal.workspace_id)
    × IsWellFormed passive_scan
    × (validate_scan_job passive_scan ≡ ok tt)
create_scan-validated_example =
    create_scan-validated setting 5 current principal web_payload db after passive_scan user_named
      create_tests.0

create_scan-authority_example :
    (authority : WebScanAuthority) × (load_web_scan_authority setting.fingerprint_of passive_scan
        setting.allowlist
      ≡ ok authority)
    × (passive_scan.target_id ≡ some authority.target_id)
create_scan-authority_example =
    create_scan-authority setting 5 current principal web_payload db after passive_scan
      create_tests.0 is_web

create_scan-failed_example :
    (refused.scans ≡ after.scans)
    × ((refused.assets ≡ after.assets)
        × IsRolledBack setting 5 current principal after refused too_many_requests)
create_scan-failed_example =
    create_scan-failed setting 5 current principal web_payload after refused too_many_requests
      create_tests.3
