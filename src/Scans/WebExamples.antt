-- ===== src/Scans/WebExamples.antt =====
-- A web scan of a demo target, its policy and its job, on which the theorems are run.
use web_security_audit_platf.Prelude.{
  ◌≡◌, ◌≢◌, ◌⊎◌, ◌&&◌, inr, refl, true, false, not, any, none, some, [], ◌∷◌, inl, ok, String,
  arith,
}
use web_security_audit_platf.Contracts.{
  scan_profile_for_id, active_demo, validating, target_validation,
}
use web_security_audit_platf.Security.Paths.{Text}
use web_security_audit_platf.Security.Policy.{
  AllowlistTarget, http, system, compose_service, scopeharbor_passive, zap_passive, zap_active,
  is_zap_engine, is_subset, required_engines, validate_profile_engines, validate_engines,
  validate_policy, engines_for_profile, has_duplicate, allowed_engines, lookup_engines, get_target,
}
use web_security_audit_platf.Security.PolicyLaws.{engines_for_profile_validated}
use web_security_audit_platf.Scans.Scan.{
  Scan, Settings, known, text, missing, AuthorizationSnapshot,
}
use web_security_audit_platf.Scans.Events.{cancel_request}
use web_security_audit_platf.Scans.Invariant.{IsWellFormed}
use web_security_audit_platf.Scans.Ownership.{IsLost}
use web_security_audit_platf.Scans.World.{World}
use web_security_audit_platf.Scans.WebAuthority.{
  WebScanAuthority, no_profile, load_web_scan_authority, load_scan_auth_headers, authorize_engines,
}
use web_security_audit_platf.Scans.WebJob.{WebTools, EngineResult, web_job, run_passive_scan_job}
use web_security_audit_platf.Scans.WebLaws.{
  IsRecordedIn, MatchesProfile, load_web_scan_authority-IsRecordedIn, authorize_engines_validated,
}
use web_security_audit_platf.Scans.WebKept.{run_passive_scan_job-IsWellFormed}
use web_security_audit_platf.Scans.Fencing.{IsFenced}
use web_security_audit_platf.Scans.WebFencing.{web_job-IsFenced}
use web_security_audit_platf.Scans.WebForeign.{IsForeignTools}
use web_security_audit_platf.Scans.WebRelease.{run_passive_scan_job-releases}

abbrev settings : Settings
settings = record { worker_id = "w1"; worker_lease_seconds = 60; scan_timeout_seconds = 600 }

abbrev demo_host : Text
demo_host = b'd' ∷ b'e' ∷ b'm' ∷ b'o' ∷ []

abbrev demo_target : AllowlistTarget
demo_target = record {
  id = "demo";
  scheme = http;
  hostname = demo_host;
  port = 80;
  base_path = b'/' ∷ [];
  connection = compose_service demo_host 80;
  profile_engines = ("active-demo", scopeharbor_passive ∷ zap_passive ∷ zap_active ∷ []) ∷ [];
  disposable_demo = true;
  trust = system;
  max_redirects = 3;
  retired_modes = [];
  legacy_mode_order = [];
}

-- In place of the digest.
abbrev name_of : AllowlistTarget → String
name_of target = target.id

abbrev snapshot : AuthorizationSnapshot
snapshot = record {
  subject_type = text "web_target";
  subject_id = text "target-1";
  relative_path = missing;
  target_url = text "http://demo/";
  allowlist_id = text "demo";
  policy_fingerprint = text "demo";
  auth_profile_id = missing;
}

abbrev web_scan : Scan
web_scan = record {
  id = "scan-2";
  workspace_id = "ws-1";
  created_by_user_id = "user-1";
  target_id = some "target-1";
  repository_asset_id = none;
  target_workspace_id = some "ws-1";
  repository_workspace_id = none;
  repo_path_snapshot = none;
  target_policy_fingerprint = some "demo";
  authorization_snapshot = snapshot;
  auth_profile_id = none;
  scan_profile_id = "active-demo";
  mode = known active_demo;
  status = validating;
  current_step = some target_validation;
  progress_percent = 5;
  error_code = none;
  created_at = 90;
  started_at = some 100;
  completed_at = none;
  cancellation_requested_at = none;
  cancellation_requested_by_user_id = none;
  lease_owner = some "w1";
  lease_expires_at = some 160;
  lease_heartbeat_at = some 100;
  attempt_count = 1;
}

abbrev nothing_found : EngineResult
nothing_found = record { findings = []; errors = [] }

abbrev tools : WebTools
tools = record {
  allowlist = demo_target ∷ [];
  fingerprint_of = name_of;
  auth_profile = no_profile;
  zap_base_url = some "http://zap:8080";
  crawl = record { probes = true ∷ false ∷ []; outcome = ok nothing_found };
  zap_passive_scan = record { probes = false ∷ []; outcome = ok nothing_found };
  zap_active_scan = record { probes = []; outcome = ok nothing_found };
  zap_client_spider_scan = record { probes = []; outcome = ok nothing_found };
  persist = ok tt;
  risk = ok tt;
}

-- A user cancels at the job's fourth refresh.
abbrev interrupted : World
interrupted = record {
  shared = record { clock = 101; row = web_scan };
  schedule = [] ∷ [] ∷ [] ∷ (cancel_request "user-1" ∷ []) ∷ [];
  signals = [];
  zap_locked = false;
  tool_runs = [];
  findings = [];
  risk_scored = false;
}

validated :
    (validate_profile_engines demo_target.profile_engines ≡ ok tt)
    × (validate_policy demo_target ≡ ok tt)
unfolding validate_profile_engines validate_engines validate_policy has_duplicate allowed_engines
    required_engines scan_profile_for_id
validated = (refl, refl)

engines_for_profile_validated_example :
    ((engines_for_profile demo_target "active-demo" ≡ [])
      ⊎ (is_subset (required_engines "active-demo") (engines_for_profile demo_target "active-demo")
          ≡ true))
    × ((any is_zap_engine (engines_for_profile demo_target "active-demo")
          && not demo_target.disposable_demo)
        ≡ false)
engines_for_profile_validated_example =
    engines_for_profile_validated demo_target "active-demo" validated.0 validated.1

abbrev authority : WebScanAuthority
authority = record {
  target_id = "target-1";
  target_url = "http://demo/";
  allowlist_id = "demo";
  policy_fingerprint = "demo";
  allowlist_target = demo_target;
}

loaded : load_web_scan_authority name_of web_scan (demo_target ∷ []) ≡ ok authority
unfolding load_web_scan_authority get_target
loaded = refl

load_web_scan_authority-IsRecordedIn_example :
    IsRecordedIn name_of web_scan (demo_target ∷ []) authority
load_web_scan_authority-IsRecordedIn_example =
    load_web_scan_authority-IsRecordedIn name_of web_scan (demo_target ∷ []) authority loaded

readable : load_scan_auth_headers no_profile web_scan ≡ ok tt
unfolding load_scan_auth_headers
readable = refl

web_scan-MatchesProfile : MatchesProfile web_scan
web_scan-MatchesProfile = record { active = λ h. refl; modern = λ h. cc; web = inr (inl refl) }

has_engines : engines_for_profile demo_target "active-demo" ≢ []
unfolding engines_for_profile lookup_engines
has_engines h = cc

authorize_engines_validated_example :
    authorize_engines no_profile (some "http://zap:8080") web_scan demo_target
    ≡ ok (engines_for_profile demo_target "active-demo")
authorize_engines_validated_example =
    authorize_engines_validated no_profile (some "http://zap:8080") web_scan demo_target validated.0
      validated.1 web_scan-MatchesProfile has_engines readable refl

web_scan-IsWellFormed : IsWellFormed web_scan
web_scan-IsWellFormed = ground arith

run_passive_scan_job-IsWellFormed_example :
    IsWellFormed (run_passive_scan_job settings tools interrupted).1.shared.row
run_passive_scan_job-IsWellFormed_example =
    run_passive_scan_job-IsWellFormed settings "w1" tools interrupted refl web_scan-IsWellFormed

tools-IsForeign : IsForeignTools tools
tools-IsForeign = record {
  crawl = tt;
  zap_passive_scan = tt;
  zap_active_scan = tt;
  zap_client_spider_scan = tt;
  persist = tt;
  risk = tt;
}

run_passive_scan_job-releases_example :
    ((run_passive_scan_job settings tools interrupted).0 ≡ ok tt)
    × IsLost "w1" (run_passive_scan_job settings tools interrupted).1.shared
run_passive_scan_job-releases_example =
    run_passive_scan_job-releases settings "w1" tools tools-IsForeign interrupted refl
      (record { claimed = refl; quiet = tt })

-- The lease of the scan has run out.
abbrev expired : World
expired = record interrupted { shared = record { clock = 161; row = web_scan }; schedule = [] }

web_job-IsFenced_example :
    ((web_job settings tools (some "w1") expired).0 ≡ ok tt)
    × IsFenced "w1" expired (web_job settings tools (some "w1") expired).1
web_job-IsFenced_example =
    web_job-IsFenced settings "w1" tools expired (record { unowned = refl; claimed = refl })
