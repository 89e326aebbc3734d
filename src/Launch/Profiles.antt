-- ===== src/Launch/Profiles.antt =====
-- `resolve_scan_profile`, `require_acknowledgements`, `validate_scan_profile`, `validate_web_scan_profile`
-- and `revalidate_target_record` of backend/app/api/scans.py.
use web_security_audit_platf.Prelude.{
  String, Bool, false, not, ◌&&◌, ◌||◌, Option, none, some, List, [], all, any, mem_str, str_eq,
  opt_str_eq, is_none, is_some, codes, if◌then◌else◌, Result, ok, err, raise_if, ◌>>=◌, ◌>>◌,
}
use web_security_audit_platf.Contracts.{
  ScanMode, passive, repo, mode_eq, ScanProfile, scan_profile_for_id,
}
use web_security_audit_platf.Security.Policy.{AllowlistTarget, allowed_modes, get_target}
use web_security_audit_platf.Security.Ssrf.{IpAddress, SsrfError, validate_destination}
use web_security_audit_platf.Security.Matching.{MatchError, match_allowlisted_target}
use web_security_audit_platf.RepoPaths.{resolve_stored_repo_path}
use web_security_audit_platf.Launch.{
  ScanCreate, Target, LaunchError, unsupported_profile, missing_acknowledgements,
  profile_not_allowed, local_demo_only, auth_profile_unsupported, target_no_longer_matches,
  repository_asset_required, policy_changed, Setting,
}
use web_security_audit_platf.Launch.Subjects.{found, path_checked}

unfoldable pub resolve_scan_profile : ScanCreate → Result LaunchError ScanProfile
resolve_scan_profile payload =
    found unsupported_profile (scan_profile_for_id payload.scan_profile_id)

-- `not (required - acknowledgements)`
abbrev pub is_acknowledged : List String → List String → Bool
is_acknowledged required acknowledgements = all (λ a. mem_str a acknowledgements) required

unfoldable pub require_acknowledgements : ScanProfile → List String → Result LaunchError (Unit {0})
require_acknowledgements profile acknowledgements =
    raise_if (not (is_acknowledged profile.required_acknowledgements acknowledgements))
      missing_acknowledgements

-- The handler of `TargetUrlError` and `SsrfGuardError`.
abbrev pub matched : Result MatchError AllowlistTarget → Result LaunchError AllowlistTarget
matched (ok policy) = ok policy
matched (err e) = err target_no_longer_matches

abbrev pub reached : Result SsrfError (List IpAddress) → Result LaunchError (Unit {0})
reached (ok ips) = ok tt
reached (err e) = err target_no_longer_matches

module _ (setting : Setting) where
  unfoldable pub revalidate_target_record : Target → Result LaunchError (Unit {0})
  revalidate_target_record target = do
    url ← found target_no_longer_matches (setting.normalize target.base_url)
    policy ← matched (match_allowlisted_target url setting.allowlist)
    raise_if (not (str_eq policy.id target.allowlist_id)) target_no_longer_matches
    reached (validate_destination setting.parse url policy (setting.resolve policy.connection))

  abbrev pub modes_of : Option AllowlistTarget → List ScanMode
  modes_of none = []
  modes_of (some policy) = allowed_modes policy

  abbrev pub is_local_demo : Option AllowlistTarget → Bool
  is_local_demo none = false
  is_local_demo (some policy) = policy.disposable_demo

  unfoldable pub validate_scan_profile :
      ScanProfile → Target → List String → Result LaunchError ScanMode
  validate_scan_profile profile target acknowledgements = do
    let policy = get_target target.allowlist_id setting.allowlist
    raise_if (not (any (mode_eq profile.mode) (modes_of policy))) profile_not_allowed
    raise_if (profile.local_demo_only && not (is_local_demo policy)) local_demo_only
    require_acknowledgements profile acknowledgements
    if profile.requires_repo_path
        then path_checked (
            resolve_stored_repo_path setting.file_system
              (elim target.repo_path [ none ↦ none | some path ↦ some (codes path) ])
              setting.repo_scan_root)
        else ok tt
    raise_if (is_some target.auth_profile_id && not (mode_eq profile.mode passive))
        auth_profile_unsupported
    revalidate_target_record target
    ok profile.mode

  -- `str(getattr(policy, name, "") or "") or None`
  abbrev pub text_or_none : (AllowlistTarget → String) → Option AllowlistTarget → Option String
  text_or_none text none = none
  text_or_none text (some policy) = if str_eq (text policy) "" then none else some (text policy)

  unfoldable pub validate_web_scan_profile :
      ScanProfile → Target → Result LaunchError (Option String)
  validate_web_scan_profile profile target = do
    mode ← validate_scan_profile profile target profile.required_acknowledgements
    raise_if (mode_eq mode repo) repository_asset_required
    let policy = get_target target.allowlist_id setting.allowlist
    let fingerprint = text_or_none setting.fingerprint_of policy
    let policy_scope_base_url = text_or_none setting.base_url_of policy
    raise_if
        (is_none target.policy_fingerprint
          || is_none target.policy_scope_base_url
          || is_none fingerprint
          || is_none policy_scope_base_url
          || not (opt_str_eq target.policy_fingerprint fingerprint)
          || not (opt_str_eq target.policy_scope_base_url policy_scope_base_url))
        policy_changed
    ok fingerprint
