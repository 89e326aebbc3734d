-- ===== src/Launch/Current.antt =====
-- What `validate_scan_profile` and `validate_web_scan_profile` of backend/app/api/scans.py establish.
use mathlib.Core.Path.{subst}
use web_security_audit_platf.Prelude.{
  ◌≡◌, inl, inr, sym, String, true, false, Option, some, List, [], opt_str_eq_iff, is_some, any,
  arith, Option-cases, Result-cases, ok,
}
use web_security_audit_platf.Contracts.{ScanMode, passive, repo, mode_eq, ScanProfile}
use web_security_audit_platf.Security.Policy.{AllowlistTarget, allowed_modes, get_target}
use web_security_audit_platf.Launch.{Target, Setting}
use web_security_audit_platf.Launch.Profiles.{
  validate_scan_profile, validate_web_scan_profile, text_or_none, modes_of, is_local_demo,
  revalidate_target_record,
}

-- The policy of the target allows the profile and still has the fingerprint and the URL that were
-- recorded when the target was authorized, and only a passive scan uses an auth profile.
pub record IsPolicyCurrent (setting : Setting) (profile : ScanProfile) (target : Target)
    (fingerprint : Option String) : Type 0 where
  pub policy :
      (p : AllowlistTarget) × (get_target target.allowlist_id setting.allowlist ≡ some p)
      × (fingerprint ≡ some (setting.fingerprint_of p))
      × (target.policy_scope_base_url ≡ some (setting.base_url_of p))
      × (any (mode_eq profile.mode) (allowed_modes p) ≡ true)
      × ((profile.local_demo_only ≡ true) → p.disposable_demo ≡ true)
  pub recorded : target.policy_fingerprint ≡ fingerprint
  pub not_repository : mode_eq profile.mode repo ≡ false
  pub auth_profile : is_some target.auth_profile_id ≡ true → mode_eq profile.mode passive ≡ true
  pub reachable : revalidate_target_record setting target ≡ ok tt

-- The tests of `validate_scan_profile`.
record IsAllowed (setting : Setting) (profile : ScanProfile) (target : Target) (mode : ScanMode)
    : Type 0 where
  same_mode : profile.mode ≡ mode
  allowed :
      any
        (mode_eq profile.mode)
        (modes_of setting (get_target target.allowlist_id setting.allowlist))
      ≡ true
  demo :
      profile.local_demo_only ≡ true
      → is_local_demo setting (get_target target.allowlist_id setting.allowlist) ≡ true
  auth_profile : is_some target.auth_profile_id ≡ true → mode_eq profile.mode passive ≡ true
  reachable : revalidate_target_record setting target ≡ ok tt

validate_scan_profile-IsAllowed :
    (setting : Setting) (profile : ScanProfile) (target : Target) (acknowledgements : List String)
    (mode : ScanMode)
    → validate_scan_profile setting profile target acknowledgements ≡ ok mode
    → IsAllowed setting profile target mode
unfolding validate_scan_profile
validate_scan_profile-IsAllowed setting profile target acknowledgements mode h = record {
  same_mode = ground arith;
  allowed = ground arith;
  demo = λ d. ground arith;
  auth_profile = λ d. ground arith;
  reachable = ground arith;
}

-- The comparison of the target's columns with its policy.
record IsRecorded (setting : Setting) (target : Target) (fingerprint : Option String) : Type 0 where
  now_is :
      text_or_none setting setting.fingerprint_of (get_target target.allowlist_id setting.allowlist)
      ≡ fingerprint
  some_now : is_some fingerprint ≡ true
  recorded : target.policy_fingerprint ≡ fingerprint
  some_url : is_some target.policy_scope_base_url ≡ true
  url :
      target.policy_scope_base_url
      ≡ text_or_none setting setting.base_url_of (get_target target.allowlist_id setting.allowlist)

validate_web_scan_profile-tests :
    (setting : Setting) (profile : ScanProfile) (target : Target) (fingerprint : Option String)
    → validate_web_scan_profile setting profile target ≡ ok fingerprint
    → IsAllowed setting profile target profile.mode
      × (mode_eq profile.mode repo ≡ false)
      × IsRecorded setting target fingerprint
unfolding validate_web_scan_profile
validate_web_scan_profile-tests setting profile target fingerprint h =
    elim (Result-cases
      (validate_scan_profile setting profile target profile.required_acknowledgements)) [
        | inr (e, failed) ↦ ground arith
        | inl (mode, valid) ↦
            let allowed =
              validate_scan_profile-IsAllowed setting profile target
                profile.required_acknowledgements mode valid in
            let policy = get_target target.allowlist_id setting.allowlist in
            (
              subst (IsAllowed setting profile target) (sym allowed.same_mode) allowed,
              ground (arith),
              record {
                now_is = ground arith;
                some_now = ground arith;
                recorded = ground (
                  arith,
                  opt_str_eq_iff target.policy_fingerprint
                      (text_or_none setting setting.fingerprint_of policy),
                );
                some_url = ground arith;
                url = ground (
                  arith,
                  opt_str_eq_iff target.policy_scope_base_url
                      (text_or_none setting setting.base_url_of policy),
                );
              },
            )
      ]

pub validate_web_scan_profile-IsPolicyCurrent :
    (setting : Setting) (profile : ScanProfile) (target : Target) (fingerprint : Option String)
    → validate_web_scan_profile setting profile target ≡ ok fingerprint
    → IsPolicyCurrent setting profile target fingerprint
validate_web_scan_profile-IsPolicyCurrent setting profile target fingerprint h =
    let (allowed, web, recorded) =
      validate_web_scan_profile-tests setting profile target fingerprint h in
    elim (Option-cases (get_target target.allowlist_id setting.allowlist)) [
      | inl absent ↦ absurd (no_modes profile.mode (rw absent at allowed.allowed))
      | inr (p, hit) ↦ record {
        policy = (
          p,
          hit,
          text_of setting setting.fingerprint_of p fingerprint (rw hit at recorded.now_is)
              recorded.some_now,
          text_of setting setting.base_url_of p target.policy_scope_base_url
              (rw hit at (sym recorded.url)) recorded.some_url,
          rw hit at allowed.allowed,
          λ d. rw hit at (allowed.demo d),
        );
        recorded = recorded.recorded;
        not_repository = web;
        auth_profile = allowed.auth_profile;
        reachable = allowed.reachable;
      }
    ]
  where
    no_modes : (mode : ScanMode) → any (mode_eq mode) [] ≡ true → ⊥
    no_modes mode e = cc

    text_of :
        (setting : Setting) (text : AllowlistTarget → String) (p : AllowlistTarget)
        (o : Option String)
        → text_or_none setting text (some p) ≡ o
        → is_some o ≡ true
        → o ≡ some (text p)
    text_of setting text p o e f = ground arith
