-- ===== src/Scans/WebLaws.antt =====
-- What the authority of a web scan establishes.
use mathlib.Core.Path.{subst}
use web_security_audit_platf.Prelude.{
  ◌≡◌, ◌≢◌, ◌⊎◌, inl, inr, refl, String, Bool, true, false, not, ◌&&◌, ◌||◌, Option, some, List, [],
  ◌∷◌, any, if◌then◌else◌, Result, ok, arith, Bool-cases, eq_iff, opt_str_eq_iff,
}
use web_security_audit_platf.Contracts.{active_demo, modern_web_crawl}
use web_security_audit_platf.Security.Policy.{
  ScanEngine, scopeharbor_passive, is_zap_engine, has_engine, is_subset, required_engines,
  zap_passive, zap_active, zap_client_spider, engine_eq, AllowlistTarget, validate_profile_engines,
  engines_for_profile, validate_policy, get_target,
}
use web_security_audit_platf.Security.PolicyLaws.{engines_for_profile_validated}
use web_security_audit_platf.Scans.Scan.{Scan, text, has_mode}
use web_security_audit_platf.Scans.Lease.{JobError}
use web_security_audit_platf.Scans.Progress.{is_truthy}
use web_security_audit_platf.Scans.WebAuthority.{
  WebScanAuthority, AuthLookup, load_web_scan_authority, authorize_engines, load_scan_auth_headers,
  check_zap_profile,
}

-- The policy that an authority carries is the one of the recorded id, unchanged since the launch.
pub record IsRecordedIn (fingerprint_of : AllowlistTarget → String) (scan : Scan)
    (targets : List AllowlistTarget) (authority : WebScanAuthority) : Type 0 where
  pub target : scan.target_id ≡ some authority.target_id
  pub fingerprint : scan.target_policy_fingerprint ≡ some authority.policy_fingerprint
  pub policy : get_target authority.allowlist_id targets ≡ some authority.allowlist_target
  pub unchanged : fingerprint_of authority.allowlist_target ≡ authority.policy_fingerprint
  pub allowlist_snapshot : scan.authorization_snapshot.allowlist_id ≡ text authority.allowlist_id
  pub fingerprint_snapshot :
      scan.authorization_snapshot.policy_fingerprint ≡ text authority.policy_fingerprint
  pub target_snapshot : scan.authorization_snapshot.subject_id ≡ text authority.target_id
  pub url_snapshot : scan.authorization_snapshot.target_url ≡ text authority.target_url

-- If a scan's authority loads, then its policy is the allowlist's entry of the id that was recorded
-- at launch, with the fingerprint recorded then, both in the snapshot and in the scan's column.
pub load_web_scan_authority-IsRecordedIn :
    (fingerprint_of : AllowlistTarget → String) (scan : Scan) (targets : List AllowlistTarget)
    (authority : WebScanAuthority)
    → load_web_scan_authority fingerprint_of scan targets ≡ ok authority
    → IsRecordedIn fingerprint_of scan targets authority
unfolding load_web_scan_authority
load_web_scan_authority-IsRecordedIn f scan targets authority h =
    grind (arith, opt_str_eq_iff, eq_iff)

-- A scan's mode is the mode of its profile, among the modes of ZAP.
pub record MatchesProfile (scan : Scan) : Type 0 where
  pub active : has_mode active_demo scan.mode ≡ true → scan.scan_profile_id ≡ "active-demo"
  pub modern :
      has_mode modern_web_crawl scan.mode ≡ true → scan.scan_profile_id ≡ "modern-web-crawl"
  pub web :
      (scan.scan_profile_id ≡ "passive-web")
      ⊎ ((scan.scan_profile_id ≡ "active-demo") ⊎ (scan.scan_profile_id ≡ "modern-web-crawl"))

abbrev Provides : List ScanEngine → String → Type 0
Provides engines id = is_subset (required_engines id) engines ≡ true

required-scopeharbor :
    (scan : Scan) (engines : List ScanEngine)
    → MatchesProfile scan
    → is_subset (required_engines scan.scan_profile_id) engines ≡ true
    → has_engine scopeharbor_passive engines ≡ true
unfolding required_engines
required-scopeharbor scan engines fits h = elim (fits.web) [
  | inl id ↦ let r : Provides engines "passive-web" = subst (Provides engines) id h in ground arith
  | inr (inl id) ↦
      let r : Provides engines "active-demo" = subst (Provides engines) id h in ground arith
  | inr (inr id) ↦
      let r : Provides engines "modern-web-crawl" = subst (Provides engines) id h in ground arith
]

-- A scan of a ZAP mode has the engine of that mode.
required-active :
    (scan : Scan) (engines : List ScanEngine)
    → MatchesProfile scan
    → is_subset (required_engines scan.scan_profile_id) engines ≡ true
    → has_mode active_demo scan.mode ≡ true
    → has_engine zap_active engines ≡ true
unfolding required_engines
required-active scan engines fits h mode =
    let r : Provides engines "active-demo" = subst (Provides engines) (fits.active mode) h in
    ground arith

required-modern :
    (scan : Scan) (engines : List ScanEngine)
    → MatchesProfile scan
    → is_subset (required_engines scan.scan_profile_id) engines ≡ true
    → has_mode modern_web_crawl scan.mode ≡ true
    → has_engine zap_client_spider engines ≡ true
unfolding required_engines
required-modern scan engines fits h mode =
    let r : Provides engines "modern-web-crawl" = subst (Provides engines) (fits.modern mode) h in
    ground arith

zap_engine_of :
    (e : ScanEngine) (engines : List ScanEngine)
    → is_zap_engine e ≡ true
    → has_engine e engines ≡ true
    → any is_zap_engine engines ≡ true
zap_engine_of e [] zap h = cc
zap_engine_of e (x ∷ xs) zap h = elim (Bool-cases (engine_eq e x)) [
  | inl same ↦ rw (is_zap-eq e x same zap) refl
  | inr other ↦ rw (zap_engine_of e xs zap (ground arith)) (or-true (is_zap_engine x))
]
  where
    is_zap-eq :
        (e x : ScanEngine) → engine_eq e x ≡ true → is_zap_engine e ≡ true → is_zap_engine x ≡ true
    is_zap-eq zap_passive zap_passive h z = refl
    is_zap-eq zap_active zap_active h z = refl
    is_zap-eq zap_client_spider zap_client_spider h z = refl
    is_zap-eq _ _ h z = ground arith

    or-true : (b : Bool) → (b || true) ≡ true
    or-true b = ground arith

check_zap_profile_lem :
    (e : ScanEngine) (target : AllowlistTarget) (engines : List ScanEngine) (url : Option String)
    → is_zap_engine e ≡ true
    → has_engine e engines ≡ true
    → (any is_zap_engine engines && not target.disposable_demo) ≡ false
    → is_truthy url ≡ true
    → check_zap_profile e target engines url ≡ ok tt
unfolding check_zap_profile
check_zap_profile_lem e target engines url zap has demo daemon =
    let some_zap = zap_engine_of e engines zap has in ground arith

-- For a scan whose mode fits its profile, the checks of its engines, of its auth headers and of the ZAP
-- daemon pass and give the engines that the policy names, if the policy is validated and has the
-- profile, the auth profile is readable and a ZAP daemon is configured.
pub authorize_engines_validated :
    (found : AuthLookup) (url : Option String) (scan : Scan) (target : AllowlistTarget)
    → validate_profile_engines target.profile_engines ≡ ok tt
    → validate_policy target ≡ ok tt
    → MatchesProfile scan
    → engines_for_profile target scan.scan_profile_id ≢ []
    → load_scan_auth_headers found scan ≡ ok tt
    → is_truthy url ≡ true
    → authorize_engines found url scan target ≡ ok (engines_for_profile target scan.scan_profile_id)
unfolding authorize_engines
authorize_engines_validated found url scan target valid policy fits has readable daemon =
    let (found_engines, demo) =
      engines_for_profile_validated target scan.scan_profile_id valid policy in
    let required : Provides (engines_for_profile target scan.scan_profile_id) scan.scan_profile_id =
      elim found_engines [ inl absent ↦ absurd (has absent) | inr subset ↦ subset ] in
    let passive =
      required-scopeharbor scan (engines_for_profile target scan.scan_profile_id) fits required in
    let active =
      if_ok (has_mode active_demo scan.mode)
        (check_zap_profile zap_active target (engines_for_profile target scan.scan_profile_id) url)
        (λ mode.
          check_zap_profile_lem zap_active target (engines_for_profile target scan.scan_profile_id)
            url refl
            (required-active scan (engines_for_profile target scan.scan_profile_id) fits required
              mode)
            demo daemon) in
    let modern =
      if_ok (has_mode modern_web_crawl scan.mode)
        (check_zap_profile zap_client_spider target
          (engines_for_profile target scan.scan_profile_id) url)
        (λ mode.
          check_zap_profile_lem zap_client_spider target
            (engines_for_profile target scan.scan_profile_id) url refl
            (required-modern scan (engines_for_profile target scan.scan_profile_id) fits required
              mode)
            demo daemon) in
    rw (passive, demo, readable, active, modern, daemon) (ground arith)
  where
    if_ok :
        (b : Bool) (r : Result JobError (Unit {0}))
        → (b ≡ true → r ≡ ok tt)
        → (if b then r else ok tt) ≡ ok tt
    if_ok true r h = h refl
    if_ok false r h = refl
