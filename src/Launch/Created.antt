-- ===== src/Launch/Created.antt =====
-- What `create_scan` writes, on success and on an error.
use mathlib.Core.Path.{subst}
use web_security_audit_platf.Prelude.{
  ℕ, ◌≡◌, ◌≢◌, ◌⊎◌, true, false, Bool-cases, inl, inr, refl, sym, none, some, ◌∷◌, arith, ok, err,
  Result-cases,
}
use web_security_audit_platf.Contracts.{ScanProfile}
use web_security_audit_platf.Scans.Scan.{Scan}
use web_security_audit_platf.Scans.Invariant.{IsWellFormed}
use web_security_audit_platf.Scans.Validation.{validate_scan_job}
use web_security_audit_platf.Scans.ValidationLaws.{validate_scan_job_iff}
use web_security_audit_platf.Scans.WebAuthority.{WebScanAuthority, load_web_scan_authority}
use web_security_audit_platf.RateLimits.{RateScope, is_limited, enforce_api_rate_limit}
use web_security_audit_platf.Launch.{
  AuthenticatedPrincipal, ScanCreate, LaunchError, too_many_requests, Tables, Setting, Database,
}
use web_security_audit_platf.Launch.Create.{
  ScanSubject, web, repository, new_scan, launch, create_scan,
}
use web_security_audit_platf.Launch.Runnable.{IsAccepted}
use web_security_audit_platf.Launch.Worker.{
  IsLaunched, launch-IsLaunched, create_scan-launched, web-authority, subject-IsRunnableIn,
  new_scan-IsWellFormed, authority_for,
}

module _ (setting : Setting) (now : ℕ) (tables : Tables) (principal : AuthenticatedPrincipal) where
  new_scan-validated :
      (payload : ScanCreate) (subject : ScanSubject) (scan : Scan)
      → principal.user_id ≢ ""
      → (l : IsLaunched setting now tables principal payload subject scan)
      → validate_scan_job (new_scan setting now principal l.profile subject) ≡ ok tt
  unfolding new_scan
  new_scan-validated payload subject scan user l =
      (validate_scan_job_iff (new_scan setting now principal l.profile subject)).1 (
        user,
        subject-IsRunnableIn setting now tables principal payload.scan_profile_id l.profile subject
            l.known_profile l.accepted,
      )

  new_scan-workspace :
      (profile : ScanProfile) (subject : ScanSubject)
      → (new_scan setting now principal profile subject).workspace_id ≡ principal.workspace_id
  unfolding new_scan
  new_scan-workspace profile subject = refl

  -- A scan that a user with an id creates is added to the scans, in the user's workspace and with its
  -- columns in agreement, and the job's validation accepts it.
  pub create_scan-validated :
      (payload : ScanCreate) (db db' : Database) (scan : Scan)
      → principal.user_id ≢ ""
      → create_scan setting now tables principal payload db ≡ (ok scan, db')
      → (db'.scans ≡ scan ∷ db.scans)
        × (scan.workspace_id ≡ principal.workspace_id)
        × IsWellFormed scan
        × (validate_scan_job scan ≡ ok tt)
  create_scan-validated payload db db' scan user h =
      let (subject, got, added) =
        create_scan-launched setting now tables principal payload db db' scan h in
      let l = launch-IsLaunched setting now tables principal payload db.assets subject scan got in
      let row = sym l.row in
      (
        added,
        subst (λ s. s.workspace_id ≡ principal.workspace_id) row
            (new_scan-workspace l.profile subject),
        subst IsWellFormed row
            (new_scan-IsWellFormed setting now tables principal l.profile subject),
        subst (λ s. validate_scan_job s ≡ ok tt) row
            (new_scan-validated payload subject scan user l),
      )

  abbrev HasAuthority : Scan → Type 0
  HasAuthority scan =
      scan.target_id ≢ none
      → (authority : WebScanAuthority) × (load_web_scan_authority setting.fingerprint_of scan
            setting.allowlist
          ≡ ok authority)
        × (scan.target_id ≡ some authority.target_id)

  new_scan-HasAuthority :
      (profile : ScanProfile) (subject : ScanSubject)
      → IsAccepted setting now tables principal profile subject
      → HasAuthority (new_scan setting now principal profile subject)
  unfolding new_scan
  new_scan-HasAuthority profile (repository asset path) accepted web_scan = absurd (web_scan refl)
  new_scan-HasAuthority profile (web target fingerprint) (a, c) web_scan =
      let (policy, hit, same, scope, allowed, demo) = c.policy in
      (
        authority_for setting now tables principal target policy,
        subst
            (λ f.
              load_web_scan_authority setting.fingerprint_of
                (new_scan setting now principal profile (web target f)) setting.allowlist
              ≡ ok (authority_for setting now tables principal target policy))
            (sym same) (web-authority setting now tables principal profile target policy hit),
        refl,
      )

  -- While the allowlist stays as it is, the authority of a new web scan loads, for its own target.
  pub create_scan-authority :
      (payload : ScanCreate) (db db' : Database) (scan : Scan)
      → create_scan setting now tables principal payload db ≡ (ok scan, db')
      → scan.target_id ≢ none
      → (authority : WebScanAuthority) × (load_web_scan_authority setting.fingerprint_of scan
            setting.allowlist
          ≡ ok authority)
        × (scan.target_id ≡ some authority.target_id)
  create_scan-authority payload db db' scan h =
      let (subject, got, added) =
        create_scan-launched setting now tables principal payload db db' scan h in
      let l = launch-IsLaunched setting now tables principal payload db.assets subject scan got in
      subst HasAuthority (sym l.row) (new_scan-HasAuthority l.profile subject l.accepted)

  abbrev scope : RateScope
  scope = record {
    workspace_id = principal.workspace_id;
    user_id = principal.user_id;
    action = "scan_create";
  }

  -- The call was refused by the rate limit, which is logged, or it was not and nothing is logged.
  abbrev pub IsRolledBack : Database → Database → LaunchError → Type 0
  IsRolledBack db db' e =
      let limited =
        is_limited setting.scan_create_limit scope setting.rate_checked_at db.rate_log in
      ((limited ≡ true)
        × ((e ≡ too_many_requests)
            × (db'.rate_log
                ≡ (record { scope = scope; allowed = false; created_at = now }) ∷ db.rate_log)))
      ⊎ ((limited ≡ false) × (db'.rate_log ≡ db.rate_log))

  -- A call that raises leaves the scans and the repositories as they were. If the rate limit refuses it,
  -- the refusal is logged with the user and the time; otherwise its entry in the log is rolled back.
  pub create_scan-failed :
      (payload : ScanCreate) (db db' : Database) (e : LaunchError)
      → create_scan setting now tables principal payload db ≡ (err e, db')
      → (db'.scans ≡ db.scans) × ((db'.assets ≡ db.assets) × IsRolledBack db db' e)
  unfolding create_scan enforce_api_rate_limit
  create_scan-failed payload db db' e h =
      elim (Bool-cases
        (is_limited setting.scan_create_limit scope setting.rate_checked_at db.rate_log)) [
          | inl limited ↦
              (ground arith, (ground arith, inl (limited, (ground arith, ground arith))))
          | inr free ↦ elim (Result-cases (launch setting now tables principal payload db.assets)) [
            | inr (exc, failed) ↦ (ground arith, (ground arith, inr (free, ground arith)))
            | inl (made, got) ↦ absurd (ground arith)
          ]
        ]
