-- ===== src/Launch/Worker.antt =====
-- A scan that the handler creates is one that the worker's validation and authority accept.
use mathlib.Core.Path.{subst}
use web_security_audit_platf.Prelude.{
  ℕ, ◌≡◌, ◌≢◌, inl, inr, refl, sym, ap, ◌∙◌, String, true, false, Option, none, some, List, ◌∷◌,
  is_some, arith, codes, Option-cases, Result-cases, eq_refl, ok,
}
use web_security_audit_platf.Contracts.{
  ScanMode, passive, repo, ajax_short, active_demo, modern_web_crawl, mode_eq, ScanProfile,
  scan_profile_for_id,
}
use web_security_audit_platf.RepoPaths.{is_blank}
use web_security_audit_platf.RepoPaths.Laws.{resolve_stored_repo_path-IsRepository}
use web_security_audit_platf.Security.Policy.{AllowlistTarget, get_target}
use web_security_audit_platf.Scans.Scan.{Scan, known, text}
use web_security_audit_platf.Scans.Invariant.{IsWellFormed}
use web_security_audit_platf.Scans.Validation.{snapshot_eq}
use web_security_audit_platf.Scans.WebAuthority.{
  WebScanAuthority, load_web_scan_authority, is_malformed,
}
use web_security_audit_platf.Scans.ValidationLaws.{IsRunnableIn, RecordsTarget, RecordsRepository}
use web_security_audit_platf.Launch.{
  AuthenticatedPrincipal, ScanCreate, Target, RepositoryAsset, Tables, Setting, Database,
}
use web_security_audit_platf.Launch.Profiles.{resolve_scan_profile}
use web_security_audit_platf.Launch.Create.{
  ScanSubject, web, repository, authorization_snapshot, snapshot_value, new_scan, find_subject,
  launch, create_scan,
}
use web_security_audit_platf.Launch.Accepted.{profile-modes, IsAuthorized, IsUsable}
use web_security_audit_platf.Launch.Current.{IsPolicyCurrent}
use web_security_audit_platf.Launch.Runnable.{IsAccepted, find_subject-IsAccepted}

no_profile :
    (o : Option String) (mode : ScanMode)
    → (is_some o ≡ true → mode_eq mode passive ≡ true)
    → mode_eq mode passive ≡ false
    → o ≡ none
no_profile none mode h other = refl
no_profile (some id) mode h other = absurd (ground (arith, h refl))

module _ (setting : Setting) (now : ℕ) (tables : Tables) (principal : AuthenticatedPrincipal) where
  nonempty :
      (asset : RepositoryAsset) (path : String)
      → IsUsable setting principal.workspace_id asset path
      → path ≢ ""
  nonempty asset path u e =
      let (p, resolved) = u.resolves in
      let (relative, no_parent, kept, found) =
        resolve_stored_repo_path-IsRepository setting.file_system (codes path)
          setting.repo_scan_root p resolved in
      cc (let empty : is_blank (codes "") ≡ false = rw e at kept in empty)

  repository-Records :
      (profile : ScanProfile) (asset : RepositoryAsset) (path : String)
      → IsUsable setting principal.workspace_id asset path
      → RecordsRepository (new_scan setting now principal profile (repository asset path))
  unfolding new_scan authorization_snapshot
  repository-Records profile asset path u = record {
    workspace = ap some u.workspace;
    path_present = ground arith;
    path_nonempty = λ e. nonempty asset path u (ground arith);
    subject_type = refl;
    subject = refl;
    path = ap text (sym u.same_path);
  }

  target-Records :
      (profile : ScanProfile) (target : Target) (fingerprint : Option String)
      → IsAuthorized tables principal.workspace_id target
      → RecordsTarget (new_scan setting now principal profile (web target fingerprint))
  unfolding new_scan authorization_snapshot
  target-Records profile target fingerprint a = record {
    workspace = ap some a.workspace;
    subject_type = refl;
    subject = refl;
  }

  web-IsRunnableIn :
      (mode : ScanMode) (profile : ScanProfile) (target : Target) (fingerprint : Option String)
      → profile.mode ≡ mode
      → mode_eq mode ajax_short ≡ false
      → IsAuthorized tables principal.workspace_id target
      → IsPolicyCurrent setting profile target fingerprint
      → IsRunnableIn (known mode) (new_scan setting now principal profile (web target fingerprint))
  unfolding new_scan
  web-IsRunnableIn passive profile target fingerprint m short a c =
      target-Records profile target fingerprint a
  web-IsRunnableIn active_demo profile target fingerprint m short a c = (
    target-Records profile target fingerprint a,
    no_profile target.auth_profile_id profile.mode c.auth_profile (rw m refl),
  )
  web-IsRunnableIn modern_web_crawl profile target fingerprint m short a c = (
    target-Records profile target fingerprint a,
    no_profile target.auth_profile_id profile.mode c.auth_profile (rw m refl),
  )
  web-IsRunnableIn ajax_short profile target fingerprint m short a c = absurd (cc)
  web-IsRunnableIn repo profile target fingerprint m short a c =
      absurd (cc (let bad : mode_eq repo repo ≡ false = rw m at c.not_repository in bad))

  repository-IsRunnableIn :
      (mode : ScanMode) (profile : ScanProfile) (asset : RepositoryAsset) (path : String)
      → mode_eq mode repo ≡ true
      → IsUsable setting principal.workspace_id asset path
      → IsRunnableIn (known mode) (new_scan setting now principal profile (repository asset path))
  unfolding new_scan
  repository-IsRunnableIn repo profile asset path m u =
      (repository-Records profile asset path u, refl)
  repository-IsRunnableIn _ profile asset path m u = absurd (cc)

  pub subject-IsRunnableIn :
      (id : String) (profile : ScanProfile) (subject : ScanSubject)
      → scan_profile_for_id id ≡ some profile
      → IsAccepted setting now tables principal profile subject
      → IsRunnableIn (known profile.mode) (new_scan setting now principal profile subject)
  subject-IsRunnableIn id profile (web target fingerprint) known_profile (a, c) =
      web-IsRunnableIn profile.mode profile target fingerprint refl
        (profile-modes id profile known_profile).1 a c
  subject-IsRunnableIn id profile (repository asset path) known_profile (needs, u) =
      repository-IsRunnableIn profile.mode profile asset path
        (sym (profile-modes id profile known_profile).0 ∙ needs) u

  pub new_scan-IsWellFormed :
      (profile : ScanProfile) (subject : ScanSubject)
      → IsWellFormed (new_scan setting now principal profile subject)
  unfolding new_scan
  new_scan-IsWellFormed profile subject = record {
    leased = refl;
    expires = refl;
    heartbeat = refl;
    finished = refl;
    failure = refl;
    progress = omega arith;
    unfinished = λ e. omega arith;
  }

  -- What `launch` returns.
  pub record IsLaunched (payload : ScanCreate) (subject : ScanSubject) (scan : Scan) : Type 0 where
    pub profile : ScanProfile
    pub known_profile : scan_profile_for_id payload.scan_profile_id ≡ some profile
    pub accepted : IsAccepted setting now tables principal profile subject
    pub row : scan ≡ new_scan setting now principal profile subject

  pub launch-IsLaunched :
      (payload : ScanCreate) (assets : List RepositoryAsset) (subject : ScanSubject) (scan : Scan)
      → launch setting now tables principal payload assets ≡ ok (subject, scan)
      → IsLaunched payload subject scan
  unfolding launch resolve_scan_profile
  launch-IsLaunched payload assets subject scan h =
      elim (Option-cases (scan_profile_for_id payload.scan_profile_id)) [
        | inl absent ↦ absurd (ground arith)
        | inr (profile, hit) ↦
            elim (Result-cases (
              find_subject setting now tables principal profile payload.repository_asset_id
                payload.target_id assets)) [
                  | inr (e, failed) ↦ absurd (ground arith)
                  | inl (s, got) ↦
                      let same : s ≡ subject = ground arith in
                      record {
                        profile = profile;
                        known_profile = hit;
                        accepted = subst (IsAccepted setting now tables principal profile) same (
                            find_subject-IsAccepted setting now tables principal profile
                              payload.repository_asset_id payload.target_id assets s got);
                        row = ground arith;
                      }
                ]
      ]

  pub create_scan-launched :
      (payload : ScanCreate) (db db' : Database) (scan : Scan)
      → create_scan setting now tables principal payload db ≡ (ok scan, db')
      → (subject : ScanSubject) × (launch setting now tables principal payload db.assets
          ≡ ok (subject, scan))
        × (db'.scans ≡ scan ∷ db.scans)
  unfolding create_scan
  create_scan-launched payload db db' scan h =
      elim (Result-cases (launch setting now tables principal payload db.assets)) [
        | inr (e, failed) ↦ absurd (ground arith)
        | inl ((subject, s), got) ↦ (subject, ground arith, ground arith)
      ]

  -- The authority that a job of the target has.
  abbrev pub authority_for : Target → AllowlistTarget → WebScanAuthority
  authority_for target policy = record {
    target_id = target.id;
    target_url = target.base_url;
    allowlist_id = target.allowlist_id;
    policy_fingerprint = setting.fingerprint_of policy;
    allowlist_target = policy;
  }

  snapshot_same : (o : Option String) → snapshot_eq (snapshot_value o) o ≡ true
  snapshot_same none = refl
  snapshot_same (some s) = eq_refl s

  snapshot_formed : (o : Option String) → is_malformed (snapshot_value o) ≡ false
  snapshot_formed none = refl
  snapshot_formed (some s) = refl

  pub web-authority :
      (profile : ScanProfile) (target : Target) (policy : AllowlistTarget)
      → get_target target.allowlist_id setting.allowlist ≡ some policy
      → load_web_scan_authority setting.fingerprint_of
          (new_scan setting now principal profile
            (web target (some (setting.fingerprint_of policy))))
          setting.allowlist
        ≡ ok (authority_for target policy)
  unfolding load_web_scan_authority new_scan authorization_snapshot
  web-authority profile target policy hit = simp (snapshot_same, snapshot_formed, eq_refl, hit)
