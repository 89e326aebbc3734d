-- ===== src/Launch/Runnable.antt =====
-- A scan that the handler creates is one that the worker accepts.
use mathlib.Core.Path.{subst}
use web_security_audit_platf.Prelude.{
  ℕ, ◌≡◌, inl, inr, String, true, Option, none, some, List, arith, Bool-cases, Result-cases, ok,
}
use web_security_audit_platf.Contracts.{ScanProfile}
use web_security_audit_platf.Launch.{
  AuthenticatedPrincipal, Target, RepositoryAsset, Tables, Setting,
}
use web_security_audit_platf.Launch.Subjects.{
  get_target_for_scan, get_repository_asset_for_scan, validate_repository_asset_scope,
  compatibility_repository_asset,
}
use web_security_audit_platf.Launch.Profiles.{validate_web_scan_profile}
use web_security_audit_platf.Launch.Create.{
  ScanSubject, web, repository, repository_subject, target_repository_subject, web_subject,
  target_subject, find_subject,
}
use web_security_audit_platf.Launch.Accepted.{
  IsAuthorized, IsUsable, get_target_for_scan-IsAuthorized, scope-IsUsable,
  get_repository_asset_for_scan-workspace, compatibility_repository_asset-workspace,
}
use web_security_audit_platf.Launch.Current.{
  IsPolicyCurrent, validate_web_scan_profile-IsPolicyCurrent,
}

module _ (setting : Setting) (now : ℕ) (tables : Tables) (principal : AuthenticatedPrincipal) where
  -- A web target is authorized and its policy current; a repository is usable, and the profile
  -- is the repository's.
  abbrev pub IsAccepted : ScanProfile → ScanSubject → Type 0
  IsAccepted profile (web target fingerprint) =
      IsAuthorized tables principal.workspace_id target
      × IsPolicyCurrent setting profile target fingerprint
  IsAccepted profile (repository asset path) =
      (profile.requires_repo_path ≡ true) × IsUsable setting principal.workspace_id asset path

  repository_subject-IsAccepted :
      (profile : ScanProfile) (asset_id : String) (assets : List RepositoryAsset)
      (subject : ScanSubject)
      → repository_subject setting now tables principal profile asset_id assets ≡ ok subject
      → IsAccepted profile subject
  unfolding repository_subject
  repository_subject-IsAccepted profile asset_id assets subject h =
      elim (Result-cases (get_repository_asset_for_scan assets asset_id principal.workspace_id)) [
        | inr (e, failed) ↦ absurd (ground arith)
        | inl (asset, got) ↦ elim (Result-cases (validate_repository_asset_scope setting asset)) [
          | inr (e, failed) ↦ absurd (ground arith)
          | inl (path, valid) ↦
              let same : repository asset path ≡ subject = ground arith in
              subst (IsAccepted profile) same (
                ground arith,
                scope-IsUsable setting principal.workspace_id asset path
                    (get_repository_asset_for_scan-workspace assets asset_id principal.workspace_id
                      asset got)
                    valid,
              )
        ]
      ]

  target_repository_subject-IsAccepted :
      (profile : ScanProfile) (target : Target) (assets : List RepositoryAsset)
      (subject : ScanSubject)
      → profile.requires_repo_path ≡ true
      → target_repository_subject setting now tables principal target assets ≡ ok subject
      → IsAccepted profile subject
  unfolding target_repository_subject
  target_repository_subject-IsAccepted profile target assets subject needs h =
      elim (Result-cases
        (compatibility_repository_asset setting now principal target.repo_path assets)) [
          | inr (e, failed) ↦ absurd (ground arith)
          | inl (asset, got) ↦ elim (Result-cases (validate_repository_asset_scope setting asset)) [
            | inr (e, failed) ↦ absurd (ground arith)
            | inl (path, valid) ↦
                let same : repository asset path ≡ subject = ground arith in
                subst (IsAccepted profile) same (
                  needs,
                  scope-IsUsable setting principal.workspace_id asset path
                      (compatibility_repository_asset-workspace setting now principal
                        target.repo_path assets asset got)
                      valid,
                )
          ]
        ]

  web_subject-IsAccepted :
      (profile : ScanProfile) (target : Target) (subject : ScanSubject)
      → IsAuthorized tables principal.workspace_id target
      → web_subject setting now tables principal profile target ≡ ok subject
      → IsAccepted profile subject
  unfolding web_subject
  web_subject-IsAccepted profile target subject authorized h =
      elim (Result-cases (validate_web_scan_profile setting profile target)) [
        | inr (e, failed) ↦ absurd (ground arith)
        | inl (fingerprint, valid) ↦
            let same : web target fingerprint ≡ subject = ground arith in
            subst (IsAccepted profile) same (
              authorized,
              validate_web_scan_profile-IsPolicyCurrent setting profile target fingerprint valid,
            )
      ]

  target_subject-IsAccepted :
      (profile : ScanProfile) (target_id : String) (assets : List RepositoryAsset)
      (subject : ScanSubject)
      → target_subject setting now tables principal profile target_id assets ≡ ok subject
      → IsAccepted profile subject
  unfolding target_subject
  target_subject-IsAccepted profile target_id assets subject h =
      elim (Result-cases (get_target_for_scan tables target_id principal.workspace_id)) [
        | inr (e, failed) ↦ absurd (ground arith)
        | inl (target, got) ↦ elim (Bool-cases profile.requires_repo_path) [
          | inl needs ↦
              target_repository_subject-IsAccepted profile target assets subject needs
                (ground arith)
          | inr other ↦
              web_subject-IsAccepted profile target subject
                (get_target_for_scan-IsAuthorized tables target_id principal.workspace_id target
                  got)
                (ground arith)
        ]
      ]

  pub find_subject-IsAccepted :
      (profile : ScanProfile) (asset_id target_id : Option String) (assets : List RepositoryAsset)
      (subject : ScanSubject)
      → find_subject setting now tables principal profile asset_id target_id assets ≡ ok subject
      → IsAccepted profile subject
  unfolding find_subject
  find_subject-IsAccepted profile (some asset_id) none assets subject h =
      repository_subject-IsAccepted profile asset_id assets subject h
  find_subject-IsAccepted profile none (some target_id) assets subject h =
      target_subject-IsAccepted profile target_id assets subject h
  find_subject-IsAccepted profile none none assets subject h = cc
  find_subject-IsAccepted profile (some asset_id) (some target_id) assets subject h = cc
