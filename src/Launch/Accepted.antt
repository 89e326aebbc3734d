-- ===== src/Launch/Accepted.antt =====
-- What the subject of a new scan satisfies.
use web_security_audit_platf.Prelude.{
  ℕ, ◌≡◌, inl, inr, refl, sym, String, Bool, true, false, Option, none, some, List, [], ◌∷◌, find,
  opt_str_eq_iff, eq_iff, is_some, arith, codes, Bool-cases, Option-cases, ok_injective, Result, ok,
  err, >>-returned,
}
use web_security_audit_platf.Contracts.{repo, ajax_short, mode_eq, ScanProfile, scan_profile_for_id}
use web_security_audit_platf.RepoPaths.{PosixPath, RepoPathError, resolve_stored_repo_path}
use web_security_audit_platf.Launch.{
  AuthenticatedPrincipal, Target, RepositoryAsset, Tables, Setting,
}
use web_security_audit_platf.Launch.Subjects.{
  is_active_target, is_active_asset, locked_profile, is_unusable, get_target_for_scan,
  get_repository_asset_for_scan, validate_repository_asset_scope, compatibility_repository_asset,
  path_checked, has_path,
}

pub find-passes {ℓ} :
    {A : Type ℓ} (p : A → Bool) (xs : List A) (x : A) → find p xs ≡ some x → p x ≡ true
find-passes p [] x h = cc
find-passes p (y ∷ ys) x h = elim (Bool-cases (p y)) [
  | inl passes ↦ let same : some y ≡ some x = rw passes at h in cc
  | inr fails ↦ find-passes p ys x (rw fails at h)
]

-- A profile needs a repository exactly if it is the repository's, and none has the retired mode.
pub profile-modes :
    (id : String) (profile : ScanProfile)
    → scan_profile_for_id id ≡ some profile
    → (profile.requires_repo_path ≡ mode_eq profile.mode repo)
      × (mode_eq profile.mode ajax_short ≡ false)
unfolding scan_profile_for_id
profile-modes id profile h = ground arith

-- The target is in the user's workspace, active, confirmed, and with an auth profile only if that
-- profile is in the workspace and not revoked.
pub record IsAuthorized (tables : Tables) (workspace_id : String) (target : Target) : Type 0 where
  pub workspace : target.workspace_id ≡ workspace_id
  pub active : target.archived_at ≡ none
  pub confirmed : target.permission_confirmed ≡ true
  pub auth_profile :
      is_some target.auth_profile_id ≡ true
      → is_unusable (locked_profile target.auth_profile_id workspace_id tables.auth_profiles)
        ≡ false

pub get_target_for_scan-IsAuthorized :
    (tables : Tables) (target_id workspace_id : String) (target : Target)
    → get_target_for_scan tables target_id workspace_id ≡ ok target
    → IsAuthorized tables workspace_id target
unfolding get_target_for_scan
get_target_for_scan-IsAuthorized tables target_id workspace_id target h =
    let is_match = is_active_target target_id workspace_id in
    elim (Option-cases (find is_match tables.preliminary_targets)) [
      | inl absent ↦ ground arith
      | inr (preliminary, first) ↦ elim (Option-cases (find is_match tables.targets)) [
        | inl absent ↦ ground arith
        | inr (locked, second) ↦
            let passes = find-passes is_match tables.targets locked second in
            ground (
              arith,
              eq_iff locked.workspace_id workspace_id,
              opt_str_eq_iff locked.auth_profile_id preliminary.auth_profile_id,
            )
      ]
    ]

-- The repository is in the user's workspace, and its path is one that resolves.
pub record IsUsable (setting : Setting) (workspace_id : String) (asset : RepositoryAsset)
    (path : String) : Type 0 where
  pub workspace : asset.workspace_id ≡ workspace_id
  pub same_path : path ≡ asset.relative_path
  pub resolves :
      (p : PosixPath) × (resolve_stored_repo_path setting.file_system
          (some (codes path))
          setting.repo_scan_root
        ≡ ok p)

path_checked-ok :
    (r : Result RepoPathError PosixPath) → path_checked r ≡ ok tt → (p : PosixPath) × (r ≡ ok p)
path_checked-ok (ok p) h = (p, refl)
path_checked-ok (err e) h = cc

pub scope-IsUsable :
    (setting : Setting) (workspace_id : String) (asset : RepositoryAsset) (path : String)
    → asset.workspace_id ≡ workspace_id
    → validate_repository_asset_scope setting asset ≡ ok path
    → IsUsable setting workspace_id asset path
unfolding validate_repository_asset_scope
scope-IsUsable setting workspace_id asset path w h =
    let (checked, last) =
      >>-returned
        (path_checked (
          resolve_stored_repo_path setting.file_system (some (codes asset.relative_path))
            setting.repo_scan_root))
        (ok asset.relative_path) h in
    let same = ok_injective last in
    record {
      workspace = w;
      same_path = sym same;
      resolves = rw (← same) (
          path_checked-ok
            (resolve_stored_repo_path setting.file_system (some (codes asset.relative_path))
              setting.repo_scan_root)
            checked);
    }

pub get_repository_asset_for_scan-workspace :
    (assets : List RepositoryAsset) (asset_id workspace_id : String) (asset : RepositoryAsset)
    → get_repository_asset_for_scan assets asset_id workspace_id ≡ ok asset
    → asset.workspace_id ≡ workspace_id
unfolding get_repository_asset_for_scan
get_repository_asset_for_scan-workspace assets asset_id workspace_id asset h =
    elim (Option-cases (find (is_active_asset asset_id workspace_id) assets)) [
      | inl absent ↦ ground arith
      | inr (row, hit) ↦
          let passes = find-passes (is_active_asset asset_id workspace_id) assets row hit in
          ground (arith, eq_iff row.workspace_id workspace_id)
    ]

pub compatibility_repository_asset-workspace :
    (setting : Setting) (now : ℕ) (principal : AuthenticatedPrincipal) (path : Option String)
    (assets : List RepositoryAsset) (asset : RepositoryAsset)
    → compatibility_repository_asset setting now principal path assets ≡ ok asset
    → asset.workspace_id ≡ principal.workspace_id
unfolding compatibility_repository_asset
compatibility_repository_asset-workspace setting now principal none assets asset h = cc
compatibility_repository_asset-workspace setting now principal (some path) assets asset h =
    elim (Option-cases (find (has_path principal.workspace_id path) assets)) [
      | inl absent ↦ ground arith
      | inr (row, hit) ↦
          let passes = find-passes (has_path principal.workspace_id path) assets row hit in
          ground (arith, eq_iff row.workspace_id principal.workspace_id)
    ]
