-- ===== src/Launch/Subjects.antt =====
-- The subject of a new scan: `get_target_for_scan`, `get_repository_asset_for_scan`,
-- `validate_repository_asset_scope` and `compatibility_repository_asset` of backend/app/api/scans.py.
use web_security_audit_platf.Prelude.{
  ℕ, String, Bool, true, not, ◌&&◌, Option, none, some, List, [], ◌∷◌, find, str_eq, opt_str_eq,
  is_none, is_some, codes, if◌then◌else◌, Result, ok, err, raise_if, ◌>>=◌, ◌>>◌,
}
use web_security_audit_platf.RepoPaths.{PosixPath, RepoPathError, resolve_stored_repo_path}
use web_security_audit_platf.Launch.{
  AuthenticatedPrincipal, AuthProfile, Target, RepositoryAsset, LaunchError, target_not_found,
  authorization_changed, auth_profile_unavailable, target_unconfirmed, asset_not_found,
  asset_unconfirmed, bad_repository_path, no_repository_path, Tables, Setting,
}

abbrev pub found {ℓ} : {A : Type ℓ} → LaunchError → Option A → Result LaunchError A
found e none = err e
found e (some a) = ok a

abbrev pub is_active_target : String → String → Target → Bool
is_active_target target_id workspace_id t =
    str_eq t.id target_id && (str_eq t.workspace_id workspace_id && is_none t.archived_at)

-- The query for the auth profile, where the target has one.
unfoldable pub locked_profile : Option String → String → List AuthProfile → Option AuthProfile
locked_profile none workspace_id profiles = none
locked_profile (some id) workspace_id profiles =
    find (λ p. str_eq p.id id && str_eq p.workspace_id workspace_id) profiles

-- `auth_profile is None or auth_profile.revoked_at is not None`
abbrev pub is_unusable : Option AuthProfile → Bool
is_unusable none = true
is_unusable (some profile) = is_some profile.revoked_at

unfoldable pub get_target_for_scan : Tables → String → String → Result LaunchError Target
get_target_for_scan tables target_id workspace_id = do
  preliminary ←
      found target_not_found
        (find (is_active_target target_id workspace_id) tables.preliminary_targets)
  let auth_profile = locked_profile preliminary.auth_profile_id workspace_id tables.auth_profiles
  target ← found target_not_found (find (is_active_target target_id workspace_id) tables.targets)
  raise_if (not (opt_str_eq target.auth_profile_id preliminary.auth_profile_id))
      authorization_changed
  raise_if (is_some target.auth_profile_id && is_unusable auth_profile) auth_profile_unavailable
  raise_if (not target.permission_confirmed) target_unconfirmed
  ok target

abbrev pub is_active_asset : String → String → RepositoryAsset → Bool
is_active_asset asset_id workspace_id a =
    str_eq a.id asset_id && (str_eq a.workspace_id workspace_id && is_none a.archived_at)

unfoldable pub get_repository_asset_for_scan :
    List RepositoryAsset → String → String → Result LaunchError RepositoryAsset
get_repository_asset_for_scan assets asset_id workspace_id = do
  asset ← found asset_not_found (find (is_active_asset asset_id workspace_id) assets)
  raise_if (not asset.permission_confirmed) asset_unconfirmed
  ok asset

abbrev pub path_checked : Result RepoPathError PosixPath → Result LaunchError (Unit {0})
path_checked (ok path) = ok tt
path_checked (err e) = err bad_repository_path

-- The check of a path that `resolve_stored_repo_path` makes, and the path.
unfoldable pub validate_repository_asset_scope :
    Setting → RepositoryAsset → Result LaunchError String
validate_repository_asset_scope setting asset = do
  path_checked (
      resolve_stored_repo_path setting.file_system (some (codes asset.relative_path))
        setting.repo_scan_root)
  ok asset.relative_path

abbrev pub has_path : String → String → RepositoryAsset → Bool
has_path workspace_id path a = str_eq a.workspace_id workspace_id && str_eq a.relative_path path

-- The row for a target's path is a new one, or one that is active again, or stays as it is.
abbrev pub reactivated : ℕ → RepositoryAsset → RepositoryAsset
reactivated now asset =
    if is_some asset.archived_at
    then record asset {
      archived_at = none;
      archived_by_user_id = none;
      permission_confirmed = true;
      authorization_confirmed_at = some now;
    }
    else asset

abbrev pub asset_or_new :
    Setting → ℕ → AuthenticatedPrincipal → String → Option RepositoryAsset → RepositoryAsset
asset_or_new setting now principal path none = record {
  id = setting.new_asset_id;
  workspace_id = principal.workspace_id;
  created_by_user_id = principal.user_id;
  relative_path = path;
  permission_confirmed = true;
  authorization_confirmed_at = some now;
  archived_at = none;
  archived_by_user_id = none;
}
asset_or_new setting now principal path (some asset) = reactivated now asset

-- The table with the row: added, or in the place of the one of its id.
unfoldable pub save_asset : RepositoryAsset → List RepositoryAsset → List RepositoryAsset
save_asset asset [] = asset ∷ []
save_asset asset (a ∷ rest) =
    if str_eq a.id asset.id then asset ∷ rest else a ∷ save_asset asset rest

unfoldable pub compatibility_repository_asset :
    Setting
    → ℕ
    → AuthenticatedPrincipal
    → Option String
    → List RepositoryAsset
    → Result LaunchError RepositoryAsset
compatibility_repository_asset setting now principal none assets = err no_repository_path
compatibility_repository_asset setting now principal (some path) assets = do
  path_checked
      (resolve_stored_repo_path setting.file_system (some (codes path)) setting.repo_scan_root)
  ok (asset_or_new setting now principal path (find (has_path principal.workspace_id path) assets))
