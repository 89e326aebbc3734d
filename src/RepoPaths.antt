-- ===== src/RepoPaths.antt =====
-- backend/app/repo_scanner/paths.py. A path is whether it is absolute, and its parts; the file system is a
-- record of what it says of a path.
use web_security_audit_platf.Prelude.{
  ℕ, Bool, true, false, not, ◌&&◌, ◌||◌, Option, none, some, List, [], ◌∷◌, ◌++◌, all, any, drop,
  length, ◌==◌, if◌then◌else◌, Result, ok, err, raise_if, ◌>>=◌, ◌>>◌,
}
use web_security_audit_platf.Security.Paths.{Text, text_eq}
use web_security_audit_platf.Security.Redirects.{is_space}
use web_security_audit_platf.Http.Cookies.{split, strip}
pub mod Laws
mod Examples

pub record PosixPath : Type 0 where
  pub absolute : Bool
  pub parts : List Text

pub record FileSystem : Type 0 where
  -- `Path.resolve`
  pub resolve : PosixPath → PosixPath
  pub is_symlink : PosixPath → Bool
  pub exists : PosixPath → Bool
  pub is_dir : PosixPath → Bool

pub data RepoPathError : Type 0 where
  not_configured root_is_symlink not_absolute outside_root symlink_component : RepoPathError
  is_a_symlink not_a_directory invalid_stored_path : RepoPathError

abbrev pub dot : Text
dot = b'.' ∷ []

abbrev pub dot_dot : Text
dot_dot = b'.' ∷ b'.' ∷ []

-- The empty parts and the dots fall away.
unfoldable pub path_parts : List Text → List Text
path_parts [] = []
path_parts (part ∷ rest) =
    let later = path_parts rest in
    if text_eq part [] || text_eq part dot then later else part ∷ later

abbrev pub starts_with_slash : Text → Bool
starts_with_slash [] = false
starts_with_slash (c ∷ s) = c == b'/'

-- `Path(text)`
unfoldable pub parse_path : Text → PosixPath
unfolding path_parts split
parse_path text = record { absolute = starts_with_slash text; parts = path_parts (split b'/' text) }

unfoldable pub join_parts : List Text → Text
join_parts [] = []
join_parts (part ∷ []) = part
join_parts (part ∷ next ∷ rest) = part ++ (b'/' ∷ join_parts (next ∷ rest))

-- `str(path)`
unfoldable pub path_text : PosixPath → Text
unfolding join_parts
path_text path =
    if path.absolute
    then b'/' ∷ join_parts path.parts
    else elim path.parts [ [] ↦ dot | part ∷ rest ↦ join_parts (part ∷ rest) ]

-- `root / relative`, of a relative path.
abbrev pub join : PosixPath → List Text → PosixPath
join root parts = record { absolute = root.absolute; parts = root.parts ++ parts }

-- The parts of a path below a root: `relative_to`, which raises for another path.
unfoldable pub parts_below : List Text → List Text → Option (List Text)
parts_below [] parts = some parts
parts_below (r ∷ root) [] = none
parts_below (r ∷ root) (part ∷ parts) =
    let below = parts_below root parts in if text_eq r part then below else none

abbrev pub same_root : PosixPath → PosixPath → Bool
same_root a b = if a.absolute then b.absolute else not b.absolute

unfoldable pub relative_to : PosixPath → PosixPath → Option (List Text)
unfolding parts_below
relative_to path root = if same_root path root then parts_below root.parts path.parts else none

abbrev pub is_below : Option (List Text) → Bool
is_below none = false
is_below (some parts) = true

-- `not value.strip()`
abbrev pub is_blank : Text → Bool
is_blank text = all is_space text

module _ (fs : FileSystem) where
  -- The loop over the parts.
  unfoldable pub reject_symlinks : PosixPath → List Text → Result RepoPathError (Unit {0})
  reject_symlinks current [] = ok tt
  reject_symlinks current (part ∷ parts) =
      raise_if (fs.is_symlink (join current (part ∷ []))) symlink_component
      >> reject_symlinks (join current (part ∷ [])) parts

  -- The handler of `ValueError`, whose `relative_to` raises for a path outside the root.
  abbrev pub reject_below : Option (List Text) → PosixPath → Result RepoPathError (Unit {0})
  reject_below none root = err outside_root
  reject_below (some parts) root = reject_symlinks root parts

  unfoldable pub reject_symlink_components_under_root :
      PosixPath → PosixPath → PosixPath → Result RepoPathError (Unit {0})
  reject_symlink_components_under_root path root_path root = elim (relative_to path root_path) [
    | some parts ↦ reject_symlinks root_path parts
    | none ↦ reject_below (relative_to (fs.resolve path) root) root
  ]

  unfoldable pub validate_repo_path : Option Text → PosixPath → Result RepoPathError PosixPath
  validate_repo_path none root_path = err not_configured
  validate_repo_path (some repo_path) root_path = do
    raise_if (is_blank repo_path) not_configured
    raise_if (fs.is_symlink root_path) root_is_symlink
    let root = fs.resolve root_path
    let candidate_path = parse_path (strip repo_path)
    raise_if (not candidate_path.absolute) not_absolute
    let candidate = fs.resolve candidate_path
    raise_if (not (is_below (relative_to candidate root))) outside_root
    reject_symlink_components_under_root candidate_path root_path root
    raise_if (fs.is_symlink candidate_path || fs.is_symlink candidate) is_a_symlink
    raise_if (not (fs.exists candidate) || not (fs.is_dir candidate)) not_a_directory
    ok candidate

  unfoldable pub resolve_stored_repo_path : Option Text → PosixPath → Result RepoPathError PosixPath
  resolve_stored_repo_path none repo_scan_root = err not_configured
  resolve_stored_repo_path (some repo_path) repo_scan_root = do
    raise_if (is_blank repo_path) not_configured
    let relative = parse_path (strip repo_path)
    raise_if (relative.absolute || any (text_eq dot_dot) relative.parts) invalid_stored_path
    let root = fs.resolve repo_scan_root
    validate_repo_path (some (path_text (join root relative.parts))) root

  -- The text of a part of a validated path, as it is stored.
  unfoldable pub repo_path_for_storage : Option Text → PosixPath → Result RepoPathError Text
  repo_path_for_storage repo_path repo_scan_root =
      validate_repo_path repo_path repo_scan_root >>= λ candidate.
      elim (relative_to candidate (fs.resolve repo_scan_root)) [
        | none ↦ err outside_root
        | some parts ↦ ok (path_text (record { absolute = false; parts = parts }))
      ]
