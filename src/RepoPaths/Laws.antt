-- ===== src/RepoPaths/Laws.antt =====
-- What a repository path that is accepted is.
use web_security_audit_platf.Prelude.{
  ◌≡◌, refl, Bool, true, false, Option, none, some, List, [], ◌∷◌, any, arith, ok, raise_if,
  >>-returned, Option-cases, inl, inr,
}
use web_security_audit_platf.Security.Paths.{Text, text_eq}
use web_security_audit_platf.Http.Cookies.{strip}
use web_security_audit_platf.RepoPaths.{
  PosixPath, FileSystem, RepoPathError, join, relative_to, is_below, is_blank, dot_dot, parse_path,
  path_text, reject_symlinks, symlink_component, reject_below, reject_symlink_components_under_root,
  validate_repo_path, resolve_stored_repo_path,
}

module _ (fs : FileSystem) where
  -- No part of the path from `current` on is a symbolic link.
  abbrev pub IsUnlinked : PosixPath → List Text → Type 0
  IsUnlinked current [] = Unit {0}
  IsUnlinked current (part ∷ parts) =
      (fs.is_symlink (join current (part ∷ [])) ≡ false)
      × IsUnlinked (join current (part ∷ [])) parts

  abbrev pub IsUnlinkedBelow : Option (List Text) → PosixPath → Type 0
  IsUnlinkedBelow none root = ⊥
  IsUnlinkedBelow (some parts) root = IsUnlinked root parts

  -- The parts below the root as it is written, or else those of the resolved path.
  abbrev pub HasNoLink : Option (List Text) → PosixPath → PosixPath → PosixPath → Type 0
  HasNoLink (some parts) path root_path root = IsUnlinked root_path parts
  HasNoLink none path root_path root = IsUnlinkedBelow (relative_to (fs.resolve path) root) root

  reject_symlinks-IsUnlinked :
      (current : PosixPath) (parts : List Text)
      → reject_symlinks fs current parts ≡ ok tt
      → IsUnlinked current parts
  unfolding reject_symlinks
  reject_symlinks-IsUnlinked current [] h = tt
  reject_symlinks-IsUnlinked current (part ∷ parts) h =
      let (first, later) = >>-returned _ (reject_symlinks fs (join current (part ∷ [])) parts) h in
      (
        passed (fs.is_symlink (join current (part ∷ []))) symlink_component first,
        reject_symlinks-IsUnlinked (join current (part ∷ [])) parts later,
      )
    where
      passed : (b : Bool) (e : RepoPathError) → raise_if b e ≡ ok tt → b ≡ false
      passed true e h = cc
      passed false e h = refl

  reject-IsUnlinkedBelow :
      (below : Option (List Text)) (root : PosixPath)
      → reject_below fs below root ≡ ok tt
      → IsUnlinkedBelow below root
  reject-IsUnlinkedBelow none root h = cc
  reject-IsUnlinkedBelow (some parts) root h = reject_symlinks-IsUnlinked root parts h

  reject-HasNoLink :
      (path root_path root : PosixPath)
      → reject_symlink_components_under_root fs path root_path root ≡ ok tt
      → HasNoLink (relative_to path root_path) path root_path root
  unfolding reject_symlink_components_under_root
  reject-HasNoLink path root_path root h = elim (Option-cases (relative_to path root_path)) [
    | inl outside ↦ rw outside (
        reject-IsUnlinkedBelow (relative_to (fs.resolve path) root) root
          (rw (outside, reject_symlink_components_under_root) at h))
    | inr (parts, inside) ↦ rw inside (
        reject_symlinks-IsUnlinked root_path parts
          (rw (inside, reject_symlink_components_under_root) at h))
  ]

  -- The resolved path lies below the resolved root, is an existing directory, and neither it nor a part of
  -- the path below the root is a symbolic link.
  pub record IsRepository (repo_path : Text) (root_path candidate : PosixPath) : Type 0 where
    pub resolved : candidate ≡ fs.resolve (parse_path (strip repo_path))
    pub below : is_below (relative_to candidate (fs.resolve root_path)) ≡ true
    pub exists : fs.exists candidate ≡ true
    pub directory : fs.is_dir candidate ≡ true
    pub real : fs.is_symlink candidate ≡ false
    pub root : fs.is_symlink root_path ≡ false
    pub unlinked :
        HasNoLink
          (relative_to (parse_path (strip repo_path)) root_path)
          (parse_path (strip repo_path))
          root_path
          (fs.resolve root_path)

  -- The tests of `validate_repo_path`, as equations.
  record Checks (repo_path : Text) (root_path candidate : PosixPath) : Type 0 where
    resolved : candidate ≡ fs.resolve (parse_path (strip repo_path))
    below :
        is_below (relative_to (fs.resolve (parse_path (strip repo_path))) (fs.resolve root_path))
        ≡ true
    exists : fs.exists (fs.resolve (parse_path (strip repo_path))) ≡ true
    directory : fs.is_dir (fs.resolve (parse_path (strip repo_path))) ≡ true
    real : fs.is_symlink (fs.resolve (parse_path (strip repo_path))) ≡ false
    root : fs.is_symlink root_path ≡ false
    rejected :
        reject_symlink_components_under_root fs
          (parse_path (strip repo_path))
          root_path
          (fs.resolve root_path)
        ≡ ok tt

  checked :
      (repo_path : Text) (root_path candidate : PosixPath)
      → validate_repo_path fs (some repo_path) root_path ≡ ok candidate
      → Checks repo_path root_path candidate
  unfolding validate_repo_path
  checked repo_path root_path candidate h = ground arith

  -- A path that is accepted is that of a repository below the root.
  pub validate_repo_path-IsRepository :
      (repo_path : Text) (root_path candidate : PosixPath)
      → validate_repo_path fs (some repo_path) root_path ≡ ok candidate
      → IsRepository repo_path root_path candidate
  validate_repo_path-IsRepository repo_path root_path candidate h =
      let c = checked repo_path root_path candidate h in
      record {
        resolved = c.resolved;
        below = rw c.resolved c.below;
        exists = rw c.resolved c.exists;
        directory = rw c.resolved c.directory;
        real = rw c.resolved c.real;
        root = c.root;
        unlinked =
            reject-HasNoLink (parse_path (strip repo_path)) root_path (fs.resolve root_path)
              c.rejected;
      }

  -- The path of a stored repository that is resolved is relative and has no part `..`, and what it
  -- resolves to under the scan root is an existing directory below that root, with no symbolic link
  -- on the way and none at its end.
  pub resolve_stored_repo_path-IsRepository :
      (repo_path : Text) (repo_scan_root candidate : PosixPath)
      → resolve_stored_repo_path fs (some repo_path) repo_scan_root ≡ ok candidate
      → ((parse_path (strip repo_path)).absolute ≡ false)
        × (any (text_eq dot_dot) (parse_path (strip repo_path)).parts ≡ false)
        × (is_blank repo_path ≡ false)
        × IsRepository
            (path_text (join (fs.resolve repo_scan_root) (parse_path (strip repo_path)).parts))
            (fs.resolve repo_scan_root)
            candidate
  unfolding resolve_stored_repo_path
  resolve_stored_repo_path-IsRepository repo_path repo_scan_root candidate h =
      let relative = parse_path (strip repo_path) in
      (
        ground arith,
        ground arith,
        ground arith,
        validate_repo_path-IsRepository
            (path_text (join (fs.resolve repo_scan_root) relative.parts))
            (fs.resolve repo_scan_root) candidate (ground arith),
      )
