-- ===== src/RepoPaths/Examples.antt =====
-- A file system with a repository /r/app and a symbolic link /r/link.
use web_security_audit_platf.Prelude.{
  ◌≡◌, refl, Bool, true, false, some, List, [], ◌∷◌, any, ok, err, ◌&&◌, ◌++◌,
}
use web_security_audit_platf.Security.Paths.{Text, text_eq}
use web_security_audit_platf.Http.Cookies.{strip}
use web_security_audit_platf.Security.Redirects.{lstrip, rstrip}
use web_security_audit_platf.RepoPaths.{
  PosixPath, FileSystem, join, parse_path, path_text, is_blank, dot_dot, resolve_stored_repo_path,
  validate_repo_path, repo_path_for_storage, reject_symlink_components_under_root, reject_symlinks,
  relative_to, symlink_component, invalid_stored_path, not_a_directory, outside_root,
}
use web_security_audit_platf.RepoPaths.Laws.{IsRepository, resolve_stored_repo_path-IsRepository}

abbrev app : Text
app = b'a' ∷ b'p' ∷ b'p' ∷ []

abbrev link : Text
link = b'l' ∷ []

abbrev path : List Text → PosixPath
path parts = record { absolute = true; parts = parts }

abbrev parts_eq : List Text → List Text → Bool
parts_eq [] [] = true
parts_eq [] (b ∷ bs) = false
parts_eq (a ∷ as_) [] = false
parts_eq (a ∷ as_) (b ∷ bs) = text_eq a b && parts_eq as_ bs

abbrev scan_root : PosixPath
scan_root = path ((b'r' ∷ []) ∷ [])

abbrev fs : FileSystem
fs = record {
  resolve = λ p. p;
  is_symlink = λ p. parts_eq p.parts ((b'r' ∷ []) ∷ link ∷ []);
  exists = λ p. true;
  is_dir = λ p. parts_eq p.parts ((b'r' ∷ []) ∷ app ∷ []);
}

path_tests :
    (resolve_stored_repo_path fs (some (b' ' ∷ app)) scan_root ≡ ok (path ((b'r' ∷ []) ∷ app ∷ [])))
    × (resolve_stored_repo_path fs (some (link ++ (b'/' ∷ app))) scan_root ≡ err symlink_component)
    × (resolve_stored_repo_path fs (some (app ++ (b'/' ∷ dot_dot))) scan_root
        ≡ err invalid_stored_path)
    × (resolve_stored_repo_path fs (some (b'x' ∷ [])) scan_root ≡ err not_a_directory)
    × (validate_repo_path fs (some (b'/' ∷ app)) scan_root ≡ err outside_root)
    × (repo_path_for_storage fs (some (b'/' ∷ b'r' ∷ b'/' ∷ app)) scan_root ≡ ok app)
unfolding resolve_stored_repo_path validate_repo_path reject_symlink_components_under_root
    reject_symlinks relative_to parse_path path_text lstrip rstrip repo_path_for_storage
path_tests = (refl, refl, refl, refl, refl, refl)

resolve_stored_repo_path-IsRepository_example :
    ((parse_path (strip (b' ' ∷ app))).absolute ≡ false)
    × (any (text_eq dot_dot) (parse_path (strip (b' ' ∷ app))).parts ≡ false)
    × (is_blank (b' ' ∷ app) ≡ false)
    × IsRepository fs
        (path_text (join scan_root (parse_path (strip (b' ' ∷ app))).parts))
        scan_root
        (path ((b'r' ∷ []) ∷ app ∷ []))
resolve_stored_repo_path-IsRepository_example =
    resolve_stored_repo_path-IsRepository fs (b' ' ∷ app) scan_root (path ((b'r' ∷ []) ∷ app ∷ []))
      path_tests.0
