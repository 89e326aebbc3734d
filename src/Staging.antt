-- ===== src/Staging.antt =====
-- `_copy_tree` of backend/app/repo_scanner/staging.py: a repository is copied within limits. A directory
-- is what `os.scandir` lists in it, by name; paths are lists of names, the innermost first.
use web_security_audit_platf.Prelude.{
  ℕ, zero, suc, ◌+◌, String, Bool, true, false, not, ◌&&◌, ◌||◌, Option, none, some, List, [], ◌∷◌,
  ◌++◌, mem_str, ltb, if◌then◌else◌, Result, ok, err, raise_if, ◌>>=◌, ◌>>◌,
}
pub mod Tree
pub mod Limits
pub mod Complete
mod Examples

-- What `_copy_regular_file` meets: an OSError, another inode or no regular file behind the
-- descriptor that it opened, a size or time that changed while it copied.
pub record FileCopy : Type 0 where
  pub os_error : Bool
  pub opened_regular : Bool
  pub same_inode : Bool
  pub unchanged : Bool

-- An entry: a symbolic link, a directory, a file by `is_file` with its `st_mode` and `st_size`, or
-- another kind; `vanished` raises an OSError when it is looked at.
mutual
  pub data Directory : Type 0 where
    unreadable : Directory
    readable : Entries → Directory

  pub data Entries : Type 0 where
    nil : Entries
    cons : String → Entry → Entries → Entries

  pub data Entry : Type 0 where
    symlink special vanished : Entry
    directory : Directory → Entry
    file : Bool → ℕ → FileCopy → Entry

pub data StagingError : Type 0 where
  repo_staging_failed repo_limit_exceeded : StagingError

pub record StagingLimits : Type 0 where
  pub max_files : ℕ
  pub max_file_bytes : ℕ
  pub max_total_bytes : ℕ

abbrev pub FilePath : Type 0
FilePath = List String

-- The counters of the loop, and the files in the order in which they were copied.
pub record Staged : Type 0 where
  pub copied : ℕ
  pub total : ℕ
  pub skipped : ℕ
  pub files : List (FilePath × ℕ)

abbrev pub Pending : Type 0
Pending = List (FilePath × Directory)

unfoldable pub is_skipped_directory : String → Bool
is_skipped_directory name = mem_str name (
    ".git" ∷ ".hg" ∷ ".svn" ∷ ".cache" ∷ ".mypy_cache" ∷ ".next" ∷ ".npm" ∷ ".pytest_cache"
    ∷ ".ruff_cache" ∷ ".tox" ∷ ".venv" ∷ "__pycache__" ∷ "bower_components" ∷ "build" ∷ "coverage"
    ∷ "dist" ∷ "node_modules" ∷ "target" ∷ "vendor" ∷ [])

unfoldable pub is_untrusted_config : String → Bool
is_untrusted_config name =
    mem_str name
      (".gitleaks.toml" ∷ ".gitleaksignore" ∷ "osv-scanner.toml" ∷ "osv-scanner.json" ∷ [])

unfoldable pub copy_regular_file : FileCopy → Result StagingError (Unit {0})
copy_regular_file copy = do
  raise_if copy.os_error repo_staging_failed
  raise_if (not copy.opened_regular || not copy.same_inode) repo_staging_failed
  raise_if (not copy.unchanged) repo_staging_failed

abbrev pub skip : Staged → Staged
skip state = record state { skipped = state.skipped + 1 }

module _ (limits : StagingLimits) where
  -- The tests on a regular file, and its copy.
  unfoldable pub stage_file : FilePath → ℕ → FileCopy → Staged → Result StagingError Staged
  stage_file path size copy state = do
    raise_if (ltb limits.max_file_bytes size) repo_limit_exceeded
    raise_if
        (ltb limits.max_files (state.copied + 1) || ltb limits.max_total_bytes (state.total + size))
        repo_limit_exceeded
    copy_regular_file copy
    ok (record state {
      copied = state.copied + 1;
      total = state.total + size;
      files = state.files ++ (path, size) ∷ [];
    })

  -- One turn of the inner loop.
  unfoldable pub visit_entry :
      FilePath → String → Entry → Pending → Staged → Result StagingError (Pending × Staged)
  visit_entry path name symlink pending state = ok (pending, skip state)
  visit_entry path name special pending state = ok (pending, skip state)
  visit_entry path name vanished pending state = err repo_staging_failed
  visit_entry path name (directory d) pending state =
      if is_skipped_directory name
      then ok (pending, skip state)
      else ok ((name ∷ path, d) ∷ pending, state)
  visit_entry path name (file is_regular size copy) pending state =
      if is_untrusted_config name || not is_regular
      then ok (pending, skip state)
      else (stage_file (name ∷ path) size copy state >>= λ after. ok (pending, after))

  unfoldable pub visit_entries :
      FilePath → Entries → Pending → Staged → Result StagingError (Pending × Staged)
  visit_entries path nil pending state = ok (pending, state)
  visit_entries path (cons name entry rest) pending state =
      visit_entry path name entry pending state >>= λ after. visit_entries path rest after.0 after.1

  unfoldable pub visit_directory :
      FilePath → Directory → Pending → Staged → Result StagingError (Pending × Staged)
  visit_directory path unreadable pending state = err repo_staging_failed
  visit_directory path (readable entries) pending state = visit_entries path entries pending state

  -- The outer loop on fuel; `none` means that the fuel ran out.
  unfoldable pub copy_loop : ℕ → Pending → Staged → Option (Result StagingError Staged)
  copy_loop fuel [] state = some (ok state)
  copy_loop zero (next ∷ pending) state = none
  copy_loop (suc fuel) ((path, d) ∷ pending) state = elim (visit_directory path d pending state) [
    | err e ↦ some (err e)
    | ok (after, staged) ↦ copy_loop fuel after staged
  ]

-- The directories of a tree that are not below a link or a skipped directory.
unfoldable mutual
  pub directories : Directory → ℕ
  directories unreadable = 1
  directories (readable entries) = suc (directories_in entries)

  pub directories_in : Entries → ℕ
  directories_in nil = 0
  directories_in (cons name entry rest) = directories_of name entry + directories_in rest

  pub directories_of : String → Entry → ℕ
  directories_of name symlink = 0
  directories_of name special = 0
  directories_of name vanished = 0
  directories_of name (file is_regular size copy) = 0
  directories_of name (directory d) = if is_skipped_directory name then 0 else directories d

unfoldable pub copy_tree : StagingLimits → Directory → Option (Result StagingError Staged)
copy_tree limits source =
    copy_loop limits (directories source) (([], source) ∷ [])
      (record { copied = 0; total = 0; skipped = 0; files = [] })
