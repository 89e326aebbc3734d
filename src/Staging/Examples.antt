-- ===== src/Staging/Examples.antt =====
-- A small repository: a file, a link, a skipped directory, and a directory with a file and a
-- scanner's configuration.
use web_security_audit_platf.Prelude.{
  ℕ, ◌≡◌, refl, true, false, some, [], ◌∷◌, Result, ok, err, arith,
}
use web_security_audit_platf.Staging.{
  Directory, readable, nil, cons, symlink, directory, file, FileCopy, Staged, StagingLimits,
  StagingError, copy_tree, repo_limit_exceeded, copy_loop, visit_directory, visit_entries,
  visit_entry, stage_file, copy_regular_file, is_skipped_directory, is_untrusted_config,
  directories, unreadable, repo_staging_failed,
}
use web_security_audit_platf.Staging.Tree.{own_file, own_files, files_below, tree_files}
use web_security_audit_platf.Staging.Limits.{Stages, copy_tree-Stages}
use web_security_audit_platf.Staging.Complete.{copy_tree-total, IsStageable}

abbrev clean : FileCopy
clean = record { os_error = false; opened_regular = true; same_inode = true; unchanged = true }

abbrev repository : Directory
repository = readable (
    cons "README" (file true 10 clean) (
      cons ".git" (directory unreadable) (
        cons "link" symlink (
          cons "src"
            (directory (
              readable
                (cons ".gitleaks.toml" (file true 3 clean) (cons "a.py" (file true 5 clean) nil))))
            nil))))

abbrev limits : ℕ → StagingLimits
limits files = record { max_files = files; max_file_bytes = 10; max_total_bytes = 15 }

abbrev staged : Staged
staged = record {
  copied = 2;
  total = 15;
  skipped = 3;
  files = ("README" ∷ [], 10) ∷ ("a.py" ∷ "src" ∷ [], 5) ∷ [];
}

copy_tree_tests :
    (copy_tree (limits 2) repository ≡ some (ok staged))
    × (copy_tree (limits 1) repository ≡ some (err repo_limit_exceeded))
    × (copy_tree (limits 1) unreadable ≡ some (err repo_staging_failed))
unfolding copy_tree copy_loop visit_directory visit_entries visit_entry stage_file copy_regular_file
    is_skipped_directory is_untrusted_config directories
copy_tree_tests = (refl, refl, refl)

copy_tree-Stages_example :
    (r : Result StagingError Staged) × (copy_tree (limits 2) repository ≡ some r)
    × Stages (limits 2) (tree_files [] repository) r
copy_tree-Stages_example = copy_tree-Stages (limits 2) repository

repository-IsStageable : IsStageable (limits 2) repository
unfolding is_skipped_directory is_untrusted_config
repository-IsStageable = (
  λ kept. (omega arith, refl),
  (
    (λ kept. absurd (cc)),
    (tt, ((λ kept. ((λ kept. absurd (cc)), ((λ kept. (omega arith, refl)), tt))), tt)),
  ),
)

copy_tree-total_example : (final : Staged) × (copy_tree (limits 2) repository ≡ some (ok final))
unfolding tree_files own_files own_file files_below is_skipped_directory is_untrusted_config
copy_tree-total_example =
    copy_tree-total (limits 2) repository repository-IsStageable (omega arith) (omega arith)
