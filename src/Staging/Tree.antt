-- ===== src/Staging/Tree.antt =====
-- Which files a staged repository holds, described by recursion on the tree, and the traversal of
-- one directory.
use mathlib.Core.Path.{subst}
use mathlib.Core.List.{append_assoc, append-nil}
use web_security_audit_platf.Prelude.{
  ℕ, ◌+◌, ◌≡◌, String, not, ◌||◌, List, [], ◌∷◌, ◌++◌, if◌then◌else◌, Result, ok, refl, sym, arith,
  ok_injective, inl, inr, Bool-cases, >>=-returned,
}
use web_security_audit_platf.Staging.{
  Directory, unreadable, readable, Entries, nil, cons, Entry, symlink, special, vanished, directory,
  file, FileCopy, FilePath, Pending, Staged, StagingLimits, StagingError, skip,
  is_skipped_directory, is_untrusted_config, stage_file, visit_entry, visit_entries, directories,
  directories_in, directories_of,
}

-- A file directly in a directory: a regular one that is not a scanner's configuration.
unfoldable pub own_file : FilePath → String → Entry → List (FilePath × ℕ)
own_file path name symlink = []
own_file path name special = []
own_file path name vanished = []
own_file path name (directory d) = []
own_file path name (file is_regular size copy) =
    if is_untrusted_config name || not is_regular then [] else (name ∷ path, size) ∷ []

unfoldable pub own_files : FilePath → Entries → List (FilePath × ℕ)
own_files path nil = []
own_files path (cons name entry rest) = own_file path name entry ++ own_files path rest

-- A directory's own files, then those below its directories, the last directory first.
unfoldable mutual
  pub tree_files : FilePath → Directory → List (FilePath × ℕ)
  tree_files path unreadable = []
  tree_files path (readable entries) = own_files path entries ++ files_below path entries

  pub files_below : FilePath → Entries → List (FilePath × ℕ)
  files_below path nil = []
  files_below path (cons name entry rest) = files_below path rest ++ files_in path name entry

  pub files_in : FilePath → String → Entry → List (FilePath × ℕ)
  files_in path name symlink = []
  files_in path name special = []
  files_in path name vanished = []
  files_in path name (file is_regular size copy) = []
  files_in path name (directory d) =
      if is_skipped_directory name then [] else tree_files (name ∷ path) d

unfoldable pub pending_files : Pending → List (FilePath × ℕ)
pending_files [] = []
pending_files ((path, d) ∷ rest) = tree_files path d ++ pending_files rest

unfoldable pub pending_directories : Pending → ℕ
pending_directories [] = 0
pending_directories ((path, d) ∷ rest) = directories d + pending_directories rest

module _ (limits : StagingLimits) where
  -- What a visit leaves to do is what was pending and the files of the directories that it met.
  pub record Leaves (own below : List (FilePath × ℕ)) (met : ℕ) (pending : Pending)
      (before : Staged) (after : Pending × Staged) : Type 0 where
    pub files : after.1.files ≡ before.files ++ own
    pub later : pending_files after.0 ≡ below ++ pending_files pending
    pub directories : pending_directories after.0 ≡ met + pending_directories pending

  skip-Leaves :
      (pending : Pending) (state : Staged) (after : Pending × Staged)
      → ◌≡◌ {A = Result StagingError (Pending × Staged)} (ok (pending, skip state)) (ok after)
      → Leaves [] [] 0 pending state after
  skip-Leaves pending state after h =
      subst (Leaves [] [] 0 pending state) (ok_injective h)
        (record { files = sym (append-nil state.files); later = refl; directories = omega arith })

  push-Leaves :
      (path : FilePath) (d : Directory) (pending : Pending) (state : Staged)
      (after : Pending × Staged)
      → ◌≡◌ {A = Result StagingError (Pending × Staged)}
          (ok ((path, d) ∷ pending, state))
          (ok after)
      → Leaves [] (tree_files path d) (directories d) pending state after
  unfolding pending_files pending_directories
  push-Leaves path d pending state after h =
      subst (Leaves [] (tree_files path d) (directories d) pending state) (ok_injective h)
        (record { files = sym (append-nil state.files); later = refl; directories = refl })

  stage_file-files :
      (path : FilePath) (size : ℕ) (copy : FileCopy) (state after : Staged)
      → stage_file limits path size copy state ≡ ok after
      → after.files ≡ state.files ++ (path, size) ∷ []
  unfolding stage_file
  stage_file-files path size copy state after h = ground arith

  pub visit_entry-Leaves :
      (path : FilePath) (name : String) (entry : Entry) (pending : Pending) (state : Staged)
      (after : Pending × Staged)
      → visit_entry limits path name entry pending state ≡ ok after
      → Leaves
          (own_file path name entry)
          (files_in path name entry)
          (directories_of name entry)
          pending
          state
          after
  unfolding visit_entry own_file files_in directories_of
  visit_entry-Leaves path name symlink pending state after h = skip-Leaves pending state after h
  visit_entry-Leaves path name special pending state after h = skip-Leaves pending state after h
  visit_entry-Leaves path name vanished pending state after h = cc
  visit_entry-Leaves path name (directory d) pending state after h =
      elim (Bool-cases (is_skipped_directory name)) [
        | inl skipped ↦ rw skipped (skip-Leaves pending state after (rw skipped at h))
        | inr kept ↦ rw kept (push-Leaves (name ∷ path) d pending state after (rw kept at h))
      ]
  visit_entry-Leaves path name (file is_regular size copy) pending state after h =
      elim (Bool-cases (is_untrusted_config name || not is_regular)) [
        | inl skipped ↦ rw skipped (skip-Leaves pending state after (rw skipped at h))
        | inr kept ↦
            let (staged, last, copied) =
              >>=-returned (λ staged. ok (pending, staged))
                (stage_file limits (name ∷ path) size copy state) (rw kept at h) in
            rw kept (
              subst (Leaves ((name ∷ path, size) ∷ []) [] 0 pending state) (ok_injective last)
                (record {
                  files = stage_file-files (name ∷ path) size copy state staged copied;
                  later = refl;
                  directories = omega arith;
                }))
      ]

  both-Leaves :
      (own own' below below' : List (FilePath × ℕ)) (met met' : ℕ) (pending : Pending)
      (before : Staged) (middle after : Pending × Staged)
      → Leaves own below met pending before middle
      → Leaves own' below' met' middle.0 middle.1 after
      → Leaves (own ++ own') (below' ++ below) (met + met') pending before after
  both-Leaves own own' below below' met met' pending before middle after first second = record {
    files = rw (second.files, first.files) (append_assoc before.files own own');
    later =
        rw (second.later, first.later) (sym (append_assoc below' below (pending_files pending)));
    directories = omega (arith, first.directories, second.directories);
  }

  pub visit_entries-Leaves :
      (path : FilePath) (entries : Entries) (pending : Pending) (state : Staged)
      (after : Pending × Staged)
      → visit_entries limits path entries pending state ≡ ok after
      → Leaves
          (own_files path entries)
          (files_below path entries)
          (directories_in entries)
          pending
          state
          after
  unfolding visit_entries own_files files_below directories_in
  visit_entries-Leaves path nil pending state after h =
      subst (Leaves [] [] 0 pending state) (ok_injective h)
        (record { files = sym (append-nil state.files); later = refl; directories = omega arith })
  visit_entries-Leaves path (cons name entry rest) pending state after h =
      let (middle, later, first) =
        >>=-returned (λ m. visit_entries limits path rest m.0 m.1)
          (visit_entry limits path name entry pending state) h in
      both-Leaves (own_file path name entry) (own_files path rest) (files_in path name entry)
        (files_below path rest) (directories_of name entry) (directories_in rest) pending state
        middle after (visit_entry-Leaves path name entry pending state middle first)
        (visit_entries-Leaves path rest middle.0 middle.1 after later)
