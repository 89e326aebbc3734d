-- ===== src/Staging/Limits.antt =====
-- The limits of a staged repository, and the loop over the pending directories.
use mathlib.Core.List.{append_assoc, append-nil}
use mathlib.Core.Path.{subst}
use web_security_audit_platf.Prelude.{
  ℕ, zero, suc, ◌+◌, ◌≤◌, ◌≡◌, String, not, ◌||◌, some, List, [], ◌∷◌, ◌++◌, Result, ok, err, refl,
  sym, arith, ok_injective, Result-cases, inl, inr, Bool-cases, length, length-append, All,
  All-append, >>=-returned,
}
use web_security_audit_platf.Staging.{
  Directory, unreadable, readable, Entries, nil, cons, Entry, symlink, special, vanished, directory,
  file, FileCopy, FilePath, Pending, Staged, StagingLimits, StagingError, repo_staging_failed, skip,
  is_skipped_directory, is_untrusted_config, stage_file, visit_entry, visit_entries,
  visit_directory, directories, copy_loop, copy_tree,
}
use web_security_audit_platf.Staging.Tree.{
  own_files, files_below, tree_files, pending_files, pending_directories, visit_entries-Leaves,
}

abbrev pub sum_sizes : List (FilePath × ℕ) → ℕ
sum_sizes [] = 0
sum_sizes ((path, size) ∷ rest) = size + sum_sizes rest

pub sum_sizes-append :
    (xs ys : List (FilePath × ℕ)) → sum_sizes (xs ++ ys) ≡ sum_sizes xs + sum_sizes ys
sum_sizes-append [] ys = omega arith
sum_sizes-append ((path, size) ∷ xs) ys = omega (arith, sum_sizes-append xs ys)

module _ (limits : StagingLimits) where
  -- The counters are those of the files, and within the limits.
  pub record IsWithin (state : Staged) : Type 0 where
    pub counted : state.copied ≡ length state.files
    pub summed : state.total ≡ sum_sizes state.files
    pub files : state.copied ≤ limits.max_files
    pub bytes : state.total ≤ limits.max_total_bytes
    pub each : All (λ f. f.1 ≤ limits.max_file_bytes) state.files

  skip-IsWithin : (state : Staged) → IsWithin state → IsWithin (skip state)
  skip-IsWithin state h = record {
    counted = h.counted;
    summed = h.summed;
    files = h.files;
    bytes = h.bytes;
    each = h.each;
  }

  -- The tests of a file that was staged.
  record Fits (path : FilePath) (size : ℕ) (state after : Staged) : Type 0 where
    small : size ≤ limits.max_file_bytes
    copied : after.copied ≡ state.copied + 1
    few : state.copied + 1 ≤ limits.max_files
    total : after.total ≡ state.total + size
    light : state.total + size ≤ limits.max_total_bytes
    files : after.files ≡ state.files ++ (path, size) ∷ []

  stage_file-Fits :
      (path : FilePath) (size : ℕ) (copy : FileCopy) (state after : Staged)
      → stage_file limits path size copy state ≡ ok after
      → Fits path size state after
  unfolding stage_file
  stage_file-Fits path size copy state after h = ground arith

  stage_file-IsWithin :
      (path : FilePath) (size : ℕ) (copy : FileCopy) (state after : Staged)
      → IsWithin state
      → stage_file limits path size copy state ≡ ok after
      → IsWithin after
  stage_file-IsWithin path size copy state after h staged =
      let fits = stage_file-Fits path size copy state after staged in
      let longer = length-append state.files ((path, size) ∷ []) in
      let heavier = sum_sizes-append state.files ((path, size) ∷ []) in
      record {
        counted = rw fits.files (omega arith);
        summed = rw fits.files (omega arith);
        files = omega arith;
        bytes = omega arith;
        each = rw fits.files (
            All-append (λ f. f.1 ≤ limits.max_file_bytes) state.files ((path, size) ∷ []) h.each
              (fits.small, tt));
      }

  pub visit_entry-IsWithin :
      (path : FilePath) (name : String) (entry : Entry) (pending : Pending) (state : Staged)
      (after : Pending × Staged)
      → IsWithin state
      → visit_entry limits path name entry pending state ≡ ok after
      → IsWithin after.1
  unfolding visit_entry
  visit_entry-IsWithin path name symlink pending state after h e =
      subst (λ a. IsWithin a.1) (ok_injective e) (skip-IsWithin state h)
  visit_entry-IsWithin path name special pending state after h e =
      subst (λ a. IsWithin a.1) (ok_injective e) (skip-IsWithin state h)
  visit_entry-IsWithin path name vanished pending state after h e = cc
  visit_entry-IsWithin path name (directory d) pending state after h e =
      elim (Bool-cases (is_skipped_directory name)) [
        | inl skipped ↦
            subst (λ a. IsWithin a.1) (ok_injective (rw skipped at e)) (skip-IsWithin state h)
        | inr kept ↦ subst (λ a. IsWithin a.1) (ok_injective (rw kept at e)) h
      ]
  visit_entry-IsWithin path name (file is_regular size copy) pending state after h e =
      elim (Bool-cases (is_untrusted_config name || not is_regular)) [
        | inl skipped ↦
            subst (λ a. IsWithin a.1) (ok_injective (rw skipped at e)) (skip-IsWithin state h)
        | inr kept ↦
            let (staged, last, copied) =
              >>=-returned (λ staged. ok (pending, staged))
                (stage_file limits (name ∷ path) size copy state) (rw kept at e) in
            subst (λ a. IsWithin a.1) (ok_injective last)
              (stage_file-IsWithin (name ∷ path) size copy state staged h copied)
      ]

  pub visit_entries-IsWithin :
      (path : FilePath) (entries : Entries) (pending : Pending) (state : Staged)
      (after : Pending × Staged)
      → IsWithin state
      → visit_entries limits path entries pending state ≡ ok after
      → IsWithin after.1
  unfolding visit_entries
  visit_entries-IsWithin path nil pending state after h e =
      subst (λ a. IsWithin a.1) (ok_injective e) h
  visit_entries-IsWithin path (cons name entry rest) pending state after h e =
      let (middle, later, first) =
        >>=-returned (λ m. visit_entries limits path rest m.0 m.1)
          (visit_entry limits path name entry pending state) e in
      visit_entries-IsWithin path rest middle.0 middle.1 after
        (visit_entry-IsWithin path name entry pending state middle h first) later

  -- A staged repository within the limits, with exactly these files, or an error.
  abbrev pub Stages : List (FilePath × ℕ) → Result StagingError Staged → Type 0
  Stages files (ok state) = (state.files ≡ files) × IsWithin state
  Stages files (err e) = Unit {0}

  pub directories_positive : (d : Directory) → 1 ≤ directories d
  unfolding directories
  directories_positive unreadable = omega arith
  directories_positive (readable entries) = omega arith

  pub regroup :
      (before after own below : List (FilePath × ℕ)) (pending later : Pending)
      → after ≡ before ++ own
      → pending_files later ≡ below ++ pending_files pending
      → after ++ pending_files later ≡ before ++ ((own ++ below) ++ pending_files pending)
  regroup before after own below pending later e f = rw (e, f) (simp append_assoc)

  copy_loop-Stages :
      (fuel : ℕ) (pending : Pending) (state : Staged)
      → pending_directories pending ≤ fuel
      → IsWithin state
      → (r : Result StagingError Staged) × (copy_loop limits fuel pending state ≡ some r)
        × Stages (state.files ++ pending_files pending) r
  unfolding copy_loop visit_directory directories tree_files pending_files pending_directories
  copy_loop-Stages fuel [] state enough h = (ok state, refl, (sym (append-nil state.files), h))
  copy_loop-Stages zero ((path, d) ∷ pending) state enough h =
      absurd (omega (arith, directories_positive d))
  copy_loop-Stages (suc fuel) ((path, unreadable) ∷ pending) state enough h =
      (err repo_staging_failed, refl, tt)
  copy_loop-Stages (suc fuel) ((path, readable entries) ∷ pending) state enough h =
      elim (Result-cases (visit_entries limits path entries pending state)) [
        | inr (e, failed) ↦ (err e, rw (failed, copy_loop), tt)
        | inl ((later, staged), visited) ↦
            let left =
              visit_entries-Leaves limits path entries pending state (later, staged) visited in
            let (r, looped, stages) =
              copy_loop-Stages fuel later staged (omega (arith, left.directories))
                (visit_entries-IsWithin path entries pending state (later, staged) h visited) in
            (
              r,
              rw (visited, copy_loop) looped,
              subst (λ files. Stages files r)
                  (regroup state.files staged.files (own_files path entries)
                    (files_below path entries) pending later left.files left.later)
                  stages,
            )
      ]

  -- Staging ends on every tree, and a repository that it returns holds exactly the regular files that
  -- are reached without a symbolic link or a skipped directory and are no scanner configuration, in
  -- the order of the traversal; the counts of files and bytes are those of these files, and the
  -- number of files, each size and the sum of the sizes are within the limits.
  pub copy_tree-Stages :
      (source : Directory)
      → (r : Result StagingError Staged) × (copy_tree limits source ≡ some r)
        × Stages (tree_files [] source) r
  unfolding copy_tree pending_files pending_directories
  copy_tree-Stages source =
      let start : Staged = record { copied = 0; total = 0; skipped = 0; files = [] } in
      let (r, looped, stages) =
        copy_loop-Stages (directories source) (([], source) ∷ []) start (omega arith) (record {
          counted = refl;
          summed = refl;
          files = omega arith;
          bytes = omega arith;
          each = tt;
        }) in
      (r, looped, subst (λ files. Stages files r) (append-nil (tree_files [] source)) stages)
