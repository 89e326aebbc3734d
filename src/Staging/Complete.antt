-- ===== src/Staging/Complete.antt =====
-- When a repository is staged: every directory that is reached is readable, every file fits and is copied
-- undisturbed, and the files together are within the limits.
use mathlib.Core.List.{append-nil, append_assoc}
use web_security_audit_platf.Prelude.{
  ℕ, zero, suc, ◌+◌, ◌≤◌, ◌≡◌, String, Bool, true, false, not, ◌&&◌, ◌||◌, some, List, [], ◌∷◌,
  ◌++◌, ok, refl, arith, inl, inr, Bool-cases, length, length-append, All, ap,
}
use web_security_audit_platf.Staging.{
  Directory, unreadable, readable, Entries, nil, cons, Entry, symlink, special, vanished, directory,
  file, FileCopy, FilePath, Pending, Staged, StagingLimits, skip, is_skipped_directory,
  is_untrusted_config, stage_file, visit_entry, visit_entries, visit_directory, directories,
  copy_loop, copy_tree, copy_regular_file,
}
use web_security_audit_platf.Staging.Tree.{
  own_file, own_files, tree_files, pending_files, pending_directories, visit_entry-Leaves,
  visit_entries-Leaves, files_below,
}
use web_security_audit_platf.Staging.Limits.{
  sum_sizes, sum_sizes-append, IsWithin, visit_entry-IsWithin, visit_entries-IsWithin,
  directories_positive,
}

abbrev pub is_undisturbed : FileCopy → Bool
is_undisturbed copy =
    not copy.os_error && (copy.opened_regular && (copy.same_inode && copy.unchanged))

module _ (limits : StagingLimits) where
  abbrev mutual
    pub IsStageable : Directory → Type 0
    IsStageable unreadable = ⊥
    IsStageable (readable entries) = AreStageable entries

    pub AreStageable : Entries → Type 0
    AreStageable nil = Unit {0}
    AreStageable (cons name entry rest) = IsStageableEntry name entry × AreStageable rest

    pub IsStageableEntry : String → Entry → Type 0
    IsStageableEntry name symlink = Unit {0}
    IsStageableEntry name special = Unit {0}
    IsStageableEntry name vanished = ⊥
    IsStageableEntry name (directory d) = is_skipped_directory name ≡ false → IsStageable d
    IsStageableEntry name (file is_regular size copy) =
        (is_untrusted_config name || not is_regular) ≡ false
        → (size ≤ limits.max_file_bytes) × (is_undisturbed copy ≡ true)

  stage_file-total :
      (path : FilePath) (size : ℕ) (copy : FileCopy) (state : Staged)
      → size ≤ limits.max_file_bytes
      → is_undisturbed copy ≡ true
      → state.copied + 1 ≤ limits.max_files
      → state.total + size ≤ limits.max_total_bytes
      → (after : Staged) × (stage_file limits path size copy state ≡ ok after)
  unfolding stage_file copy_regular_file
  stage_file-total path size copy state small good few light = (
    record state {
      copied = state.copied + 1;
      total = state.total + size;
      files = state.files ++ (path, size) ∷ [];
    },
    ground arith,
  )

  visit_entry-total :
      (path : FilePath) (name : String) (entry : Entry) (pending : Pending) (state : Staged)
      → IsStageableEntry name entry
      → All (λ p. IsStageable p.1) pending
      → state.copied + length (own_file path name entry) ≤ limits.max_files
      → state.total + sum_sizes (own_file path name entry) ≤ limits.max_total_bytes
      → (after : Pending × Staged) × (visit_entry limits path name entry pending state ≡ ok after)
        × All (λ p. IsStageable p.1) after.0
  unfolding visit_entry own_file
  visit_entry-total path name symlink pending state good rest few light =
      ((pending, skip state), refl, rest)
  visit_entry-total path name special pending state good rest few light =
      ((pending, skip state), refl, rest)
  visit_entry-total path name vanished pending state good rest few light = absurd good
  visit_entry-total path name (directory d) pending state good rest few light =
      elim (Bool-cases (is_skipped_directory name)) [
        | inl skipped ↦ ((pending, skip state), rw (skipped, visit_entry) refl, rest)
        | inr kept ↦
            (((name ∷ path, d) ∷ pending, state), rw (kept, visit_entry) refl, (good kept, rest))
      ]
  visit_entry-total path name (file is_regular size copy) pending state good rest few light =
      elim (Bool-cases (is_untrusted_config name || not is_regular)) [
        | inl skipped ↦ ((pending, skip state), rw (skipped, visit_entry) refl, rest)
        | inr kept ↦
            let (after, staged) =
              stage_file-total (name ∷ path) size copy state (good kept).0 (good kept).1
                (ground arith) (ground arith) in
            ((pending, after), rw (kept, staged, visit_entry) refl, rest)
      ]

  -- The room that is left for files that are still to come.
  abbrev HasRoom : Staged → List (FilePath × ℕ) → Type 0
  HasRoom state files =
      (state.copied + length files ≤ limits.max_files)
      × (state.total + sum_sizes files ≤ limits.max_total_bytes)

  -- What a visit adds to the counters is what it adds to the files.
  HasRoom-after :
      (before after : Staged) (own rest : List (FilePath × ℕ))
      → IsWithin limits before
      → IsWithin limits after
      → after.files ≡ before.files ++ own
      → HasRoom before (own ++ rest)
      → HasRoom after rest
  HasRoom-after before after own rest h h' same room =
      let count = ap length same in
      let size = ap sum_sizes same in
      let both = length-append before.files own in
      let sizes = sum_sizes-append before.files own in
      let more = length-append own rest in
      let heavier = sum_sizes-append own rest in
      (omega (arith, h.counted, h'.counted), omega (arith, h.summed, h'.summed))

  HasRoom-first :
      (state : Staged) (own rest : List (FilePath × ℕ))
      → HasRoom state (own ++ rest)
      → HasRoom state own
  HasRoom-first state own rest room =
      let more = length-append own rest in
      let heavier = sum_sizes-append own rest in (omega arith, omega arith)

  visit_entries-total :
      (path : FilePath) (entries : Entries) (pending : Pending) (state : Staged)
      → AreStageable entries
      → All (λ p. IsStageable p.1) pending
      → IsWithin limits state
      → HasRoom state (own_files path entries)
      → (after : Pending × Staged) × (visit_entries limits path entries pending state ≡ ok after)
        × All (λ p. IsStageable p.1) after.0
  unfolding visit_entries own_files
  visit_entries-total path nil pending state good rest h room = ((pending, state), refl, rest)
  visit_entries-total path (cons name entry more) pending state good rest h room =
      let first = HasRoom-first state (own_file path name entry) (own_files path more) room in
      let (middle, visited, rest') =
        visit_entry-total path name entry pending state good.0 rest first.0 first.1 in
      let h' = visit_entry-IsWithin limits path name entry pending state middle h visited in
      let (after, visited', rest'') =
        visit_entries-total path more middle.0 middle.1 good.1 rest' h' (
          HasRoom-after state middle.1 (own_file path name entry) (own_files path more) h h'
            (visit_entry-Leaves limits path name entry pending state middle visited).files room) in
      (after, rw (visited, visit_entries) visited', rest'')

  copy_loop-total :
      (fuel : ℕ) (pending : Pending) (state : Staged)
      → pending_directories pending ≤ fuel
      → All (λ p. IsStageable p.1) pending
      → IsWithin limits state
      → HasRoom state (pending_files pending)
      → (final : Staged) × (copy_loop limits fuel pending state ≡ some (ok final))
  unfolding copy_loop visit_directory directories tree_files pending_files pending_directories
  copy_loop-total fuel [] state enough good h room = (state, refl)
  copy_loop-total zero ((path, d) ∷ pending) state enough good h room =
      absurd (omega (arith, directories_positive limits d))
  copy_loop-total (suc fuel) ((path, unreadable) ∷ pending) state enough good h room = absurd good.0
  copy_loop-total (suc fuel) ((path, readable entries) ∷ pending) state enough good h room =
      let own = own_files path entries in
      let below = files_below path entries in
      let room' : HasRoom state (own ++ (below ++ pending_files pending)) =
        rw (← append_assoc own below (pending_files pending)) room in
      let ((later, staged), visited, good') =
        visit_entries-total path entries pending state good.0 good.1 h
          (HasRoom-first state own (below ++ pending_files pending) room') in
      let left = visit_entries-Leaves limits path entries pending state (later, staged) visited in
      let h' = visit_entries-IsWithin limits path entries pending state (later, staged) h visited in
      let (final, looped) =
        copy_loop-total fuel later staged (omega (arith, left.directories)) good' h' (
          rw left.later (
            HasRoom-after state staged own (below ++ pending_files pending) h h' left.files
              room')) in
      (final, rw (visited, copy_loop) looped)

  -- A repository is staged if each directory that is reached is readable, each file that is reached is
  -- within the size of a file and is copied undisturbed, and the number and the sizes of these
  -- files are within the limits.
  pub copy_tree-total :
      (source : Directory)
      → IsStageable source
      → length (tree_files [] source) ≤ limits.max_files
      → sum_sizes (tree_files [] source) ≤ limits.max_total_bytes
      → (final : Staged) × (copy_tree limits source ≡ some (ok final))
  unfolding copy_tree pending_files pending_directories
  copy_tree-total source good few light =
      copy_loop-total (directories source) (([], source) ∷ [])
        (record { copied = 0; total = 0; skipped = 0; files = [] }) (omega arith) (good, tt)
        (record {
          counted = refl;
          summed = refl;
          files = omega arith;
          bytes = omega arith;
          each = tt;
        })
        (rw (append-nil (tree_files [] source)) (omega arith, omega arith))
