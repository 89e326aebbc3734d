-- ===== src/Scans/Kept.antt =====
-- What other processes keep, and every owned write keeps, each function of a job keeps.
use web_security_audit_platf.Prelude.{
  ℕ, ◌≤◌, ◌⊎◌, is_some, String, ◌≡◌, Bool, true, false, Option, none, some, List, [], ◌∷◌,
  Bool-cases, inl, inr,
}
use web_security_audit_platf.Scans.Scan.{Scan, Settings, is_leased_status}
use web_security_audit_platf.Scans.Invariant.{is_completed_status}
use web_security_audit_platf.Scans.JobParts.{checkpoint}
use web_security_audit_platf.Findings.{ToolReceipt}
use web_security_audit_platf.Scans.Lease.{
  JobError, owns, assert_scan_ownership, set_cancelled, set_failed,
}
use web_security_audit_platf.Scans.Progress.{Progress, set_progress, failure_code}
use web_security_audit_platf.Scans.Events.{Event, Shared, apply_event, apply_events_induction}
use web_security_audit_platf.Scans.World.{
  World, ◌>>=◌, ◌>>◌, get_scan, now, refresh, write, others_act,
}
use web_security_audit_platf.Scans.Steps.{
  assert_owned, lock_scan_for_owned_write, owned_write, update_scan_progress, mark_scan_cancelled,
  mark_scan_failed, honor_cancellation, check_scan_cancelled, execution_checkpoint, next_signal,
  checkpoint_scan_execution, persist_tool_receipts,
}
use web_security_audit_platf.Scans.Triples.{
  Post, Triple, Keeps, Triple-bind, Triple-weaken, keeps_rules, Keeps-bind,
}

-- The progress updates that jobs make: a live status with no end, or a completed one with an end.
abbrev pub IsCoherent : Progress → Type 0
IsCoherent p =
    ((is_leased_status p.status ≡ true) × (p.completed_at ≡ none) × (p.progress_percent ≤ 99))
    ⊎ ((is_completed_status p.status ≡ true)
        × (is_some p.completed_at ≡ true)
        × (p.progress_percent ≤ 100))

-- A property of the shared state that events keep.
abbrev pub IsStable : Settings → (Shared → Type 0) → Type 0
IsStable settings P = (e : Event) (s : Shared) → P s → P (apply_event settings e s)

abbrev pub OfShared : (Shared → Type 0) → World → Type 0
OfShared P w = P w.shared

-- `worker` owns the scan now.
abbrev pub Owned : String → Shared → Type 0
Owned worker s = owns worker s.clock s.row ≡ true

module _ (settings : Settings) {P : Shared → Type 0} (stable : IsStable settings P) where
  others_act-keeps :
      (schedule : List (List Event)) (w : World)
      → P w.shared
      → P (others_act settings schedule w).shared
  unfolding others_act
  others_act-keeps [] w p = p
  others_act-keeps (es ∷ rest) w p = apply_events_induction settings P stable es w.shared p

  pub refresh-Keeps : Keeps (OfShared P) (refresh settings)
  unfolding refresh
  refresh-Keeps = record { at = λ w p. others_act-keeps w.schedule w p }

  -- The lock succeeds only while the worker owns the scan.
  pub assert_owned-Triple :
      (worker : String)
      → Triple
          (OfShared P)
          (assert_owned settings (some worker))
          (λ u w. P w.shared × Owned worker w.shared)
          (λ e w. P w.shared)
  unfolding assert_owned assert_scan_ownership ◌>>=◌ get_scan now
  assert_owned-Triple worker = record {
    at = λ w p. elim (Bool-cases (owns worker w.shared.clock w.shared.row)) [
      | inl mine ↦ rw mine (p, mine)
      | inr lost ↦ rw lost p
    ];
  }

  pub lock-Triple :
      (worker : String)
      → Triple
          (OfShared P)
          (lock_scan_for_owned_write settings (some worker))
          (λ u w. P w.shared × Owned worker w.shared)
          (λ e w. P w.shared)
  unfolding lock_scan_for_owned_write
  lock-Triple worker =
      Triple-bind (refresh settings) (λ u. assert_owned settings (some worker)) refresh-Keeps
        (λ u. assert_owned-Triple worker)

-- `P` survives the events, and the writes that `worker` makes while it owns the scan.
pub record IsKeptBy (settings : Settings) (worker : String) (P : Shared → Type 0) : Type 0 where
  pub stable : IsStable settings P
  pub progress :
      (s : Shared) (p : Progress)
      → IsCoherent p
      → P s
      → Owned worker s
      → P (record s { row = set_progress settings s.clock p s.row })
  pub cancelled :
      (s : Shared) → P s → Owned worker s → P (record s { row = set_cancelled s.clock s.row })
  pub failed :
      (s : Shared) (code : String)
      → P s
      → Owned worker s
      → P (record s { row = set_failed s.clock code s.row })

module _ (P : Shared → Type 0) where
  next_signal-keeps :
      (signals : List Bool) (w : World)
      → P w.shared
      → Post (λ u. OfShared P) (λ e. OfShared P) (next_signal signals w)
  unfolding next_signal
  next_signal-keeps [] w p = p
  next_signal-keeps (true ∷ rest) w p = p
  next_signal-keeps (false ∷ rest) w p = p

  execution_checkpoint-Keeps : Keeps (OfShared P) execution_checkpoint
  unfolding execution_checkpoint
  execution_checkpoint-Keeps = record { at = λ w p. next_signal-keeps w.signals w p }

module _ (settings : Settings) (worker : String) {P : Shared → Type 0}
    (kept : IsKeptBy settings worker P) where
  pub lock-Keeps : Keeps (OfShared P) (lock_scan_for_owned_write settings (some worker))
  lock-Keeps =
      Triple-weaken _ (lock-Triple settings kept.stable worker) (λ w p. p) (λ u w h. h.0)
        (λ e w h. h)

  write-Triple :
      (f : ℕ → Scan → Scan)
      → ((s : Shared) → P s → Owned worker s → P (record s { row = f s.clock s.row }))
      → Triple
          (λ w. P w.shared × Owned worker w.shared)
          (write f)
          (λ u. OfShared P)
          (λ e. OfShared P)
  unfolding write
  write-Triple f keep = record { at = λ w h. keep w.shared h.0 h.1 }

  owned_write-Keeps :
      (f : ℕ → Scan → Scan)
      → ((s : Shared) → P s → Owned worker s → P (record s { row = f s.clock s.row }))
      → Keeps (OfShared P) (owned_write settings (some worker) f)
  unfolding owned_write
  owned_write-Keeps f keep =
      Triple-bind _ _ (lock-Triple settings kept.stable worker)
        (λ u. Keeps-bind' (write-Triple f keep))
    where
      Keeps-bind' :
          Triple
            (λ w. P w.shared × Owned worker w.shared)
            (write f)
            (λ u. OfShared P)
            (λ e. OfShared P)
          → Triple
              (λ w. P w.shared × Owned worker w.shared)
              (write f >> refresh settings)
              (λ u. OfShared P)
              (λ e. OfShared P)
      Keeps-bind' t = Triple-bind _ _ t (λ u. refresh-Keeps settings kept.stable)

  pub update_scan_progress-Keeps :
      (p : Progress)
      → IsCoherent p
      → Keeps (OfShared P) (update_scan_progress settings (some worker) p)
  unfolding update_scan_progress
  update_scan_progress-Keeps p c = owned_write-Keeps _ (λ s h o. kept.progress s p c h o)

  pub mark_scan_cancelled-Keeps : Keeps (OfShared P) (mark_scan_cancelled settings (some worker))
  unfolding mark_scan_cancelled
  mark_scan_cancelled-Keeps = owned_write-Keeps _ kept.cancelled

  pub mark_scan_failed-Keeps :
      (exc : JobError) → Keeps (OfShared P) (mark_scan_failed settings (some worker) exc)
  unfolding mark_scan_failed
  mark_scan_failed-Keeps exc = owned_write-Keeps _ (λ s. kept.failed s (failure_code exc))

  assert_owned-Keeps : Keeps (OfShared P) (assert_owned settings (some worker))
  assert_owned-Keeps =
      Triple-weaken _ (assert_owned-Triple settings kept.stable worker) (λ w p. p) (λ u w h. h.0)
        (λ e w h. h)

  honor_cancellation-Keeps :
      (requested : Option ℕ)
      → Keeps (OfShared P) (honor_cancellation settings (some worker) requested)
  unfolding honor_cancellation
  honor_cancellation-Keeps none = search keeps_rules
  honor_cancellation-Keeps (some t) = search (keeps_rules, mark_scan_cancelled-Keeps)

  check_scan_cancelled-Keeps : Keeps (OfShared P) (check_scan_cancelled settings (some worker))
  unfolding check_scan_cancelled
  check_scan_cancelled-Keeps =
      Keeps-bind _ _ (refresh-Keeps settings kept.stable) (λ u.
        Keeps-bind _ _ assert_owned-Keeps (λ u. search (keeps_rules, honor_cancellation-Keeps)))

  pub checkpoint-Keeps : Keeps (OfShared P) (checkpoint settings (some worker))
  unfolding checkpoint checkpoint_scan_execution
  checkpoint-Keeps = Keeps-bind _ _ (execution_checkpoint-Keeps P) (λ u. check_scan_cancelled-Keeps)

  -- The writes outside the row.
  pub persist_tool_receipts-Keeps :
      (receipts : List ToolReceipt)
      → Keeps (OfShared P) (persist_tool_receipts settings (some worker) receipts)
  unfolding persist_tool_receipts
  persist_tool_receipts-Keeps receipts = Keeps-bind _ _ lock-Keeps (λ u. record { at = λ w p. p })
