-- ===== src/Scans/RowSteps.antt =====
-- All that is written to a scan's row after its creation: the events of other processes, and the writes of a
-- job, which lock the row and assert the ownership first (backend/app/scans/lifecycle.py).
use web_security_audit_platf.Prelude.{
  ℕ, ◌⊎◌, inl, inr, String, ◌≡◌, refl, true, false, Option, List, [], ◌∷◌, All, arith, Bool-cases,
  if◌then◌else◌,
}
use web_security_audit_platf.Scans.Scan.{Scan, Settings}
use web_security_audit_platf.Scans.Lease.{owns, is_stale, set_cancelled, set_failed, recover}
use web_security_audit_platf.Scans.Progress.{Progress, set_progress}
use web_security_audit_platf.Scans.Events.{Event, renewal, recovery, Shared, apply_event}
use web_security_audit_platf.Scans.Ownership.{apply_event-stale}
use web_security_audit_platf.Scans.Kept.{IsCoherent}
use web_security_audit_platf.Scans.Invariant.{
  IsWellFormed, set_cancelled-IsWellFormed, set_failed-IsWellFormed, apply_event-IsWellFormed,
}
use web_security_audit_platf.Scans.JobInvariant.{set_progress-IsWellFormed}

-- `update_scan_progress`, `mark_scan_cancelled`, `mark_scan_failed_code`
pub data JobWrite : Type 0 where
  progress_write : Progress → JobWrite
  cancelled_write : JobWrite
  failed_write : String → JobWrite

abbrev pub write_row : Settings → ℕ → JobWrite → Scan → Scan
write_row settings now (progress_write p) row = set_progress settings now p row
write_row settings now cancelled_write row = set_cancelled now row
write_row settings now (failed_write code) row = set_failed now code row

pub data RowStep : Type 0 where
  by_other : Event → RowStep
  by_job : String → JobWrite → RowStep

-- A write of a job that does not own the scan raises and changes nothing.
unfoldable pub apply_step : Settings → RowStep → Shared → Shared
unfolding apply_event set_progress set_cancelled set_failed
apply_step settings (by_other e) s = apply_event settings e s
apply_step settings (by_job worker write) s =
    if owns worker s.clock s.row
    then record s { row = write_row settings s.clock write s.row }
    else s

unfoldable pub apply_steps : Settings → List RowStep → Shared → Shared
unfolding apply_step
apply_steps settings [] s = s
apply_steps settings (step ∷ steps) s = apply_steps settings steps (apply_step settings step s)

-- A job's progress is coherent; all else is unrestricted.
abbrev pub HasCoherentWrite : RowStep → Type 0
HasCoherentWrite (by_job worker (progress_write p)) = IsCoherent p
HasCoherentWrite _ = Unit {0}

apply_step-IsWellFormed :
    (settings : Settings) (step : RowStep) (s : Shared)
    → HasCoherentWrite step
    → IsWellFormed s.row
    → IsWellFormed (apply_step settings step s).row
unfolding apply_step
apply_step-IsWellFormed settings (by_other e) s c h = apply_event-IsWellFormed settings e s h
apply_step-IsWellFormed settings (by_job worker (progress_write p)) s c h =
    elim (Bool-cases (owns worker s.clock s.row)) [
      | inl mine ↦
          rw (mine, apply_step) (set_progress-IsWellFormed settings worker s.clock p s.row c h mine)
      | inr lost ↦ rw (lost, apply_step) h
    ]
apply_step-IsWellFormed settings (by_job worker cancelled_write) s c h =
    elim (Bool-cases (owns worker s.clock s.row)) [
      | inl mine ↦ rw (mine, apply_step) (set_cancelled-IsWellFormed s.clock s.row h)
      | inr lost ↦ rw (lost, apply_step) h
    ]
apply_step-IsWellFormed settings (by_job worker (failed_write code)) s c h =
    elim (Bool-cases (owns worker s.clock s.row)) [
      | inl mine ↦ rw (mine, apply_step) (set_failed-IsWellFormed s.clock code s.row h)
      | inr lost ↦ rw (lost, apply_step) h
    ]

-- Whatever cancellations, claims, lease renewals, recoveries of stale leases and writes of jobs are made
-- to a well-formed scan, and in whatever order, it stays well-formed, if the progress that a job writes is
-- coherent: a live status without an end, at most 99 percent, or a completed one with its end, at most 100.
pub apply_steps-IsWellFormed :
    (settings : Settings) (steps : List RowStep) (s : Shared)
    → All HasCoherentWrite steps
    → IsWellFormed s.row
    → IsWellFormed (apply_steps settings steps s).row
unfolding apply_steps
apply_steps-IsWellFormed settings [] s c h = h
apply_steps-IsWellFormed settings (step ∷ steps) s c h =
    apply_steps-IsWellFormed settings steps (apply_step settings step s) c.1
      (apply_step-IsWellFormed settings step s c.0 h)

-- What can happen to a scan whose lease has run out.
pub record IsExpired (settings : Settings) (s : Shared) : Type 0 where
  pub stays :
      (e : Event)
      → (is_stale (apply_event settings e s).clock (apply_event settings e s).row ≡ true)
        ⊎ ((apply_event settings e s).row ≡ set_failed s.clock "worker_interrupted" s.row)
  pub unwritten :
      (worker : String) (write : JobWrite) → apply_step settings (by_job worker write) s ≡ s
  pub unrenewed :
      (worker : String) (seconds : Option ℕ)
      → (apply_event settings (renewal worker seconds) s).row ≡ s.row
  pub recovered :
      (apply_event settings recovery s).row ≡ set_failed s.clock "worker_interrupted" s.row

-- While a lease is expired, no job writes under it and no worker renews it; each event leaves
-- it expired or fails the scan as interrupted, and a recovery does fail it.
pub stale-IsExpired :
    (settings : Settings) (s : Shared) → is_stale s.clock s.row ≡ true → IsExpired settings s
unfolding apply_step apply_event recover
stale-IsExpired settings s h = record {
  stays = λ e. apply_event-stale settings e s h;
  unwritten = λ worker write.
      let lost : owns worker s.clock s.row ≡ false = ground arith in rw (lost, apply_step) refl;
  unrenewed = λ worker seconds. ground arith;
  recovered = ground arith;
}
