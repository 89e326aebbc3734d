-- ===== src/Scans/Fencing.antt =====
-- A job whose lease is gone writes nothing.
use web_security_audit_platf.Prelude.{
  ◌≡◌, refl, Bool, true, false, String, some, List, [], ◌∷◌, Result, ok, err,
}
use web_security_audit_platf.Scans.Scan.{Settings, is_terminal_status}
use web_security_audit_platf.Scans.Lease.{
  JobError, scan_lease_lost, scan_cancelled, assert_scan_ownership,
}
use web_security_audit_platf.Scans.Events.{Event, Shared, apply_event, apply_events_induction}
use web_security_audit_platf.Scans.Ownership.{IsLost, apply_event-IsLost, apply_event-terminal}
use web_security_audit_platf.Scans.World.{World, Exec, ◌>>=◌, get_scan, now, refresh, others_act}
use web_security_audit_platf.Scans.Steps.{
  assert_owned, lock_scan_for_owned_write, owned_write, mark_scan_failed, check_scan_cancelled,
  next_signal, execution_checkpoint, checkpoint_scan_execution,
}
use web_security_audit_platf.Scans.JobParts.{checkpoint, lease_lost_or_raise, fail_job}
use web_security_audit_platf.Scans.RepoJob.{
  RepoTools, repo_prepare, repo_body, handle_repo_error, repo_job,
}
use web_security_audit_platf.Scans.Triples.{
  Post, Triple, Triple-bind, Triple-pure, Triple-raise, Triple-lift, Triple-catch, Triple-get_scan,
  Triple-weaken,
}

-- The worker has lost the scan; nothing has been written beside the row since `w0`, and a finished
-- row is as it was.
pub record IsFenced (worker : String) (w0 w : World) : Type 0 where
  pub lost : IsLost worker w.shared
  pub findings : w.findings ≡ w0.findings
  pub tool_runs : w.tool_runs ≡ w0.tool_runs
  pub risk_scored : w.risk_scored ≡ w0.risk_scored
  pub finished : is_terminal_status w0.shared.row.status ≡ true → w.shared.row ≡ w0.shared.row

module _ (settings : Settings) (worker : String) (w0 : World) where
  abbrev pub Fenced : World → Type 0
  Fenced w = IsFenced worker w0 w

  abbrev pub LostLease : JobError → World → Type 0
  LostLease e w = (e ≡ scan_lease_lost) × Fenced w

  finished-step :
      (e : Event) (s : Shared)
      → (is_terminal_status w0.shared.row.status ≡ true → s.row ≡ w0.shared.row)
      → is_terminal_status w0.shared.row.status ≡ true
      → (apply_event settings e s).row ≡ w0.shared.row
  finished-step e s h t = let same = h t in cc (apply_event-terminal settings e s (rw same t), same)

  others_act-Fenced :
      (schedule : List (List Event)) (w : World)
      → Fenced w
      → Fenced (others_act settings schedule w)
  unfolding others_act
  others_act-Fenced [] w h = h
  others_act-Fenced (es ∷ rest) w h = record {
    lost =
        apply_events_induction settings (IsLost worker) (apply_event-IsLost settings worker) es
          w.shared h.lost;
    findings = h.findings;
    tool_runs = h.tool_runs;
    risk_scored = h.risk_scored;
    finished =
        apply_events_induction settings
          (λ s. is_terminal_status w0.shared.row.status ≡ true → s.row ≡ w0.shared.row)
          finished-step es w.shared h.finished;
  }

  refresh-Fenced :
      {R : JobError → World → Type 0} → Triple Fenced (refresh settings) (λ u. Fenced) R
  unfolding refresh
  refresh-Fenced = record { at = λ w h. others_act-Fenced w.schedule w h }

  -- The ownership test fails, always.
  assert_owned-Fenced :
      {Q : Unit {0} → World → Type 0}
      → Triple Fenced (assert_owned settings (some worker)) Q LostLease
  unfolding assert_owned assert_scan_ownership ◌>>=◌ get_scan now
  assert_owned-Fenced = record { at = λ w h. rw h.lost.unowned (refl, h) }

  lock-Fenced :
      {Q : Unit {0} → World → Type 0}
      → Triple Fenced (lock_scan_for_owned_write settings (some worker)) Q LostLease
  unfolding lock_scan_for_owned_write
  lock-Fenced = Triple-bind _ _ refresh-Fenced (λ u. assert_owned-Fenced)

  -- What stands after the failing test is never reached.
  pub unreached {ℓ} :
      {A : Type ℓ} {Q : A → World → Type 0} {R : JobError → World → Type 0} (m : Exec A)
      → Triple (λ w. ⊥) m Q R
  unreached m = record { at = λ w h. absurd h }

  check_scan_cancelled-Fenced :
      {Q : Unit {0} → World → Type 0}
      → Triple Fenced (check_scan_cancelled settings (some worker)) Q LostLease
  unfolding check_scan_cancelled
  check_scan_cancelled-Fenced =
      Triple-bind _ _ refresh-Fenced
        λ u. Triple-bind _ _ (assert_owned-Fenced {Q = λ u w. ⊥}) λ u. unreached _

  next_signal-IsFenced :
      (signals : List Bool) (w : World)
      → Fenced w
      → Post (λ u. Fenced) LostLease (next_signal signals w)
  unfolding next_signal
  next_signal-IsFenced [] w h = h
  next_signal-IsFenced (true ∷ rest) w h = (
    refl,
    record {
      lost = h.lost;
      findings = h.findings;
      tool_runs = h.tool_runs;
      risk_scored = h.risk_scored;
      finished = h.finished;
    },
  )
  next_signal-IsFenced (false ∷ rest) w h = record {
    lost = h.lost;
    findings = h.findings;
    tool_runs = h.tool_runs;
    risk_scored = h.risk_scored;
    finished = h.finished;
  }

  pub checkpoint-Fenced :
      {Q : Unit {0} → World → Type 0}
      → Triple Fenced (checkpoint settings (some worker)) Q LostLease
  unfolding checkpoint checkpoint_scan_execution execution_checkpoint
  checkpoint-Fenced =
      Triple-bind _ _ (record { at = λ w h. next_signal-IsFenced w.signals w h })
        (λ u. check_scan_cancelled-Fenced)

  lease_lost_or_raise-Fenced :
      (e : JobError) → Triple (LostLease e) (lease_lost_or_raise e) (λ u. Fenced) (λ e w. ⊥)
  unfolding lease_lost_or_raise
  lease_lost_or_raise-Fenced scan_lease_lost = Triple-pure _ (λ w h. h.1)
  lease_lost_or_raise-Fenced _ = Triple-raise _ (λ w h. cc (h.0))

  pub fail_job-Fenced :
      (exc : JobError)
      → Triple Fenced (fail_job settings (some worker) exc) (λ u. Fenced) (λ e w. ⊥)
  unfolding fail_job mark_scan_failed owned_write
  fail_job-Fenced exc =
      Triple-catch _ _ (Triple-bind _ _ (lock-Fenced {Q = λ u w. ⊥}) (λ u. unreached _))
        lease_lost_or_raise-Fenced

  module _ (tools : RepoTools) where
    -- The job stops in validation or at its first checkpoint.
    repo_body-Fenced :
        Triple Fenced (repo_body settings (some worker) tools) (λ u w. ⊥) (λ e. Fenced)
    unfolding repo_body repo_prepare
    repo_body-Fenced =
        Triple-bind _ _
          (Triple-bind _ _ Triple-get_scan λ scan.
            Triple-bind _ _ (Triple-lift {Q = λ u. Fenced} _ (λ a w e h. h) (λ x w e h. h)) λ u.
              Triple-bind _ _
                (Triple-weaken _ (checkpoint-Fenced {Q = λ u w. ⊥}) (λ w h. h) (λ a w h. h)
                  (λ e w h. h.1))
                λ u. unreached _)
          λ u. unreached {Q = λ v w. ⊥} _

    handle_repo_error-Fenced :
        (e : JobError)
        → Triple Fenced (handle_repo_error settings (some worker) tools e) (λ u. Fenced) (λ e w. ⊥)
    unfolding handle_repo_error
    handle_repo_error-Fenced scan_cancelled = Triple-pure _ (λ w h. h)
    handle_repo_error-Fenced scan_lease_lost = Triple-pure _ (λ w h. h)
    handle_repo_error-Fenced e = fail_job-Fenced e

    repo_job-Fenced : Triple Fenced (repo_job settings tools (some worker)) (λ u. Fenced) (λ e w. ⊥)
    unfolding repo_job
    repo_job-Fenced =
        Triple-catch _ _
          (Triple-weaken _ repo_body-Fenced (λ w h. h) (λ u w h. absurd h) (λ e w h. h))
          handle_repo_error-Fenced

-- A repository job whose worker has lost the scan returns normally and writes nothing: the
-- findings, the tool runs and the risk score are as they were, a finished row is as it was, and the
-- scan stays lost, whatever other processes do meanwhile.
pub repo_job-IsFenced :
    (settings : Settings) (worker : String) (tools : RepoTools) (w : World)
    → IsLost worker w.shared
    → ((repo_job settings tools (some worker) w).0 ≡ ok tt)
      × IsFenced worker w (repo_job settings tools (some worker) w).1
repo_job-IsFenced settings worker tools w lost =
    returned (repo_job settings tools (some worker) w) (
      (repo_job-Fenced settings worker w tools).at w (record {
        lost = lost;
        findings = refl;
        tool_runs = refl;
        risk_scored = refl;
        finished = λ t. refl;
      }))
  where
    returned :
        (x : Result JobError (Unit {0}) × World)
        → Post (λ u. Fenced settings worker w) (λ e v. ⊥) x
        → (x.0 ≡ ok tt) × IsFenced worker w x.1
    returned (ok u, v) h = (refl, h)
    returned (err e, v) h = absurd h
