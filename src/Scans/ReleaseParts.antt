-- ===== src/Scans/ReleaseParts.antt =====
-- A job gives its lease up: checkpoints, engines, results and the handler of errors.
use web_security_audit_platf.Prelude.{
  ℕ, String, ◌≡◌, refl, Bool, true, false, Option, none, some, List, [], ◌∷◌, Result, ok, err,
  arith, All,
}
use web_security_audit_platf.Scans.Scan.{Scan, Settings, is_queued_status, is_terminal_status}
use web_security_audit_platf.Scans.Lease.{
  JobError, scan_cancelled, scan_lease_lost, scan_deadline_exceeded, zap_client_spider_cancelled,
  set_cancelled, set_failed,
}
use web_security_audit_platf.Scans.Progress.{Progress, set_progress}
use web_security_audit_platf.Scans.Ownership.{IsLost}
use web_security_audit_platf.Scans.World.{World, Exec, pure, raise, lift, catch}
use web_security_audit_platf.Scans.Steps.{
  is_past_deadline, update_scan_progress, mark_scan_cancelled, mark_scan_failed, honor_cancellation,
  check_scan_cancelled, next_signal, execution_checkpoint, checkpoint_scan_execution,
}
use web_security_audit_platf.Scans.JobParts.{Tool, checkpoint, run_probes, run_tool, update}
use web_security_audit_platf.Scans.Foreign.{IsForeign, RaisesForeign}
use web_security_audit_platf.Scans.Triples.{
  Post, Triple, Triple-bind, Triple-pure, Triple-raise, Triple-if, Triple-weaken, Triple-catch,
  Triple-get_scan, Triple-now,
}
use web_security_audit_platf.Scans.Release.{
  IsLive, Raised, LeaseLost, LeaseLost-Raised, refresh-IsLive, assert_owned-Live, owned_write-Live,
  owned_write-Lost, owned_write-Ended, Ended,
}

module _ (settings : Settings) (worker : String) where
  pub weaken-Raised {ℓ} :
      {A : Type ℓ} {P : World → Type 0} {Q : A → World → Type 0} (m : Exec A)
      → Triple P m Q (LeaseLost settings worker)
      → Triple P m Q (Raised settings worker)
  weaken-Raised m t = Triple-weaken m t (λ w p. p) (λ a w q. q) (LeaseLost-Raised settings worker)

  pub foreign-Raised :
      (e : JobError) (w : World) → IsForeign e → IsLive w → Raised settings worker e w
  foreign-Raised scan_lease_lost w f h = absurd f
  foreign-Raised scan_cancelled w f h = absurd f
  foreign-Raised zap_client_spider_cancelled w f h = absurd f
  foreign-Raised _ w f h = (h, tt)

  pub lift-Live {ℓ} :
      {A : Type ℓ} (r : Result JobError A)
      → RaisesForeign r
      → Triple IsLive (lift r) (λ a. IsLive) (Raised settings worker)
  unfolding lift
  lift-Live (ok a) f = record { at = λ w h. h }
  lift-Live (err e) f = record { at = λ w h. foreign-Raised e w f h }

  set_progress-claimed :
      (p : Progress) (t : ℕ) (row : Scan)
      → is_queued_status p.status ≡ false
      → is_queued_status (set_progress settings t p row).status ≡ false
  unfolding set_progress
  set_progress-claimed p t row h = ground arith

  set_progress-terminal :
      (p : Progress) (t : ℕ) (row : Scan)
      → is_terminal_status p.status ≡ true
      → is_terminal_status (set_progress settings t p row).status ≡ true
  unfolding set_progress
  set_progress-terminal p t row h = ground arith

  pub update-Live :
      (p : Progress)
      → is_queued_status p.status ≡ false
      → Triple IsLive (update settings (some worker) p) (λ u. IsLive) (Raised settings worker)
  unfolding update update_scan_progress
  update-Live p h =
      weaken-Raised _ (owned_write-Live settings worker _ (λ t row. set_progress-claimed p t row h))

  pub update-Lost :
      (p : Progress)
      → is_terminal_status p.status ≡ true
      → Triple IsLive
          (update settings (some worker) p)
          (λ u w. IsLive w × IsLost worker w.shared)
          (Raised settings worker)
  unfolding update update_scan_progress
  update-Lost p h =
      weaken-Raised _
        (owned_write-Lost settings worker _ (λ t row. set_progress-terminal p t row h))

  mark_scan_cancelled-Ended :
      Triple IsLive
        (mark_scan_cancelled settings (some worker))
        (λ u w. IsLive w × Ended settings worker w)
        (LeaseLost settings worker)
  unfolding mark_scan_cancelled set_cancelled
  mark_scan_cancelled-Ended = owned_write-Ended settings worker _ (λ t row. refl)

  pub mark_scan_failed-Lost :
      (exc : JobError)
      → Triple IsLive
          (mark_scan_failed settings (some worker) exc)
          (λ u w. IsLive w × IsLost worker w.shared)
          (LeaseLost settings worker)
  unfolding mark_scan_failed set_failed
  mark_scan_failed-Lost exc = owned_write-Lost settings worker _ (λ t row. refl)

  honor_cancellation-Live :
      (requested : Option ℕ)
      → Triple IsLive
          (honor_cancellation settings (some worker) requested)
          (λ u. IsLive)
          (Raised settings worker)
  unfolding honor_cancellation
  honor_cancellation-Live none = Triple-pure _ (λ w h. h)
  honor_cancellation-Live (some t) =
      Triple-bind _ _ (weaken-Raised _ mark_scan_cancelled-Ended) (λ u. Triple-raise _ (λ w h. h))

  check_scan_cancelled-Live :
      Triple IsLive
        (check_scan_cancelled settings (some worker))
        (λ u. IsLive)
        (Raised settings worker)
  unfolding check_scan_cancelled
  check_scan_cancelled-Live = Triple-bind _ _ (refresh-IsLive settings worker) λ u.
      Triple-bind _ _
        (Triple-weaken _ (assert_owned-Live settings worker) (λ w p. p) (λ u w h. h.0)
          (LeaseLost-Raised settings worker))
        λ u. Triple-bind _ _ Triple-now λ t. Triple-bind _ _ Triple-get_scan λ scan.
          Triple-if (is_past_deadline settings t scan.started_at) (raise scan_deadline_exceeded) _
            (λ e. Triple-raise _ (λ w h. (h, tt)))
            (λ e. honor_cancellation-Live scan.cancellation_requested_at)

  next_signal-IsLive :
      (signals : List Bool) (w : World)
      → All (λ b. b ≡ false) signals
      → IsLive w
      → Post (λ u. IsLive) (Raised settings worker) (next_signal signals w)
  unfolding next_signal
  next_signal-IsLive [] w q h = h
  next_signal-IsLive (true ∷ rest) w q h = cc (q.0)
  next_signal-IsLive (false ∷ rest) w q h = record { claimed = h.claimed; quiet = q.1 }

  execution_checkpoint-Live :
      Triple IsLive execution_checkpoint (λ u. IsLive) (Raised settings worker)
  unfolding execution_checkpoint
  execution_checkpoint-Live = record { at = λ w h. next_signal-IsLive w.signals w h.quiet h }

  pub checkpoint-Live :
      Triple IsLive (checkpoint settings (some worker)) (λ u. IsLive) (Raised settings worker)
  unfolding checkpoint checkpoint_scan_execution
  checkpoint-Live = Triple-bind _ _ execution_checkpoint-Live (λ u. check_scan_cancelled-Live)

  swallowed-Live :
      Triple IsLive
        (catch (checkpoint settings (some worker)) (λ e. pure tt))
        (λ u. IsLive)
        (Raised settings worker)
  swallowed-Live = Triple-catch _ _ checkpoint-Live (λ e. Triple-pure _ (λ w h. h.0))

  run_probes-Live :
      (probes : List Bool)
      → Triple IsLive
          (run_probes settings (some worker) probes)
          (λ u. IsLive)
          (Raised settings worker)
  unfolding run_probes
  run_probes-Live [] = Triple-pure _ (λ w h. h)
  run_probes-Live (b ∷ bs) =
      Triple-bind _ _ (Triple-if b _ _ (λ e. swallowed-Live) (λ e. checkpoint-Live))
        (λ u. run_probes-Live bs)

  pub run_tool-Live {ℓ} :
      {A : Type ℓ} (tool : Tool A)
      → RaisesForeign tool.outcome
      → Triple IsLive (run_tool settings (some worker) tool) (λ a. IsLive) (Raised settings worker)
  unfolding run_tool
  run_tool-Live tool f =
      Triple-bind _ _ (run_probes-Live tool.probes) (λ u. lift-Live tool.outcome f)
