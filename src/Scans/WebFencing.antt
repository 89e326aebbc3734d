-- ===== src/Scans/WebFencing.antt =====
-- A web job whose lease is gone writes nothing.
use mathlib.Core.Path.{subst}
use web_security_audit_platf.Prelude.{◌≡◌, ◌⊎◌, inl, inr, refl, String, some, Result, ok, err}
use web_security_audit_platf.Scans.Scan.{Settings}
use web_security_audit_platf.Scans.Lease.{
  JobError, scan_lease_lost, scan_cancelled, zap_client_spider_cancelled,
}
use web_security_audit_platf.Scans.Ownership.{IsLost}
use web_security_audit_platf.Scans.World.{World}
use web_security_audit_platf.Scans.Foreign.{
  IsForeign, RaisesForeign, validate_scan_job-RaisesForeign,
}
use web_security_audit_platf.Scans.WebJob.{
  WebTools, web_prepare, web_body, handle_web_error, web_job,
}
use web_security_audit_platf.Scans.Triples.{
  Post, Triple, Triple-bind, Triple-pure, Triple-lift, Triple-catch, Triple-get_scan, Triple-weaken,
}
use web_security_audit_platf.Scans.Fencing.{
  IsFenced, Fenced, unreached, checkpoint-Fenced, fail_job-Fenced,
}

module _ (settings : Settings) (worker : String) (w0 : World) (tools : WebTools) where
  -- The body stops with the lost lease, or before it with an error of validation.
  abbrev Stopped : JobError → World → Type 0
  Stopped e w = (IsForeign e ⊎ (e ≡ scan_lease_lost)) × Fenced settings worker w0 w

  raised-IsForeign :
      (r : Result JobError (Unit {0})) (e : JobError) → r ≡ err e → RaisesForeign r → IsForeign e
  raised-IsForeign r e same f = subst RaisesForeign same f

  web_prepare-Stopped :
      Triple
        (Fenced settings worker w0)
        (web_prepare settings (some worker) tools)
        (λ es w. ⊥)
        Stopped
  unfolding web_prepare
  web_prepare-Stopped = Triple-bind _ _ Triple-get_scan λ scan.
      Triple-bind _ _
        (Triple-lift {Q = λ u. Fenced settings worker w0} _ (λ a w e h. h)
          (λ x w e h. (inl (raised-IsForeign _ x e (validate_scan_job-RaisesForeign scan)), h)))
        λ u.
          Triple-bind _ _
            (Triple-weaken _ (checkpoint-Fenced settings worker w0 {Q = λ u w. ⊥}) (λ w h. h)
              (λ a w h. h) (λ e w h. (inr h.0, h.1)))
            λ u. unreached settings worker w0 _

  web_body-Stopped :
      Triple (Fenced settings worker w0) (web_body settings (some worker) tools) (λ u w. ⊥) Stopped
  unfolding web_body
  web_body-Stopped = Triple-bind _ _ web_prepare-Stopped λ es. unreached settings worker w0 _

  handle_web_error-Stopped :
      (e : JobError)
      → Triple
          (Stopped e)
          (handle_web_error settings (some worker) tools e)
          (λ u. Fenced settings worker w0)
          (λ e w. ⊥)
  unfolding handle_web_error
  handle_web_error-Stopped scan_lease_lost = Triple-pure _ (λ w h. h.1)
  handle_web_error-Stopped scan_cancelled = record { at = λ w h. absurd (never w h) }
    where
      never : (w : World) → Stopped scan_cancelled w → ⊥
      never w (inl f, h) = f
      never w (inr e, h) = cc
  handle_web_error-Stopped zap_client_spider_cancelled = record { at = λ w h. absurd (never w h) }
    where
      never : (w : World) → Stopped zap_client_spider_cancelled w → ⊥
      never w (inl f, h) = f
      never w (inr e, h) = cc
  handle_web_error-Stopped e =
      Triple-weaken _ (fail_job-Fenced settings worker w0 e) (λ w h. h.1) (λ u w h. h) (λ x w h. h)

  web_job-Fenced :
      Triple
        (Fenced settings worker w0)
        (web_job settings tools (some worker))
        (λ u. Fenced settings worker w0)
        (λ e w. ⊥)
  unfolding web_job
  web_job-Fenced =
      Triple-catch _ _
        (Triple-weaken _ web_body-Stopped (λ w h. h) (λ u w h. absurd h) (λ e w h. h))
        handle_web_error-Stopped

-- A web job whose worker has lost the scan returns normally and writes nothing: the
-- findings, the tool runs and the risk score are as they were, a finished row is as it was, and the
-- scan stays lost, whatever other processes do meanwhile.
pub web_job-IsFenced :
    (settings : Settings) (worker : String) (tools : WebTools) (w : World)
    → IsLost worker w.shared
    → ((web_job settings tools (some worker) w).0 ≡ ok tt)
      × IsFenced worker w (web_job settings tools (some worker) w).1
web_job-IsFenced settings worker tools w lost = returned (web_job settings tools (some worker) w) (
    (web_job-Fenced settings worker w tools).at w (record {
      lost = lost;
      findings = refl;
      tool_runs = refl;
      risk_scored = refl;
      finished = λ t. refl;
    }))
  where
    returned :
        (x : Result JobError (Unit {0}) × World)
        → Post (λ u. Fenced settings worker w) (λ e v. ⊥) x
        → (x.0 ≡ ok tt) × IsFenced worker w x.1
    returned (ok u, v) h = (refl, h)
    returned (err e, v) h = absurd h
