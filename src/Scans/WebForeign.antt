-- ===== src/Scans/WebForeign.antt =====
-- What the web job calls raises, and the lock round the daemon's runs.
use web_security_audit_platf.Prelude.{Bool, true, false, String, arith, Option, List}
use web_security_audit_platf.Security.Policy.{AllowlistTarget}
use web_security_audit_platf.Scans.Scan.{Settings, Scan}
use web_security_audit_platf.Scans.Lease.{
  JobError, scan_cancelled, scan_lease_lost, zap_client_spider_cancelled,
}
use web_security_audit_platf.Scans.Foreign.{RaisesForeign, foreign_of_ne}
use web_security_audit_platf.Scans.WebAuthority.{
  AuthLookup, load_web_scan_authority, authorize_engines, load_scan_auth_headers, check_zap_profile,
}
use web_security_audit_platf.Scans.World.{World, Exec}
use web_security_audit_platf.Scans.Steps.{set_zap_locked, with_zap_daemon_lock}
use web_security_audit_platf.Scans.WebJob.{WebTools}
use web_security_audit_platf.Scans.Triples.{
  Triple, Triple-bind, Triple-pure, Triple-raise, Triple-catch,
}
use web_security_audit_platf.Scans.Release.{IsLive, Raised}

-- The authorization of a job raises lifecycle errors only.
pub load_web_scan_authority-RaisesForeign :
    (f : AllowlistTarget → String) (scan : Scan) (targets : List AllowlistTarget)
    → RaisesForeign (load_web_scan_authority f scan targets)
unfolding load_web_scan_authority
load_web_scan_authority-RaisesForeign f scan targets =
    foreign_of_ne _ (ground arith) (ground arith) (ground arith)

pub authorize_engines-RaisesForeign :
    (found : AuthLookup) (url : Option String) (scan : Scan) (target : AllowlistTarget)
    → RaisesForeign (authorize_engines found url scan target)
unfolding authorize_engines check_zap_profile load_scan_auth_headers
authorize_engines-RaisesForeign found url scan target =
    foreign_of_ne _ (ground arith) (ground arith) (ground arith)

-- What the job calls raises none of the exceptions of its own control.
pub record IsForeignTools (tools : WebTools) : Type 0 where
  pub crawl : RaisesForeign tools.crawl.outcome
  pub zap_passive_scan : RaisesForeign tools.zap_passive_scan.outcome
  pub zap_active_scan : RaisesForeign tools.zap_active_scan.outcome
  pub zap_client_spider_scan : RaisesForeign tools.zap_client_spider_scan.outcome
  pub persist : RaisesForeign tools.persist
  pub risk : RaisesForeign tools.risk

module _ (settings : Settings) (worker : String) where
  set_zap_locked-Live :
      {P : World → Type 0} {R : JobError → World → Type 0} (b : Bool)
      → ((w : World) → P w → P (record w { zap_locked = b }))
      → Triple P (set_zap_locked b) (λ u. P) R
  unfolding set_zap_locked
  set_zap_locked-Live b keep = record { at = λ w h. keep w h }

  unlocked-IsLive : (b : Bool) (w : World) → IsLive w → IsLive (record w { zap_locked = b })
  unlocked-IsLive b w h = record { claimed = h.claimed; quiet = h.quiet }

  unlocked-Raised :
      (b : Bool) (e : JobError) (w : World)
      → Raised settings worker e w
      → Raised settings worker e (record w { zap_locked = b })
  unlocked-Raised b scan_lease_lost w h = (unlocked-IsLive b w h.0, h.1)
  unlocked-Raised b scan_cancelled w h = (unlocked-IsLive b w h.0, h.1)
  unlocked-Raised b zap_client_spider_cancelled w h = absurd h.1
  unlocked-Raised b _ w h = (unlocked-IsLive b w h.0, tt)

  pub with_zap_daemon_lock-Live {ℓ} :
      {A : Type ℓ} (body : Exec A)
      → Triple IsLive body (λ a. IsLive) (Raised settings worker)
      → Triple IsLive (with_zap_daemon_lock body) (λ a. IsLive) (Raised settings worker)
  unfolding with_zap_daemon_lock
  with_zap_daemon_lock-Live body t =
      Triple-bind _ _ (set_zap_locked-Live true (unlocked-IsLive true)) λ u.
        Triple-bind _ _
          (Triple-catch _ _ t λ e.
            Triple-bind _ _ (set_zap_locked-Live false (unlocked-Raised false e))
              λ u. Triple-raise e (λ w h. h))
          λ a.
            Triple-bind _ _ (set_zap_locked-Live false (unlocked-IsLive false))
              λ u. Triple-pure a (λ w h. h)
