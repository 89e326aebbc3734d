-- ===== src/Scans/Events.antt =====
-- What other processes do to a scan's row while a job runs: the clock moves, the API asks for
-- cancellation, a worker's monitor renews a lease, a worker recovers stale leases, a worker claims.
use web_security_audit_platf.Prelude.{ℕ, ◌+◌, String, Option, List, [], ◌∷◌, if◌then◌else◌}
use web_security_audit_platf.Scans.Scan.{Scan, Settings, is_queued_status}
use web_security_audit_platf.Scans.Lease.{claim, recover, renew_scan_lease}
use web_security_audit_platf.Scans.Control.{after_cancel}

pub data Event : Type 0 where
  elapse : ℕ → Event
  cancel_request : String → Event
  renewal : String → Option ℕ → Event
  recovery : Event
  claiming : Option String → Event

-- The committed row and the time.
pub record Shared : Type 0 where
  pub clock : ℕ
  pub row : Scan

unfoldable pub apply_event : Settings → Event → Shared → Shared
unfolding after_cancel renew_scan_lease recover claim
apply_event settings (elapse n) s = record s { clock = s.clock + n }
apply_event settings (cancel_request user) s = record s { row = after_cancel user s.clock s.row }
apply_event settings (renewal worker seconds) s = record s {
  row = (renew_scan_lease settings worker seconds s.clock s.row).0;
}
apply_event settings recovery s = record s { row = recover s.clock s.row }
apply_event settings (claiming worker) s =
    if is_queued_status s.row.status
    then record s { row = (claim settings worker s.clock s.row).0 }
    else s

unfoldable pub apply_events : Settings → List Event → Shared → Shared
apply_events settings [] s = s
apply_events settings (e ∷ es) s = apply_events settings es (apply_event settings e s)

-- What each event keeps, all events keep.
module _ (settings : Settings) (P : Shared → Type 0)
    (step : (e : Event) (s : Shared) → P s → P (apply_event settings e s)) where
  pub apply_events_induction : (es : List Event) (s : Shared) → P s → P (apply_events settings es s)
  unfolding apply_events
  apply_events_induction [] s h = h
  apply_events_induction (e ∷ es) s h =
      apply_events_induction es (apply_event settings e s) (step e s h)
