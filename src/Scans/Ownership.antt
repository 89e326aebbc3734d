-- ===== src/Scans/Ownership.antt =====
-- Losing a lease is final: a worker that does not own a claimed scan never owns it again.
use web_security_audit_platf.Prelude.{◌⊎◌, String, ◌≡◌, refl, true, false, arith}
use web_security_audit_platf.Scans.Scan.{Settings, is_queued_status, is_terminal_status}
use web_security_audit_platf.Scans.Lease.{owns, is_stale, set_failed}
use web_security_audit_platf.Scans.Events.{
  Event, elapse, cancel_request, renewal, recovery, claiming, Shared, apply_event,
}

-- `worker` does not own the scan, and the scan is not queued.
pub record IsLost (worker : String) (s : Shared) : Type 0 where
  pub unowned : owns worker s.clock s.row ≡ false
  pub claimed : is_queued_status s.row.status ≡ false

-- No event gives a lost scan back to its worker: it stays lost until the scan is queued again, and no
-- event queues it.
pub apply_event-IsLost :
    (settings : Settings) (worker : String) (e : Event) (s : Shared)
    → IsLost worker s
    → IsLost worker (apply_event settings e s)
unfolding apply_event
apply_event-IsLost settings worker (elapse n) s h = ground arith
apply_event-IsLost settings worker (cancel_request user) s h = ground arith
apply_event-IsLost settings worker (renewal other seconds) s h = ground (arith)
apply_event-IsLost settings worker recovery s h = ground arith
apply_event-IsLost settings worker (claiming other) s h = ground arith

-- A finished scan is never changed again.
pub apply_event-terminal :
    (settings : Settings) (e : Event) (s : Shared)
    → is_terminal_status s.row.status ≡ true
    → (apply_event settings e s).row ≡ s.row
unfolding apply_event
apply_event-terminal settings (elapse n) s h = refl
apply_event-terminal settings (cancel_request user) s h = ground arith
apply_event-terminal settings (renewal other seconds) s h = ground arith
apply_event-terminal settings recovery s h = ground arith
apply_event-terminal settings (claiming other) s h = ground arith

-- A claimed scan is never queued again.
pub apply_event-claimed :
    (settings : Settings) (e : Event) (s : Shared)
    → is_queued_status s.row.status ≡ false
    → is_queued_status (apply_event settings e s).row.status ≡ false
unfolding apply_event
apply_event-claimed settings (elapse n) s h = h
apply_event-claimed settings (cancel_request user) s h = ground arith
apply_event-claimed settings (renewal other seconds) s h = ground arith
apply_event-claimed settings recovery s h = ground arith
apply_event-claimed settings (claiming other) s h = ground arith

-- An expired lease stays expired under each event, or the scan is failed as interrupted.
pub apply_event-stale :
    (settings : Settings) (e : Event) (s : Shared)
    → is_stale s.clock s.row ≡ true
    → (is_stale (apply_event settings e s).clock (apply_event settings e s).row ≡ true)
      ⊎ ((apply_event settings e s).row ≡ set_failed s.clock "worker_interrupted" s.row)
unfolding apply_event
apply_event-stale settings (elapse n) s h = ground arith
apply_event-stale settings (cancel_request user) s h = ground arith
apply_event-stale settings (renewal other seconds) s h = ground arith
apply_event-stale settings recovery s h = ground arith
apply_event-stale settings (claiming other) s h = ground arith
