-- ===== src/Scans/Invariant.antt =====
-- The columns of a scan agree with its status, whatever operations are made on it.
use web_security_audit_platf.Prelude.{
  ℕ, ◌≤◌, String, ◌≡◌, Bool, true, false, Option, none, arith, is_some, List, Bool-cases, inl, inr,
}
use web_security_audit_platf.Contracts.{
  ScanStatus, queued, completed, completed_with_warnings, failed,
}
use web_security_audit_platf.Scans.Scan.{
  Scan, Settings, is_leased_status, is_terminal_status, is_queued_status,
}
use web_security_audit_platf.Scans.Lease.{
  set_cancelled, set_failed, claim, recover, renew_scan_lease,
}
use web_security_audit_platf.Scans.Control.{after_cancel}
use web_security_audit_platf.Scans.Events.{
  Event, elapse, cancel_request, renewal, recovery, claiming, Shared, apply_event, apply_events,
  apply_events_induction,
}

abbrev pub is_failed_status : ScanStatus → Bool
is_failed_status failed = true
is_failed_status _ = false

abbrev pub is_completed_status : ScanStatus → Bool
is_completed_status completed = true
is_completed_status completed_with_warnings = true
is_completed_status _ = false

pub record IsWellFormed (s : Scan) : Type 0 where
  pub leased : is_some s.lease_owner ≡ is_leased_status s.status
  pub expires : is_some s.lease_expires_at ≡ is_leased_status s.status
  pub heartbeat : is_some s.lease_heartbeat_at ≡ is_leased_status s.status
  pub finished : is_some s.completed_at ≡ is_terminal_status s.status
  pub failure : is_some s.error_code ≡ is_failed_status s.status
  pub progress : s.progress_percent ≤ 100
  pub unfinished : is_completed_status s.status ≡ false → s.progress_percent ≤ 99

pub set_cancelled-IsWellFormed :
    (now : ℕ) (s : Scan) → IsWellFormed s → IsWellFormed (set_cancelled now s)
unfolding set_cancelled
set_cancelled-IsWellFormed now s h = ground arith

pub set_failed-IsWellFormed :
    (now : ℕ) (code : String) (s : Scan) → IsWellFormed s → IsWellFormed (set_failed now code s)
unfolding set_failed
set_failed-IsWellFormed now code s h = ground arith

claim-IsWellFormed :
    (settings : Settings) (worker : Option String) (now : ℕ) (s : Scan)
    → is_queued_status s.status ≡ true
    → IsWellFormed s
    → IsWellFormed (claim settings worker now s).0
unfolding claim
claim-IsWellFormed settings worker now s q h = ground arith

recover-IsWellFormed : (now : ℕ) (s : Scan) → IsWellFormed s → IsWellFormed (recover now s)
unfolding recover
recover-IsWellFormed now s h = ground arith

renew_scan_lease-IsWellFormed :
    (settings : Settings) (worker : String) (seconds : Option ℕ) (now : ℕ) (s : Scan)
    → IsWellFormed s
    → IsWellFormed (renew_scan_lease settings worker seconds now s).0
unfolding renew_scan_lease
renew_scan_lease-IsWellFormed settings worker seconds now s h = ground arith

after_cancel-IsWellFormed :
    (user : String) (now : ℕ) (s : Scan) → IsWellFormed s → IsWellFormed (after_cancel user now s)
unfolding after_cancel
after_cancel-IsWellFormed user now s h = ground arith

-- Every event keeps the columns in agreement.
pub apply_event-IsWellFormed :
    (settings : Settings) (e : Event) (s : Shared)
    → IsWellFormed s.row
    → IsWellFormed (apply_event settings e s).row
unfolding apply_event
apply_event-IsWellFormed settings (elapse n) s h = h
apply_event-IsWellFormed settings (cancel_request user) s h =
    after_cancel-IsWellFormed user s.clock s.row h
apply_event-IsWellFormed settings (renewal worker seconds) s h =
    renew_scan_lease-IsWellFormed settings worker seconds s.clock s.row h
apply_event-IsWellFormed settings recovery s h = recover-IsWellFormed s.clock s.row h
apply_event-IsWellFormed settings (claiming worker) s h =
    elim (Bool-cases (is_queued_status s.row.status)) [
      | inl q ↦ rw q (claim-IsWellFormed settings worker s.clock s.row q h)
      | inr q ↦ rw q h
    ]

-- All events keep the columns in agreement.
pub apply_events-IsWellFormed :
    (settings : Settings) (es : List Event) (s : Shared)
    → IsWellFormed s.row
    → IsWellFormed (apply_events settings es s).row
apply_events-IsWellFormed settings =
    apply_events_induction settings (λ s. IsWellFormed s.row) (apply_event-IsWellFormed settings)

-- A queued scan, as `create_scan` makes it, is well formed.
pub record IsFresh (s : Scan) : Type 0 where
  pub status : s.status ≡ queued
  pub owner : s.lease_owner ≡ none
  pub expires : s.lease_expires_at ≡ none
  pub heartbeat : s.lease_heartbeat_at ≡ none
  pub completed_at : s.completed_at ≡ none
  pub error_code : s.error_code ≡ none
  pub progress : s.progress_percent ≡ 0

pub IsFresh-IsWellFormed : (s : Scan) → IsFresh s → IsWellFormed s
IsFresh-IsWellFormed s h = ground arith
