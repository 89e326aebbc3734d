-- ===== src/Scans/Lease.antt =====
-- Claiming, renewing and recovering a lease, and the ownership test: lifecycle.py. Each operation
-- here acts on one row under its row lock, at the time `now`.
use web_security_audit_platf.Prelude.{
  ℕ, ◌+◌, String, Bool, true, false, not, ◌&&◌, Option, none, some, min, leb, ltb, ◌==◌, opt_str_eq,
  str_eq, if◌then◌else◌, Result, ok, raise_if,
}
use web_security_audit_platf.Contracts.{validating, failed, cancelled, target_validation}
use web_security_audit_platf.Scans.Scan.{Scan, Settings, is_leased_status}

-- ScanLifecycleError and its subclasses, with the `code` attribute where one is set, and the
-- exceptions that the scanners raise.
pub data JobError : Type 0 where
  lifecycle_error : Option String → JobError
  scan_cancelled : JobError
  scan_deadline_exceeded : JobError
  scan_lease_lost : JobError
  zap_client_spider_cancelled : JobError
  other_error : Option String → JobError

-- `lease_expires_at is not None and lease_expires_at >= now`
abbrev pub is_unexpired : ℕ → Option ℕ → Bool
is_unexpired now none = false
is_unexpired now (some t) = leb now t

-- The negation of the test of `assert_scan_ownership`.
abbrev pub owns : String → ℕ → Scan → Bool
owns worker now scan =
    opt_str_eq scan.lease_owner (some worker)
    && is_leased_status scan.status
    && is_unexpired now scan.lease_expires_at

unfoldable pub assert_scan_ownership : Option String → ℕ → Scan → Result JobError (Unit {0})
assert_scan_ownership none now scan = ok tt
assert_scan_ownership (some expected) now scan =
    raise_if (not (owns expected now scan)) scan_lease_lost

-- The fields that `mark_scan_cancelled` sets.
unfoldable pub set_cancelled : ℕ → Scan → Scan
set_cancelled now scan = record scan {
  status = cancelled;
  progress_percent = min scan.progress_percent 99;
  completed_at = some now;
  error_code = none;
  lease_owner = none;
  lease_expires_at = none;
  lease_heartbeat_at = none;
}

-- The fields that `mark_scan_failed_code` sets.
unfoldable pub set_failed : ℕ → String → Scan → Scan
set_failed now code scan = record scan {
  status = failed;
  progress_percent = min scan.progress_percent 99;
  completed_at = some now;
  error_code = some code;
  lease_owner = none;
  lease_expires_at = none;
  lease_heartbeat_at = none;
}

-- `worker_id or settings.worker_id`
abbrev pub worker_or_default : Settings → Option String → String
worker_or_default settings none = settings.worker_id
worker_or_default settings (some w) = if str_eq w "" then settings.worker_id else w

-- What `claim_next_queued_scan` does with the row that its query found; `true` if it returns it.
-- A claim calls `update_scan_progress` with no expected owner, which renews the lease it just set.
unfoldable pub claim : Settings → Option String → ℕ → Scan → Scan × Bool
unfolding set_cancelled
claim settings worker now scan = elim scan.cancellation_requested_at [
  | some t ↦ (set_cancelled now scan, false)
  | none ↦ (
    record scan {
      status = validating;
      current_step = some target_validation;
      progress_percent = 5;
      started_at = some now;
      lease_owner = some (worker_or_default settings worker);
      lease_heartbeat_at = some now;
      lease_expires_at = some (now + settings.worker_lease_seconds);
      attempt_count = scan.attempt_count + 1;
    },
    true,
  )
]

-- The query of `recover_stale_scan_leases`.
abbrev pub is_stale : ℕ → Scan → Bool
is_stale now scan =
    is_leased_status scan.status && elim scan.lease_expires_at [ none ↦ false | some t ↦ ltb t now ]

-- One row of `recover_stale_scan_leases`: a row that the query selects is failed.
unfoldable pub recover : ℕ → Scan → Scan
unfolding set_failed
recover now scan = if is_stale now scan then set_failed now "worker_interrupted" scan else scan

-- `lease_seconds or settings.worker_lease_seconds`
abbrev pub seconds_or_default : Settings → Option ℕ → ℕ
seconds_or_default settings none = settings.worker_lease_seconds
seconds_or_default settings (some n) = if n == 0 then settings.worker_lease_seconds else n

-- The conditional UPDATE of `renew_scan_lease`, for the row with the given id; `true` if renewed.
unfoldable pub renew_scan_lease : Settings → String → Option ℕ → ℕ → Scan → Scan × Bool
renew_scan_lease settings worker lease_seconds now scan =
    if owns worker now scan
    then (
      record scan {
        lease_heartbeat_at = some now;
        lease_expires_at = some (now + seconds_or_default settings lease_seconds);
      },
      true,
    )
    else (scan, false)
