-- ===== src/Scans/Control.antt =====
-- The cancel endpoint: `cancel_scan` of backend/app/api/scans.py, on a row that the query found in
-- the caller's workspace, under its row lock.
use web_security_audit_platf.Prelude.{
  ℕ, String, Option, none, some, min, if◌then◌else◌, Result, ok, err,
}
use web_security_audit_platf.Contracts.{cancelled}
use web_security_audit_platf.Scans.Scan.{Scan, is_terminal_status, is_queued_status}

-- The two HTTP errors of the endpoint.
pub data CancelError : Type 0 where
  scan_not_found terminal_scan : CancelError

unfoldable pub cancel_row : String → ℕ → Scan → Result CancelError Scan
cancel_row user_id now scan =
    if is_terminal_status scan.status
    then err terminal_scan
    else elim scan.cancellation_requested_at [
      | some t ↦ ok scan
      | none ↦ ok (
          if is_queued_status scan.status
          then record scan {
            cancellation_requested_at = some now;
            cancellation_requested_by_user_id = some user_id;
            status = cancelled;
            progress_percent = min scan.progress_percent 99;
            completed_at = some now;
          }
          else record scan {
            cancellation_requested_at = some now;
            cancellation_requested_by_user_id = some user_id;
          })
    ]

unfoldable pub cancel_scan : String → ℕ → Option Scan → Result CancelError Scan
unfolding cancel_row
cancel_scan user_id now none = err scan_not_found
cancel_scan user_id now (some scan) = cancel_row user_id now scan

-- A request that is refused writes nothing.
unfoldable pub after_cancel : String → ℕ → Scan → Scan
unfolding cancel_scan
after_cancel user_id now scan = elim (cancel_scan user_id now (some scan)) [
  | ok s ↦ s
  | err e ↦ scan
]
