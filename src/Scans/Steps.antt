-- ===== src/Scans/Steps.antt =====
-- The functions of lifecycle.py that a running job calls, each with its row lock, its commit and
-- its refresh.
use web_security_audit_platf.Prelude.{
  ℕ, ◌+◌, String, Bool, true, false, Option, none, some, List, [], ◌∷◌, str_eq, ltb, if◌then◌else◌,
  ok, err,
}
use web_security_audit_platf.Findings.{ToolReceipt}
use web_security_audit_platf.Scans.Scan.{Scan, Settings}
use web_security_audit_platf.Scans.Lease.{
  JobError, scan_cancelled, scan_deadline_exceeded, scan_lease_lost, assert_scan_ownership,
  set_cancelled, set_failed,
}
use web_security_audit_platf.Scans.Progress.{Progress, set_progress, failure_code}
use web_security_audit_platf.Scans.World.{
  Exec, pure, raise, lift, catch, ◌>>=◌, ◌>>◌, get_scan, now, refresh, write,
}

-- `execution_checkpoint()`: the monitor's signal, `ScanExecutionMonitor.checkpoint` of
-- backend/worker/main.py. With no callback there are no signals.
unfoldable pub next_signal : List Bool → Exec (Unit {0})
next_signal [] w = (ok tt, w)
next_signal (true ∷ rest) w = (err scan_lease_lost, record w { signals = rest })
next_signal (false ∷ rest) w = (ok tt, record w { signals = rest })

unfoldable pub execution_checkpoint : Exec (Unit {0})
unfolding next_signal
execution_checkpoint w = next_signal w.signals w

module _ (settings : Settings) where
  unfoldable pub assert_owned : Option String → Exec (Unit {0})
  assert_owned expected = do t ← now; scan ← get_scan; lift (assert_scan_ownership expected t scan)

  unfoldable pub lock_scan_for_owned_write : Option String → Exec (Unit {0})
  lock_scan_for_owned_write none = pure tt
  lock_scan_for_owned_write (some expected) = do refresh settings; assert_owned (some expected)

  -- The lock, the columns, `db.commit()` and `db.refresh(scan)`.
  unfoldable pub owned_write : Option String → (ℕ → Scan → Scan) → Exec (Unit {0})
  owned_write expected f = do lock_scan_for_owned_write expected; write f; refresh settings

  unfoldable pub update_scan_progress : Option String → Progress → Exec (Unit {0})
  unfolding owned_write
  update_scan_progress expected p = owned_write expected (λ t scan. set_progress settings t p scan)

  unfoldable pub mark_scan_cancelled : Option String → Exec (Unit {0})
  unfolding owned_write
  mark_scan_cancelled expected = owned_write expected set_cancelled

  unfoldable pub mark_scan_failed_code : Option String → String → Exec (Unit {0})
  unfolding owned_write
  mark_scan_failed_code expected code = owned_write expected (λ t scan. set_failed t code scan)

  unfoldable pub mark_scan_failed : Option String → JobError → Exec (Unit {0})
  unfolding mark_scan_failed_code
  mark_scan_failed expected exc = mark_scan_failed_code expected (failure_code exc)

  -- `datetime.now(UTC) > started_at + timeout`
  abbrev pub is_past_deadline : ℕ → Option ℕ → Bool
  is_past_deadline t none = false
  is_past_deadline t (some started) = ltb (started + settings.scan_timeout_seconds) t

  unfoldable pub honor_cancellation : Option String → Option ℕ → Exec (Unit {0})
  honor_cancellation expected none = pure tt
  honor_cancellation expected (some requested) = do
    mark_scan_cancelled expected
    raise scan_cancelled

  unfoldable pub check_scan_cancelled : Option String → Exec (Unit {0})
  unfolding honor_cancellation
  check_scan_cancelled expected = do
    refresh settings
    assert_owned expected
    t ← now
    scan ← get_scan
    if is_past_deadline t scan.started_at
        then raise scan_deadline_exceeded
        else honor_cancellation expected scan.cancellation_requested_at

  unfoldable pub checkpoint_scan_execution : Option String → Exec (Unit {0})
  checkpoint_scan_execution expected = do execution_checkpoint; check_scan_cancelled expected

-- One row for each tool of the scan: the first with that name is overwritten.
unfoldable pub upsert_tool_run : ToolReceipt → List ToolReceipt → List ToolReceipt
upsert_tool_run receipt [] = receipt ∷ []
upsert_tool_run receipt (run ∷ runs) =
    if str_eq run.tool_name receipt.tool_name
    then receipt ∷ runs
    else run ∷ upsert_tool_run receipt runs

unfoldable pub upsert_tool_runs : List ToolReceipt → List ToolReceipt → List ToolReceipt
unfolding upsert_tool_run
upsert_tool_runs [] runs = runs
upsert_tool_runs (r ∷ rs) runs = upsert_tool_runs rs (upsert_tool_run r runs)

unfoldable pub write_tool_runs : List ToolReceipt → Exec (Unit {0})
write_tool_runs receipts w = (ok tt, record w { tool_runs = upsert_tool_runs receipts w.tool_runs })

unfoldable pub persist_tool_receipts : Settings → Option String → List ToolReceipt → Exec (Unit {0})
unfolding write_tool_runs
persist_tool_receipts settings expected receipts = do
  lock_scan_for_owned_write settings expected
  write_tool_runs receipts

-- The body of `zap_daemon_lock`: the daemon is unlocked whether the body returns or raises.
unfoldable pub set_zap_locked : Bool → Exec (Unit {0})
set_zap_locked b w = (ok tt, record w { zap_locked = b })

unfoldable pub with_zap_daemon_lock {ℓ} : {A : Type ℓ} → Exec A → Exec A
unfolding set_zap_locked
with_zap_daemon_lock body = do
  set_zap_locked true
  result ← catch body (λ e. (do set_zap_locked false; raise e))
  set_zap_locked false
  pure result
