-- ===== src/Scans/WebJob.antt =====
-- `run_passive_scan_job` of lifecycle.py.
use web_security_audit_platf.Prelude.{
  ℕ, String, Bool, Option, none, some, List, [], ◌∷◌, ◌++◌, length, if◌then◌else◌, Result,
}
use web_security_audit_platf.Contracts.{
  active_demo, modern_web_crawl, validating, running, normalizing, ScanStep, target_validation,
  custom_crawl, custom_checks, zap_passive, zap_active, zap_client_spider, normalizing_findings,
}
use web_security_audit_platf.Findings.{NormalizedFindingInput, ToolReceipt}
use web_security_audit_platf.Security.Policy.{ScanEngine, AllowlistTarget, has_engine}
use web_security_audit_platf.Security.Policy
use web_security_audit_platf.Scans.Scan.{Scan, Settings, has_mode, is_cancelled_status}
use web_security_audit_platf.Scans.Lease.{
  JobError, scan_cancelled, scan_lease_lost, zap_client_spider_cancelled,
}
use web_security_audit_platf.Scans.Progress.{is_truthy}
use web_security_audit_platf.Scans.Validation.{validate_scan_job}
use web_security_audit_platf.Scans.WebAuthority.{
  AuthLookup, load_web_scan_authority, authorize_engines,
}
use web_security_audit_platf.Scans.World.{Exec, pure, lift, catch, ◌>>=◌, ◌>>◌, get_scan, now}
use web_security_audit_platf.Scans.Steps.{
  persist_tool_receipts, mark_scan_cancelled, with_zap_daemon_lock,
}
use web_security_audit_platf.Scans.JobParts.{
  Tool, stage, is_nonempty, checkpoint, run_tool, update, record_results, fail_job,
}

-- What an engine returns.
pub record EngineResult : Type 0 where
  pub findings : List NormalizedFindingInput
  pub errors : List String

-- What the job calls outside lifecycle.py, by its outcome.
pub record WebTools : Type 0 where
  pub allowlist : List AllowlistTarget
  pub fingerprint_of : AllowlistTarget → String
  pub auth_profile : AuthLookup
  pub zap_base_url : Option String
  pub crawl : Tool EngineResult
  pub zap_passive_scan : Tool EngineResult
  pub zap_active_scan : Tool EngineResult
  pub zap_client_spider_scan : Tool EngineResult
  pub persist : Result JobError (Unit {0})
  pub risk : Result JobError (Unit {0})

-- The arguments in their order, then the time of the call.
unfoldable pub completed_tool_receipt : String → String → ℕ → ℕ → Option String → ℕ → ToolReceipt
completed_tool_receipt tool_name tool_version finding_count started_at warning_code now = record {
  tool_name = tool_name;
  tool_version = some tool_version;
  status = if is_truthy warning_code then "completed_with_warnings" else "completed";
  warning_code = warning_code;
  finding_count = finding_count;
  started_at = started_at;
  completed_at = now;
}

-- `code if errors else None`
abbrev pub warning_if : List String → String → Option String
warning_if errors code = if is_nonempty errors then some code else none

-- `all_findings`, `all_errors` and `tool_receipts`, so far.
pub record Collected : Type 0 where
  pub findings : List NormalizedFindingInput
  pub errors : List String
  pub receipts : List ToolReceipt

abbrev pub collect : Collected → EngineResult → ToolReceipt → Collected
collect c result receipt = record {
  findings = c.findings ++ result.findings;
  errors = c.errors ++ result.errors;
  receipts = c.receipts ++ receipt ∷ [];
}

abbrev pub nothing_collected : Collected
nothing_collected = record { findings = []; errors = []; receipts = [] }

module _ (settings : Settings) (expected : Option String) (tools : WebTools) where
  unfoldable pub web_prepare : Exec (List ScanEngine)
  web_prepare = do
    claimed ← get_scan
    lift (validate_scan_job claimed)
    checkpoint settings expected
    scan ← get_scan
    authority ← lift (load_web_scan_authority tools.fingerprint_of scan tools.allowlist)
    engines ←
        lift
          (authorize_engines tools.auth_profile tools.zap_base_url scan authority.allowlist_target)
    update settings expected (stage validating target_validation 10)
    checkpoint settings expected
    update settings expected (stage running custom_crawl 30)
    checkpoint settings expected
    pure engines

  unfoldable pub web_crawl : Exec Collected
  web_crawl = do
    started ← now
    result ← run_tool settings expected tools.crawl
    completed ← now
    checkpoint settings expected
    update settings expected (stage running custom_checks 70)
    pure (
        collect nothing_collected result (
          completed_tool_receipt "scopeharbor-passive" "1.1.0" (length result.findings) started
            (warning_if result.errors "passive_scan_warning") completed))

  -- One engine of the daemon, under its lock.
  unfoldable pub zap_run :
      ScanStep → ℕ → String → String → Tool EngineResult → Collected → Exec Collected
  zap_run step percent name warning tool c = do
    update settings expected (stage running step percent)
    started ← now
    result ← with_zap_daemon_lock (do checkpoint settings expected; run_tool settings expected tool)
    completed ← now
    pure (
        collect c result (
          completed_tool_receipt name "2.17.0" (length result.findings) started
            (warning_if result.errors warning) completed))

  -- A further engine, after a checkpoint, for the scans of one mode.
  unfoldable pub zap_extra :
      Bool → ScanStep → String → String → Tool EngineResult → Collected → Exec Collected
  unfolding zap_run
  zap_extra wanted step name warning tool c =
      if wanted
      then (do checkpoint settings expected; zap_run step 82 name warning tool c)
      else pure c

  unfoldable pub web_zap : Scan → Collected → Exec Collected
  web_zap scan c = do
    c1 ← zap_run zap_passive 76 "zap-passive" "zap_passive_warning" tools.zap_passive_scan c
    c2 ←
        zap_extra (has_mode active_demo scan.mode) zap_active "zap-active" "zap_active_warning"
          tools.zap_active_scan c1
    zap_extra (has_mode modern_web_crawl scan.mode) zap_client_spider "zap-client-spider"
        "client_spider_warning" tools.zap_client_spider_scan c2

  unfoldable pub web_record : Collected → Exec (Unit {0})
  web_record c = do
    checkpoint settings expected
    persist_tool_receipts settings expected c.receipts
    update settings expected (stage normalizing normalizing_findings 85)
    record_results settings expected tools.persist tools.risk c.findings (is_nonempty c.errors)

  -- The body of the `try`. The mode is a column that nothing writes.
  unfoldable pub web_body : Exec (Unit {0})
  web_body = do
    engines ← web_prepare
    scan ← get_scan
    c ← web_crawl
    collected ← if has_engine Policy.zap_passive engines then web_zap scan c else pure c
    web_record collected

  -- `except (ScanCancelledError, ZapClientSpiderCancelled)`
  unfoldable pub after_cancelled : Exec (Unit {0})
  after_cancelled = do
    scan ← get_scan
    if is_cancelled_status scan.status then pure tt else mark_scan_cancelled settings expected

  unfoldable pub handle_web_error : JobError → Exec (Unit {0})
  handle_web_error scan_cancelled = after_cancelled
  handle_web_error zap_client_spider_cancelled = after_cancelled
  handle_web_error scan_lease_lost = pure tt
  handle_web_error exc = fail_job settings expected exc

unfoldable pub web_job : Settings → WebTools → Option String → Exec (Unit {0})
web_job settings tools expected =
    catch (web_body settings expected tools) (handle_web_error settings expected tools)

unfoldable pub run_passive_scan_job : Settings → WebTools → Exec (Unit {0})
run_passive_scan_job settings tools = do scan ← get_scan; web_job settings tools scan.lease_owner
