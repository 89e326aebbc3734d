-- ===== src/Findings.antt =====
-- What scanners hand to the lifecycle: backend/app/findings/schemas.py and the receipts of
-- backend/app/repo_scanner/adapters.py.
use web_security_audit_platf.Prelude.{ℕ, String, Option}
pub mod Utf8
pub mod Characters
pub mod Truncation
pub mod Longest
mod Examples

pub data Severity : Type 0 where
  info low medium high critical : Severity

pub data Confidence : Type 0 where
  low medium high confirmed : Confidence

pub record NormalizedFindingInput : Type 0 where
  pub title : String
  pub severity : Severity
  pub confidence : Confidence
  pub affected_url : Option String
  pub affected_file : Option String
  pub evidence : Option String
  pub source_tool : String
  pub scanner_rule_id : Option String
  pub dedupe_key : Option String
  pub owasp_category : Option String
  pub cwe : Option String
  pub reproduction_steps : Option String
  pub remediation : Option String
  pub false_positive_notes : Option String

pub record ToolReceipt : Type 0 where
  pub tool_name : String
  pub tool_version : Option String
  pub status : String
  pub warning_code : Option String
  pub finding_count : ℕ
  pub started_at : ℕ
  pub completed_at : ℕ
