-- ===== src/Management/Reading.antt =====
-- `occurrence_state_for_read` of backend/app/finding_management.py.
use web_security_audit_platf.Prelude.{
  ℕ, String, false, ◌&&◌, Option, none, some, List, [], ◌∷◌, str_eq, if◌then◌else◌,
}
use web_security_audit_platf.Management.{
  Subject, Finding, FindingState, FindingOccurrenceState, SuppressionRule, Tables, find_state,
  find_occurrence, suppression_rule_is_active,
}

unfoldable pub find_rule : String → String → List SuppressionRule → Option SuppressionRule
find_rule id workspace_id [] = none
find_rule id workspace_id (rule ∷ rest) =
    if str_eq rule.id id && str_eq rule.subject.workspace_id workspace_id
    then some rule
    else find_rule id workspace_id rest

abbrev pub status_or_open : Option FindingState → String
status_or_open none = "open"
status_or_open (some state) = state.lifecycle_status

-- A suppression by a rule that is no longer active is read as none.
abbrev pub unless_active :
    ℕ
    → Option FindingState
    → FindingOccurrenceState
    → Option SuppressionRule
    → FindingOccurrenceState
unless_active now state occurrence none = occurrence
unless_active now state occurrence (some rule) =
    if suppression_rule_is_active now rule then occurrence else record occurrence {
      lifecycle_status = status_or_open state;
      suppressed = false;
      suppression_rule_id = none;
    }

abbrev pub recorded_rule :
    Finding → List SuppressionRule → FindingOccurrenceState → Option SuppressionRule
recorded_rule finding rules occurrence = elim occurrence.suppression_rule_id [
  | none ↦ none
  | some id ↦ if occurrence.suppressed then find_rule id finding.workspace_id rules else none
]

abbrev pub read_without : Finding → Option FindingState → Option FindingOccurrenceState
read_without finding none = none
read_without finding (some state) = some (record {
  id = "";
  workspace_id = finding.workspace_id;
  finding_id = finding.id;
  lifecycle_status = state.lifecycle_status;
  suppressed = false;
  suppression_rule_id = none;
})

abbrev pub read_occurrence :
    ℕ
    → Finding
    → Option FindingState
    → List SuppressionRule
    → Option FindingOccurrenceState
    → Option FindingOccurrenceState
read_occurrence now finding state rules none = read_without finding state
read_occurrence now finding state rules (some occurrence) =
    some (unless_active now state occurrence (recorded_rule finding rules occurrence))

unfoldable pub occurrence_state_for_read :
    ℕ → Subject → Finding → Tables → Option FindingOccurrenceState
unfolding find_rule
occurrence_state_for_read now subject finding tables =
    read_occurrence now finding (find_state subject finding.dedupe_key tables.states) tables.rules
      (find_occurrence finding tables.occurrences)
