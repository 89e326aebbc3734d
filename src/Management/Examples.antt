-- ===== src/Management/Examples.antt =====
-- A finding that a rule suppresses for a while.
use mathlib.Core.Path.{subst}
use web_security_audit_platf.Prelude.{arith, ◌≡◌, refl, none, some, [], ◌∷◌}
use web_security_audit_platf.Management.{
  Subject, Finding, SuppressionRule, Tables, active_suppression_for_finding, applies, rule_matches,
  suppression_rule_is_active, newest_first, first_applying, insert_rule, sync_occurrence_state,
  get_or_create_finding_state,
}
use web_security_audit_platf.Management.Reading.{find_rule, occurrence_state_for_read}
use web_security_audit_platf.Management.Suppression.{
  IsNewestOf, active_suppression_for_finding-IsNewestOf,
}
use web_security_audit_platf.Management.Sync.{is_active, Reads, sync_read}

abbrev subject : Subject
subject = record { workspace_id = "ws-1"; target_id = some "t-1"; repository_asset_id = none }

abbrev finding : Finding
finding = record {
  id = "f-1";
  workspace_id = "ws-1";
  dedupe_key = some "key";
  severity = "low";
  source_tool_lower = "zap";
}

-- It holds until time 50, for findings of low severity.
abbrev low_rule : SuppressionRule
low_rule = record {
  id = "r-1";
  subject = subject;
  dedupe_key = none;
  severity = some "low";
  source_tool = none;
  expires_at = some 50;
  revoked_at = none;
  created_at = 5;
}

abbrev high_rule : SuppressionRule
high_rule = record low_rule { id = "r-2"; severity = some "high" }

abbrev tables : Tables
tables = record { states = []; occurrences = []; rules = high_rule ∷ low_rule ∷ [] }

suppressed_now : active_suppression_for_finding 10 subject finding tables.rules ≡ some low_rule
unfolding active_suppression_for_finding newest_first first_applying insert_rule applies
    rule_matches suppression_rule_is_active
suppressed_now = refl

active_suppression_for_finding-IsNewestOf_example :
    IsNewestOf 10 subject finding tables.rules
      (active_suppression_for_finding 10 subject finding tables.rules)
active_suppression_for_finding-IsNewestOf_example =
    active_suppression_for_finding-IsNewestOf 10 subject finding tables.rules

keyed :
    (r : SuppressionRule)
    → active_suppression_for_finding 10 subject finding tables.rules ≡ some r
    → find_rule r.id "ws-1" tables.rules ≡ some r
unfolding active_suppression_for_finding newest_first first_applying insert_rule applies
    rule_matches suppression_rule_is_active find_rule
keyed r h =
    subst (λ x. find_rule x.id "ws-1" tables.rules ≡ some x) (some-injective low_rule r h) refl
  where
    some-injective : (a b : SuppressionRule) → some a ≡ some b → a ≡ b
    some-injective a b e = ground arith

sync_read_example :
    Reads
      (is_active 60 (active_suppression_for_finding 10 subject finding tables.rules))
      (get_or_create_finding_state subject finding "u-1" "s-1" tables).0.lifecycle_status
      (occurrence_state_for_read 60 subject finding
        (sync_occurrence_state 10 subject finding "u-1" "s-1" tables))
sync_read_example = sync_read 10 60 subject finding "u-1" "s-1" tables keyed
