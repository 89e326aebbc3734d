-- ===== src/Management.antt =====
-- The states of findings and their suppression: backend/app/finding_management.py. The tables are
-- lists.
use web_security_audit_platf.Prelude.{
  ℕ, String, Bool, true, false, not, ◌&&◌, ◌||◌, Option, none, some, List, [], ◌∷◌, is_none,
  is_some, ltb, str_eq, opt_str_eq, if◌then◌else◌, Result, ok, err,
}
pub mod Reading
pub mod Order
pub mod Suppression
pub mod Sync
mod Examples

pub record Subject : Type 0 where
  pub workspace_id : String
  pub target_id : Option String
  pub repository_asset_id : Option String

-- The columns of a finding that are read here, `source_tool` in lower case.
pub record Finding : Type 0 where
  pub id : String
  pub workspace_id : String
  pub dedupe_key : Option String
  pub severity : String
  pub source_tool_lower : String

pub record FindingState : Type 0 where
  pub id : String
  pub subject : Subject
  pub dedupe_key : Option String
  pub lifecycle_status : String
  pub updated_by_user_id : String

pub record FindingOccurrenceState : Type 0 where
  pub id : String
  pub workspace_id : String
  pub finding_id : String
  pub lifecycle_status : String
  pub suppressed : Bool
  pub suppression_rule_id : Option String

pub record SuppressionRule : Type 0 where
  pub id : String
  pub subject : Subject
  pub dedupe_key : Option String
  pub severity : Option String
  pub source_tool : Option String
  pub expires_at : Option ℕ
  pub revoked_at : Option ℕ
  pub created_at : ℕ

pub record Tables : Type 0 where
  pub states : List FindingState
  pub occurrences : List FindingOccurrenceState
  pub rules : List SuppressionRule

-- `scan_subject` raises unless the scan has exactly one subject.
pub data SubjectError : Type 0 where
  no_single_subject : SubjectError

unfoldable pub scan_subject : String → Option String → Option String → Result SubjectError Subject
scan_subject workspace_id target_id repository_asset_id =
    let missing_target = is_none target_id in
    let missing_asset = is_none repository_asset_id in
    if (missing_target && missing_asset) || (not missing_target && not missing_asset)
    then err no_single_subject
    else ok (record {
      workspace_id = workspace_id;
      target_id = target_id;
      repository_asset_id = repository_asset_id;
    })

-- The filter on the workspace and `subject_filters`.
abbrev pub subject_eq : Subject → Subject → Bool
subject_eq a b =
    str_eq a.workspace_id b.workspace_id
    && opt_str_eq a.target_id b.target_id
    && opt_str_eq a.repository_asset_id b.repository_asset_id

unfoldable pub find_state : Subject → Option String → List FindingState → Option FindingState
find_state subject key [] = none
find_state subject key (state ∷ rest) =
    if subject_eq state.subject subject && opt_str_eq state.dedupe_key key
    then some state
    else find_state subject key rest

abbrev pub new_state : Subject → Finding → String → String → FindingState
new_state subject finding user_id new_id = record {
  id = new_id;
  subject = subject;
  dedupe_key = finding.dedupe_key;
  lifecycle_status = "open";
  updated_by_user_id = user_id;
}

abbrev pub or_new_state :
    Subject → Finding → String → String → Tables → Option FindingState → FindingState × Tables
or_new_state subject finding user_id new_id tables (some state) = (state, tables)
or_new_state subject finding user_id new_id tables none =
    let state = new_state subject finding user_id new_id in
    (state, record tables { states = state ∷ tables.states })

unfoldable pub get_or_create_finding_state :
    Subject → Finding → String → String → Tables → FindingState × Tables
unfolding find_state
get_or_create_finding_state subject finding user_id new_id tables =
    or_new_state subject finding user_id new_id tables
      (find_state subject finding.dedupe_key tables.states)

abbrev pub is_occurrence_of : Finding → FindingOccurrenceState → Bool
is_occurrence_of finding occurrence =
    str_eq occurrence.finding_id finding.id && str_eq occurrence.workspace_id finding.workspace_id

unfoldable pub find_occurrence :
    Finding → List FindingOccurrenceState → Option FindingOccurrenceState
find_occurrence finding [] = none
find_occurrence finding (occurrence ∷ rest) =
    if is_occurrence_of finding occurrence then some occurrence else find_occurrence finding rest

-- `get_or_create_occurrence_state`, and the row that `sync_occurrence_state` then writes to: the first
-- one of the finding is changed, or a new one is added.
abbrev pub new_occurrence : Finding → String → FindingOccurrenceState
new_occurrence finding new_id = record {
  id = new_id;
  workspace_id = finding.workspace_id;
  finding_id = finding.id;
  lifecycle_status = "open";
  suppressed = false;
  suppression_rule_id = none;
}

unfoldable pub update_occurrence :
    Finding
    → String
    → (FindingOccurrenceState → FindingOccurrenceState)
    → List FindingOccurrenceState
    → List FindingOccurrenceState
update_occurrence finding new_id f [] = f (new_occurrence finding new_id) ∷ []
update_occurrence finding new_id f (occurrence ∷ rest) =
    if is_occurrence_of finding occurrence
    then f occurrence ∷ rest
    else occurrence ∷ update_occurrence finding new_id f rest

abbrev pub is_later : ℕ → Option ℕ → Bool
is_later now none = true
is_later now (some t) = ltb now t

unfoldable pub suppression_rule_is_active : ℕ → SuppressionRule → Bool
suppression_rule_is_active now rule = is_none rule.revoked_at && is_later now rule.expires_at

-- A criterion that is set must agree.
abbrev pub agrees : Option String → Option String → Bool
agrees none value = true
agrees (some wanted) value = opt_str_eq value (some wanted)

unfoldable pub rule_matches : Finding → SuppressionRule → Bool
rule_matches finding rule =
    agrees rule.dedupe_key finding.dedupe_key
    && agrees rule.severity (some finding.severity)
    && agrees rule.source_tool (some finding.source_tool_lower)

unfoldable pub applies : ℕ → Subject → Finding → SuppressionRule → Bool
unfolding rule_matches suppression_rule_is_active
applies now subject finding rule =
    subject_eq rule.subject subject
    && (suppression_rule_is_active now rule && rule_matches finding rule)

-- `order_by(SuppressionRule.created_at.desc())`
unfoldable pub insert_rule : SuppressionRule → List SuppressionRule → List SuppressionRule
insert_rule rule [] = rule ∷ []
insert_rule rule (first ∷ rest) =
    if ltb rule.created_at first.created_at
    then first ∷ insert_rule rule rest
    else rule ∷ first ∷ rest

unfoldable pub newest_first : List SuppressionRule → List SuppressionRule
unfolding insert_rule
newest_first [] = []
newest_first (rule ∷ rest) = insert_rule rule (newest_first rest)

unfoldable pub first_applying :
    ℕ → Subject → Finding → List SuppressionRule → Option SuppressionRule
unfolding applies
first_applying now subject finding [] = none
first_applying now subject finding (rule ∷ rest) =
    if applies now subject finding rule then some rule else first_applying now subject finding rest

unfoldable pub active_suppression_for_finding :
    ℕ → Subject → Finding → List SuppressionRule → Option SuppressionRule
unfolding newest_first first_applying
active_suppression_for_finding now subject finding rules =
    first_applying now subject finding (newest_first rules)

abbrev pub synced :
    Option SuppressionRule → FindingState → FindingOccurrenceState → FindingOccurrenceState
synced none state occurrence = record occurrence {
  suppressed = false;
  suppression_rule_id = none;
  lifecycle_status = state.lifecycle_status;
}
synced (some rule) state occurrence = record occurrence {
  suppressed = true;
  suppression_rule_id = some rule.id;
  lifecycle_status = "suppressed";
}

unfoldable pub sync_occurrence_state : ℕ → Subject → Finding → String → String → Tables → Tables
unfolding get_or_create_finding_state update_occurrence active_suppression_for_finding
sync_occurrence_state now subject finding user_id new_id tables =
    let (state, tables') = get_or_create_finding_state subject finding user_id new_id tables in
    let rule = active_suppression_for_finding now subject finding tables.rules in
    record tables' {
      occurrences = update_occurrence finding new_id (synced rule state) tables.occurrences;
    }
