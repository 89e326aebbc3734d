-- ===== src/Risk/Storage.antt =====
-- `persist_scan_risk_score` and `read_scan_risk_score` of backend/app/risk.py on the table of scores, whose
-- constraints are those of `RiskScore` in backend/app/models.py.
use web_security_audit_platf.Prelude.{
  ℕ, String, Bool, true, false, not, ◌&&◌, ◌||◌, Option, none, some, List, ◌∷◌, ◌++◌, any, mem_str,
  find, take, str_eq, opt_str_eq, is_none, is_some, codes, Result, ok, err, if◌then◌else◌,
}
use web_security_audit_platf.Security.Paths.{Text, text_eq}
use web_security_audit_platf.Risk.{Finding, KeyError}
use web_security_audit_platf.Risk.Score.{RiskLabel, CalculatedRiskScore, calculate_scan_risk_score}

-- The columns of a scan that are read here.
pub record ScoredScan : Type 0 where
  pub id : String
  pub workspace_id : String
  pub target_id : Option String
  pub repository_asset_id : Option String

pub record RiskScore : Type 0 where
  pub id : Text
  pub workspace_id : String
  pub target_id : Option String
  pub repository_asset_id : Option String
  pub scan_id : Option String
  pub scoring_model_version : String
  pub score : ℕ
  pub label : RiskLabel

pub data RiskScoreError : Type 0 where
  key_error integrity_error : RiskScoreError

-- The filter of the queries; a comparison with None is IS NULL.
abbrev pub is_score_of : ScoredScan → RiskScore → Bool
is_score_of scan r =
    str_eq r.workspace_id scan.workspace_id
    && (opt_str_eq r.target_id scan.target_id
        && (opt_str_eq r.repository_asset_id scan.repository_asset_id
            && (opt_str_eq r.scan_id (some scan.id) && str_eq r.scoring_model_version "risk-v2")))

-- Columns agree in a unique constraint if neither is NULL.
abbrev pub same_column : Option String → Option String → Bool
same_column none b = false
same_column (some a) none = false
same_column (some a) (some b) = str_eq a b

-- `uq_risk_scores_scan_model` and `uq_risk_scores_repository_scan_model`
abbrev pub conflicts : RiskScore → RiskScore → Bool
conflicts new r =
    (str_eq r.workspace_id new.workspace_id
      && (same_column r.scan_id new.scan_id
          && str_eq r.scoring_model_version new.scoring_model_version))
    && (same_column r.target_id new.target_id
        || same_column r.repository_asset_id new.repository_asset_id)

-- `ck_risk_scores_exactly_one_subject`
abbrev pub has_one_subject : Option String → Option String → Bool
has_one_subject target_id asset_id =
    (is_some target_id && is_none asset_id) || (is_none target_id && is_some asset_id)

-- The ids of the rows that the foreign keys refer to.
pub record References : Type 0 where
  pub workspaces : List String
  pub targets : List String
  pub repository_assets : List String
  pub scans : List String

-- A foreign key that is not NULL names a row.
abbrev pub refers : Option String → List String → Bool
refers none rows = true
refers (some id) rows = mem_str id rows

abbrev pub has_references : References → RiskScore → Bool
has_references references r =
    refers (some r.workspace_id) references.workspaces
    && (refers r.target_id references.targets
        && (refers r.repository_asset_id references.repository_assets
            && refers r.scan_id references.scans))

-- The primary key.
abbrev pub has_id : Text → RiskScore → Bool
has_id id r = text_eq r.id id

abbrev pub violates_constraints : References → RiskScore → List RiskScore → Bool
violates_constraints references new rows =
    not (has_one_subject new.target_id new.repository_asset_id)
    || (not (has_references references new)
        || (any (has_id new.id) rows || any (conflicts new) rows))

abbrev pub new_risk_score : ScoredScan → Text → CalculatedRiskScore → RiskScore
new_risk_score scan new_id calculated = record {
  id = new_id;
  workspace_id = scan.workspace_id;
  target_id = scan.target_id;
  repository_asset_id = scan.repository_asset_id;
  scan_id = some scan.id;
  scoring_model_version = "risk-v2";
  score = calculated.score;
  label = calculated.label;
}

abbrev pub concurrent_or_raise : Option RiskScore → Result RiskScoreError RiskScore
concurrent_or_raise none = err integrity_error
concurrent_or_raise (some concurrent) = ok concurrent

-- The database at the commit: the rows that other transactions have added since the query, and
-- those that the foreign keys refer to.
module _ (references : References) (added : List RiskScore) where
  unfoldable pub commit_risk_score :
      ScoredScan → RiskScore → List RiskScore → Result RiskScoreError RiskScore × List RiskScore
  commit_risk_score scan risk_score rows =
      if violates_constraints references risk_score (added ++ rows)
      then (concurrent_or_raise (find (is_score_of scan) (added ++ rows)), added ++ rows)
      else (ok risk_score, risk_score ∷ added ++ rows)

  abbrev pub existing_or_new :
      ScoredScan
      → Text
      → CalculatedRiskScore
      → List RiskScore
      → Option RiskScore
      → Result RiskScoreError RiskScore × List RiskScore
  existing_or_new scan new_id calculated rows (some existing) = (ok existing, rows)
  existing_or_new scan new_id calculated rows none =
      commit_risk_score scan (new_risk_score scan new_id calculated) rows

  unfoldable pub persist_scan_risk_score :
      ScoredScan
      → List Finding
      → Text
      → List RiskScore
      → Result RiskScoreError RiskScore × List RiskScore
  unfolding calculate_scan_risk_score commit_risk_score
  persist_scan_risk_score scan findings new_id rows = elim (calculate_scan_risk_score findings) [
    | err e ↦ (err key_error, rows)
    | ok calculated ↦ existing_or_new scan new_id calculated rows (find (is_score_of scan) rows)
  ]

abbrev pub existing_or_calculated :
    ScoredScan → List Finding → Option RiskScore → Result KeyError RiskScore
existing_or_calculated scan findings (some existing) = ok existing
existing_or_calculated scan findings none = elim (calculate_scan_risk_score findings) [
  | err e ↦ err e
  | ok calculated ↦
      ok (new_risk_score scan (take 64 (codes "calculated-" ++ codes scan.id)) calculated)
]

unfoldable pub read_scan_risk_score :
    ScoredScan → List Finding → List RiskScore → Result KeyError RiskScore
unfolding calculate_scan_risk_score
read_scan_risk_score scan findings rows =
    existing_or_calculated scan findings (find (is_score_of scan) rows)
