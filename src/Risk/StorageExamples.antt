-- ===== src/Risk/StorageExamples.antt =====
-- Two workers persist the score of one scan.
use web_security_audit_platf.Prelude.{◌≡◌, refl, String, none, some, List, [], ◌∷◌, codes, ok, err}
use web_security_audit_platf.Risk.{Finding}
use web_security_audit_platf.Risk.Score.{low}
use web_security_audit_platf.Risk.Storage.{
  ScoredScan, RiskScore, References, integrity_error, commit_risk_score, persist_scan_risk_score,
  read_scan_risk_score,
}
use web_security_audit_platf.Risk.Stored.{IsStorable, read_scan_risk_score-persist_scan_risk_score}

abbrev scan : ScoredScan
scan = record { id = "s"; workspace_id = "w"; target_id = some "t"; repository_asset_id = none }

abbrev score_of_scan : String → RiskScore
score_of_scan id = record {
  id = codes id;
  workspace_id = "w";
  target_id = some "t";
  repository_asset_id = none;
  scan_id = some "s";
  scoring_model_version = "risk-v2";
  score = 0;
  label = low;
}

abbrev references : References
references = record {
  workspaces = "w" ∷ [];
  targets = "t" ∷ [];
  repository_assets = [];
  scans = "s" ∷ [];
}

-- The other worker's row is returned.
lost_race :
    commit_risk_score references (score_of_scan "a" ∷ []) scan (score_of_scan "b") []
    ≡ (ok (score_of_scan "a"), score_of_scan "a" ∷ [])
unfolding commit_risk_score
lost_race = refl

-- An id that another scan's score has, and a target that is gone, leave the function.
same_id :
    (commit_risk_score references [] scan
      (score_of_scan "a")
      (record (score_of_scan "a") { scan_id = some "other" } ∷ [])).0
    ≡ err integrity_error
unfolding commit_risk_score
same_id = refl

no_target :
    (commit_risk_score (record references { targets = [] }) [] scan (score_of_scan "a") []).0
    ≡ err integrity_error
unfolding commit_risk_score
no_target = refl

storable : IsStorable references (score_of_scan "a" ∷ []) [] scan (codes "b")
storable = record {
  subject = refl;
  fresh = refl;
  workspace = refl;
  target = refl;
  repository = refl;
  itself = refl;
}

read_scan_risk_score-persist_scan_risk_score_example :
    (r : RiskScore) × (((persist_scan_risk_score references
          (score_of_scan "a" ∷ [])
          scan
          []
          (codes "b")
          []).0
        ≡ ok r)
      × ((later : List Finding)
          → read_scan_risk_score scan later
              (persist_scan_risk_score references (score_of_scan "a" ∷ []) scan [] (codes "b") []).1
            ≡ ok r))
read_scan_risk_score-persist_scan_risk_score_example =
    read_scan_risk_score-persist_scan_risk_score references (score_of_scan "a" ∷ []) [] scan
      (codes "b") [] storable (refl, tt) tt
