-- ===== src/Risk/Score.antt =====
-- The score of a scan and of all latest scans: backend/app/risk.py. The weights are multiples of a half, which a
-- float holds exactly, as it does their sums, and are counted in halves. A sum of the score that
-- ends on a half is then exact too, so that rounding to even is the only tie.
use web_security_audit_platf.Prelude.{
  ℕ, ◌+◌, ◌-◌, ◌*◌, ◌/◌, ◌%◌, min, max, List, [], ◌∷◌, map, leb, ltb, length, codes, Result, ok,
  ◌>>=◌, if◌then◌else◌,
}
use web_security_audit_platf.Security.Paths.{Text, text_eq}
use web_security_audit_platf.Risk.{
  Finding, normalize_bucket, severity_weight, confidence_percent, KeyError, dedupe_findings,
  dedupe_findings_by_subject,
}

pub data RiskLabel : Type 0 where
  low moderate high critical : RiskLabel

unfoldable pub risk_label : ℕ → RiskLabel
risk_label score =
    if leb 75 score
    then critical
    else if leb 50 score
    then high
    else if leb 20 score
    then moderate
    else low

abbrev pub severity_bucket : Finding → Text
severity_bucket finding = normalize_bucket finding.severity (codes "info")

abbrev pub confidence_bucket : Finding → Text
confidence_bucket finding = normalize_bucket finding.confidence (codes "low")

-- In halves.
unfoldable pub weighted_value : Finding → ℕ
unfolding severity_weight confidence_percent
weighted_value finding =
    severity_weight (severity_bucket finding) * confidence_percent (confidence_bucket finding) / 50

-- `Counter.get(severity, 0)`
unfoldable pub count_of : Text → List Text → ℕ
count_of severity [] = 0
count_of severity (first ∷ rest) =
    (if text_eq first severity then 1 else 0) + count_of severity rest

unfoldable pub score_ceiling : List Text → ℕ
unfolding count_of
score_ceiling severities =
    if ltb 0 (count_of (codes "critical") severities)
    then 100
    else if ltb 0 (count_of (codes "high") severities)
    then 74
    else if ltb 0 (count_of (codes "medium") severities)
    then 49
    else 19

unfoldable pub sum : List ℕ → ℕ
sum [] = 0
sum (v ∷ values) = v + sum values

unfoldable pub maximum : List ℕ → ℕ
maximum [] = 0
maximum (v ∷ values) = max v (maximum values)

-- `int(round(n / 40))`
unfoldable pub round_fortieths : ℕ → ℕ
round_fortieths n =
    let q = n / 40 in
    let r = n % 40 in if ltb r 20 then q else if ltb 20 r then q + 1 else q + q % 2

pub record AggregatedRiskScore : Type 0 where
  pub score : ℕ
  pub primary_weight : ℕ
  pub supporting_weight : ℕ
  pub ceiling : ℕ

-- `primary + supporting * 0.15`, in fortieths.
unfoldable pub aggregate_weighted_score : List ℕ → List Text → AggregatedRiskScore
unfolding maximum sum score_ceiling round_fortieths
aggregate_weighted_score [] severities = record {
  score = 0;
  primary_weight = 0;
  supporting_weight = 0;
  ceiling = 19;
}
aggregate_weighted_score (v ∷ values) severities =
    let primary = maximum (v ∷ values) in
    let supporting = sum (v ∷ values) - primary in
    let ceiling = score_ceiling severities in
    record {
      score = min ceiling (round_fortieths (20 * primary + 3 * supporting));
      primary_weight = primary;
      supporting_weight = supporting;
      ceiling = ceiling;
    }

-- Of `input_summary`, the number of findings and the aggregation.
pub record CalculatedRiskScore : Type 0 where
  pub score : ℕ
  pub label : RiskLabel
  pub finding_count : ℕ
  pub aggregation : AggregatedRiskScore

unfoldable pub score_of : List Finding → CalculatedRiskScore
unfolding weighted_value aggregate_weighted_score risk_label
score_of findings =
    let aggregation =
      aggregate_weighted_score (map weighted_value findings) (map severity_bucket findings) in
    record {
      score = aggregation.score;
      label = risk_label aggregation.score;
      finding_count = length findings;
      aggregation = aggregation;
    }

unfoldable pub calculate_scan_risk_score : List Finding → Result KeyError CalculatedRiskScore
unfolding dedupe_findings score_of
calculate_scan_risk_score findings = do
  effective ← dedupe_findings findings
  ok (score_of effective)

unfoldable pub calculate_posture_risk_score :
    List (Text × Finding) → Result KeyError CalculatedRiskScore
unfolding dedupe_findings_by_subject score_of
calculate_posture_risk_score subject_findings = do
  effective ← dedupe_findings_by_subject subject_findings
  ok (score_of (map (λ item. item.1) effective))
