-- ===== src/Risk/Bounds.antt =====
-- What a risk score and its label say of the findings, and its monotonicity.
use web_security_audit_platf.Prelude.{
  ℕ, ◌+◌, ◌-◌, ◌*◌, ◌≤◌, ◌≡◌, refl, sym, ◌∙◌, true, max, List, [], ◌∷◌, map, ltb, codes, arith,
  Bool-cases, ◌⊎◌, inl, inr, ok,
}
use web_security_audit_platf.Security.Paths.{Text, text_eq}
use web_security_audit_platf.Security.PathLaws.{text_eq_iff}
use web_security_audit_platf.Risk.Order.{text_order}
use web_security_audit_platf.Risk.{Finding, dedupe_key_or_id}
use web_security_audit_platf.Risk.Table.{IsAmong, All-at}
use web_security_audit_platf.Risk.Loop.{IsBestOf}
use web_security_audit_platf.Risk.Best.{dedupe_findings-IsDeduplicated}
use web_security_audit_platf.Risk.Score.{
  critical, high, risk_label, severity_bucket, count_of, score_ceiling, sum, maximum,
  round_fortieths, aggregate_weighted_score, CalculatedRiskScore, score_of,
  calculate_scan_risk_score,
}

round_mono : (m n : ℕ) → m ≤ n → round_fortieths m ≤ round_fortieths n
unfolding round_fortieths
round_mono m n h = ground arith

maximum-sum : (values : List ℕ) → maximum values ≤ sum values
unfolding maximum sum
maximum-sum [] = omega arith
maximum-sum (v ∷ values) = omega (arith, maximum-sum values)

ceiling_mono :
    (s : Text) (severities : List Text) → score_ceiling severities ≤ score_ceiling (s ∷ severities)
unfolding score_ceiling count_of
ceiling_mono s severities = ground arith

-- One more finding never lowers a score.
pub aggregate_weighted_score_mono :
    (v : ℕ) (values : List ℕ) (s : Text) (severities : List Text)
    → (aggregate_weighted_score values severities).score
      ≤ (aggregate_weighted_score (v ∷ values) (s ∷ severities)).score
unfolding aggregate_weighted_score sum maximum
aggregate_weighted_score_mono v [] s severities = omega arith
aggregate_weighted_score_mono v (w ∷ values) s severities =
    let summed = maximum-sum values in
    let raised =
      round_mono (20 * max w (maximum values) + 3 * (w + sum values - max w (maximum values)))
        (20 * max v (max w (maximum values))
          + 3 * (v + (w + sum values) - max v (max w (maximum values))))
        (omega (arith, summed)) in
    omega (arith, raised, ceiling_mono s severities)

abbrev pub HasSeverity : Text → List Finding → Type 0
HasSeverity severity findings =
    (f : Finding) × (IsAmong f findings × (severity_bucket f ≡ severity))

count-HasSeverity :
    (severity : Text) (findings : List Finding)
    → ltb 0 (count_of severity (map severity_bucket findings)) ≡ true
    → HasSeverity severity findings
unfolding count_of
count-HasSeverity severity [] h = absurd (ground arith)
count-HasSeverity severity (f ∷ rest) h = elim (Bool-cases (text_eq (severity_bucket f) severity)) [
  | inl here ↦ (f, (inl refl, (text_eq_iff (severity_bucket f) severity).0 here))
  | inr elsewhere ↦
      let (g, (at, e)) = count-HasSeverity severity rest (ground arith) in (g, (inr at, e))
]

-- What a score of the findings says.
pub record IsJustified (findings : List Finding) (r : CalculatedRiskScore) : Type 0 where
  pub most : r.score ≤ 100
  pub critical_label : r.label ≡ critical → HasSeverity (codes "critical") findings
  pub high_label :
      r.label ≡ high → HasSeverity (codes "critical") findings ⊎ HasSeverity (codes "high") findings

label_critical : (score : ℕ) → risk_label score ≡ critical → 75 ≤ score
unfolding risk_label
label_critical score h = ground arith

label_high : (score : ℕ) → risk_label score ≡ high → 50 ≤ score
unfolding risk_label
label_high score h = ground arith

ceiling_most : (severities : List Text) → score_ceiling severities ≤ 100
unfolding score_ceiling
ceiling_most severities = ground arith

ceiling_critical :
    (findings : List Finding)
    → 75 ≤ score_ceiling (map severity_bucket findings)
    → HasSeverity (codes "critical") findings
unfolding score_ceiling
ceiling_critical findings h =
    elim (Bool-cases (ltb 0 (count_of (codes "critical") (map severity_bucket findings)))) [
      | inl counted ↦ count-HasSeverity (codes "critical") findings counted
      | inr never ↦ absurd (ground arith)
    ]

ceiling_high :
    (findings : List Finding)
    → 50 ≤ score_ceiling (map severity_bucket findings)
    → HasSeverity (codes "critical") findings ⊎ HasSeverity (codes "high") findings
unfolding score_ceiling
ceiling_high findings h =
    elim (Bool-cases (ltb 0 (count_of (codes "critical") (map severity_bucket findings)))) [
      | inl counted ↦ inl (count-HasSeverity (codes "critical") findings counted)
      | inr never ↦
          elim (Bool-cases (ltb 0 (count_of (codes "high") (map severity_bucket findings)))) [
            | inl counted ↦ inr (count-HasSeverity (codes "high") findings counted)
            | inr never_high ↦ absurd (ground arith)
          ]
    ]

score_of-le :
    (findings : List Finding)
    → (score_of findings).score ≤ score_ceiling (map severity_bucket findings)
unfolding score_of aggregate_weighted_score
score_of-le [] = omega arith
score_of-le (f ∷ rest) = omega arith

label-score_of :
    (findings : List Finding) → (score_of findings).label ≡ risk_label (score_of findings).score
unfolding score_of
label-score_of findings = refl

score_of-IsJustified : (findings : List Finding) → IsJustified findings (score_of findings)
score_of-IsJustified findings =
    let below = score_of-le findings in
    record {
      most = omega (arith, below, ceiling_most (map severity_bucket findings));
      critical_label = λ e. ceiling_critical findings (
          omega (
            arith,
            below,
            label_critical (score_of findings).score (sym (label-score_of findings) ∙ e),
          ));
      high_label = λ e. ceiling_high findings (
          omega (
            arith,
            below,
            label_high (score_of findings).score (sym (label-score_of findings) ∙ e),
          ));
    }

HasSeverity-mono :
    (severity : Text) (xs ys : List Finding)
    → ((f : Finding) → IsAmong f xs → IsAmong f ys)
    → HasSeverity severity xs
    → HasSeverity severity ys
HasSeverity-mono severity xs ys among (f, (at, e)) = (f, (among f at, e))

-- The score of a scan is calculated and at most 100. Its label is Critical only if one of the scan's
-- findings is critical, and High only if one is critical or high.
pub calculate_scan_risk_score-IsJustified :
    (findings : List Finding)
    → (r : CalculatedRiskScore) × ((calculate_scan_risk_score findings ≡ ok r)
        × IsJustified findings r)
unfolding calculate_scan_risk_score
calculate_scan_risk_score-IsJustified findings =
    let (effective, (returned, h)) = dedupe_findings-IsDeduplicated findings in
    let of_effective = score_of-IsJustified effective in
    let among : (f : Finding) → IsAmong f effective → IsAmong f findings = λ f at.
      (All-at (IsBestOf text_order dedupe_key_or_id (λ finding. finding) findings) effective h.best
        f at).0 in
    (
      score_of effective,
      (
        rw returned refl,
        record {
          most = of_effective.most;
          critical_label = λ e.
              HasSeverity-mono (codes "critical") effective findings among
                (of_effective.critical_label e);
          high_label = λ e. elim (of_effective.high_label e) [
            | inl at ↦ inl (HasSeverity-mono (codes "critical") effective findings among at)
            | inr at ↦ inr (HasSeverity-mono (codes "high") effective findings among at)
          ];
        },
      ),
    )
