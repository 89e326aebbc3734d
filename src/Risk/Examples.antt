-- ===== src/Risk/Examples.antt =====
-- Three findings, two of which share a key, and their score.
use web_security_audit_platf.Prelude.{
  String, ◌≡◌, ◌≢◌, refl, sym, ◌∙◌, false, false≢true, Option, none, some, List, [], ◌∷◌, codes, ok,
  inl, inr,
}
use web_security_audit_platf.Security.Paths.{Text, text_eq}
use web_security_audit_platf.Security.PathLaws.{text_eq_iff}
use web_security_audit_platf.Security.Redirects.{lstrip, rstrip}
use web_security_audit_platf.Risk.Order.{nat_order, text_lt, text_order, pair_order}
use web_security_audit_platf.Risk.{
  Finding, severity_weight, confidence_percent, finding_priority, dedupe_key_or_id, insert_sorted,
  lookup, put, dedupe_findings,
}
use web_security_audit_platf.Risk.Table.{IsDistinct}
use web_security_audit_platf.Risk.Best.{IsDeduplicatedFindings, dedupe_findings-IsDeduplicated}
use web_security_audit_platf.Risk.Reordered.{HasMembersOf, ids, dedupe_findings-reordered}
use web_security_audit_platf.Risk.Score.{
  CalculatedRiskScore, count_of, score_of, calculate_scan_risk_score,
}
use web_security_audit_platf.Risk.Bounds.{IsJustified, calculate_scan_risk_score-IsJustified}

abbrev finding : String → Option String → String → String → Finding
finding id key severity confidence = record {
  id = codes id;
  dedupe_key = elim key [ none ↦ none | some k ↦ some (codes k) ];
  severity = some (codes severity);
  confidence = some (codes confidence);
  created_at = none;
}

abbrev missing_header : Finding
missing_header = finding "a" (some "csp") "medium" "high"

abbrev same_header : Finding
same_header = finding "b" (some "csp") "High" "low"

abbrev banner : Finding
banner = finding "c" (some "") "info" "confirmed"

abbrev three : List Finding
three = missing_header ∷ banner ∷ same_header ∷ []

two_left : dedupe_findings three ≡ ok (banner ∷ same_header ∷ [])
unfolding dedupe_findings finding_priority dedupe_key_or_id insert_sorted lookup put nat_order
    text_lt text_order pair_order lstrip rstrip
two_left = refl

scored : CalculatedRiskScore.score (score_of (banner ∷ same_header ∷ [])) ≡ 36
unfolding score_of lstrip rstrip severity_weight confidence_percent count_of
scored = refl

dedupe_findings-IsDeduplicated_example :
    (result : List Finding) × ((dedupe_findings three ≡ ok result)
      × IsDeduplicatedFindings three result)
dedupe_findings-IsDeduplicated_example = dedupe_findings-IsDeduplicated three

calculate_scan_risk_score-IsJustified_example :
    (r : CalculatedRiskScore) × ((calculate_scan_risk_score three ≡ ok r) × IsJustified three r)
calculate_scan_risk_score-IsJustified_example = calculate_scan_risk_score-IsJustified three

abbrev reversed : List Finding
reversed = same_header ∷ banner ∷ missing_header ∷ banner ∷ []

differ : (a b : Text) → text_eq a b ≡ false → a ≢ b
differ a b h e = false≢true (sym h ∙ (text_eq_iff a b).1 e)

three-IsDistinct : IsDistinct (ids three)
three-IsDistinct = ((differ _ _ refl, (differ _ _ refl, tt)), ((differ _ _ refl, tt), (tt, tt)))

reversed-HasMembersOf : HasMembersOf reversed three
reversed-HasMembersOf x = (
  (λ at. elim at [
    | inl e ↦ inr (inr (inl e))
    | inr (inl e) ↦ inr (inl e)
    | inr (inr (inl e)) ↦ inl e
    | inr (inr (inr (inl e))) ↦ inr (inl e)
    | inr (inr (inr (inr never))) ↦ absurd never
  ]),
  (λ at. elim at [
    | inl e ↦ inr (inr (inl e))
    | inr (inl e) ↦ inr (inl e)
    | inr (inr (inl e)) ↦ inl e
    | inr (inr (inr never)) ↦ absurd never
  ]),
)

dedupe_findings-reordered_example : dedupe_findings reversed ≡ dedupe_findings three
dedupe_findings-reordered_example =
    dedupe_findings-reordered reversed three three-IsDistinct reversed-HasMembersOf
