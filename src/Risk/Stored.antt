-- ===== src/Risk/Stored.antt =====
-- A risk score that was persisted is the one that is read, whatever other workers persist meanwhile.
use web_security_audit_platf.Prelude.{
  ◌≡◌, refl, sym, ◌∙◌, String, true, false, false≢true, ◌||◌, Option, none, some, List, [], ◌∷◌,
  ◌++◌, All, All-append, any, mem_str, find, str_eq, opt_str_eq, opt_str_eq_iff, eq_refl, arith,
  Bool-cases, Option-cases, inl, inr, ok,
}
use web_security_audit_platf.Security.Paths.{Text}
use web_security_audit_platf.Risk.{Finding}
use web_security_audit_platf.Risk.Score.{CalculatedRiskScore}
use web_security_audit_platf.Risk.Bounds.{calculate_scan_risk_score-IsJustified}
use web_security_audit_platf.Risk.Storage.{
  References, refers, has_id, ScoredScan, RiskScore, is_score_of, same_column, conflicts,
  has_one_subject, new_risk_score, commit_risk_score, persist_scan_risk_score, read_scan_risk_score,
}

-- The check constraint of a row.
abbrev pub HasOneSubject : RiskScore → Type 0
HasOneSubject r = has_one_subject r.target_id r.repository_asset_id ≡ true

opt_refl : (o : Option String) → opt_str_eq o o ≡ true
opt_refl o = (opt_str_eq_iff o o).1 refl

new-IsScore :
    (scan : ScoredScan) (id : Text) (c : CalculatedRiskScore)
    → is_score_of scan (new_risk_score scan id c) ≡ true
new-IsScore scan id c =
    rw
      (
        eq_refl scan.workspace_id,
        opt_refl scan.target_id,
        opt_refl scan.repository_asset_id,
        eq_refl scan.id,
      )
      refl

columns :
    (t a t' a' : Option String)
    → has_one_subject t a ≡ true
    → has_one_subject t' a' ≡ true
    → (same_column t' t || same_column a' a) ≡ true
    → (opt_str_eq t' t ≡ true) × (opt_str_eq a' a ≡ true)
columns none none t' a' one one' h = absurd (ground arith)
columns (some t) (some a) t' a' one one' h = absurd (ground arith)
columns none (some a) none none one one' h = absurd (ground arith)
columns none (some a) (some t') (some a') one one' h = absurd (ground arith)
columns none (some a) (some t') none one one' h = absurd (ground arith)
columns none (some a) none (some a') one one' h = (refl, h)
columns (some t) none none none one one' h = absurd (ground arith)
columns (some t) none (some t') (some a') one one' h = absurd (ground arith)
columns (some t) none none (some a') one one' h = absurd (ground arith)
columns (some t) none (some t') none one one' h = (ground arith, refl)

column_opt :
    (o : Option String) (s : String) → same_column o (some s) ≡ true → opt_str_eq o (some s) ≡ true
column_opt none s h = absurd (ground arith)
column_opt (some t) s h = h

conflicting-IsScore :
    (scan : ScoredScan) (id : Text) (c : CalculatedRiskScore) (r : RiskScore)
    → has_one_subject scan.target_id scan.repository_asset_id ≡ true
    → HasOneSubject r
    → conflicts (new_risk_score scan id c) r ≡ true
    → is_score_of scan r ≡ true
conflicting-IsScore scan id c r one one' h =
    let same =
      columns scan.target_id scan.repository_asset_id r.target_id r.repository_asset_id one one'
        (ground arith) in
    let same_scan = column_opt r.scan_id scan.id (ground arith) in
    let same_workspace : str_eq r.workspace_id scan.workspace_id ≡ true = ground arith in
    let same_version : str_eq r.scoring_model_version "risk-v2" ≡ true = ground arith in
    rw (same_workspace, same.0, same.1, same_scan, same_version) refl

find-conflicting :
    (scan : ScoredScan) (id : Text) (c : CalculatedRiskScore) (rows : List RiskScore)
    → has_one_subject scan.target_id scan.repository_asset_id ≡ true
    → All HasOneSubject rows
    → any (conflicts (new_risk_score scan id c)) rows ≡ true
    → (r : RiskScore) × (find (is_score_of scan) rows ≡ some r)
find-conflicting scan id c [] one h hit = absurd (ground arith)
find-conflicting scan id c (r ∷ rows) one h hit = elim (Bool-cases (is_score_of scan r)) [
  | inl here ↦ (r, rw here refl)
  | inr elsewhere ↦
      let more : any (conflicts (new_risk_score scan id c)) rows ≡ true =
        elim (Bool-cases (conflicts (new_risk_score scan id c) r)) [
          | inl clash ↦
              absurd (false≢true (sym elsewhere ∙ conflicting-IsScore scan id c r one h.0 clash))
          | inr none_here ↦ ground arith
        ] in
      let (s, found) = find-conflicting scan id c rows one h.1 more in (s, rw elsewhere found)
]

-- What a commit of the scan's score needs: a subject, an id that no row has, and the rows that the
-- foreign keys name.
pub record IsStorable (references : References) (added rows : List RiskScore) (scan : ScoredScan)
    (new_id : Text) : Type 0 where
  pub subject : has_one_subject scan.target_id scan.repository_asset_id ≡ true
  pub fresh : any (has_id new_id) (added ++ rows) ≡ false
  pub workspace : mem_str scan.workspace_id references.workspaces ≡ true
  pub target : refers scan.target_id references.targets ≡ true
  pub repository : refers scan.repository_asset_id references.repository_assets ≡ true
  pub itself : mem_str scan.id references.scans ≡ true

-- For a scan with one subject whose foreign keys name rows, a new id, and a table of rows with one
-- subject each, `persist_scan_risk_score` returns a row and raises no IntegrityError, and
-- `read_scan_risk_score` then returns that row for any findings, also when other transactions
-- add rows between its query and its commit.
pub read_scan_risk_score-persist_scan_risk_score :
    (references : References) (added rows : List RiskScore) (scan : ScoredScan) (new_id : Text)
    (findings : List Finding)
    → IsStorable references added rows scan new_id
    → All HasOneSubject added
    → All HasOneSubject rows
    → (r : RiskScore) × (((persist_scan_risk_score references added scan findings new_id rows).0
          ≡ ok r)
        × ((later : List Finding)
            → read_scan_risk_score scan later
                (persist_scan_risk_score references added scan findings new_id rows).1
              ≡ ok r))
unfolding persist_scan_risk_score commit_risk_score read_scan_risk_score
read_scan_risk_score-persist_scan_risk_score references added rows scan new_id findings h ha hr =
    let (c, (returned, justified)) = calculate_scan_risk_score-IsJustified findings in
    elim (Option-cases (find (is_score_of scan) rows)) [
      | inr (existing, present) ↦ (
        existing,
        (
          rw (returned, present, persist_scan_risk_score) refl,
          λ later.
              rw (returned, present, persist_scan_risk_score, read_scan_risk_score, present) refl,
        ),
      )
      | inl absent ↦
          elim (Bool-cases (any (conflicts (new_risk_score scan new_id c)) (added ++ rows))) [
            | inl clash ↦
                let (s, present) =
                  find-conflicting scan new_id c (added ++ rows) h.subject
                    (All-append HasOneSubject added rows ha hr) clash in
                (
                  s,
                  (
                    rw
                        (
                          returned, absent, persist_scan_risk_score, h.subject, h.workspace,
                          h.target, h.repository, h.itself, h.fresh, clash, commit_risk_score,
                          present,
                        )
                        refl,
                    λ later.
                        rw
                          (
                            returned, absent, persist_scan_risk_score, h.subject, h.workspace,
                            h.target, h.repository, h.itself, h.fresh, clash, commit_risk_score,
                            read_scan_risk_score, present,
                          )
                          refl,
                  ),
                )
            | inr alone ↦ (
              new_risk_score scan new_id c,
              (
                rw
                    (
                      returned, absent, persist_scan_risk_score, h.subject, h.workspace, h.target,
                      h.repository, h.itself, h.fresh, alone, commit_risk_score,
                    )
                    refl,
                λ later.
                    rw
                      (
                        returned,
                        absent,
                        persist_scan_risk_score,
                        h.subject,
                        h.workspace,
                        h.target,
                        h.repository,
                        h.itself,
                        h.fresh,
                        alone,
                        commit_risk_score,
                        read_scan_risk_score,
                        new-IsScore scan new_id c,
                      )
                      refl,
              ),
            )
          ]
    ]
