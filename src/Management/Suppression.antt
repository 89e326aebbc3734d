-- ===== src/Management/Suppression.antt =====
-- Which rule suppresses a finding.
use web_security_audit_platf.Prelude.{
  ℕ, ◌≡◌, refl, sym, ◌∙◌, true, false, false≢true, ◌≤◌, ◌<◌, Option, none, some, List, [], ◌∷◌,
  Bool-cases, inl, inr, arith, String, is_none, eq_iff, opt_str_eq_iff,
}
use web_security_audit_platf.Management.Order.{
  IsAmong, IsOrdered, newest_first-IsOrdered, newest_first-IsAmong, IsAmong-newest_first, older-at,
}
use web_security_audit_platf.Management.{
  Subject, Finding, SuppressionRule, agrees, is_later, rule_matches, suppression_rule_is_active,
  applies, newest_first, first_applying, active_suppression_for_finding,
}

-- A criterion that is set is the finding's value.
abbrev pub Agrees : Option String → Option String → Type 0
Agrees none value = Unit {0}
Agrees (some wanted) value = value ≡ some wanted

abbrev pub IsAfter : ℕ → Option ℕ → Type 0
IsAfter now none = Unit {0}
IsAfter now (some t) = now < t

-- A rule that suppresses a finding: of its subject, neither revoked nor expired, each criterion agreeing.
pub record Suppresses (now : ℕ) (subject : Subject) (finding : Finding) (rule : SuppressionRule)
    : Type 0 where
  pub workspace : rule.subject.workspace_id ≡ subject.workspace_id
  pub target : rule.subject.target_id ≡ subject.target_id
  pub repository : rule.subject.repository_asset_id ≡ subject.repository_asset_id
  pub unrevoked : rule.revoked_at ≡ none
  pub unexpired : IsAfter now rule.expires_at
  pub dedupe_key : Agrees rule.dedupe_key finding.dedupe_key
  pub severity : Agrees rule.severity (some finding.severity)
  pub source_tool : Agrees rule.source_tool (some finding.source_tool_lower)

agrees-Agrees : (o v : Option String) → agrees o v ≡ true → Agrees o v
agrees-Agrees none v h = tt
agrees-Agrees (some s) v h = (opt_str_eq_iff v (some s)).0 h

Agrees-agrees : (o v : Option String) → Agrees o v → agrees o v ≡ true
Agrees-agrees none v h = refl
Agrees-agrees (some s) v h = (opt_str_eq_iff v (some s)).1 h

later-IsAfter : (now : ℕ) (o : Option ℕ) → is_later now o ≡ true → IsAfter now o
later-IsAfter now none h = tt
later-IsAfter now (some t) h = ground arith

IsAfter-later : (now : ℕ) (o : Option ℕ) → IsAfter now o → is_later now o ≡ true
IsAfter-later now none h = refl
IsAfter-later now (some t) h = ground arith

none-is_none : (o : Option ℕ) → is_none o ≡ true → o ≡ none
none-is_none none h = refl
none-is_none (some t) h = absurd (ground arith)

module _ (now : ℕ) (subject : Subject) (finding : Finding) where
  applies-Suppresses :
      (rule : SuppressionRule)
      → applies now subject finding rule ≡ true
      → Suppresses now subject finding rule
  unfolding applies rule_matches suppression_rule_is_active
  applies-Suppresses rule h = record {
    workspace = (eq_iff rule.subject.workspace_id subject.workspace_id).0 (ground arith);
    target = (opt_str_eq_iff rule.subject.target_id subject.target_id).0 (ground arith);
    repository =
        (opt_str_eq_iff rule.subject.repository_asset_id subject.repository_asset_id).0
          (ground arith);
    unrevoked = none-is_none rule.revoked_at (ground arith);
    unexpired = later-IsAfter now rule.expires_at (ground arith);
    dedupe_key = agrees-Agrees rule.dedupe_key finding.dedupe_key (ground arith);
    severity = agrees-Agrees rule.severity (some finding.severity) (ground arith);
    source_tool = agrees-Agrees rule.source_tool (some finding.source_tool_lower) (ground arith);
  }

  Suppresses-applies :
      (rule : SuppressionRule)
      → Suppresses now subject finding rule
      → applies now subject finding rule ≡ true
  unfolding applies rule_matches suppression_rule_is_active
  Suppresses-applies rule h =
      rw
        (
          (eq_iff rule.subject.workspace_id subject.workspace_id).1 h.workspace,
          (opt_str_eq_iff rule.subject.target_id subject.target_id).1 h.target,
          (opt_str_eq_iff rule.subject.repository_asset_id subject.repository_asset_id).1
              h.repository,
          h.unrevoked,
          IsAfter-later now rule.expires_at h.unexpired,
          Agrees-agrees rule.dedupe_key finding.dedupe_key h.dedupe_key,
          Agrees-agrees rule.severity (some finding.severity) h.severity,
          Agrees-agrees rule.source_tool (some finding.source_tool_lower) h.source_tool,
        )
        refl

  -- The rule suppresses the finding and none that does is newer; or no rule does.
  abbrev pub IsNewestOf : List SuppressionRule → Option SuppressionRule → Type 0
  IsNewestOf rules none =
      (r : SuppressionRule) → IsAmong r rules → Suppresses now subject finding r → ⊥
  IsNewestOf rules (some rule) =
      IsAmong rule rules
      × (Suppresses now subject finding rule
          × ((r : SuppressionRule)
              → IsAmong r rules
              → Suppresses now subject finding r
              → r.created_at ≤ rule.created_at))

  ignored-not :
      (rule : SuppressionRule)
      → applies now subject finding rule ≡ false
      → Suppresses now subject finding rule
      → ⊥
  ignored-not rule h s = false≢true (sym h ∙ Suppresses-applies rule s)

  skip-IsNewestOf :
      (rule : SuppressionRule) (rest : List SuppressionRule) (o : Option SuppressionRule)
      → applies now subject finding rule ≡ false
      → IsNewestOf rest o
      → IsNewestOf (rule ∷ rest) o
  skip-IsNewestOf rule rest none ignored h =
      λ r at s. elim at [ inl e ↦ ignored-not rule ignored (rw (← e) s) | inr later ↦ h r later s ]
  skip-IsNewestOf rule rest (some found) ignored h = (
    inr h.0,
    (
      h.1.0,
      λ r at s. elim at [
        | inl e ↦ absurd (ignored-not rule ignored (rw (← e) s))
        | inr later ↦ h.1.1 r later s
      ],
    ),
  )

  first_applying-IsNewestOf :
      (rules : List SuppressionRule)
      → IsOrdered rules
      → IsNewestOf rules (first_applying now subject finding rules)
  unfolding first_applying
  first_applying-IsNewestOf [] h = λ r at s. at
  first_applying-IsNewestOf (rule ∷ rest) h = elim (Bool-cases (applies now subject finding rule)) [
    | inl active ↦
        rw (active, first_applying)
          (
            inl refl,
            (
              applies-Suppresses rule active,
              λ r at s. elim at [
                | inl e ↦ rw e (omega arith)
                | inr later ↦ older-at rule.created_at rest h.0 r later
              ],
            ),
          )
    | inr ignored ↦
        rw (ignored, first_applying)
          (skip-IsNewestOf rule rest (first_applying now subject finding rest) ignored
            (first_applying-IsNewestOf rest h.1))
  ]

  unordered-IsNewestOf :
      (rules : List SuppressionRule) (o : Option SuppressionRule)
      → IsNewestOf (newest_first rules) o
      → IsNewestOf rules o
  unordered-IsNewestOf rules none h = λ r at s. h r (newest_first-IsAmong r rules at) s
  unordered-IsNewestOf rules (some rule) h = (
    IsAmong-newest_first rule rules h.0,
    (h.1.0, λ r at s. h.1.1 r (newest_first-IsAmong r rules at) s),
  )

  -- Whatever the order of the rules' rows: a finding is suppressed by a rule of its subject that is neither
  -- revoked nor expired and whose criteria all agree with it, such that no other such rule was created
  -- later, and by none if there is no such rule.
  pub active_suppression_for_finding-IsNewestOf :
      (rules : List SuppressionRule)
      → IsNewestOf rules (active_suppression_for_finding now subject finding rules)
  unfolding active_suppression_for_finding
  active_suppression_for_finding-IsNewestOf rules =
      unordered-IsNewestOf rules (first_applying now subject finding (newest_first rules))
        (first_applying-IsNewestOf (newest_first rules) (newest_first-IsOrdered rules))
