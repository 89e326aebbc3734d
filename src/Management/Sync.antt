-- ===== src/Management/Sync.antt =====
-- Synchronising an occurrence, and reading it later.
use web_security_audit_platf.Prelude.{
  ℕ, String, ◌≡◌, refl, ◌∙◌, Bool, true, false, Option, none, some, List, [], ◌∷◌, Bool-cases, inl,
  inr, if◌then◌else◌, opt_str_eq, eq_refl, opt_str_eq_iff,
}
use web_security_audit_platf.Management.{
  Subject, Finding, FindingState, FindingOccurrenceState, SuppressionRule, Tables, subject_eq,
  find_state, or_new_state, get_or_create_finding_state, is_occurrence_of, find_occurrence,
  new_occurrence, update_occurrence, suppression_rule_is_active, active_suppression_for_finding,
  synced, sync_occurrence_state,
}
use web_security_audit_platf.Management.Reading.{
  find_rule, read_occurrence, occurrence_state_for_read,
}

opt_str_eq_refl : (s : Option String) → opt_str_eq s s ≡ true
opt_str_eq_refl s = (opt_str_eq_iff s s).1 refl

subject_eq_refl : (s : Subject) → subject_eq s s ≡ true
subject_eq_refl s =
    rw (eq_refl s.workspace_id, opt_str_eq_refl s.target_id, opt_str_eq_refl s.repository_asset_id)
      refl

-- The state that a synchronisation finds or creates is found afterwards.
find_state-get_or_create :
    (subject : Subject) (finding : Finding) (user_id new_id : String) (tables : Tables)
    → let (state, tables') = get_or_create_finding_state subject finding user_id new_id tables in
      find_state subject finding.dedupe_key tables'.states ≡ some state
unfolding get_or_create_finding_state find_state
find_state-get_or_create subject finding user_id new_id tables =
    go (find_state subject finding.dedupe_key tables.states) refl
  where
    go :
        (found : Option FindingState)
        → find_state subject finding.dedupe_key tables.states ≡ found
        → let (state, tables') = or_new_state subject finding user_id new_id tables found in
          find_state subject finding.dedupe_key tables'.states ≡ some state
    go (some state) e = e
    go none e = rw (subject_eq_refl subject, opt_str_eq_refl finding.dedupe_key) refl

synced-is_occurrence_of :
    (finding : Finding) (rule : Option SuppressionRule) (state : FindingState)
    (o : FindingOccurrenceState)
    → is_occurrence_of finding (synced rule state o) ≡ is_occurrence_of finding o
synced-is_occurrence_of finding none state o = refl
synced-is_occurrence_of finding (some r) state o = refl

new-is_occurrence_of :
    (finding : Finding) (id : String) → is_occurrence_of finding (new_occurrence finding id) ≡ true
new-is_occurrence_of finding id = rw (eq_refl finding.id, eq_refl finding.workspace_id) refl

module _ (finding : Finding) (new_id : String) (rule : Option SuppressionRule)
    (state : FindingState) where
  abbrev updated : List FindingOccurrenceState → List FindingOccurrenceState
  updated xs = update_occurrence finding new_id (synced rule state) xs

  find-update :
      (xs : List FindingOccurrenceState)
      → (o : FindingOccurrenceState) × (find_occurrence finding (updated xs)
          ≡ some (synced rule state o))
  unfolding find_occurrence update_occurrence
  find-update [] = (
    new_occurrence finding new_id,
    rw
        (synced-is_occurrence_of finding rule state (new_occurrence finding new_id)
          ∙ new-is_occurrence_of finding new_id)
        refl,
  )
  find-update (x ∷ xs) = elim (Bool-cases (is_occurrence_of finding x)) [
    | inl here ↦ (x, rw here (rw (synced-is_occurrence_of finding rule state x ∙ here) refl))
    | inr other ↦ let (o, e) = find-update xs in (o, rw other (rw other e))
  ]

same_rules :
    (subject : Subject) (finding : Finding) (user_id new_id : String) (tables : Tables)
    → (get_or_create_finding_state subject finding user_id new_id tables).1.rules ≡ tables.rules
unfolding get_or_create_finding_state
same_rules subject finding user_id new_id tables =
    go (find_state subject finding.dedupe_key tables.states)
  where
    go :
        (found : Option FindingState)
        → (or_new_state subject finding user_id new_id tables found).1.rules ≡ tables.rules
    go none = refl
    go (some state) = refl

-- Whether a rule is there and active.
abbrev pub is_active : ℕ → Option SuppressionRule → Bool
is_active now none = false
is_active now (some rule) = suppression_rule_is_active now rule

-- What a reader sees: suppressed or not, and the status that goes with it.
abbrev pub Reads : Bool → String → Option FindingOccurrenceState → Type 0
Reads suppressed status none = ⊥
Reads suppressed status (some o) =
    (o.suppressed ≡ suppressed)
    × (o.lifecycle_status ≡ (if suppressed then "suppressed" else status))

read-synced :
    (later : ℕ) (finding : Finding) (state : FindingState) (rules : List SuppressionRule)
    (rule : Option SuppressionRule) (o : FindingOccurrenceState)
    → ((r : SuppressionRule) → rule ≡ some r → find_rule r.id finding.workspace_id rules ≡ some r)
    → Reads
        (is_active later rule)
        state.lifecycle_status
        (read_occurrence later finding (some state) rules (some (synced rule state o)))
read-synced later finding state rules none o keyed = (refl, refl)
read-synced later finding state rules (some r) o keyed =
    rw (keyed r refl) (elim (Bool-cases (suppression_rule_is_active later r)) [
      | inl active ↦ rw active (refl, refl)
      | inr over ↦ rw over (refl, refl)
    ])

-- A finding that was synchronised is read later as suppressed exactly if a rule suppressed it then and
-- that rule is still active, and otherwise with the status of its state, if a rule's id names one rule.
pub sync_read :
    (now later : ℕ) (subject : Subject) (finding : Finding) (user_id new_id : String)
    (tables : Tables)
    → ((r : SuppressionRule)
        → active_suppression_for_finding now subject finding tables.rules ≡ some r
        → find_rule r.id finding.workspace_id tables.rules ≡ some r)
    → Reads
        (is_active later (active_suppression_for_finding now subject finding tables.rules))
        (get_or_create_finding_state subject finding user_id new_id tables).0.lifecycle_status
        (occurrence_state_for_read later subject finding
          (sync_occurrence_state now subject finding user_id new_id tables))
unfolding sync_occurrence_state occurrence_state_for_read
sync_read now later subject finding user_id new_id tables keyed =
    let rule = active_suppression_for_finding now subject finding tables.rules in
    let state = (get_or_create_finding_state subject finding user_id new_id tables).0 in
    let (o, found) = find-update finding new_id rule state tables.occurrences in
    rw
      (
        find_state-get_or_create subject finding user_id new_id tables,
        same_rules subject finding user_id new_id tables,
        found,
      )
      (read-synced later finding state tables.rules rule o keyed)
