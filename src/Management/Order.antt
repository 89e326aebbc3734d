-- ===== src/Management/Order.antt =====
-- The rules of a query in the order of their creation, the newest first.
use web_security_audit_platf.Prelude.{
  ℕ, ◌≡◌, ◌≤◌, ◌⊎◌, List, [], ◌∷◌, All, Bool-cases, inl, inr, arith, ltb,
}
use web_security_audit_platf.Management.{SuppressionRule, insert_rule, newest_first}

abbrev pub IsAmong : SuppressionRule → List SuppressionRule → Type 0
IsAmong rule [] = ⊥
IsAmong rule (other ∷ rest) = (rule ≡ other) ⊎ IsAmong rule rest

abbrev pub OlderThan : ℕ → SuppressionRule → Type 0
OlderThan t rule = rule.created_at ≤ t

-- Each rule is as new as those after it.
abbrev pub IsOrdered : List SuppressionRule → Type 0
IsOrdered [] = Unit {0}
IsOrdered (rule ∷ rest) = All (OlderThan rule.created_at) rest × IsOrdered rest

older_mono :
    (s t : ℕ) (rules : List SuppressionRule)
    → s ≤ t
    → All (OlderThan s) rules
    → All (OlderThan t) rules
older_mono s t [] le h = tt
older_mono s t (r ∷ rules) le h = (omega (arith, h.0), older_mono s t rules le h.1)

insert-older :
    (t : ℕ) (rule : SuppressionRule) (rules : List SuppressionRule)
    → rule.created_at ≤ t
    → All (OlderThan t) rules
    → All (OlderThan t) (insert_rule rule rules)
unfolding insert_rule
insert-older t rule [] le h = (le, tt)
insert-older t rule (first ∷ rest) le h = elim (Bool-cases (ltb rule.created_at first.created_at)) [
  | inl older ↦ rw (older, insert_rule) (h.0, insert-older t rule rest le h.1)
  | inr newer ↦ rw (newer, insert_rule) (le, h)
]

insert-IsOrdered :
    (rule : SuppressionRule) (rules : List SuppressionRule)
    → IsOrdered rules
    → IsOrdered (insert_rule rule rules)
unfolding insert_rule
insert-IsOrdered rule [] h = (tt, tt)
insert-IsOrdered rule (first ∷ rest) h = elim (Bool-cases (ltb rule.created_at first.created_at)) [
  | inl older ↦
      rw (older, insert_rule)
        (insert-older first.created_at rule rest (ground arith) h.0, insert-IsOrdered rule rest h.1)
  | inr newer ↦
      let le : first.created_at ≤ rule.created_at = ground arith in
      rw (newer, insert_rule) ((le, older_mono first.created_at rule.created_at rest le h.0), h)
]

pub newest_first-IsOrdered : (rules : List SuppressionRule) → IsOrdered (newest_first rules)
unfolding newest_first
newest_first-IsOrdered [] = tt
newest_first-IsOrdered (rule ∷ rest) =
    insert-IsOrdered rule (newest_first rest) (newest_first-IsOrdered rest)

insert-IsAmong :
    (r rule : SuppressionRule) (rules : List SuppressionRule)
    → IsAmong r (rule ∷ rules)
    → IsAmong r (insert_rule rule rules)
unfolding insert_rule
insert-IsAmong r rule [] at = at
insert-IsAmong r rule (first ∷ rest) at = elim (Bool-cases (ltb rule.created_at first.created_at)) [
  | inl older ↦
      rw (older, insert_rule)
        (elim at [
          | inl e ↦ inr (insert-IsAmong r rule rest (inl e))
          | inr (inl e) ↦ inl e
          | inr (inr later) ↦ inr (insert-IsAmong r rule rest (inr later))
        ])
  | inr newer ↦ rw (newer, insert_rule) at
]

IsAmong-insert :
    (r rule : SuppressionRule) (rules : List SuppressionRule)
    → IsAmong r (insert_rule rule rules)
    → IsAmong r (rule ∷ rules)
unfolding insert_rule
IsAmong-insert r rule [] at = at
IsAmong-insert r rule (first ∷ rest) at = elim (Bool-cases (ltb rule.created_at first.created_at)) [
  | inl older ↦ elim (rw (older, insert_rule) at at) [
    | inl e ↦ inr (inl e)
    | inr later ↦ elim (IsAmong-insert r rule rest later) [
      | inl e ↦ inl e
      | inr further ↦ inr (inr further)
    ]
  ]
  | inr newer ↦ rw (newer, insert_rule) at at
]

pub newest_first-IsAmong :
    (r : SuppressionRule) (rules : List SuppressionRule)
    → IsAmong r rules
    → IsAmong r (newest_first rules)
unfolding newest_first
newest_first-IsAmong r [] at = at
newest_first-IsAmong r (rule ∷ rest) (inl e) = insert-IsAmong r rule (newest_first rest) (inl e)
newest_first-IsAmong r (rule ∷ rest) (inr at) =
    insert-IsAmong r rule (newest_first rest) (inr (newest_first-IsAmong r rest at))

pub IsAmong-newest_first :
    (r : SuppressionRule) (rules : List SuppressionRule)
    → IsAmong r (newest_first rules)
    → IsAmong r rules
unfolding newest_first
IsAmong-newest_first r [] at = at
IsAmong-newest_first r (rule ∷ rest) at = elim (IsAmong-insert r rule (newest_first rest) at) [
  | inl e ↦ inl e
  | inr later ↦ inr (IsAmong-newest_first r rest later)
]

pub older-at :
    (t : ℕ) (rules : List SuppressionRule)
    → All (OlderThan t) rules
    → (r : SuppressionRule) → IsAmong r rules
    → r.created_at ≤ t
older-at t [] h r at = absurd at
older-at t (x ∷ rules) h r (inl e) = rw e h.0
older-at t (x ∷ rules) h r (inr at) = older-at t rules h.1 r at
