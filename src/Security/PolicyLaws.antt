-- ===== src/Security/PolicyLaws.antt =====
-- What a validated policy promises to the scans it authorizes.
use mathlib.Core.Path.{subst}
use web_security_audit_platf.Prelude.{
  ◌≡◌, ◌⊎◌, inl, inr, refl, String, Bool, true, false, not, ◌&&◌, List, [], ◌∷◌, any, str_eq, ok,
  arith, Bool-cases, >>-returned, eq_iff,
}
use web_security_audit_platf.Security.Policy.{
  ScanEngine, is_zap_engine, is_subset, required_engines, AllowlistTarget, validate_engines,
  validate_profile_engines, lookup_engines, engines_for_profile, validate_policy,
}

-- The engines found for a profile are none, or have passed the validation of that profile.
pub lookup_engines_validated :
    (id : String) (entries : List (String × List ScanEngine))
    → validate_profile_engines entries ≡ ok tt
    → (lookup_engines id entries ≡ []) ⊎ (validate_engines id (lookup_engines id entries) ≡ ok tt)
unfolding lookup_engines validate_profile_engines
lookup_engines_validated id [] h = inl refl
lookup_engines_validated id ((key, engines) ∷ rest) h = elim (Bool-cases (str_eq key id)) [
  | inl same ↦ rw same (
      inr (
        subst (λ k. validate_engines k engines ≡ ok tt) ((eq_iff key id).0 same)
          (>>-returned _ _ h).0))
  | inr other ↦ rw other (lookup_engines_validated id rest (>>-returned _ _ h).1)
]

lookup_engines-zap :
    (id : String) (entries : List (String × List ScanEngine))
    → any (λ entry. any is_zap_engine entry.1) entries ≡ false
    → any is_zap_engine (lookup_engines id entries) ≡ false
unfolding lookup_engines
lookup_engines-zap id [] h = refl
lookup_engines-zap id ((key, engines) ∷ rest) h = ground (arith, lookup_engines-zap id rest)

validate_engines-required :
    (id : String) (engines : List ScanEngine)
    → validate_engines id engines ≡ ok tt
    → is_subset (required_engines id) engines ≡ true
unfolding validate_engines
validate_engines-required id [] h = ground arith
validate_engines-required id (e ∷ es) h = ground arith

validate_policy-zap :
    (target : AllowlistTarget)
    → validate_policy target ≡ ok tt
    → (not target.disposable_demo
        && any (λ entry. any is_zap_engine entry.1) target.profile_engines)
      ≡ false
unfolding validate_policy
validate_policy-zap target h = ground arith

-- A validated policy never authorizes a ZAP engine without the declaration of a disposable demo, and
-- if it has engines for a profile, they include all that the profile requires.
pub engines_for_profile_validated :
    (target : AllowlistTarget) (id : String)
    → validate_profile_engines target.profile_engines ≡ ok tt
    → validate_policy target ≡ ok tt
    → ((engines_for_profile target id ≡ [])
        ⊎ (is_subset (required_engines id) (engines_for_profile target id) ≡ true))
      × ((any is_zap_engine (engines_for_profile target id) && not target.disposable_demo) ≡ false)
unfolding engines_for_profile
engines_for_profile_validated target id valid policy = (
  elim (lookup_engines_validated id target.profile_engines valid) [
    | inl absent ↦ inl absent
    | inr engines ↦ inr (validate_engines-required id _ engines)
  ],
  zap_demo target.disposable_demo (validate_policy-zap target policy),
)
  where
    zap_demo :
        (demo : Bool)
        → (not demo && any (λ entry. any is_zap_engine entry.1) target.profile_engines) ≡ false
        → (any is_zap_engine (lookup_engines id target.profile_engines) && not demo) ≡ false
    zap_demo true h = ground arith
    zap_demo false h = rw (lookup_engines-zap id target.profile_engines h) refl
