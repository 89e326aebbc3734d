-- ===== src/Security/MatchingLaws.antt =====
-- A validated allowlist names one policy for a URL, or none.
use web_security_audit_platf.Prelude.{
  ◌≡◌, ◌≢◌, inl, inr, refl, sym, ◌∙◌, Bool, true, false, ◌||◌, List, [], ◌∷◌, any, All, arith,
  ==_iff, ==_iff, Bool-cases, Result, ok, err,
}
use web_security_audit_platf.Security.Paths.{PathError, path_is_within_scope}
use web_security_audit_platf.Security.PathLaws.{text_eq_iff}
use web_security_audit_platf.Security.Policy.{
  Scheme, http, https, scheme_eq, AllowlistTarget, same_origin, is_within, overlaps, has_overlap,
  validate_unique_entries,
}
use web_security_audit_platf.Security.Ssrf.{UrlParts}
use web_security_audit_platf.Security.Nesting.{IsAcceptedPath, path_is_within_scope_nested}
use web_security_audit_platf.Security.Matching.{
  ambiguous_policies, matches_target, matching_targets, single, match_allowlisted_target,
}

scheme_eq-same : (a b : Scheme) → scheme_eq a b ≡ true → a ≡ b
scheme_eq-same http http h = refl
scheme_eq-same https https h = refl
scheme_eq-same _ _ h = ground arith

scheme_eq_refl : (a : Scheme) → scheme_eq a a ≡ true
scheme_eq_refl http = refl
scheme_eq_refl https = refl

is_within-ok : (r : Result PathError Bool) → is_within r ≡ true → r ≡ ok true
is_within-ok (ok b) h = rw h refl
is_within-ok (err e) h = cc

-- The parts of a match.
record Matched (url : UrlParts) (target : AllowlistTarget) : Type 0 where
  pub scheme : url.scheme ≡ target.scheme
  pub host : url.host ≡ target.hostname
  pub port : url.port ≡ target.port
  pub path : path_is_within_scope url.path target.base_path ≡ ok true

matches_target-Matched :
    (url : UrlParts) (target : AllowlistTarget)
    → matches_target url target ≡ true
    → Matched url target
unfolding matches_target
matches_target-Matched url target h = record {
  scheme = scheme_eq-same url.scheme target.scheme (ground arith);
  host = (text_eq_iff url.host target.hostname).0 (ground arith);
  port = (==_iff url.port target.port).0 (ground arith);
  path = is_within-ok (path_is_within_scope url.path target.base_path) (ground arith);
}

Matched-same_origin :
    (url : UrlParts) (a b : AllowlistTarget)
    → Matched url a
    → Matched url b
    → same_origin a b ≡ true
Matched-same_origin url a b ma mb =
    let scheme : a.scheme ≡ b.scheme = sym ma.scheme ∙ mb.scheme in
    let host : a.hostname ≡ b.hostname = sym ma.host ∙ mb.host in
    let port : a.port ≡ b.port = sym ma.port ∙ mb.port in
    rw
      (
        scheme_same a.scheme b.scheme scheme,
        (text_eq_iff a.hostname b.hostname).1 host,
        (==_iff a.port b.port).1 port,
      )
      refl
  where
    scheme_same : (s t : Scheme) → s ≡ t → scheme_eq s t ≡ true
    scheme_same s t e = rw e (scheme_eq_refl t)

-- Two policies that match one URL overlap.
Matched-overlaps :
    (url : UrlParts) (a b : AllowlistTarget)
    → IsAcceptedPath a.base_path
    → IsAcceptedPath b.base_path
    → Matched url a
    → Matched url b
    → overlaps a b ≡ true
unfolding overlaps
Matched-overlaps url a b ha hb ma mb =
    let origin = Matched-same_origin url a b ma mb in
    elim (path_is_within_scope_nested url.path a.base_path b.base_path ha hb ma.path mb.path) [
      | inl inner ↦ rw (origin, inner) refl
      | inr outer ↦
          rw (origin, outer) (or_true (is_within (path_is_within_scope a.base_path b.base_path)))
    ]
  where
    or_true : (x : Bool) → (x || true) ≡ true
    or_true x = ground arith

abbrev pub HasAcceptedBase : AllowlistTarget → Type 0
HasAcceptedBase target = IsAcceptedPath target.base_path

no_other_match :
    (url : UrlParts) (a : AllowlistTarget) (rest : List AllowlistTarget)
    → HasAcceptedBase a
    → All HasAcceptedBase rest
    → Matched url a
    → any (overlaps a) rest ≡ false
    → matching_targets url rest ≡ []
unfolding matching_targets
no_other_match url a [] ha hs ma h = refl
no_other_match url a (b ∷ rest) ha hs ma h = elim (Bool-cases (matches_target url b)) [
  | inl both ↦
      let overlap = Matched-overlaps url a b ha hs.0 ma (matches_target-Matched url b both) in
      absurd (ground arith)
  | inr other ↦ rw other (no_other_match url a rest ha hs.1 ma (ground arith))
]

single_match :
    (url : UrlParts) (targets : List AllowlistTarget)
    → All HasAcceptedBase targets
    → has_overlap targets ≡ false
    → single (matching_targets url targets) ≢ err ambiguous_policies
unfolding matching_targets has_overlap
single_match url [] hs h = λ ambiguous. ground arith
single_match url (a ∷ rest) hs h = elim (Bool-cases (matches_target url a)) [
  | inl found ↦
      let none =
        no_other_match url a rest hs.0 hs.1 (matches_target-Matched url a found) (ground arith) in
      rw (found, none) (λ ambiguous. ground arith)
  | inr other ↦ rw other (single_match url rest hs.1 (ground arith))
]

-- No URL is ambiguous in a validated allowlist: if no two of its policies overlap, and their base paths
-- are canonical, at most one policy matches.
pub match_allowlisted_target_unambiguous :
    (url : UrlParts) (targets : List AllowlistTarget)
    → All HasAcceptedBase targets
    → validate_unique_entries targets ≡ ok tt
    → match_allowlisted_target url targets ≢ err ambiguous_policies
unfolding match_allowlisted_target validate_unique_entries
match_allowlisted_target_unambiguous url targets hs valid =
    single_match url targets hs (ground arith)
