-- ===== src/Security/Matching.antt =====
-- `match_allowlisted_target` of backend/app/security/target_url.py, for a URL that is normalised.
use web_security_audit_platf.Prelude.{
  Bool, ◌&&◌, List, [], ◌∷◌, ◌==◌, if◌then◌else◌, Result, ok, err,
}
use web_security_audit_platf.Security.Paths.{text_eq, path_is_within_scope}
use web_security_audit_platf.Security.Policy.{AllowlistTarget, scheme_eq, is_within}
use web_security_audit_platf.Security.Ssrf.{UrlParts}

pub data MatchError : Type 0 where
  ambiguous_policies not_allowlisted : MatchError

unfoldable pub matches_target : UrlParts → AllowlistTarget → Bool
matches_target url target =
    scheme_eq url.scheme target.scheme
    && (text_eq url.host target.hostname
        && ((url.port == target.port)
            && is_within (path_is_within_scope url.path target.base_path)))

unfoldable pub matching_targets : UrlParts → List AllowlistTarget → List AllowlistTarget
unfolding matches_target
matching_targets url [] = []
matching_targets url (target ∷ rest) =
    let later = matching_targets url rest in
    if matches_target url target then target ∷ later else later

abbrev pub single : List AllowlistTarget → Result MatchError AllowlistTarget
single [] = err not_allowlisted
single (target ∷ []) = ok target
single (target ∷ other ∷ rest) = err ambiguous_policies

unfoldable pub match_allowlisted_target :
    UrlParts → List AllowlistTarget → Result MatchError AllowlistTarget
unfolding matching_targets
match_allowlisted_target url targets = single (matching_targets url targets)
