-- ===== src/Security/SsrfExamples.antt =====
-- A demo target behind a host gateway at 172.20.0.1, and what the guard says to addresses.
use web_security_audit_platf.Prelude.{
  ℕ, zero, suc, ◌≡◌, ◌≢◌, ◌≤◌, All, length, List, ◌↔◌, refl, true, Option, none, some, [], ◌∷◌, ok,
  err, if◌then◌else◌,
}
use web_security_audit_platf.Security.Paths.{
  Text, text_eq, path_is_within_scope, canonical_scope_path, has_invalid_percent,
  has_ambiguous_percent, split_slash, unquote, rstrip_slash,
}
use web_security_audit_platf.Security.Matching.{
  ambiguous_policies, match_allowlisted_target, matching_targets, matches_target,
}
use web_security_audit_platf.Security.MatchingLaws.{
  HasAcceptedBase, match_allowlisted_target_unambiguous,
}
use web_security_audit_platf.Security.Policy.{
  validate_unique_entries, has_duplicate_id, has_overlap, overlaps, AllowlistTarget,
  ConnectionPolicy, http, system, host_gateway,
}
use web_security_audit_platf.Security.Redirects.{
  AreAllowedFrom, follow_redirects, lstrip, rstrip, validate_redirect_chain,
  validate_redirect_chain-IsAllowedBy, validate_redirect_location, limit_exceeded, not_allowed,
  empty_location,
}
use web_security_audit_platf.Security.Ssrf.{
  IpAddress, ipv4, octets, validate_ip_for_target, validate_ips, validate_destination, UrlParts,
  is_metadata_ip, is_never_allowed_internal_address, is_private_target_address,
  is_local_demo_network_address, is_loopback, is_link_local, is_multicast, is_reserved,
  is_unspecified, metadata_address, public_address, internal_address,
}
use web_security_audit_platf.Security.SsrfLaws.{
  IsExpected, Permits, validate_ip_for_target_iff, validate_destination_sound,
}

abbrev host : Text
host = b'd' ∷ []

abbrev gateway : IpAddress
gateway = ipv4 (octets 172 20 0 1)

-- In place of `ipaddress.ip_address`: the text "g" is the gateway.
abbrev parse : Text → Option IpAddress
parse raw_ip = if text_eq raw_ip (b'g' ∷ []) then some gateway else none

abbrev target : AllowlistTarget
target = record {
  id = "demo";
  scheme = http;
  hostname = host;
  port = 80;
  base_path = b'/' ∷ [];
  connection = host_gateway host 80 ((b'g' ∷ []) ∷ []);
  profile_engines = [];
  disposable_demo = true;
  trust = system;
  max_redirects = 3;
  retired_modes = [];
  legacy_mode_order = [];
}

abbrev url : UrlParts
url = record { scheme = http; host = host; port = 80; path = b'/' ∷ b'a' ∷ [] }

guard : Unit {0}
unfolding validate_ip_for_target validate_ips validate_destination is_metadata_ip
    is_never_allowed_internal_address is_private_target_address is_local_demo_network_address
    is_loopback is_link_local is_multicast is_reserved is_unspecified path_is_within_scope
    canonical_scope_path has_invalid_percent has_ambiguous_percent split_slash unquote rstrip_slash
guard = tt

guard_tests :
    (validate_destination parse url target ((b'g' ∷ []) ∷ []) ≡ ok (gateway ∷ []))
    × (validate_ip_for_target parse (ipv4 (octets 169 254 169 254)) host target
        ≡ err metadata_address)
    × (validate_ip_for_target parse (ipv4 (octets 127 0 0 1)) host target ≡ err internal_address)
    × (validate_ip_for_target parse (ipv4 (octets 8 8 8 8)) host target ≡ err public_address)
unfolding guard
guard_tests = (refl, refl, refl, refl)

validate_destination_sound_example :
    (url.scheme ≡ target.scheme)
    × (url.host ≡ target.hostname)
    × (url.port ≡ target.port)
    × (path_is_within_scope url.path target.base_path ≡ ok true)
    × Permits parse target ((b'g' ∷ []) ∷ []) (gateway ∷ [])
validate_destination_sound_example =
    validate_destination_sound parse url target ((b'g' ∷ []) ∷ []) (gateway ∷ []) guard_tests.0

validate_ip_for_target_iff_example : (validate_ip_for_target parse gateway host target ≡ ok tt) ↔ (
    (host ≡ target.hostname)
    × (is_local_demo_network_address gateway ≡ true)
    × IsExpected parse gateway target.connection)
validate_ip_for_target_iff_example = validate_ip_for_target_iff parse gateway host target

-- A second target of the origin, at "/b", beside one at "/a".
abbrev first_target : AllowlistTarget
first_target = record target { base_path = b'/' ∷ b'a' ∷ [] }

abbrev second_target : AllowlistTarget
second_target = record target { id = "other"; base_path = b'/' ∷ b'b' ∷ [] }

two_targets :
    (validate_unique_entries (first_target ∷ second_target ∷ []) ≡ ok tt)
    × (match_allowlisted_target url (first_target ∷ second_target ∷ []) ≡ ok first_target)
    × All HasAcceptedBase (first_target ∷ second_target ∷ [])
unfolding guard validate_unique_entries has_duplicate_id has_overlap overlaps
    match_allowlisted_target matching_targets matches_target
two_targets = (refl, refl, (refl, (refl, tt)))

match_allowlisted_target_unambiguous_example :
    match_allowlisted_target url (first_target ∷ second_target ∷ []) ≢ err ambiguous_policies
match_allowlisted_target_unambiguous_example =
    match_allowlisted_target_unambiguous url (first_target ∷ second_target ∷ []) two_targets.2
      two_targets.0

-- In place of `urljoin` and `normalize_target_url`: a location is a path of the demo's origin, and
-- the empty path is refused.
abbrev join : UrlParts → Text → Option Text
join current_url location = some location

abbrev normalize : Text → Option UrlParts
normalize [] = none
normalize (c ∷ path) = some (record { scheme = http; host = host; port = 80; path = c ∷ path })

-- The resolver answers otherwise after the second hop.
abbrev resolve : ℕ → ConnectionPolicy → List Text
resolve zero policy = (b'g' ∷ []) ∷ []
resolve (suc zero) policy = (b'g' ∷ []) ∷ []
resolve (suc (suc hop)) policy = []

abbrev location : Text
location = b' ' ∷ b'/' ∷ b'b' ∷ b' ' ∷ []

abbrev moved_to : UrlParts
moved_to = record { scheme = http; host = host; port = 80; path = b'/' ∷ b'b' ∷ [] }

redirect_tests :
    (validate_redirect_chain join normalize parse resolve url (location ∷ location ∷ []) target
      ≡ ok (moved_to ∷ moved_to ∷ []))
    × (validate_redirect_chain join normalize parse resolve url ((b' ' ∷ []) ∷ []) target
        ≡ err empty_location)
    × (validate_redirect_chain join normalize parse resolve url ((b'b' ∷ []) ∷ []) target
        ≡ err not_allowed)
    × (validate_redirect_chain join normalize parse resolve url
          (location ∷ location ∷ location ∷ location ∷ [])
          target
        ≡ err limit_exceeded)
unfolding guard validate_redirect_chain follow_redirects validate_redirect_location lstrip rstrip
redirect_tests = (refl, refl, refl, refl)

validate_redirect_chain-IsAllowedBy_example :
    (2 ≤ target.max_redirects)
    × (length (moved_to ∷ moved_to ∷ []) ≡ length (location ∷ location ∷ []))
    × AreAllowedFrom join normalize parse resolve 0 target (moved_to ∷ moved_to ∷ [])
validate_redirect_chain-IsAllowedBy_example =
    validate_redirect_chain-IsAllowedBy join normalize parse resolve url (location ∷ location ∷ [])
      target (moved_to ∷ moved_to ∷ []) redirect_tests.0
