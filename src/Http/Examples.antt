-- ===== src/Http/Examples.antt =====
-- A demo target that redirects once, and what the client does with it.
use web_security_audit_platf.Prelude.{
  ◌≡◌, refl, true, false, Option, none, some, List, [], ◌∷◌, ok, err, if◌then◌else◌, ◌+◌,
}
use web_security_audit_platf.Security.Paths.{
  Text, text_eq, path_is_within_scope, canonical_scope_path, has_invalid_percent,
  has_ambiguous_percent, split_slash, unquote, rstrip_slash,
}
use web_security_audit_platf.Security.Policy.{AllowlistTarget, http, system, host_gateway}
use web_security_audit_platf.Security.Ssrf.{
  IpAddress, ipv4, octets, validate_ip_for_target, validate_ips, validate_destination, UrlParts,
  is_metadata_ip, is_never_allowed_internal_address, is_private_target_address,
  is_local_demo_network_address, is_loopback, is_link_local, is_multicast, is_reserved,
  is_unspecified,
}
use web_security_audit_platf.Security.Redirects.{validate_redirect_location, lstrip, rstrip}
use web_security_audit_platf.Http.Body.{read_limited_body}
use web_security_audit_platf.Http.Cookies.{parse_set_cookie_security, strict}
use web_security_audit_platf.Http.Client.{
  Network, Answer, Request, get, validate_url, attempt, open_connection, connect_tcp, connection_ip,
  least, text_ltb, is_redirect, next_hop, redirect_limit,
}
use web_security_audit_platf.Http.ClientLaws.{IsSound, get-IsSound}

abbrev host : Text
host = b'd' ∷ []

abbrev low : IpAddress
low = ipv4 (octets 172 20 0 1)

abbrev high : IpAddress
high = ipv4 (octets 172 20 0 2)

abbrev target : AllowlistTarget
target = record {
  id = "demo";
  scheme = http;
  hostname = host;
  port = 80;
  base_path = b'/' ∷ [];
  connection = host_gateway host 80 ((b'1' ∷ []) ∷ (b'2' ∷ []) ∷ []);
  profile_engines = [];
  disposable_demo = true;
  trust = system;
  max_redirects = 1;
  retired_modes = [];
  legacy_mode_order = [];
}

abbrev url : Text → UrlParts
url path = record { scheme = http; host = host; port = 80; path = path }

abbrev normalize : Text → Option UrlParts
normalize [] = none
normalize (c ∷ path) = some (url (c ∷ path))

abbrev parse : Text → Option IpAddress
parse raw_ip =
    if text_eq raw_ip (b'1' ∷ [])
    then some low
    else if text_eq raw_ip (b'2' ∷ [])
    then some high
    else none

abbrev compressed : IpAddress → Text
compressed (ipv4 n) = n ∷ []
compressed _ = []

abbrev moved : Answer
moved = record {
  status_code = 302;
  headers = [];
  location = some (b'/' ∷ b'b' ∷ []);
  set_cookies = [];
  chunks = [];
}

abbrev page : Answer
page = record {
  status_code = 200;
  headers = [];
  location = none;
  set_cookies = [];
  chunks = (1 ∷ 2 ∷ []) ∷ (3 ∷ 4 ∷ []) ∷ (5 ∷ []) ∷ [];
}

-- The first request is redirected, the second is not.
abbrev once : List Request → Option Answer
once (first ∷ []) = some moved
once _ = some page

abbrev always : List Request → Option Answer
always sent = some moved

abbrev network : (List Request → Option Answer) → Network
network answer = record {
  answer = answer;
  interrupts = λ call. false;
  ca_bundle_available = false;
  urljoin = λ current location. some location;
  normalize = normalize;
  parse = parse;
  compressed = compressed;
  resolve = λ policy. (b'2' ∷ []) ∷ (b'1' ∷ []) ∷ [];
}

abbrev request : Text → Request
request path = record { url = url path; connection_ip = low }

get_tests :
    (get (network once) target 3 (b'/' ∷ []) ≡ (
      request (b'/' ∷ b'b' ∷ []) ∷ request (b'/' ∷ []) ∷ [],
      ok (record {
        url = url (b'/' ∷ b'b' ∷ []);
        status_code = 200;
        headers = [];
        body = 1 ∷ 2 ∷ 3 ∷ [];
        redirect_chain = (b'/' ∷ b'b' ∷ []) ∷ [];
        cookie_security = [];
        connection_ip = low;
      }),
    ))
    × (get (network always) target 3 (b'/' ∷ [])
        ≡ (request (b'/' ∷ b'b' ∷ []) ∷ request (b'/' ∷ []) ∷ [], err redirect_limit))
unfolding get validate_url attempt open_connection connect_tcp connection_ip least text_ltb
    is_redirect next_hop read_limited_body validate_redirect_location lstrip rstrip
    validate_ip_for_target validate_ips validate_destination is_metadata_ip
    is_never_allowed_internal_address is_private_target_address is_local_demo_network_address
    is_loopback is_link_local is_multicast is_reserved is_unspecified path_is_within_scope
    canonical_scope_path has_invalid_percent has_ambiguous_percent split_slash unquote rstrip_slash
get_tests = (refl, refl)

-- "a=b; Secure; SameSite = strict; HttpOnly=x"
cookie_test :
    parse_set_cookie_security (
      b'a' ∷ b'=' ∷ b';' ∷ b'S' ∷ b'E' ∷ b'C' ∷ b'U' ∷ b'R' ∷ b'E' ∷ b';' ∷ b' ' ∷ b'S' ∷ b'a'
      ∷ b'm' ∷ b'e' ∷ b'S' ∷ b'i' ∷ b't' ∷ b'e' ∷ b' ' ∷ b'=' ∷ b's' ∷ b't' ∷ b'r' ∷ b'i' ∷ b'c'
      ∷ b't' ∷ [])
    ≡ record { http_only = false; secure = true; same_site = some strict }
unfolding parse_set_cookie_security
cookie_test = refl

get-IsSound_example :
    IsSound (network always) target 3 (1 + 1) (get (network always) target 3 (b'/' ∷ []))
get-IsSound_example = get-IsSound (network always) target 3 (b'/' ∷ [])
