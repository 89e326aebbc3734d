-- ===== src/Security/SsrfLaws.antt =====
-- Which destinations the guard lets through.
use mathlib.Core.Path.{subst}
use web_security_audit_platf.Prelude.{
  ℕ, ◌≤◌, ◌<◌, ◌≡◌, ◌⊎◌, ◌↔◌, inl, inr, refl, sym, ◌∙◌, Bool, map, >>-returned, ==_iff, true, false,
  not, Option, none, some, List, [], ◌∷◌, any, All, arith, Result, ok, err, raise_if, >>=-returned,
  Bool-cases,
}
use web_security_audit_platf.Security.Paths.{Text, PathError, text_eq, path_is_within_scope}
use web_security_audit_platf.Security.PathLaws.{text_eq_iff}
use web_security_audit_platf.Security.Policy.{
  Scheme, http, https, scheme_eq, AllowlistTarget, ConnectionPolicy, compose_service, host_gateway,
}
use web_security_audit_platf.Security.Ssrf.{
  IpAddress, ipv4, ipv6, ip_eq, octets, is_loopback, is_link_local, is_multicast, is_reserved,
  is_unspecified, is_local_demo_network_address, is_never_allowed_internal_address,
  is_private_target_address, is_metadata_ip, SsrfError, expected_ips, check_connection,
  validate_ip_for_target, UrlParts, check_path, parse_ip, validate_ips, validate_destination,
}

-- The private ranges meet none of the blocked ones.
local-allowed :
    (ip : IpAddress)
    → is_local_demo_network_address ip ≡ true
    → (is_never_allowed_internal_address ip ≡ false) × (is_metadata_ip ip ≡ false)
unfolding is_local_demo_network_address is_never_allowed_internal_address is_metadata_ip is_loopback
    is_link_local is_multicast is_reserved is_unspecified
local-allowed (ipv4 n) h = ground arith
local-allowed (ipv6 n) h = ground arith

local-private : (ip : IpAddress) → is_private_target_address ip ≡ is_local_demo_network_address ip
unfolding is_private_target_address
local-private ip = elim (Bool-cases (is_local_demo_network_address ip)) [
  | inl local ↦
      let (allowed, other) = local-allowed ip local in
      unfold is_never_allowed_internal_address in ground arith
  | inr public ↦ ground arith
]

-- A host gateway also fixes the exact addresses.
abbrev pub IsExpected : (Text → Option IpAddress) → IpAddress → ConnectionPolicy → Type 0
IsExpected parse ip (compose_service host port) = Unit {0}
IsExpected parse ip (host_gateway host port ips) =
    any (ip_eq ip) (expected_ips parse (host_gateway host port ips)) ≡ true

check_connection_iff :
    (parse : Text → Option IpAddress) (ip : IpAddress) (connection : ConnectionPolicy)
    → is_local_demo_network_address ip ≡ true
    → (check_connection ip (expected_ips parse connection) connection ≡ ok tt)
      ↔ IsExpected parse ip connection
check_connection_iff parse ip (compose_service host port) local = (λ h. tt, λ h. rw local refl)
check_connection_iff parse ip (host_gateway host port ips) local = ground arith

-- The tests in their order, as conditions.
validate_ip-tests :
    (parse : Text → Option IpAddress) (ip : IpAddress) (host : Text) (target : AllowlistTarget)
    → validate_ip_for_target parse ip host target ≡ ok tt
    → (text_eq host target.hostname ≡ true)
      × (is_private_target_address ip ≡ true)
      × (check_connection ip (expected_ips parse target.connection) target.connection ≡ ok tt)
unfolding validate_ip_for_target
validate_ip-tests parse ip host target h = ground arith

-- The guard accepts an address exactly if the URL's host is the policy's, the address is private or
-- unique-local, and a host gateway expects it.
pub validate_ip_for_target_iff :
    (parse : Text → Option IpAddress) (ip : IpAddress) (host : Text) (target : AllowlistTarget)
    → (validate_ip_for_target parse ip host target ≡ ok tt) ↔ (
        (host ≡ target.hostname)
        × (is_local_demo_network_address ip ≡ true)
        × IsExpected parse ip target.connection)
unfolding validate_ip_for_target
validate_ip_for_target_iff parse ip host target = (
  λ h.
      let (same, private, checked) = validate_ip-tests parse ip host target h in
      let local : is_local_demo_network_address ip ≡ true = sym (local-private ip) ∙ private in
      (
        (text_eq_iff host target.hostname).0 same,
        local,
        (check_connection_iff parse ip target.connection local).0 checked,
      ),
  λ accepted.
      let (same, local, expected) = accepted in
      let (allowed, other) = local-allowed ip local in
      let private : is_private_target_address ip ≡ true = local-private ip ∙ local in
      rw ((text_eq_iff host target.hostname).1 same, other, allowed, private)
        ((check_connection_iff parse ip target.connection local).1 expected),
)

-- The first two octets are those of a network of RFC 1918.
abbrev pub StartsPrivate : ℕ → ℕ → Type 0
StartsPrivate a b = (a ≡ 10) ⊎ (((a ≡ 172) × (16 ≤ b) × (b ≤ 31)) ⊎ ((a ≡ 192) × (b ≡ 168)))

-- An IPv4 address is private exactly if it reads 10.x.x.x, 172.16.x.x to 172.31.x.x, or 192.168.x.x.
pub is_local_demo_network_address_iff :
    (a b c d : ℕ)
    → a < 256
    → b < 256
    → c < 256
    → d < 256
    → (is_local_demo_network_address (ipv4 (octets a b c d)) ≡ true) ↔ StartsPrivate a b
unfolding is_local_demo_network_address
is_local_demo_network_address_iff a b c d ha hb hc hd = ground arith

-- What each address of an accepted destination has been found to be.
pub record IsPermitted (parse : Text → Option IpAddress) (target : AllowlistTarget) (ip : IpAddress)
    : Type 0 where
  pub local : is_local_demo_network_address ip ≡ true
  pub expected : IsExpected parse ip target.connection

parse_ip-parsed :
    (found : Option IpAddress) (ip : IpAddress) → parse_ip found ≡ ok ip → found ≡ some ip
parse_ip-parsed none ip h = cc
parse_ip-parsed (some x) ip h = ground arith

ok-cons :
    (ip : IpAddress) (rest ips : List IpAddress)
    → ◌≡◌ {A = Result SsrfError (List IpAddress)} (ok (ip ∷ rest)) (ok ips)
    → ip ∷ rest ≡ ips
ok-cons ip rest ips h = ground arith

-- The addresses are those of the answer, each readable and permitted.
abbrev pub Permits :
    (Text → Option IpAddress) → AllowlistTarget → List Text → List IpAddress → Type 0
Permits parse target raw_ips ips =
    All (IsPermitted parse target) ips × (map parse raw_ips ≡ map some ips)

Permits-cons :
    (parse : Text → Option IpAddress) (target : AllowlistTarget) (raw_ip : Text)
    (raw_ips : List Text) (ip : IpAddress) (ips : List IpAddress)
    → parse raw_ip ≡ some ip
    → IsPermitted parse target ip
    → Permits parse target raw_ips ips
    → Permits parse target (raw_ip ∷ raw_ips) (ip ∷ ips)
Permits-cons parse target raw_ip raw_ips ip ips read permitted (all, same) =
    ((permitted, all), rw (read, same) refl)

validate_ips-Permits :
    (parse : Text → Option IpAddress) (host : Text) (target : AllowlistTarget) (raw_ips : List Text)
    (ips : List IpAddress)
    → validate_ips parse host target raw_ips ≡ ok ips
    → Permits parse target raw_ips ips
unfolding validate_ips
validate_ips-Permits parse host target [] [] h = (tt, refl)
validate_ips-Permits parse host target [] (ip ∷ ips) h = ground arith
validate_ips-Permits parse host target (raw_ip ∷ raw_ips) ips h =
    let (ip, after, read) = >>=-returned _ _ h in
    let (valid, later) = >>-returned _ _ after in
    let (rest, last, others) = >>=-returned _ _ later in
    let (same, local, expected) = (validate_ip_for_target_iff parse ip host target).0 valid in
    subst (Permits parse target (raw_ip ∷ raw_ips)) (ok-cons ip rest ips last) (
      Permits-cons parse target raw_ip raw_ips ip rest (parse_ip-parsed (parse raw_ip) ip read)
        (record { local = local; expected = expected })
        (validate_ips-Permits parse host target raw_ips rest others))

-- An accepted destination has the scheme, host and port of its policy and a path in its scope, and every
-- address of the resolver's answer is readable, private or unique-local, and expected by the connection.
pub validate_destination_sound :
    (parse : Text → Option IpAddress) (url : UrlParts) (target : AllowlistTarget)
    (raw_ips : List Text) (ips : List IpAddress)
    → validate_destination parse url target raw_ips ≡ ok ips
    → (url.scheme ≡ target.scheme)
      × (url.host ≡ target.hostname)
      × (url.port ≡ target.port)
      × (path_is_within_scope url.path target.base_path ≡ ok true)
      × Permits parse target raw_ips ips
unfolding validate_destination
validate_destination_sound parse url target raw_ips ips h =
    let (scheme, h1) = >>-returned _ _ h in
    let (host, h2) = >>-returned _ _ h1 in
    let (port, h3) = >>-returned _ _ h2 in
    let (path, h4) = >>-returned _ _ h3 in
    let (answered, valid) = >>-returned _ _ h4 in
    (
      scheme_eq-same url.scheme target.scheme (passed _ _ scheme),
      (text_eq_iff url.host target.hostname).0 (passed _ _ host),
      (==_iff url.port target.port).0 (passed _ _ port),
      within (path_is_within_scope url.path target.base_path) path,
      validate_ips-Permits parse url.host target raw_ips ips valid,
    )
  where
    passed : (b : Bool) (e : SsrfError) → raise_if (not b) e ≡ ok tt → b ≡ true
    passed true e h = refl
    passed false e h = cc

    scheme_eq-same : (a b : Scheme) → scheme_eq a b ≡ true → a ≡ b
    scheme_eq-same http http h = refl
    scheme_eq-same https https h = refl
    scheme_eq-same _ _ h = ground arith

    within : (r : Result PathError Bool) → check_path r ≡ ok tt → r ≡ ok true
    within (err e) h = cc
    within (ok b) h = ground arith
