-- ===== src/Security/Ssrf.antt =====
-- backend/app/security/ssrf.py, with `is_private_target_address` of backend/app/security/allowlist.py.
-- An address is its number; the ranges are those of Python's `ipaddress`.
use web_security_audit_platf.Prelude.{
  ℕ, ◌+◌, ◌*◌, ◌^◌, Bool, true, false, not, ◌&&◌, ◌||◌, Option, none, some, List, [], ◌∷◌, any, ltb,
  leb, ◌==◌, Result, ok, err, raise_if, ◌>>=◌, ◌>>◌,
}
use web_security_audit_platf.Security.Paths.{Text, PathError, text_eq, path_is_within_scope}
use web_security_audit_platf.Security.Policy.{
  Scheme, scheme_eq, AllowlistTarget, ConnectionPolicy, compose_service, host_gateway,
}

pub data IpAddress : Type 0 where
  ipv4 ipv6 : ℕ → IpAddress

abbrev pub ip_eq : IpAddress → IpAddress → Bool
ip_eq (ipv4 a) (ipv4 b) = a == b
ip_eq (ipv6 a) (ipv6 b) = a == b
ip_eq _ _ = false

-- The four octets of an address.
abbrev pub octets : ℕ → ℕ → ℕ → ℕ → ℕ
octets a b c d = a * 16777216 + b * 65536 + c * 256 + d

-- The address lies in the block of `size` addresses that begins at `base`.
abbrev pub in_network : ℕ → ℕ → ℕ → Bool
in_network base size n = leb base n && ltb n (base + size)

-- The block of an IPv6 prefix: its first 16 bits, and the number of addresses.
abbrev pub in_prefix : ℕ → ℕ → ℕ → Bool
in_prefix head heads n = in_network (head * 2 ^ 112) (heads * 2 ^ 112) n

unfoldable pub is_loopback : IpAddress → Bool
is_loopback (ipv4 n) = in_network (octets 127 0 0 0) 16777216 n
is_loopback (ipv6 n) = n == 1

unfoldable pub is_link_local : IpAddress → Bool
is_link_local (ipv4 n) = in_network (octets 169 254 0 0) 65536 n
is_link_local (ipv6 n) = in_prefix 65152 64 n

unfoldable pub is_multicast : IpAddress → Bool
is_multicast (ipv4 n) = in_network (octets 224 0 0 0) 268435456 n
is_multicast (ipv6 n) = in_prefix 65280 256 n

-- 240/4; and the reserved IPv6 blocks, joined where they touch: ::/8 to 1000::/4, 4000::/3 to f800::/6,
-- and fe00::/9.
unfoldable pub is_reserved : IpAddress → Bool
is_reserved (ipv4 n) = in_network (octets 240 0 0 0) 268435456 n
is_reserved (ipv6 n) = in_prefix 0 8192 n || in_prefix 16384 48128 n || in_prefix 65024 128 n

unfoldable pub is_unspecified : IpAddress → Bool
is_unspecified (ipv4 n) = n == 0
is_unspecified (ipv6 n) = n == 0

-- RFC1918_NETWORKS and UNIQUE_LOCAL_IPV6
unfoldable pub is_local_demo_network_address : IpAddress → Bool
is_local_demo_network_address (ipv4 n) =
    in_network (octets 10 0 0 0) 16777216 n
    || in_network (octets 172 16 0 0) 1048576 n
    || in_network (octets 192 168 0 0) 65536 n
is_local_demo_network_address (ipv6 n) = in_prefix 64512 512 n

unfoldable pub is_never_allowed_internal_address : IpAddress → Bool
is_never_allowed_internal_address ip =
    is_loopback ip || is_link_local ip || is_multicast ip || is_reserved ip || is_unspecified ip

unfoldable pub is_private_target_address : IpAddress → Bool
is_private_target_address ip =
    not
      (is_loopback ip || is_link_local ip || is_multicast ip || is_reserved ip || is_unspecified ip)
    && is_local_demo_network_address ip

-- METADATA_IPS
unfoldable pub is_metadata_ip : IpAddress → Bool
is_metadata_ip ip = ip_eq ip (ipv4 (octets 169 254 169 254))

pub data SsrfError : Type 0 where
  bad_scheme bad_host bad_port bad_path outside_path unresolved invalid_address : SsrfError
  metadata_address internal_address public_address unexpected_gateway not_local_demo : SsrfError

-- `{ipaddress.ip_address(raw_ip) for raw_ip in connection.expected_ips}`; `ip_address` is a parameter,
-- and a policy holds readable addresses only.
abbrev pub parsed : (Text → Option IpAddress) → List Text → List IpAddress
parsed parse [] = []
parsed parse (raw_ip ∷ rest) = elim (parse raw_ip) [
  | none ↦ parsed parse rest
  | some ip ↦ ip ∷ parsed parse rest
]

abbrev pub expected_ips : (Text → Option IpAddress) → ConnectionPolicy → List IpAddress
expected_ips parse (compose_service host port) = []
expected_ips parse (host_gateway host port ips) = parsed parse ips

-- The last part of `validate_ip_for_target`.
abbrev pub check_connection :
    IpAddress → List IpAddress → ConnectionPolicy → Result SsrfError (Unit {0})
check_connection ip expected (host_gateway host port ips) =
    raise_if (not (any (ip_eq ip) expected)) unexpected_gateway
check_connection ip expected (compose_service host port) =
    raise_if (not (is_local_demo_network_address ip)) not_local_demo

unfoldable pub validate_ip_for_target :
    (Text → Option IpAddress) → IpAddress → Text → AllowlistTarget → Result SsrfError (Unit {0})
validate_ip_for_target parse ip host target = do
  raise_if (not (text_eq host target.hostname)) bad_host
  raise_if (is_metadata_ip ip) metadata_address
  raise_if (is_never_allowed_internal_address ip) internal_address
  raise_if (not (is_private_target_address ip)) public_address
  check_connection ip (expected_ips parse target.connection) target.connection

-- The parts of a normalised URL that the guard reads; `path` is the part before the query.
pub record UrlParts : Type 0 where
  pub scheme : Scheme
  pub host : Text
  pub port : ℕ
  pub path : Text

abbrev pub check_path : Result PathError Bool → Result SsrfError (Unit {0})
check_path (err e) = err bad_path
check_path (ok within) = raise_if (not within) outside_path

abbrev pub parse_ip : Option IpAddress → Result SsrfError IpAddress
parse_ip none = err invalid_address
parse_ip (some ip) = ok ip

-- The loop over the resolved addresses.
unfoldable pub validate_ips :
    (Text → Option IpAddress)
    → Text
    → AllowlistTarget
    → List Text
    → Result SsrfError (List IpAddress)
unfolding validate_ip_for_target
validate_ips parse host target [] = ok []
validate_ips parse host target (raw_ip ∷ rest) = do
  ip ← parse_ip (parse raw_ip)
  validate_ip_for_target parse ip host target
  ips ← validate_ips parse host target rest
  ok (ip ∷ ips)

abbrev pub is_empty_list : List Text → Bool
is_empty_list [] = true
is_empty_list (x ∷ xs) = false

-- `resolver(connection.host, connection.port)` is given by its answer. The addresses are in the order of
-- the answer, not yet sorted as text.
unfoldable pub validate_destination :
    (Text → Option IpAddress)
    → UrlParts
    → AllowlistTarget
    → List Text
    → Result SsrfError (List IpAddress)
unfolding validate_ips
validate_destination parse url target resolved_ips = do
  raise_if (not (scheme_eq url.scheme target.scheme)) bad_scheme
  raise_if (not (text_eq url.host target.hostname)) bad_host
  raise_if (not (url.port == target.port)) bad_port
  check_path (path_is_within_scope url.path target.base_path)
  raise_if (is_empty_list resolved_ips) unresolved
  validate_ips parse url.host target resolved_ips
