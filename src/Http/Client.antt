-- ===== src/Http/Client.antt =====
-- `GuardedHttpClient.get` of backend/app/scanner/http_client.py, without a relay, with the pinned
-- network backend below it. The web answers each request from all the requests so far; URL
-- joining and normalisation, the reading of an address and its text, and the resolver's answer
-- are parameters, as for the redirects.
use web_security_audit_platf.Prelude.{
  ℕ, zero, suc, ◌+◌, Bool, true, false, not, ◌&&◌, ◌||◌, Option, none, some, List, [], ◌∷◌, ◌++◌,
  map, length, take, leb, ltb, ◌==◌, if◌then◌else◌, Result, ok, err, raise_if, ◌>>=◌, ◌>>◌,
}
use web_security_audit_platf.Security.Paths.{Text, text_eq}
use web_security_audit_platf.Security.Policy.{
  AllowlistTarget, ConnectionPolicy, TlsTrust, system, custom_ca,
}
use web_security_audit_platf.Security.Ssrf.{IpAddress, SsrfError, UrlParts, validate_destination}
use web_security_audit_platf.Security.Redirects.{RedirectError, validate_redirect_location}
use web_security_audit_platf.Http.Body.{Bytes, read_limited_body}
use web_security_audit_platf.Http.Cookies.{
  CookieSecurityAttributes, parse_set_cookie_security, lower,
}

-- The errors of `get`. `interrupted` is what the execution checkpoint raises, `not_normalized` and
-- `not_validated` are the errors of `_validate_url`, and `no_address` is the IndexError of `resolved_ips[0]`.
pub data HttpError : Type 0 where
  interrupted not_normalized ca_unavailable no_address wrong_origin transport_error : HttpError
  redirect_limit not_completed invalid_join : HttpError
  not_validated : SsrfError → HttpError
  bad_redirect : RedirectError → HttpError

-- A request that is sent: the URL, and the address that the connection is pinned to.
pub record Request : Type 0 where
  pub url : UrlParts
  pub connection_ip : IpAddress

pub record Answer : Type 0 where
  pub status_code : ℕ
  pub headers : List (Text × Text)
  pub location : Option Text
  pub set_cookies : List Text
  pub chunks : List Bytes

-- The body is bytes, not yet decoded.
pub record ScannerHttpResponse : Type 0 where
  pub url : UrlParts
  pub status_code : ℕ
  pub headers : List (Text × Text)
  pub body : Bytes
  pub redirect_chain : List Text
  pub cookie_security : List CookieSecurityAttributes
  pub connection_ip : IpAddress

unfoldable pub is_redirect : ℕ → Bool
is_redirect code = code == 301 || code == 302 || code == 303 || code == 307 || code == 308

-- `location or ""`
abbrev pub location_text : Option Text → Text
location_text none = []
location_text (some location) = location

-- `a < b` of two strings
unfoldable pub text_ltb : Text → Text → Bool
text_ltb s [] = false
text_ltb [] (b ∷ t) = true
text_ltb (a ∷ s) (b ∷ t) = ltb a b || (a == b && text_ltb s t)

pub record Network : Type 0 where
  -- from the requests so far, the last one first
  pub answer : List Request → Option Answer
  -- whether the checkpoint raises at its call of that number
  pub interrupts : ℕ → Bool
  pub ca_bundle_available : Bool
  pub urljoin : UrlParts → Text → Option Text
  pub normalize : Text → Option UrlParts
  pub parse : Text → Option IpAddress
  pub compressed : IpAddress → Text
  pub resolve : ConnectionPolicy → List Text

module _ (net : Network) (target : AllowlistTarget) (body_bytes_limit : ℕ) where
  -- The first of the sorted addresses.
  unfoldable pub least : IpAddress → List IpAddress → IpAddress
  unfolding text_ltb
  least ip [] = ip
  least ip (other ∷ rest) =
      least (if text_ltb (net.compressed other) (net.compressed ip) then other else ip) rest

  -- `resolved_ips[0]`
  unfoldable pub connection_ip : List IpAddress → Result HttpError IpAddress
  unfolding least
  connection_ip [] = err no_address
  connection_ip (ip ∷ rest) = ok (least ip rest)

  -- `PinnedNetworkBackend.connect_tcp`: the address it connects to for that host and port.
  unfoldable pub connect_tcp : Text → ℕ → UrlParts → List IpAddress → Result HttpError IpAddress
  connect_tcp host port normalized_url destination = do
    raise_if (not (text_eq (lower host) normalized_url.host) || not (port == normalized_url.port))
        wrong_origin
    connection_ip destination

  -- `build_ssl_context`
  abbrev pub build_ssl_context : TlsTrust → Result HttpError (Unit {0})
  build_ssl_context system = ok tt
  build_ssl_context custom_ca = raise_if (not net.ca_bundle_available) ca_unavailable

  abbrev pub answered : Option Answer → Result HttpError Answer
  answered none = err transport_error
  answered (some a) = ok a

  abbrev pub running : ℕ → Result HttpError (Unit {0})
  running call = raise_if (net.interrupts call) interrupted

  abbrev pub respond : UrlParts → IpAddress → List Text → Answer → ScannerHttpResponse
  respond url ip redirect_chain a = record {
    url = url;
    status_code = a.status_code;
    headers = map (λ h. (lower h.0, h.1)) a.headers;
    body = read_limited_body a.chunks body_bytes_limit;
    redirect_chain = redirect_chain;
    cookie_security = map parse_set_cookie_security (take 4 a.set_cookies);
    connection_ip = ip;
  }

  abbrev pub redirected :
      Result RedirectError (UrlParts × List IpAddress)
      → Result HttpError (UrlParts × List IpAddress)
  redirected (ok next) = ok next
  redirected (err e) = err (bad_redirect e)

  abbrev pub joined : Option Text → Result HttpError Text
  joined none = err invalid_join
  joined (some url) = ok url

  -- What a call gives, with the requests that it sent, the last one first.
  abbrev pub Outcome : Type 0
  Outcome = List Request × Result HttpError ScannerHttpResponse

  -- The tests before a redirect is followed.
  unfoldable pub next_hop :
      UrlParts → List Text → Answer → Result HttpError (Text × UrlParts × List IpAddress)
  next_hop url redirect_chain a = do
    raise_if (leb target.max_redirects (length redirect_chain)) redirect_limit
    next ← redirected (
        validate_redirect_location net.urljoin net.normalize net.parse net.resolve url
          (location_text a.location) target)
    hop ← joined (net.urljoin url (location_text a.location))
    ok (hop, next.0, next.1)

  -- What happens before a request is sent: the checkpoint, the TLS context, the connection.
  unfoldable pub open_connection : ℕ → UrlParts → List IpAddress → Result HttpError IpAddress
  open_connection call url destination = do
    running call
    build_ssl_context target.trust
    connect_tcp url.host url.port url destination

  -- The loop over the attempts that are left; `call` counts the checkpoints.
  unfoldable pub attempt : ℕ → ℕ → UrlParts → List IpAddress → List Text → List Request → Outcome
  attempt zero call url destination redirect_chain sent = (sent, err not_completed)
  attempt (suc attempts) call url destination redirect_chain sent =
      elim (open_connection call url destination) [
        | err e ↦ (sent, err e)
        | ok ip ↦
            let requests = record { url = url; connection_ip = ip } ∷ sent in
            elim (answered (net.answer requests)) [
              | err e ↦ (requests, err e)
              | ok a ↦ elim (is_redirect a.status_code) [
                | false ↦ (requests, ok (respond url ip redirect_chain a))
                | true ↦ elim (next_hop url redirect_chain a) [
                  | err e ↦ (requests, err e)
                  | ok (hop, next_url, next_destination) ↦
                      attempt attempts (call + 1) next_url next_destination
                        (redirect_chain ++ hop ∷ []) requests
                ]
              ]
            ]
      ]

  abbrev pub normalized : Option UrlParts → Result HttpError UrlParts
  normalized none = err not_normalized
  normalized (some url) = ok url

  abbrev pub validated : Result SsrfError (List IpAddress) → Result HttpError (List IpAddress)
  validated (ok ips) = ok ips
  validated (err e) = err (not_validated e)

  -- `_validate_url`, after the first checkpoint.
  unfoldable pub validate_url : Text → Result HttpError (UrlParts × List IpAddress)
  validate_url raw_url = do
    running 0
    url ← normalized (net.normalize raw_url)
    destination ←
        validated (validate_destination net.parse url target (net.resolve target.connection))
    ok (url, destination)

  unfoldable pub get : Text → Outcome
  get raw_url = elim (validate_url raw_url) [
    | err e ↦ ([], err e)
    | ok (url, destination) ↦ attempt (target.max_redirects + 1) 1 url destination [] []
  ]
