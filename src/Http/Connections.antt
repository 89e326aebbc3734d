-- ===== src/Http/Connections.antt =====
-- The connections that the guarded client opens, and the hops that it follows.
use mathlib.Core.Path.{subst}
use web_security_audit_platf.Prelude.{
  ok_injective, Result-cases, inl, inr, if◌then◌else◌, ℕ, ◌+◌, ◌≤◌, ◌≡◌, ◌≢◌, Bool, true, false,
  List, [], ◌∷◌, length, All, arith, ok, err,
}
use web_security_audit_platf.Security.Paths.{Text}
use web_security_audit_platf.Security.Policy.{AllowlistTarget}
use web_security_audit_platf.Security.Ssrf.{IpAddress, UrlParts, validate_destination}
use web_security_audit_platf.Security.SsrfLaws.{IsPermitted, validate_destination_sound}
use web_security_audit_platf.Security.Redirects.{
  IsAllowedBy, destination-IsAllowedBy, location-destination, validate_redirect_location,
}
use web_security_audit_platf.Http.Client.{
  Request, Answer, Network, not_completed, least, connection_ip, connect_tcp, open_connection,
  next_hop, location_text, text_ltb,
}

module _ (net : Network) (target : AllowlistTarget) (body_bytes_limit : ℕ) where
  -- The URL is of the policy's origin and scope, and the address is one that the policy permits.
  pub record IsGuarded (r : Request) : Type 0 where
    pub url : IsAllowedBy net.urljoin net.normalize net.parse net.resolve target r.url
    pub address : IsPermitted net.parse target r.connection_ip

  abbrev pub IsValidated : UrlParts → List IpAddress → Type 0
  IsValidated url ips =
      validate_destination net.parse url target (net.resolve target.connection) ≡ ok ips

  either-IsPermitted :
      (first : Bool) (a b : IpAddress)
      → IsPermitted net.parse target a
      → IsPermitted net.parse target b
      → IsPermitted net.parse target (if first then a else b)
  either-IsPermitted true a b ha hb = ha
  either-IsPermitted false a b ha hb = hb

  least-IsPermitted :
      (ip : IpAddress) (ips : List IpAddress)
      → IsPermitted net.parse target ip
      → All (IsPermitted net.parse target) ips
      → IsPermitted net.parse target (least net target body_bytes_limit ip ips)
  unfolding least
  least-IsPermitted ip [] h hs = h
  least-IsPermitted ip (other ∷ rest) h hs =
      least-IsPermitted (if text_ltb (net.compressed other) (net.compressed ip) then other else ip)
        rest
        (either-IsPermitted (text_ltb (net.compressed other) (net.compressed ip)) other ip hs.0 h)
        hs.1

  connection_ip-IsPermitted :
      (ips : List IpAddress) (ip : IpAddress)
      → All (IsPermitted net.parse target) ips
      → connection_ip net target body_bytes_limit ips ≡ ok ip
      → IsPermitted net.parse target ip
  unfolding connection_ip
  connection_ip-IsPermitted [] ip hs e = cc
  connection_ip-IsPermitted (first ∷ rest) ip hs e =
      subst (IsPermitted net.parse target) (ok_injective e) (least-IsPermitted first rest hs.0 hs.1)

  pub opened-IsGuarded :
      (call : ℕ) (url : UrlParts) (ips : List IpAddress) (ip : IpAddress)
      → IsValidated url ips
      → open_connection net target body_bytes_limit call url ips ≡ ok ip
      → IsGuarded (record { url = url; connection_ip = ip })
  unfolding open_connection connect_tcp
  opened-IsGuarded call url ips ip valid h =
      let (scheme, host, port, path, permits) =
        validate_destination_sound net.parse url target (net.resolve target.connection) ips valid in
      let connected : connection_ip net target body_bytes_limit ips ≡ ok ip = ground arith in
      record {
        url =
            destination-IsAllowedBy net.urljoin net.normalize net.parse net.resolve target url ips
              valid;
        address = connection_ip-IsPermitted ips ip permits.0 connected;
      }

  pub opened-ne-not_completed :
      (call : ℕ) (url : UrlParts) (ips : List IpAddress)
      → open_connection net target body_bytes_limit call url ips ≢ err not_completed
  unfolding open_connection connect_tcp connection_ip
  opened-ne-not_completed call url [] = ground arith
  opened-ne-not_completed call url (ip ∷ ips) = ground arith

  pub next_hop-ne-not_completed :
      (url : UrlParts) (chain : List Text) (a : Answer)
      → next_hop net target body_bytes_limit url chain a ≢ err not_completed
  unfolding next_hop
  next_hop-ne-not_completed url chain a = ground arith

  pub next_hop_lem :
      (url : UrlParts) (chain : List Text) (a : Answer) (next : Text × UrlParts × List IpAddress)
      → next_hop net target body_bytes_limit url chain a ≡ ok next
      → (length chain + 1 ≤ target.max_redirects) × IsValidated next.1 next.2
  unfolding next_hop
  next_hop_lem url chain a next h =
      elim (Result-cases (
        validate_redirect_location net.urljoin net.normalize net.parse net.resolve url
          (location_text a.location) target)) [
            | inl (n, valid) ↦ ground (
              arith,
              location-destination net.urljoin net.normalize net.parse net.resolve url
                  (location_text a.location) target n valid,
            )
            | inr (e, failed) ↦ ground arith
          ]
