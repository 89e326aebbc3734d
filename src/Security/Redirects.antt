-- ===== src/Security/Redirects.antt =====
-- backend/app/security/redirects.py. `urljoin` and `normalize_target_url` have no result where they
-- raise `ValueError` and `TargetUrlError`; the resolver answers for the policy's connection.
use mathlib.Core.Path.{subst}
use web_security_audit_platf.Prelude.{
  ℕ, suc, ◌≡◌, ◌≤◌, refl, Bool, true, ◌||◌, ◌&&◌, Option, none, some, List, [], ◌∷◌, length, arith,
  all, leb, ltb, ◌==◌, if◌then◌else◌, Result, ok, err, raise_if, ◌>>=◌, ◌>>◌, >>=-returned,
  >>-returned,
}
use web_security_audit_platf.Security.Paths.{Text, path_is_within_scope}
use web_security_audit_platf.Security.Policy.{AllowlistTarget, ConnectionPolicy}
use web_security_audit_platf.Security.Ssrf.{IpAddress, SsrfError, UrlParts, validate_destination}
use web_security_audit_platf.Security.SsrfLaws.{Permits, validate_destination_sound}

pub data RedirectError : Type 0 where
  empty_location invalid_url not_allowed limit_exceeded : RedirectError

-- `str.isspace`, of one character, and `str.strip`.
abbrev pub is_space : ℕ → Bool
is_space c =
    c == 32
    || (leb 9 c && leb c 13)
    || (leb 28 c && leb c 31)
    || c == 133
    || c == 160
    || c == 5760
    || (leb 8192 c && leb c 8202)
    || c == 8232
    || c == 8233
    || c == 8239
    || c == 8287
    || c == 12288

unfoldable pub lstrip : Text → Text
lstrip [] = []
lstrip (c ∷ s) = let rest = lstrip s in if is_space c then rest else c ∷ s

abbrev pub keep_unless_last : ℕ → Text → Text
keep_unless_last c [] = if is_space c then [] else c ∷ []
keep_unless_last c (d ∷ s) = c ∷ d ∷ s

unfoldable pub rstrip : Text → Text
rstrip [] = []
rstrip (c ∷ s) = keep_unless_last c (rstrip s)

module _ (urljoin : UrlParts → Text → Option Text) (normalize : Text → Option UrlParts)
    (parse : Text → Option IpAddress) (resolve : ConnectionPolicy → List Text) where
  abbrev pub or_raise {ℓ} : {A : Type ℓ} → RedirectError → Option A → Result RedirectError A
  or_raise e none = err e
  or_raise e (some a) = ok a

  -- `except (TargetUrlError, ValueError)`
  abbrev pub allowed_only :
      Result SsrfError (List IpAddress) → Result RedirectError (List IpAddress)
  allowed_only (ok ips) = ok ips
  allowed_only (err e) = err not_allowed

  unfoldable pub validate_redirect_location :
      UrlParts → Text → AllowlistTarget → Result RedirectError (UrlParts × List IpAddress)
  unfolding lstrip rstrip
  validate_redirect_location current_url location target = do
    raise_if (all is_space location) empty_location
    absolute_url ← or_raise invalid_url (urljoin current_url (rstrip (lstrip location)))
    next_url ← or_raise not_allowed (normalize absolute_url)
    destination ←
        allowed_only (validate_destination parse next_url target (resolve target.connection))
    ok (next_url, destination)

  -- The URL is of the policy's origin and in its scope, and so is every address it resolves to.
  pub record IsAllowedBy (target : AllowlistTarget) (url : UrlParts) : Type 0 where
    pub scheme : url.scheme ≡ target.scheme
    pub host : url.host ≡ target.hostname
    pub port : url.port ≡ target.port
    pub path : path_is_within_scope url.path target.base_path ≡ ok true
    pub addresses : (ips : List IpAddress) × Permits parse target (resolve target.connection) ips

  allowed_only-ok :
      (r : Result SsrfError (List IpAddress)) (ips : List IpAddress)
      → allowed_only r ≡ ok ips
      → r ≡ ok ips
  allowed_only-ok (ok xs) ips h = ground arith
  allowed_only-ok (err e) ips h = cc

  abbrev validated : AllowlistTarget → UrlParts → Result RedirectError (UrlParts × List IpAddress)
  validated target url =
      allowed_only (validate_destination parse url target (resolve target.connection)) >>= λ ips.
      ok (url, ips)

  abbrev normalized : AllowlistTarget → Text → Result RedirectError (UrlParts × List IpAddress)
  normalized target absolute_url =
      or_raise not_allowed (normalize absolute_url) >>= validated target

  pub destination-IsAllowedBy :
      (target : AllowlistTarget) (url : UrlParts) (ips : List IpAddress)
      → validate_destination parse url target (resolve target.connection) ≡ ok ips
      → IsAllowedBy target url
  destination-IsAllowedBy target url ips valid =
      let (scheme, host, port, path, permits) =
        validate_destination_sound parse url target (resolve target.connection) ips valid in
      record { scheme = scheme; host = host; port = port; path = path; addresses = (ips, permits) }

  validated-destination :
      (target : AllowlistTarget) (url : UrlParts) (next : UrlParts × List IpAddress)
      → validated target url ≡ ok next
      → validate_destination parse next.0 target (resolve target.connection) ≡ ok next.1
  validated-destination target url next h =
      let (ips, last, valid) =
        >>=-returned (λ ips. ok (url, ips))
          (allowed_only (validate_destination parse url target (resolve target.connection))) h in
      subst (λ n. validate_destination parse n.0 target (resolve target.connection) ≡ ok n.1)
        (pair_eq url ips next last)
        (allowed_only-ok (validate_destination parse url target (resolve target.connection)) ips
          valid)
    where
      pair_eq :
          (url : UrlParts) (ips : List IpAddress) (next : UrlParts × List IpAddress)
          → ◌≡◌ {A = Result RedirectError (UrlParts × List IpAddress)} (ok (url, ips)) (ok next)
          → (url, ips) ≡ next
      pair_eq url ips next e = cc

  -- A location that is followed leads to a URL whose destination is validated.
  pub location-destination :
      (current_url : UrlParts) (location : Text) (target : AllowlistTarget)
      (next : UrlParts × List IpAddress)
      → validate_redirect_location current_url location target ≡ ok next
      → validate_destination parse next.0 target (resolve target.connection) ≡ ok next.1
  unfolding validate_redirect_location
  location-destination current_url location target next h =
      let joined = or_raise invalid_url (urljoin current_url (rstrip (lstrip location))) in
      let (present, h1) =
        >>-returned (raise_if (all is_space location) empty_location) (joined >>= normalized target)
          h in
      let (absolute_url, h2, _) = >>=-returned (normalized target) joined h1 in
      let (url, h3, _) =
        >>=-returned (validated target) (or_raise not_allowed (normalize absolute_url)) h2 in
      validated-destination target url next h3

ok_injective :
    (us urls : List UrlParts)
    → ◌≡◌ {A = Result RedirectError (List UrlParts)} (ok us) (ok urls)
    → us ≡ urls
ok_injective us urls e = cc

within_limit :
    (limit count n : ℕ) → raise_if (ltb limit count) limit_exceeded ≡ ok tt → n ≡ count → n ≤ limit
within_limit limit count n h same = ground arith

-- The resolver may answer otherwise at each hop.
module _ (urljoin : UrlParts → Text → Option Text) (normalize : Text → Option UrlParts)
    (parse : Text → Option IpAddress) (resolve_at : ℕ → ConnectionPolicy → List Text) where
  unfoldable pub follow_redirects :
      ℕ → UrlParts → List Text → AllowlistTarget → Result RedirectError (List UrlParts)
  unfolding validate_redirect_location
  follow_redirects hop current_url [] target = ok []
  follow_redirects hop current_url (location ∷ rest) target = do
    next ←
        validate_redirect_location urljoin normalize parse (resolve_at hop) current_url location
          target
    urls ← follow_redirects (suc hop) next.0 rest target
    ok (next.0 ∷ urls)

  unfoldable pub validate_redirect_chain :
      UrlParts → List Text → AllowlistTarget → Result RedirectError (List UrlParts)
  unfolding follow_redirects
  validate_redirect_chain start_url locations target = do
    raise_if (ltb target.max_redirects (length locations)) limit_exceeded
    follow_redirects 0 start_url locations target

  -- Each URL is allowed by what the resolver answers at its hop.
  abbrev pub AreAllowedFrom : ℕ → AllowlistTarget → List UrlParts → Type 0
  AreAllowedFrom hop target [] = Unit {0}
  AreAllowedFrom hop target (url ∷ urls) =
      IsAllowedBy urljoin normalize parse (resolve_at hop) target url
      × AreAllowedFrom (suc hop) target urls

  follow_redirects-AreAllowed :
      (hop : ℕ) (current_url : UrlParts) (locations : List Text) (target : AllowlistTarget)
      (urls : List UrlParts)
      → follow_redirects hop current_url locations target ≡ ok urls
      → (length urls ≡ length locations) × AreAllowedFrom hop target urls
  unfolding follow_redirects
  follow_redirects-AreAllowed hop current_url [] target urls h =
      subst (λ us. (length us ≡ 0) × AreAllowedFrom hop target us) (ok_injective [] urls h)
        (refl, tt)
  follow_redirects-AreAllowed hop current_url (location ∷ rest) target urls h =
      let (next, h1, first) =
        >>=-returned
          (λ next. follow_redirects (suc hop) next.0 rest target >>= λ us. ok (next.0 ∷ us))
          (validate_redirect_location urljoin normalize parse (resolve_at hop) current_url location
            target)
          h in
      let (us, last, others) =
        >>=-returned (λ us. ok (next.0 ∷ us)) (follow_redirects (suc hop) next.0 rest target) h1 in
      let (same, allowed) = follow_redirects-AreAllowed (suc hop) next.0 rest target us others in
      subst (λ us. (length us ≡ length (location ∷ rest)) × AreAllowedFrom hop target us)
        (ok_injective (next.0 ∷ us) urls last)
        (
          cc,
          (
            destination-IsAllowedBy urljoin normalize parse (resolve_at hop) target next.0 next.1 (
                location-destination urljoin normalize parse (resolve_at hop) current_url location
                  target next first),
            allowed,
          ),
        )

  -- A chain that is accepted is no longer than the policy's redirect limit, has one URL for each
  -- location, and every URL of it is of the policy's origin, in its scope, and resolves, when it is
  -- validated, to addresses that the policy permits.
  pub validate_redirect_chain-IsAllowedBy :
      (start_url : UrlParts) (locations : List Text) (target : AllowlistTarget)
      (urls : List UrlParts)
      → validate_redirect_chain start_url locations target ≡ ok urls
      → (length urls ≤ target.max_redirects)
        × (length urls ≡ length locations)
        × AreAllowedFrom 0 target urls
  unfolding validate_redirect_chain
  validate_redirect_chain-IsAllowedBy start_url locations target urls h =
      let (within, h1) =
        >>-returned (raise_if (ltb target.max_redirects (length locations)) limit_exceeded)
          (follow_redirects 0 start_url locations target) h in
      let (same, allowed) = follow_redirects-AreAllowed 0 start_url locations target urls h1 in
      (
        within_limit target.max_redirects (length locations) (length urls) within same,
        same,
        allowed,
      )
