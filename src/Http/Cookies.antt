-- ===== src/Http/Cookies.antt =====
-- backend/app/scanner/cookies.py: the security attributes of a `Set-Cookie` value. Names and values
-- are compared with ASCII words, for which lowering the ASCII letters is `str.lower`.
use web_security_audit_platf.Prelude.{
  ℕ, ◌+◌, Bool, true, false, not, ◌&&◌, Option, none, some, List, [], ◌∷◌, map, leb, ◌==◌, drop,
  if◌then◌else◌,
}
use web_security_audit_platf.Security.Paths.{Text, text_eq}
use web_security_audit_platf.Security.Redirects.{lstrip, rstrip}

abbrev pub lower : Text → Text
lower s = map (λ c. if leb b'A' c && leb c b'Z' then c + 32 else c) s

-- `str.strip`
abbrev pub strip : Text → Text
strip s = rstrip (lstrip s)

abbrev pub push : ℕ → List Text → List Text
push c [] = (c ∷ []) ∷ []
push c (part ∷ parts) = (c ∷ part) ∷ parts

-- `value.split(c)`
unfoldable pub split : ℕ → Text → List Text
split c [] = [] ∷ []
split c (x ∷ s) = let rest = split c s in if x == c then [] ∷ rest else push x rest

-- `value.partition(c)`, with whether the separator is there.
unfoldable pub partition : ℕ → Text → Text × Bool × Text
partition c [] = ([], false, [])
partition c (x ∷ s) =
    let (before, found, after) = partition c s in
    if x == c then ([], true, s) else (x ∷ before, found, after)

pub data SameSite : Type 0 where
  lax no_site strict : SameSite

pub record CookieSecurityAttributes : Type 0 where
  pub http_only : Bool
  pub secure : Bool
  pub same_site : Option SameSite

abbrev pub httponly_name : Text
httponly_name = b'h' ∷ b't' ∷ b't' ∷ b'p' ∷ b'o' ∷ b'n' ∷ b'l' ∷ b'y' ∷ []

abbrev pub secure_name : Text
secure_name = b's' ∷ b'e' ∷ b'c' ∷ b'u' ∷ b'r' ∷ b'e' ∷ []

abbrev pub samesite_name : Text
samesite_name = b's' ∷ b'a' ∷ b'm' ∷ b'e' ∷ b's' ∷ b'i' ∷ b't' ∷ b'e' ∷ []

-- `_SAME_SITE_VALUES.get(value)`
unfoldable pub same_site_value : Text → Option SameSite
same_site_value value =
    if text_eq value (b'l' ∷ b'a' ∷ b'x' ∷ [])
    then some lax
    else if text_eq value (b'n' ∷ b'o' ∷ b'n' ∷ b'e' ∷ [])
    then some no_site
    else if text_eq value (b's' ∷ b't' ∷ b'r' ∷ b'i' ∷ b'c' ∷ b't' ∷ [])
    then some strict
    else none

abbrev pub or_else {ℓ} : {A : Type ℓ} → Option A → Option A → Option A
or_else none other = other
or_else (some a) other = some a

-- One turn of the loop: an attribute's name, whether `=` follows it, and its value.
unfoldable pub read_attribute :
    Text → Bool → Text → CookieSecurityAttributes → CookieSecurityAttributes
unfolding same_site_value
read_attribute name separator value found =
    if text_eq name httponly_name && not separator
    then record found { http_only = true }
    else if text_eq name secure_name && not separator
    then record found { secure = true }
    else if text_eq name samesite_name && separator
    then record found {
      same_site = or_else (same_site_value (lower (strip value))) found.same_site;
    }
    else found

unfoldable pub read_raw_attribute : Text → CookieSecurityAttributes → CookieSecurityAttributes
unfolding read_attribute partition lstrip rstrip
read_raw_attribute raw_attribute found =
    let (raw_name, separator, raw_value) = partition b'=' (strip raw_attribute) in
    read_attribute (lower (strip raw_name)) separator raw_value found

unfoldable pub read_attributes : List Text → CookieSecurityAttributes → CookieSecurityAttributes
unfolding read_raw_attribute
read_attributes [] found = found
read_attributes (raw_attribute ∷ rest) found =
    read_attributes rest (read_raw_attribute raw_attribute found)

unfoldable pub parse_set_cookie_security : Text → CookieSecurityAttributes
unfolding read_attributes split
parse_set_cookie_security value =
    read_attributes (drop 1 (split b';' value))
      (record { http_only = false; secure = false; same_site = none })
