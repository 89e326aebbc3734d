-- ===== src/Relay/Capability.antt =====
-- `ReplayGuard`, `create_relay_capability` and `verify_relay_capability` of
-- backend/app/scanner/relay_capability.py. Texts are lists of code points, times are seconds.
use web_security_audit_platf.Prelude.{
  ℕ, ◌+◌, Bool, true, false, not, ◌||◌, Option, none, some, List, [], ◌∷◌, ◌++◌, length, ltb, leb,
  ◌==◌, if◌then◌else◌, Result, ok, err, raise_if, ◌>>=◌, ◌>>◌,
}
use web_security_audit_platf.Security.Paths.{Text, text_eq}
use web_security_audit_platf.Findings.Utf8.{encode}
use web_security_audit_platf.Json.{
  JsonValue, json_text, json_number, JsonObject, item, Json, as_str, as_int,
}

pub data CapabilityError : Type 0 where
  short_secret bad_ttl malformed bad_signature bad_method bad_policy bad_nonce : CapabilityError
  not_yet_valid expired bad_lifetime bad_url already_used at_capacity : CapabilityError

pub record RelayCapability : Type 0 where
  pub policy_id : Text
  pub method : Text
  pub url_sha256 : Text
  pub issued_at : ℕ
  pub expires_at : ℕ
  pub nonce : Text

-- Base64, HMAC, SHA-256 and JSON: `decode` has no result where the code raises.
pub record Codec : Type 0 where
  pub encode : Text → Text
  pub decode : Text → Option Text
  pub digest : List ℕ → Text → Text
  pub sha256 : Text → Text
  pub json : Json

pub record ReplayGuard : Type 0 where
  pub maximum_entries : ℕ
  pub seen : List (Text × ℕ)

-- The entries that have not expired.
unfoldable pub live_entries : ℕ → List (Text × ℕ) → List (Text × ℕ)
live_entries current [] = []
live_entries current ((nonce, expiry) ∷ rest) =
    let later = live_entries current rest in
    if leb current expiry then (nonce, expiry) ∷ later else later

unfoldable pub has_nonce : Text → List (Text × ℕ) → Bool
has_nonce nonce [] = false
has_nonce nonce ((seen_nonce, expiry) ∷ rest) = text_eq seen_nonce nonce || has_nonce nonce rest

abbrev pub admit :
    ℕ → Text → ℕ → List (Text × ℕ) → Result CapabilityError (Unit {0}) × List (Text × ℕ)
admit maximum nonce expires_at live =
    if has_nonce nonce live
    then (err already_used, live)
    else if leb maximum (length live)
    then (err at_capacity, live)
    else (ok tt, live ++ (nonce, expires_at) ∷ [])

unfoldable pub consume :
    Text → ℕ → ℕ → ReplayGuard → Result CapabilityError (Unit {0}) × ReplayGuard
consume nonce expires_at current guard =
    let (result, seen) =
      admit guard.maximum_entries nonce expires_at (live_entries current guard.seen) in
    (result, record guard { seen = seen })

-- The texts of the source that the checks and the payload use.
abbrev pub get_method : Text
get_method = b'G' ∷ b'E' ∷ b'T' ∷ []

abbrev pub exp_key : Text
exp_key = b'e' ∷ b'x' ∷ b'p' ∷ []

abbrev pub iat_key : Text
iat_key = b'i' ∷ b'a' ∷ b't' ∷ []

abbrev pub jti_key : Text
jti_key = b'j' ∷ b't' ∷ b'i' ∷ []

abbrev pub method_key : Text
method_key = b'm' ∷ b'e' ∷ b't' ∷ b'h' ∷ b'o' ∷ b'd' ∷ []

abbrev pub policy_id_key : Text
policy_id_key = b'p' ∷ b'o' ∷ b'l' ∷ b'i' ∷ b'c' ∷ b'y' ∷ b'_' ∷ b'i' ∷ b'd' ∷ []

abbrev pub url_sha256_key : Text
url_sha256_key = b'u' ∷ b'r' ∷ b'l' ∷ b'_' ∷ b's' ∷ b'h' ∷ b'a' ∷ b'2' ∷ b'5' ∷ b'6' ∷ []

unfoldable pub validate_relay_secret : Text → Result CapabilityError (List ℕ)
validate_relay_secret secret =
    let encoded = encode secret in if ltb (length encoded) 32 then err short_secret else ok encoded

-- The payload, with the nonce that `token_urlsafe` drew.
abbrev pub payload_of : Codec → Text → Text → ℕ → ℕ → Text → JsonObject
payload_of codec policy_id raw_url ttl_seconds issued_at nonce =
    (exp_key, json_number (issued_at + ttl_seconds))
    ∷ (iat_key, json_number issued_at)
    ∷ (jti_key, json_text nonce)
    ∷ (method_key, json_text get_method)
    ∷ (policy_id_key, json_text policy_id)
    ∷ (url_sha256_key, json_text (codec.sha256 raw_url))
    ∷ []

unfoldable pub create_relay_capability :
    Codec → Text → Text → Text → ℕ → ℕ → Text → Result CapabilityError Text
unfolding validate_relay_secret
create_relay_capability codec secret policy_id raw_url ttl_seconds now nonce = do
  key ← validate_relay_secret secret
  raise_if (ltb ttl_seconds 1 || ltb 30 ttl_seconds) bad_ttl
  let encoded_payload =
      codec.encode (codec.json.dumps (payload_of codec policy_id raw_url ttl_seconds now nonce))
  ok (encoded_payload ++ b'.' ∷ codec.encode (codec.digest key encoded_payload))

-- `token.split(".", 1)`
abbrev pub before : ℕ → Option (Text × Text) → Option (Text × Text)
before c none = none
before c (some (head, tail)) = some (c ∷ head, tail)

unfoldable pub split_dot : Text → Option (Text × Text)
split_dot [] = none
split_dot (c ∷ s) = let rest = split_dot s in if c == b'.' then some ([], s) else before c rest

abbrev pub or_malformed {ℓ} : {A : Type ℓ} → Option A → Result CapabilityError A
or_malformed none = err malformed
or_malformed (some a) = ok a

-- `str(payload[key])` and `int(payload[key])`
abbrev pub str_item : Json → Option JsonValue → Result CapabilityError Text
str_item json none = err malformed
str_item json (some value) = ok (as_str json value)

abbrev pub int_item : Json → Option JsonValue → Result CapabilityError ℕ
int_item json none = err malformed
int_item json (some value) = or_malformed (as_int json value)

-- The capability of a payload.
unfoldable pub capability_of : Json → JsonObject → Result CapabilityError RelayCapability
unfolding item
capability_of json payload = do
  policy_id ← str_item json (item policy_id_key payload)
  method ← str_item json (item method_key payload)
  url_sha256 ← str_item json (item url_sha256_key payload)
  issued_at ← int_item json (item iat_key payload)
  expires_at ← int_item json (item exp_key payload)
  nonce ← str_item json (item jti_key payload)
  ok (record {
    policy_id = policy_id;
    method = method;
    url_sha256 = url_sha256;
    issued_at = issued_at;
    expires_at = expires_at;
    nonce = nonce;
  })

-- The first part of `verify_relay_capability`: the payload of a token that the secret signed.
unfoldable pub open_token : Codec → List ℕ → Text → Result CapabilityError RelayCapability
unfolding split_dot capability_of
open_token codec key token = do
  parts ← or_malformed (split_dot token)
  supplied ← or_malformed (codec.decode parts.1)
  raise_if (not (text_eq supplied (codec.digest key parts.0))) bad_signature
  raw ← or_malformed (codec.decode parts.0)
  payload ← or_malformed (codec.json.loads raw)
  capability_of codec.json payload

abbrev pub is_empty : Text → Bool
is_empty [] = true
is_empty (c ∷ s) = false

unfoldable pub check_capability :
    Codec → Text → Text → ℕ → RelayCapability → Result CapabilityError (Unit {0})
check_capability codec policy_id raw_url current capability = do
  raise_if (not (text_eq capability.method get_method)) bad_method
  raise_if (not (text_eq capability.policy_id policy_id)) bad_policy
  raise_if (is_empty capability.nonce || ltb 100 (length capability.nonce)) bad_nonce
  raise_if (ltb (current + 2) capability.issued_at) not_yet_valid
  raise_if (ltb capability.expires_at current) expired
  raise_if (ltb (capability.issued_at + 30) capability.expires_at) bad_lifetime
  raise_if (not (text_eq capability.url_sha256 (codec.sha256 raw_url))) bad_url

-- A call of the relay.
pub record RelayRequest : Type 0 where
  pub token : Text
  pub policy_id : Text
  pub raw_url : Text
  pub current : ℕ

-- All that is checked before the guard is asked.
unfoldable pub read_capability :
    Codec → Text → RelayRequest → Result CapabilityError RelayCapability
unfolding open_token check_capability validate_relay_secret
read_capability codec secret request = do
  key ← validate_relay_secret secret
  capability ← open_token codec key request.token
  check_capability codec request.policy_id request.raw_url request.current capability
  ok capability

abbrev pub return_capability :
    RelayCapability → Result CapabilityError (Unit {0}) → Result CapabilityError RelayCapability
return_capability capability consumed = consumed >> ok capability

abbrev pub consume_capability :
    ℕ
    → ReplayGuard
    → Result CapabilityError RelayCapability
    → Result CapabilityError RelayCapability × ReplayGuard
consume_capability current guard (err e) = (err e, guard)
consume_capability current guard (ok capability) =
    let (consumed, guard') = consume capability.nonce capability.expires_at current guard in
    (return_capability capability consumed, guard')

unfoldable pub verify_relay_capability :
    Codec → Text → RelayRequest → ReplayGuard → Result CapabilityError RelayCapability × ReplayGuard
unfolding consume read_capability
verify_relay_capability codec secret request guard =
    consume_capability request.current guard (read_capability codec secret request)

-- The relay serves one request after the other; the guard is all that it keeps.
unfoldable pub serve : Codec → Text → List RelayRequest → ReplayGuard → ReplayGuard
unfolding verify_relay_capability
serve codec secret [] guard = guard
serve codec secret (r ∷ rs) guard =
    serve codec secret rs (verify_relay_capability codec secret r guard).1
