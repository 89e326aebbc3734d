-- ===== src/Relay/Examples.antt =====
-- A codec that keeps its promises, and a relay that serves a token twice.
use web_security_audit_platf.Prelude.{
  ℕ, ◌+◌, ◌-◌, ◌≡◌, ◌≢◌, refl, some, [], ◌∷◌, ◌++◌, arith, ok, err,
}
use web_security_audit_platf.Security.Paths.{Text}
use web_security_audit_platf.Findings.Utf8.{encode}
use web_security_audit_platf.Json.{item}
use web_security_audit_platf.Json.Prefixed.{write_object, prefixed}
use web_security_audit_platf.Relay.Capability.{
  payload_of, capability_of, RelayCapability, Codec, ReplayGuard, RelayRequest,
  verify_relay_capability, read_capability, consume, serve, live_entries, has_nonce, already_used,
  open_token, check_capability, split_dot, validate_relay_secret,
}
use web_security_audit_platf.Relay.Replay.{verify_relay_capability_once}
use web_security_audit_platf.Relay.RoundTrip.{created}

abbrev shift : Text → Text
shift [] = []
shift (c ∷ s) = (c + 100) ∷ shift s

abbrev unshift : Text → Text
unshift [] = []
unshift (c ∷ s) = (c - 100) ∷ unshift s

abbrev codec : Codec
codec = record {
  encode = shift;
  decode = λ s. some (unshift s);
  digest = λ key s. key;
  sha256 = λ s. s;
  json = prefixed;
}

abbrev secret : Text
secret =
    b'0' ∷ b'1' ∷ b'2' ∷ b'3' ∷ b'4' ∷ b'5' ∷ b'6' ∷ b'7' ∷ b'8' ∷ b'9' ∷ b'a' ∷ b'b' ∷ b'c' ∷ b'd'
    ∷ b'e' ∷ b'f' ∷ b'0' ∷ b'1' ∷ b'2' ∷ b'3' ∷ b'4' ∷ b'5' ∷ b'6' ∷ b'7' ∷ b'8' ∷ b'9' ∷ b'a'
    ∷ b'b' ∷ b'c' ∷ b'd' ∷ b'e' ∷ b'f' ∷ []

abbrev policy : Text
policy = b'd' ∷ b'e' ∷ b'm' ∷ b'o' ∷ []

abbrev url : Text
url = b'/' ∷ []

abbrev nonce : Text
nonce = b'x' ∷ []

abbrev capability : RelayCapability
capability = created codec policy url 20 100 nonce

abbrev token : Text
token = shift (write_object (payload_of codec policy url 20 100 nonce)) ++ b'.' ∷ shift secret

abbrev request_at : ℕ → RelayRequest
request_at t = record { token = token; policy_id = policy; raw_url = url; current = t }

abbrev empty_guard : ReplayGuard
empty_guard = record { maximum_entries = 10000; seen = [] }

relay_tests :
    ((verify_relay_capability codec secret (request_at 105) empty_guard).0 ≡ ok capability)
    × ((verify_relay_capability codec secret
          (request_at 106)
          (verify_relay_capability codec secret (request_at 105) empty_guard).1).0
        ≡ err already_used)
unfolding verify_relay_capability read_capability open_token check_capability split_dot
    validate_relay_secret encode capability_of item consume live_entries has_nonce
relay_tests = (refl, refl)

verify_relay_capability_once_example :
    (verify_relay_capability codec secret (request_at 110) (
      serve codec secret
        (request_at 107 ∷ [])
        (verify_relay_capability codec secret (request_at 105) empty_guard).1)).0
    ≢ ok capability
verify_relay_capability_once_example =
    verify_relay_capability_once codec secret (request_at 105) empty_guard capability relay_tests.0
      (request_at 107 ∷ []) (request_at 110) (omega arith, omega arith) refl capability
