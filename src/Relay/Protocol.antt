-- ===== src/Relay/Protocol.antt =====
-- The bodies that pass through the relay: backend/app/scanner/relay_protocol.py.
use web_security_audit_platf.Prelude.{
  ℕ, ◌+◌, ◌*◌, ◌/◌, ◌≡◌, refl, true, false, not, ◌||◌, Option, none, some, List, [], ◌∷◌, all,
  length, ltb, min, arith, Result, ok, err, if◌then◌else◌,
}
use web_security_audit_platf.Security.Paths.{Text}
use web_security_audit_platf.Findings.Utf8.{is_scalar, encode, decode}
use web_security_audit_platf.Findings.Truncation.{AreScalars, decode-encode}

-- `b64encode`, and `b64decode` with `validate=True`, where `none` is `binascii.Error`.
pub record Base64 : Type 0 where
  pub b64encode : List ℕ → Text
  pub b64decode : Text → Option (List ℕ)

-- Each three bytes, the last ones padded, become four characters, which are read back.
pub record IsBase64 (codec : Base64) : Type 0 where
  pub decoded : (bytes : List ℕ) → codec.b64decode (codec.b64encode bytes) ≡ some bytes
  pub size : (bytes : List ℕ) → length (codec.b64encode bytes) ≡ 4 * ((length bytes + 2) / 3)

-- The messages of `ValueError`, and the one that a surrogate raises.
pub data BodyError : Type 0 where
  not_encoded source_limit projection_limit projection_invalid : BodyError

module _ (codec : Base64) where
  unfoldable pub encode_relay_body : Text → ℕ → Result BodyError Text
  encode_relay_body body source_bytes_limit =
      let encoded = encode body in
      if not (all is_scalar body)
      then err not_encoded
      else if ltb source_bytes_limit (length body) || ltb (source_bytes_limit * 3) (length encoded)
      then err source_limit
      else ok (codec.b64encode encoded)

  abbrev pub within_limits : ℕ → List ℕ → Text → Result BodyError Text
  within_limits source_bytes_limit decoded body =
      if ltb (source_bytes_limit * 3) (length decoded) || ltb source_bytes_limit (length body)
      then err projection_limit
      else ok body

  abbrev pub read_body : ℕ → List ℕ → Result BodyError Text
  read_body source_bytes_limit decoded = elim (decode decoded) [
    | none ↦ err projection_invalid
    | some body ↦ within_limits source_bytes_limit decoded body
  ]

  unfoldable pub decode_relay_body : Text → ℕ → Result BodyError Text
  unfolding decode
  decode_relay_body value source_bytes_limit =
      if ltb (source_bytes_limit * 4) (length value)
      then err projection_limit
      else elim (codec.b64decode value) [
        | none ↦ err projection_invalid
        | some decoded ↦ read_body source_bytes_limit decoded
      ]

-- `MAX_RELAY_REDIRECTS`, and the sizes of the parts of an envelope.
unfoldable pub relay_response_envelope_bytes_limit : ℕ → ℕ → ℕ
relay_response_envelope_bytes_limit body_bytes_limit max_redirects =
    let bounded_redirects = min max_redirects 10 in
    let body_projection = body_bytes_limit * 4 in
    let header_projection = 16 * 1024 * 6 in
    let url_projection = 4096 * (bounded_redirects + 1) * 6 in
    let cookie_projection = 4 * 256 in
    body_projection + header_projection + url_projection + cookie_projection + 8192

all-AreScalars : (s : Text) → all is_scalar s ≡ true → AreScalars s
all-AreScalars [] h = tt
all-AreScalars (c ∷ s) h = (ground arith, all-AreScalars s (ground arith))

-- A body that the relay encodes under a limit is the one that the scanner decodes under the same
-- limit, which refuses none of them.
pub decode_relay_body-encode_relay_body :
    (codec : Base64) (body value : Text) (limit : ℕ)
    → IsBase64 codec
    → encode_relay_body codec body limit ≡ ok value
    → decode_relay_body codec value limit ≡ ok body
unfolding encode_relay_body decode_relay_body
decode_relay_body-encode_relay_body codec body value limit lawful h =
    let scalars : all is_scalar body ≡ true = ground arith in
    let short : ltb limit (length body) ≡ false = ground arith in
    let fits : ltb (limit * 3) (length (encode body)) ≡ false = ground arith in
    let same : codec.b64encode (encode body) ≡ value = ground arith in
    let size = lawful.size (encode body) in
    let small : ltb (limit * 4) (length (codec.b64encode (encode body))) ≡ false =
      ground (arith, size) in
    rw
      (
        ← same,
        small,
        decode_relay_body,
        lawful.decoded (encode body),
        read_body,
        decode-encode body (all-AreScalars body scalars),
        fits,
        short,
      )
      refl
