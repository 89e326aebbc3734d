-- ===== src/Relay/ProtocolExamples.antt =====
-- A codec of the size of Base64, which marks the bytes that its last group holds, and a body through it.
use web_security_audit_platf.Prelude.{
  ℕ, zero, suc, ◌+◌, ◌*◌, ◌/◌, ◌≡◌, refl, ap, Option, none, some, List, [], ◌∷◌, length, arith, ok,
  err,
}
use web_security_audit_platf.Security.Paths.{Text}
use web_security_audit_platf.Findings.Utf8.{encode_char, encode}
use web_security_audit_platf.Relay.Protocol.{
  Base64, IsBase64, source_limit, encode_relay_body, decode_relay_body,
  decode_relay_body-encode_relay_body,
}

unfoldable group : List ℕ → Text
group [] = []
group (a ∷ []) = 1 ∷ a ∷ 0 ∷ 0 ∷ []
group (a ∷ b ∷ []) = 2 ∷ a ∷ b ∷ 0 ∷ []
group (a ∷ b ∷ c ∷ rest) = 0 ∷ a ∷ b ∷ c ∷ group rest

abbrev after : ℕ → ℕ → ℕ → Option (List ℕ) → Option (List ℕ)
after a b c none = none
after a b c (some rest) = some (a ∷ b ∷ c ∷ rest)

unfoldable ungroup : Text → Option (List ℕ)
ungroup [] = some []
ungroup (zero ∷ a ∷ b ∷ c ∷ rest) = after a b c (ungroup rest)
ungroup (suc zero ∷ a ∷ b ∷ c ∷ rest) = some (a ∷ [])
ungroup (suc (suc k) ∷ a ∷ b ∷ c ∷ rest) = some (a ∷ b ∷ [])
ungroup _ = none

ungroup-group : (bytes : List ℕ) → ungroup (group bytes) ≡ some bytes
unfolding group ungroup
ungroup-group [] = refl
ungroup-group (a ∷ []) = refl
ungroup-group (a ∷ b ∷ []) = refl
ungroup-group (a ∷ b ∷ c ∷ rest) = ap (after a b c) (ungroup-group rest)

length-group : (bytes : List ℕ) → length (group bytes) ≡ 4 * ((length bytes + 2) / 3)
unfolding group
length-group [] = omega arith
length-group (a ∷ []) = omega arith
length-group (a ∷ b ∷ []) = omega arith
length-group (a ∷ b ∷ c ∷ rest) = omega (arith, length-group rest)

abbrev groups : Base64
groups = record { b64encode = group; b64decode = ungroup }

groups-IsBase64 : IsBase64 groups
groups-IsBase64 = record { decoded = ungroup-group; size = length-group }

abbrev price : Text
price = 97 ∷ 8364 ∷ []

encoded : encode_relay_body groups price 2 ≡ ok (0 ∷ 97 ∷ 226 ∷ 130 ∷ 1 ∷ 172 ∷ 0 ∷ 0 ∷ [])
unfolding encode_relay_body encode encode_char group
encoded = refl

too_long : encode_relay_body groups price 1 ≡ err source_limit
unfolding encode_relay_body
too_long = refl

decode_relay_body-encode_relay_body_example :
    decode_relay_body groups (0 ∷ 97 ∷ 226 ∷ 130 ∷ 1 ∷ 172 ∷ 0 ∷ 0 ∷ []) 2 ≡ ok price
decode_relay_body-encode_relay_body_example =
    decode_relay_body-encode_relay_body groups price (0 ∷ 97 ∷ 226 ∷ 130 ∷ 1 ∷ 172 ∷ 0 ∷ 0 ∷ []) 2
      groups-IsBase64 encoded
