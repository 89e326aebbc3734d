-- ===== src/Relay/RoundTrip.antt =====
-- A created capability is accepted, and the guard's table is bounded.
use mathlib.Core.Path.{subst}
use web_security_audit_platf.Prelude.{
  ℕ, ◌+◌, ◌≤◌, ◌≡◌, refl, false, some, List, [], ◌∷◌, ◌++◌, length, length-append, arith, leb,
  Result, ok, err, Bool-cases, inl, inr,
}
use web_security_audit_platf.Security.Paths.{Text, contains}
use web_security_audit_platf.Findings.Utf8.{encode}
use web_security_audit_platf.Json.{JsonObject, IsJson}
use web_security_audit_platf.Relay.Capability.{
  CapabilityError, RelayCapability, Codec, ReplayGuard, RelayRequest, live_entries, has_nonce,
  admit, consume, get_method, read_capability, verify_relay_capability, consume_capability, serve,
}

-- What Base64 and JSON promise: decoding undoes encoding, an encoded text has no dot, and an object
-- that is written is read with the same values.
pub record IsLawful (codec : Codec) : Type 0 where
  pub decode-encode : (s : Text) → codec.decode (codec.encode s) ≡ some s
  pub no_dot : (s : Text) → contains b'.' (codec.encode s) ≡ false
  pub json : IsJson codec.json

abbrev pub created : Codec → Text → Text → ℕ → ℕ → Text → RelayCapability
created codec policy_id raw_url ttl now nonce = record {
  policy_id = policy_id;
  method = get_method;
  url_sha256 = codec.sha256 raw_url;
  issued_at = now;
  expires_at = now + ttl;
  nonce = nonce;
}

abbrev token_of : Codec → List ℕ → JsonObject → Text
token_of codec key payload =
    let encoded_payload = codec.encode (codec.json.dumps payload) in
    encoded_payload ++ b'.' ∷ codec.encode (codec.digest key encoded_payload)

-- The table never outgrows its maximum.
length-live_entries :
    (current : ℕ) (seen : List (Text × ℕ)) → length (live_entries current seen) ≤ length seen
unfolding live_entries
length-live_entries current [] = ground arith
length-live_entries current ((n, e) ∷ rest) =
    let ih = length-live_entries current rest in ground arith

admit-bound :
    (maximum : ℕ) (n : Text) (e : ℕ) (live : List (Text × ℕ))
    → length live ≤ maximum
    → length (admit maximum n e live).1 ≤ maximum
admit-bound maximum n e live h =
    let added = length-append live ((n, e) ∷ []) in
    elim (Bool-cases (has_nonce n live)) [
      | inl used ↦ rw used h
      | inr fresh ↦ elim (Bool-cases (leb maximum (length live))) [
        | inl full ↦ rw (fresh, full) h
        | inr room ↦ rw (fresh, room) (ground arith)
      ]
    ]

consume_capability-bound :
    (current : ℕ) (guard : ReplayGuard) (r : Result CapabilityError RelayCapability)
    → length guard.seen ≤ guard.maximum_entries
    → let after = (consume_capability current guard r).1 in
      (length after.seen ≤ after.maximum_entries) × (after.maximum_entries ≡ guard.maximum_entries)
unfolding consume
consume_capability-bound current guard (err e) h = (h, refl)
consume_capability-bound current guard (ok c) h =
    let shorter = length-live_entries current guard.seen in
    (
      admit-bound guard.maximum_entries c.nonce c.expires_at (live_entries current guard.seen)
          (omega arith),
      refl,
    )

-- Whatever requests the relay serves, a guard's table that is within its maximum stays within it.
pub serve-bound :
    (codec : Codec) (secret : Text) (rs : List RelayRequest) (guard : ReplayGuard)
    → length guard.seen ≤ guard.maximum_entries
    → length (serve codec secret rs guard).seen ≤ guard.maximum_entries
unfolding serve verify_relay_capability
serve-bound codec secret [] guard h = h
serve-bound codec secret (r ∷ rs) guard h =
    let (le, same) = consume_capability-bound r.current guard (read_capability codec secret r) h in
    subst (λ m. length (serve codec secret (r ∷ rs) guard).seen ≤ m) same
      (serve-bound codec secret rs _ le)
