-- ===== src/Pagination/Cursor.antt =====
-- A cursor that was encoded is read back.
use web_security_audit_platf.Prelude.{
  ℕ, zero, suc, ◌+◌, ◌-◌, ◌%◌, ◌≡◌, ◌≢◌, ◌≤◌, ◌<◌, refl, ap, ◌∙◌, true, false, some, [], ◌∷◌, ◌++◌,
  length, arith, ok, ltb,
}
use web_security_audit_platf.Security.Paths.{Text}
use web_security_audit_platf.Json.{item, has_distinct_keys, IsJson}
use web_security_audit_platf.Pagination.{
  CursorCodec, created_at_key, id_key, cursor_fields, read_cursor, page_request, encode_cursor,
  rstrip_padding, keep_unless_padding, padding, replicate,
}

-- Base64 text is a body that does not end in `=`, padded to a multiple of four characters, and is
-- decoded to what was encoded; JSON keeps its law, and a time of the database, which has a time
-- zone, is read back from its text.
pub record IsCodec (codec : CursorCodec) : Type 0 where
  pub body : Text → Text
  pub pads : Text → ℕ
  pub padded : (raw : Text) → codec.b64encode raw ≡ body raw ++ replicate (pads raw) b'='
  pub unpadded : (raw : Text) → rstrip_padding (body raw) ≡ body raw
  pub few : (raw : Text) → pads raw < 4
  pub aligned : (raw : Text) → (length (body raw) + pads raw) % 4 ≡ 0
  pub decodes : (raw : Text) → codec.b64decode (codec.b64encode raw) ≡ some raw
  pub json : IsJson codec.json
  pub iso :
      (created_at : ℕ) → codec.fromisoformat (codec.isoformat created_at) ≡ some (created_at, true)

rstrip-replicate : (k : ℕ) → rstrip_padding (replicate k b'=') ≡ []
unfolding rstrip_padding
rstrip-replicate zero = refl
rstrip-replicate (suc k) = rw (rstrip-replicate k, rstrip_padding) refl

pub rstrip-append :
    (body : Text) (k : ℕ) → rstrip_padding (body ++ replicate k b'=') ≡ rstrip_padding body
unfolding rstrip_padding
rstrip-append [] k = rstrip-replicate k
rstrip-append (c ∷ body) k = ap (keep_unless_padding c) (rstrip-append body k)

count_pads : (n k : ℕ) → k < 4 → (n + k) % 4 ≡ 0 → (4 - n % 4) % 4 ≡ k
count_pads n k h e = omega arith

module _ (codec : CursorCodec) (laws : IsCodec codec) where
  encode_cursor-body :
      (created_at : ℕ) (id : Text)
      → encode_cursor codec created_at id
        ≡ laws.body (codec.json.dumps (cursor_fields codec created_at id))
  unfolding encode_cursor
  encode_cursor-body created_at id =
      let raw = codec.json.dumps (cursor_fields codec created_at id) in
      ap rstrip_padding (laws.padded raw)
      ∙ rstrip-append (laws.body raw) (laws.pads raw)
      ∙ laws.unpadded raw

  restored :
      (created_at : ℕ) (id : Text)
      → encode_cursor codec created_at id ++ padding (encode_cursor codec created_at id)
        ≡ codec.b64encode (codec.json.dumps (cursor_fields codec created_at id))
  restored created_at id =
      let raw = codec.json.dumps (cursor_fields codec created_at id) in
      rw
        (
          encode_cursor-body created_at id,
          laws.padded raw,
          count_pads (length (laws.body raw)) (laws.pads raw) (laws.few raw) (laws.aligned raw),
        )
        refl

  fields-has_distinct_keys :
      (created_at : ℕ) (id : Text) → has_distinct_keys (cursor_fields codec created_at id) ≡ true
  unfolding has_distinct_keys
  fields-has_distinct_keys created_at id = refl

  read_cursor-encode_cursor :
      (created_at : ℕ) (c : ℕ) (id : Text)
      → length (c ∷ id) ≤ 64
      → read_cursor codec (some (encode_cursor codec created_at (c ∷ id)))
        ≡ ok (some (created_at, c ∷ id))
  unfolding read_cursor item
  read_cursor-encode_cursor created_at c id short =
      let fields = cursor_fields codec created_at (c ∷ id) in
      let raw = codec.json.dumps fields in
      let (value, loaded, same) =
        laws.json.loads-dumps fields (fields-has_distinct_keys created_at (c ∷ id)) in
      let within : ltb 64 (length (c ∷ id)) ≡ false = ground arith in
      rw
        (
          restored created_at (c ∷ id),
          laws.decodes raw,
          loaded,
          same created_at_key,
          same id_key,
          laws.iso created_at,
          within,
          read_cursor,
        )
        refl

  -- A page request within the limits, with the cursor of a row whose id has between one and 64
  -- characters, continues at that row, if the cursor is not longer than 512 characters.
  pub page_request-encode_cursor :
      (max_limit limit created_at : ℕ) (id : Text)
      → 1 ≤ limit
      → limit ≤ max_limit
      → id ≢ []
      → length id ≤ 64
      → length (encode_cursor codec created_at id) ≤ 512
      → page_request codec max_limit limit (some (encode_cursor codec created_at id))
        ≡ ok (record { limit = limit; cursor = some (created_at, id) })
  unfolding page_request
  page_request-encode_cursor max_limit limit created_at [] positive le nonempty short fits =
      absurd (nonempty refl)
  page_request-encode_cursor max_limit limit created_at (c ∷ id) positive le nonempty short fits =
      let one : ltb limit 1 ≡ false = ground arith in
      let most : ltb max_limit limit ≡ false = ground arith in
      let within : ltb 512 (length (encode_cursor codec created_at (c ∷ id))) ≡ false =
        ground arith in
      rw (one, most, within, read_cursor-encode_cursor created_at c id short, page_request) refl
