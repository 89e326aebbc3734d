-- ===== src/Pagination.antt =====
-- Keyset pagination: backend/app/api/pagination.py, with the query of the listings that use it, such
-- as `list_scans` of backend/app/api/scans.py. Base64 and JSON are a record of functions, and so is
-- the order of ids, which is the database's collation.
use web_security_audit_platf.Prelude.{
  ℕ, zero, suc, ◌+◌, ◌-◌, ◌%◌, ◌≡◌, ◌≢◌, ◌≤◌, ◌<◌, String, Bool, true, false, not, ◌&&◌, ◌||◌,
  Option, none, some, List, [], ◌∷◌, ◌++◌, select, take, length, leb, ltb, ◌==◌, if◌then◌else◌,
  Result, ok, err, raise_if, ◌>>=◌, ◌>>◌,
}
use web_security_audit_platf.Security.Paths.{Text}
use web_security_audit_platf.Json.{
  JsonValue, json_text, json_number, json_other, JsonObject, item, Json, as_str,
}
pub mod Order
pub mod Cursor
pub mod Walk
mod Examples

pub record PageRequest : Type 0 where
  pub limit : ℕ
  pub cursor : Option (ℕ × Text)

pub data PageError : Type 0 where
  invalid_query invalid_cursor empty_page : PageError

-- Base64, JSON and the times of `datetime`: what `fromisoformat` reads, and whether it has a time zone.
-- There is no result where the library raises.
pub record CursorCodec : Type 0 where
  pub b64encode : Text → Text
  pub b64decode : Text → Option Text
  pub json : Json
  pub isoformat : ℕ → Text
  pub fromisoformat : Text → Option (ℕ × Bool)

abbrev pub created_at_key : Text
created_at_key = b'c' ∷ b'r' ∷ b'e' ∷ b'a' ∷ b't' ∷ b'e' ∷ b'd' ∷ b'_' ∷ b'a' ∷ b't' ∷ []

abbrev pub id_key : Text
id_key = b'i' ∷ b'd' ∷ []

abbrev pub replicate {ℓ} : {A : Type ℓ} → ℕ → A → List A
replicate zero a = []
replicate (suc n) a = a ∷ replicate n a

-- `"=" * (-len(cursor) % 4)`
abbrev pub padding : Text → Text
padding cursor = replicate ((4 - length cursor % 4) % 4) b'='

-- `.rstrip("=")`
abbrev pub keep_unless_padding : ℕ → Text → Text
keep_unless_padding c [] = if c == b'=' then [] else c ∷ []
keep_unless_padding c (d ∷ s) = c ∷ d ∷ s

unfoldable pub rstrip_padding : Text → Text
rstrip_padding [] = []
rstrip_padding (c ∷ s) = keep_unless_padding c (rstrip_padding s)

abbrev pub is_empty_text : Text → Bool
is_empty_text [] = true
is_empty_text (c ∷ s) = false

module _ (codec : CursorCodec) where
  abbrev pub decoded {ℓ} : {A : Type ℓ} → Option A → Result PageError A
  decoded none = err invalid_cursor
  decoded (some a) = ok a

  -- `datetime.fromisoformat(value)`, which refuses what is no string.
  abbrev pub time_of : JsonValue → Option (ℕ × Bool)
  time_of (json_text s) = codec.fromisoformat s
  time_of (json_number n) = none
  time_of (json_other s) = none

  -- `max_length` of the query's parameter.
  abbrev pub is_too_long : Option Text → Bool
  is_too_long none = false
  is_too_long (some cursor) = ltb 512 (length cursor)

  unfoldable pub read_cursor : Option Text → Result PageError (Option (ℕ × Text))
  unfolding item
  read_cursor none = ok none
  read_cursor (some cursor) = do
    raw ← decoded (codec.b64decode (cursor ++ padding cursor))
    value ← decoded (codec.json.loads raw)
    stamp ← decoded (item created_at_key value)
    created_at ← decoded (time_of stamp)
    id ← decoded (item id_key value)
    let item_id = as_str codec.json id
    raise_if (not created_at.1 || is_empty_text item_id || ltb 64 (length item_id)) invalid_cursor
    ok (some (created_at.0, item_id))

  -- The first number is `settings.page_max_limit`.
  unfoldable pub page_request : ℕ → ℕ → Option Text → Result PageError PageRequest
  unfolding read_cursor
  page_request max_limit limit cursor = do
    raise_if (ltb limit 1 || ltb max_limit limit || is_too_long cursor) invalid_query
    key ← read_cursor cursor
    ok (record { limit = limit; cursor = key })

  abbrev pub cursor_fields : ℕ → Text → JsonObject
  cursor_fields created_at item_id =
      (created_at_key, json_text (codec.isoformat created_at)) ∷ (id_key, json_text item_id) ∷ []

  unfoldable pub encode_cursor : ℕ → Text → Text
  unfolding rstrip_padding
  encode_cursor created_at item_id =
      rstrip_padding (codec.b64encode (codec.json.dumps (cursor_fields created_at item_id)))

-- `a < b` of two ids in the database's collation.
pub record IdOrder : Type 0 where
  pub lt : Text → Text → Bool
  pub irrefl : (a : Text) → lt a a ≡ false
  pub trans : (a b c : Text) → lt a b ≡ true → lt b c ≡ true → lt a c ≡ true
  pub total : (a b : Text) → a ≢ b → lt a b ≡ false → lt b a ≡ true

-- The rows of a listing.
pub record Row : Type 0 where
  pub created_at : ℕ
  pub id : Text
  pub workspace_id : String

module _ (order : IdOrder) where
  -- `created_at < c or (created_at == c and id < i)`
  abbrev pub is_after : ℕ × Text → Row → Bool
  is_after (created_at, item_id) row =
      ltb row.created_at created_at || ((row.created_at == created_at) && order.lt row.id item_id)

  abbrev pub key : Row → ℕ × Text
  key row = (row.created_at, row.id)

  -- `order_by(created_at.desc(), id.desc())`
  unfoldable pub insert_row : Row → List Row → List Row
  insert_row row [] = row ∷ []
  insert_row row (first ∷ rest) =
      if is_after (key row) first then row ∷ first ∷ rest else first ∷ insert_row row rest

  unfoldable pub order_by : List Row → List Row
  unfolding insert_row
  order_by [] = []
  order_by (row ∷ rest) = insert_row row (order_by rest)

  abbrev pub after_cursor : Option (ℕ × Text) → List Row → List Row
  after_cursor none rows = rows
  after_cursor (some cursor) rows = select (is_after cursor) rows

  -- The query of a listing: the rows that it selects, those after the cursor, one more than a page.
  unfoldable pub query : (Row → Bool) → PageRequest → List Row → List Row
  unfolding order_by
  query matches page table =
      take (page.limit + 1) (order_by (after_cursor page.cursor (select matches table)))

-- `visible[-1]`
unfoldable pub last_row : List Row → Result PageError Row
last_row [] = err empty_page
last_row (row ∷ []) = ok row
last_row (row ∷ next ∷ rest) = last_row (next ∷ rest)

unfoldable pub page_items : CursorCodec → List Row → ℕ → Result PageError (List Row × Option Text)
unfolding last_row encode_cursor
page_items codec items limit =
    if leb (length items) limit
    then ok (items, none)
    else (last_row (take limit items) >>= λ last.
        ok (take limit items, some (encode_cursor codec last.created_at last.id)))

-- A listing's page.
unfoldable pub list_rows :
    CursorCodec
    → IdOrder
    → (Row → Bool)
    → List Row
    → ℕ
    → ℕ
    → Option Text
    → Result PageError (List Row × Option Text)
unfolding page_request query page_items
list_rows codec order matches table max_limit limit cursor = do
  page ← page_request codec max_limit limit cursor
  page_items codec (query order matches page table) page.limit
