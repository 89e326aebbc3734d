-- ===== src/Json.antt =====
-- The JSON objects that backend/app/api/pagination.py and backend/app/scanner/relay_capability.py write
-- and read, as lists of keys with values. The text of an object is the `json` module's.
use web_security_audit_platf.Prelude.{
  ℕ, ◌≡◌, Bool, true, false, not, ◌&&◌, Option, none, some, List, [], ◌∷◌, any, if◌then◌else◌,
}
use web_security_audit_platf.Security.Paths.{Text, text_eq}
pub mod Prefixed

-- A string, a natural number, or any other value, by its text.
pub data JsonValue : Type 0 where
  json_text : Text → JsonValue
  json_number : ℕ → JsonValue
  json_other : Text → JsonValue

abbrev pub JsonObject : Type 0
JsonObject = List (Text × JsonValue)

-- `value[key]`, without a result where the source raises a `KeyError`.
unfoldable pub item : Text → JsonObject → Option JsonValue
item key [] = none
item key ((k, v) ∷ rest) = let later = item key rest in if text_eq k key then some v else later

-- `loads` has no result where the text is no JSON or no object. `str_of` and `int_of` are what `str`
-- and `int` make of the other values.
pub record Json : Type 0 where
  pub dumps : JsonObject → Text
  pub loads : Text → Option JsonObject
  pub str_of : JsonValue → Text
  pub int_of : JsonValue → Option ℕ

-- `str(value)`
abbrev pub as_str : Json → JsonValue → Text
as_str json (json_text s) = s
as_str json (json_number n) = json.str_of (json_number n)
as_str json (json_other s) = json.str_of (json_other s)

-- `int(value)`
abbrev pub as_int : Json → JsonValue → Option ℕ
as_int json (json_number n) = some n
as_int json (json_text s) = json.int_of (json_text s)
as_int json (json_other s) = json.int_of (json_other s)

unfoldable pub has_distinct_keys : JsonObject → Bool
has_distinct_keys [] = true
has_distinct_keys ((k, v) ∷ rest) =
    not (any (λ field. text_eq field.0 k) rest) && has_distinct_keys rest

-- What `json` promises of an object with distinct keys, whatever their order: the text that is written
-- is read as an object with the same value under each key.
pub record IsJson (json : Json) : Type 0 where
  pub loads-dumps :
      (fields : JsonObject)
      → has_distinct_keys fields ≡ true
      → (object : JsonObject) × (json.loads (json.dumps fields) ≡ some object)
        × ((key : Text) → item key object ≡ item key fields)
