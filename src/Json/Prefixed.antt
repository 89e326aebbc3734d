-- ===== src/Json/Prefixed.antt =====
-- A writer and a reader of objects that keep the law of `json`: each text follows its length, each
-- value its kind, and the fields their number.
use web_security_audit_platf.Prelude.{
  ℕ, zero, suc, ◌≡◌, refl, ap, Option, none, some, [], ◌∷◌, ◌++◌, length,
}
use web_security_audit_platf.Security.Paths.{Text}
use web_security_audit_platf.Json.{
  JsonValue, json_text, json_number, json_other, JsonObject, Json, IsJson,
}

abbrev put_text : Text → Text → Text
put_text s rest = length s ∷ (s ++ rest)

abbrev put_value : JsonValue → Text → Text
put_value (json_text s) rest = 0 ∷ put_text s rest
put_value (json_number n) rest = 1 ∷ n ∷ rest
put_value (json_other s) rest = 2 ∷ put_text s rest

abbrev put_fields : JsonObject → Text
put_fields [] = []
put_fields ((k, v) ∷ fields) = put_text k (put_value v (put_fields fields))

abbrev pub write_object : JsonObject → Text
write_object fields = length fields ∷ put_fields fields

abbrev split_at : ℕ → Text → Text × Text
split_at zero s = ([], s)
split_at (suc n) [] = ([], [])
split_at (suc n) (c ∷ s) = let (head, tail) = split_at n s in (c ∷ head, tail)

abbrev get_text : Text → Text × Text
get_text [] = ([], [])
get_text (n ∷ s) = split_at n s

abbrev get_value : Text → Option (JsonValue × Text)
get_value (zero ∷ s) = let (t, rest) = get_text s in some (json_text t, rest)
get_value (suc zero ∷ n ∷ rest) = some (json_number n, rest)
get_value (suc (suc zero) ∷ s) = let (t, rest) = get_text s in some (json_other t, rest)
get_value _ = none

abbrev add_field : Text → JsonValue → Option JsonObject → Option JsonObject
add_field k v none = none
add_field k v (some fields) = some ((k, v) ∷ fields)

abbrev get_fields : ℕ → Text → Option JsonObject
get_fields zero s = some []
get_fields (suc n) s =
    let (k, rest) = get_text s in
    elim (get_value rest) [ none ↦ none | some (v, later) ↦ add_field k v (get_fields n later) ]

abbrev pub read_object : Text → Option JsonObject
read_object [] = none
read_object (n ∷ s) = get_fields n s

abbrev pub prefixed : Json
prefixed = record {
  dumps = write_object;
  loads = read_object;
  str_of = λ value. [];
  int_of = λ value. none;
}

split_at-append : (s rest : Text) → split_at (length s) (s ++ rest) ≡ (s, rest)
split_at-append [] rest = refl
split_at-append (c ∷ s) rest = rw (split_at-append s rest) refl

get_value-put_value : (v : JsonValue) (rest : Text) → get_value (put_value v rest) ≡ some (v, rest)
get_value-put_value (json_text s) rest = rw (split_at-append s rest) refl
get_value-put_value (json_number n) rest = refl
get_value-put_value (json_other s) rest = rw (split_at-append s rest) refl

get_fields-put_fields :
    (fields : JsonObject) → get_fields (length fields) (put_fields fields) ≡ some fields
get_fields-put_fields [] = refl
get_fields-put_fields ((k, v) ∷ fields) =
    rw
      (
        split_at-append k (put_value v (put_fields fields)),
        get_value-put_value v (put_fields fields),
        get_fields-put_fields fields,
        get_fields,
      )
      (ap (λ t. add_field t.0 v (some fields))
        (split_at-append k (put_value v (put_fields fields))))

pub prefixed-IsJson : IsJson prefixed
prefixed-IsJson = record {
  loads-dumps = λ fields distinct. (fields, get_fields-put_fields fields, λ key. refl);
}
