-- ===== src/Pagination/Examples.antt =====
-- Three scans of a workspace among four rows, in pages of two; ids in the order of their characters.
use web_security_audit_platf.Prelude.{
  ℕ, ◌+◌, ◌-◌, ◌%◌, ◌≡◌, ◌≢◌, refl, ap, ◌∙◌, Bool, true, false, Option, none, some, List, [], ◌∷◌,
  ◌++◌, length, All, arith, ok, String, str_eq, select, Bool-cases, inl, inr, ==_iff, ◌==◌,
}
use web_security_audit_platf.Security.Paths.{Text}
use web_security_audit_platf.Http.Client.{text_ltb}
use web_security_audit_platf.Json.{item}
use web_security_audit_platf.Json.Prefixed.{prefixed, prefixed-IsJson}
use web_security_audit_platf.Pagination.{
  read_cursor, CursorCodec, IdOrder, Row, rstrip_padding, keep_unless_padding, replicate, order_by,
  list_rows, encode_cursor, page_request,
}
use web_security_audit_platf.Pagination.Order.{IsDistinct, IsOrdered}
use web_security_audit_platf.Pagination.Cursor.{IsCodec, rstrip-append, page_request-encode_cursor}
use web_security_audit_platf.Pagination.Walk.{HasId, walk, walk-listing}

text_ltb_irrefl : (a : Text) → text_ltb a a ≡ false
unfolding text_ltb
text_ltb_irrefl [] = refl
text_ltb_irrefl (x ∷ a) = ground (arith, text_ltb_irrefl a)

text_ltb_trans : (a b c : Text) → text_ltb a b ≡ true → text_ltb b c ≡ true → text_ltb a c ≡ true
unfolding text_ltb
text_ltb_trans a b [] h k = ground arith
text_ltb_trans [] b (z ∷ c) h k = refl
text_ltb_trans (x ∷ a) [] (z ∷ c) h k = ground arith
text_ltb_trans (x ∷ a) (y ∷ b) (z ∷ c) h k = ground (arith, text_ltb_trans a b c)

text_ltb_total : (a b : Text) → a ≢ b → text_ltb a b ≡ false → text_ltb b a ≡ true
unfolding text_ltb
text_ltb_total [] [] ne h = absurd (ne refl)
text_ltb_total (x ∷ a) [] ne h = refl
text_ltb_total [] (y ∷ b) ne h = ground arith
text_ltb_total (x ∷ a) (y ∷ b) ne h = elim (Bool-cases (x == y)) [
  | inl same ↦
      let heads : x ≡ y = (==_iff x y).0 same in ground (arith, text_ltb_total a b (λ e. ne (cc)))
  | inr other ↦ ground arith
]

id_order : IdOrder
id_order = record {
  lt = text_ltb;
  irrefl = text_ltb_irrefl;
  trans = text_ltb_trans;
  total = text_ltb_total;
}

-- In place of Base64: the text with a point at its end, and the padding. In place of JSON, texts with
-- their lengths; a time is its number.
abbrev body : Text → Text
body raw = raw ++ b'.' ∷ []

abbrev pads : Text → ℕ
pads raw = (4 - length (body raw) % 4) % 4

abbrev without_last : Text → Text
without_last [] = []
without_last (c ∷ []) = []
without_last (c ∷ d ∷ s) = c ∷ without_last (d ∷ s)

abbrev read_time : Text → Option (ℕ × Bool)
read_time [] = none
read_time (t ∷ s) = some (t, true)

codec : CursorCodec
codec = record {
  b64encode = λ raw. body raw ++ replicate (pads raw) b'=';
  b64decode = λ s. some (without_last (rstrip_padding s));
  json = prefixed;
  isoformat = λ t. t ∷ [];
  fromisoformat = read_time;
}

rstrip-body : (raw : Text) → rstrip_padding (body raw) ≡ body raw
unfolding rstrip_padding
rstrip-body [] = refl
rstrip-body (c ∷ []) = refl
rstrip-body (c ∷ d ∷ raw) = ap (keep_unless_padding c) (rstrip-body (d ∷ raw))

without_last-body : (raw : Text) → without_last (body raw) ≡ raw
without_last-body [] = refl
without_last-body (c ∷ []) = refl
without_last-body (c ∷ d ∷ raw) = ap (λ t. c ∷ t) (without_last-body (d ∷ raw))

codec-IsCodec : IsCodec codec
unfolding codec
codec-IsCodec = record {
  body = body;
  pads = pads;
  padded = λ raw. refl;
  unpadded = rstrip-body;
  few = λ raw. omega arith;
  aligned = λ raw. omega arith;
  decodes = λ raw. ap some (
      ap without_last (rstrip-append (body raw) (pads raw) ∙ rstrip-body raw)
      ∙ without_last-body raw);
  json = prefixed-IsJson;
  iso = λ created_at. refl;
}

abbrev scan : ℕ → ℕ → String → Row
scan created_at id workspace = record {
  created_at = created_at;
  id = id ∷ [];
  workspace_id = workspace;
}

abbrev table : List Row
table = scan 5 b'a' "w" ∷ scan 7 b'b' "w" ∷ scan 9 b'c' "other" ∷ scan 5 b'd' "w" ∷ []

abbrev in_workspace : Row → Bool
in_workspace row = str_eq row.workspace_id "w"

abbrev listed : List Row
listed = scan 7 b'b' "w" ∷ scan 5 b'd' "w" ∷ scan 5 b'a' "w" ∷ []

list_tests :
    (order_by id_order (select in_workspace table) ≡ listed)
    × (walk codec id_order in_workspace table 50 2 2 none ≡ some (ok listed))
    × (walk codec id_order in_workspace table 50 2 1 none ≡ none)
unfolding order_by text_ltb walk list_rows codec id_order encode_cursor rstrip_padding read_cursor
    page_request item
list_tests = (refl, refl, refl)

table-IsDistinct : IsDistinct table
table-IsDistinct = (
  (ground arith, (ground arith, (ground arith, tt))),
  ((ground arith, (ground arith, tt)), ((ground arith, tt), (tt, tt))),
)

ids : All (HasId codec) table
unfolding encode_cursor rstrip_padding codec
ids = (
  (ground arith, omega arith, omega arith),
  (
    (ground arith, omega arith, omega arith),
    ((ground arith, omega arith, omega arith), ((ground arith, omega arith, omega arith), tt)),
  ),
)

walk-listing_example :
    (walk codec id_order in_workspace table 50 2
        (length (order_by id_order (select in_workspace table)) + 1)
        none
      ≡ some (ok (order_by id_order (select in_workspace table))))
    × IsOrdered id_order (order_by id_order (select in_workspace table))
walk-listing_example =
    walk-listing codec codec-IsCodec id_order in_workspace table 50 2 table-IsDistinct ids
      (omega arith) (omega arith)

page_request-encode_cursor_example :
    page_request codec 50 2 (some (encode_cursor codec 5 (b'a' ∷ [])))
    ≡ ok (record { limit = 2; cursor = some (5, b'a' ∷ []) })
page_request-encode_cursor_example =
    page_request-encode_cursor codec codec-IsCodec 50 2 5 (b'a' ∷ []) (omega arith) (omega arith)
      ids.0.0 ids.0.1 ids.0.2
