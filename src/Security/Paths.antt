-- ===== src/Security/Paths.antt =====
-- `canonical_scope_path` and `path_is_within_scope` of backend/app/security/allowlist.py. A path is
-- the list of its code points. `unquote` gives bytes here: those from 128 on, which UTF-8 decodes to
-- code points that are no dot and no slash, stay as they are.
use web_security_audit_platf.Prelude.{
  ℕ, ◌+◌, ◌-◌, ◌*◌, Bool, true, false, not, ◌&&◌, ◌||◌, List, [], ◌∷◌, ◌++◌, leb, ◌==◌,
  if◌then◌else◌, Result, ok, raise_if, ◌>>=◌, ◌>>◌, any,
}

abbrev pub Text : Type 0
Text = List ℕ

pub data PathError : Type 0 where
  not_absolute ambiguous_path ambiguous_encoding dot_segments : PathError

abbrev pub text_eq : Text → Text → Bool
text_eq [] [] = true
text_eq [] (b ∷ t) = false
text_eq (a ∷ s) [] = false
text_eq (a ∷ s) (b ∷ t) = a == b && text_eq s t

abbrev pub starts_with : Text → Text → Bool
starts_with s [] = true
starts_with [] (p ∷ ps) = false
starts_with (c ∷ s) (p ∷ ps) = c == p && starts_with s ps

abbrev pub contains : ℕ → Text → Bool
contains c [] = false
contains c (x ∷ s) = x == c || contains c s

-- `"//" in path`
abbrev pub has_double_slash : Text → Bool
has_double_slash [] = false
has_double_slash (a ∷ []) = false
has_double_slash (a ∷ b ∷ s) = (a == b'/' && b == b'/') || has_double_slash (b ∷ s)

abbrev pub is_hex : ℕ → Bool
is_hex c = (leb b'0' c && leb c b'9') || (leb b'a' c && leb c b'f') || (leb b'A' c && leb c b'F')

abbrev pub hex_value : ℕ → ℕ
hex_value c = if leb c b'9' then c - b'0' else if leb c b'F' then c - 55 else c - 87

-- The two characters after a percent sign are hexadecimal digits.
abbrev pub two_hex : Text → Bool
two_hex (a ∷ b ∷ s) = is_hex a && is_hex b
two_hex _ = false

-- INVALID_PERCENT_ENCODING.search
unfoldable pub has_invalid_percent : Text → Bool
has_invalid_percent [] = false
has_invalid_percent (c ∷ s) = (c == b'%' && not (two_hex s)) || has_invalid_percent s

-- 00, 2e, 2f or 5c, in either case.
abbrev pub is_ambiguous_pair : Text → Bool
is_ambiguous_pair (a ∷ b ∷ s) =
    (a == b'0' && b == b'0')
    || (a == b'2' && (b == b'e' || b == b'E' || b == b'f' || b == b'F'))
    || (a == b'5' && (b == b'c' || b == b'C'))
is_ambiguous_pair _ = false

-- AMBIGUOUS_PERCENT_ENCODING.search
unfoldable pub has_ambiguous_percent : Text → Bool
has_ambiguous_percent [] = false
has_ambiguous_percent (c ∷ s) = (c == b'%' && is_ambiguous_pair s) || has_ambiguous_percent s

-- urllib.parse.unquote, as bytes.
unfoldable pub unquote : Text → Text
unquote [] = []
unquote (c ∷ []) = c ∷ []
unquote (c ∷ a ∷ []) = c ∷ a ∷ []
unquote (c ∷ a ∷ b ∷ s) =
    let decoded = unquote s in
    let plain = unquote (a ∷ b ∷ s) in
    if c == b'%' && (is_hex a && is_hex b)
    then (hex_value a * 16 + hex_value b) ∷ decoded
    else c ∷ plain

-- `text.split("/")`
abbrev pub push_char : ℕ → List Text → List Text
push_char c [] = (c ∷ []) ∷ []
push_char c (segment ∷ rest) = if c == b'/' then [] ∷ segment ∷ rest else (c ∷ segment) ∷ rest

unfoldable pub split_slash : Text → List Text
split_slash [] = [] ∷ []
split_slash (c ∷ s) = push_char c (split_slash s)

-- `segment in {".", ".."}`
abbrev pub is_dot_segment : Text → Bool
is_dot_segment segment = text_eq segment (b'.' ∷ []) || text_eq segment (b'.' ∷ b'.' ∷ [])

unfoldable pub canonical_scope_path : Text → Result PathError Text
canonical_scope_path path = do
  raise_if (not (starts_with path (b'/' ∷ []))) not_absolute
  raise_if (contains 92 path || contains 0 path || has_double_slash path) ambiguous_path
  raise_if (has_invalid_percent path || has_ambiguous_percent path) ambiguous_encoding
  raise_if (any is_dot_segment (split_slash (unquote path))) dot_segments
  ok path

-- `text.rstrip("/")`: a slash stays only if something stays behind it.
abbrev pub keep_char : ℕ → Text → Text
keep_char c [] = if c == b'/' then [] else c ∷ []
keep_char c (d ∷ t) = c ∷ d ∷ t

unfoldable pub rstrip_slash : Text → Text
rstrip_slash [] = []
rstrip_slash (c ∷ s) = keep_char c (rstrip_slash s)

unfoldable pub path_is_within_scope : Text → Text → Result PathError Bool
path_is_within_scope path base_path = do
  canonical_path ← canonical_scope_path path
  canonical_base ← canonical_scope_path base_path
  ok (
      if text_eq canonical_base (b'/' ∷ [])
      then true
      else text_eq (rstrip_slash canonical_path) (rstrip_slash canonical_base)
        || starts_with canonical_path (rstrip_slash canonical_base ++ b'/' ∷ []))
