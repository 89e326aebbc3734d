-- ===== src/Findings/Utf8.antt =====
-- `str.encode` and `bytes.decode` for UTF-8, strict, on lists of code points and of bytes, and
-- `truncate_utf8` of backend/app/findings/redaction.py.
use web_security_audit_platf.Prelude.{
  ℕ, zero, suc, ◌+◌, ◌-◌, ◌*◌, ◌/◌, ◌%◌, Bool, not, ◌&&◌, Option, none, some, List, [], ◌∷◌, ◌++◌,
  all, length, take, leb, ltb, ◌==◌, if◌then◌else◌,
}
use web_security_audit_platf.Security.Paths.{Text}

-- A code point that is no surrogate.
abbrev pub is_scalar : ℕ → Bool
is_scalar c = ltb c 1114112 && not (leb 55296 c && leb c 57343)

unfoldable pub encode_char : ℕ → List ℕ
encode_char c =
    if ltb c 128
    then c ∷ []
    else if ltb c 2048
    then (192 + c / 64) ∷ (128 + c % 64) ∷ []
    else if ltb c 65536
    then (224 + c / 4096) ∷ (128 + c / 64 % 64) ∷ (128 + c % 64) ∷ []
    else (240 + c / 262144) ∷ (128 + c / 4096 % 64) ∷ (128 + c / 64 % 64) ∷ (128 + c % 64) ∷ []

unfoldable pub encode : Text → List ℕ
unfolding encode_char
encode [] = []
encode (c ∷ s) = encode_char c ++ encode s

-- Between characters, or with that many bytes still to come after the next one, which lies
-- between two bounds.
pub data State : Type 0 where
  ready : State
  need : ℕ → ℕ → ℕ → ℕ → State

-- The bounds exclude overlong forms, surrogates and values past the last code point.
abbrev pub lead : ℕ → Option (Option ℕ × State)
lead b =
    if ltb b 128
    then some (some b, ready)
    else if ltb b 194
    then none
    else if ltb b 224
    then some (none, need 0 (b - 192) 128 191)
    else if ltb b 240
    then some
        (none, need 1 (b - 224) (if b == 224 then 160 else 128) (if b == 237 then 159 else 191))
    else if ltb b 245
    then some
        (none, need 2 (b - 240) (if b == 240 then 144 else 128) (if b == 244 then 143 else 191))
    else none

abbrev pub follow : ℕ → ℕ → Option (Option ℕ × State)
follow zero value = some (some value, ready)
follow (suc k) value = some (none, need k value 128 191)

unfoldable pub next_state : State → ℕ → Option (Option ℕ × State)
next_state ready b = lead b
next_state (need k value low high) b =
    if leb low b && leb b high then follow k (value * 64 + (b - 128)) else none

abbrev pub emit : Option ℕ → Option Text → Option Text
emit none rest = rest
emit (some c) none = none
emit (some c) (some s) = some (c ∷ s)

-- `none` where `decode` raises.
unfoldable pub decode_from : State → List ℕ → Option Text
decode_from ready [] = some []
decode_from (need k value low high) [] = none
decode_from state (b ∷ bytes) = elim (next_state state b) [
  | none ↦ none
  | some (c, after) ↦ emit c (decode_from after bytes)
]

unfoldable pub decode : List ℕ → Option Text
decode bytes = decode_from ready bytes

-- `clipped[:-1]`
unfoldable pub drop_last_byte : List ℕ → List ℕ
drop_last_byte [] = []
drop_last_byte (b ∷ []) = []
drop_last_byte (b ∷ c ∷ rest) = b ∷ drop_last_byte (c ∷ rest)

-- The loop, on fuel; `none` means that the fuel ran out.
unfoldable pub clip : ℕ → List ℕ → Option Text
clip zero clipped = none
clip (suc fuel) clipped = elim (decode clipped) [
  | some text ↦ some text
  | none ↦ clip fuel (drop_last_byte clipped)
]

-- Four turns are enough: a character has four bytes at most. `none` where `encode` raises, on a
-- surrogate.
unfoldable pub truncate_utf8 : Text → ℕ → Option Text
truncate_utf8 value max_bytes =
    let encoded = encode value in
    if not (all is_scalar value)
    then none
    else if leb (length encoded) max_bytes
    then some value
    else clip 4 (take max_bytes encoded)
