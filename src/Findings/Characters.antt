-- ===== src/Findings/Characters.antt =====
-- How the bytes of one character are decoded, whole and in part.
use web_security_audit_platf.Prelude.{
  ℕ, zero, suc, ◌+◌, ◌/◌, ◌%◌, ◌≤◌, ◌<◌, ◌≡◌, refl, ap, true, none, some, List, [], ◌∷◌, ◌++◌,
  length, take, ltb, ◌==◌, if◌then◌else◌, arith, Bool-cases, inl, inr,
}
use web_security_audit_platf.Findings.Utf8.{
  is_scalar, encode_char, State, ready, need, next_state, emit, decode_from,
}

-- The bytes of a character by its width.
decode-one :
    (c : ℕ) (bytes : List ℕ)
    → c < 128
    → decode_from ready (c ∷ bytes) ≡ emit (some c) (decode_from ready bytes)
unfolding decode_from next_state
decode-one c bytes h = ground arith

two_lead :
    (c : ℕ)
    → 128 ≤ c
    → c < 2048
    → next_state ready (192 + c / 64) ≡ some (none, need 0 (c / 64) 128 191)
unfolding next_state
two_lead c h k = ground arith

last_byte :
    (c value : ℕ)
    → value ≡ c / 64
    → next_state (need 0 value 128 191) (128 + c % 64) ≡ some (some c, ready)
unfolding next_state
last_byte c value e = ground arith

middle_byte :
    (c value : ℕ)
    → value ≡ c / 4096
    → next_state (need 1 value 128 191) (128 + c / 64 % 64) ≡ some (none, need 0 (c / 64) 128 191)
unfolding next_state
middle_byte c value e = ground arith

abbrev three : ℕ → State
three c =
    need 1 (c / 4096) (if (224 + c / 4096) == 224 then 160 else 128)
      (if (224 + c / 4096) == 237 then 159 else 191)

abbrev four : ℕ → State
four c =
    need 2 (c / 262144) (if (240 + c / 262144) == 240 then 144 else 128)
      (if (240 + c / 262144) == 244 then 143 else 191)

three_lead :
    (c : ℕ) → 2048 ≤ c → c < 65536 → next_state ready (224 + c / 4096) ≡ some (none, three c)
unfolding next_state
three_lead c h k = ground arith

three_next :
    (c : ℕ)
    → 2048 ≤ c
    → c < 65536
    → is_scalar c ≡ true
    → next_state (three c) (128 + c / 64 % 64) ≡ some (none, need 0 (c / 64) 128 191)
unfolding next_state
three_next c h k s = ground arith

four_lead :
    (c : ℕ) → 65536 ≤ c → c < 1114112 → next_state ready (240 + c / 262144) ≡ some (none, four c)
unfolding next_state
four_lead c h k = ground arith

four_next :
    (c : ℕ)
    → 65536 ≤ c
    → c < 1114112
    → next_state (four c) (128 + c / 4096 % 64) ≡ some (none, need 1 (c / 4096) 128 191)
unfolding next_state
four_next c h k = ground arith

-- The bytes of a character, by their number.
pub data Width (c : ℕ) : Type 0 where
  one : c < 128 → encode_char c ≡ c ∷ [] → Width c
  two : 128 ≤ c → c < 2048 → encode_char c ≡ (192 + c / 64) ∷ (128 + c % 64) ∷ [] → Width c
  three_wide :
      2048 ≤ c
      → c < 65536
      → encode_char c ≡ (224 + c / 4096) ∷ (128 + c / 64 % 64) ∷ (128 + c % 64) ∷ []
      → Width c
  four_wide :
      65536 ≤ c
      → c < 1114112
      → encode_char c
        ≡ (240 + c / 262144) ∷ (128 + c / 4096 % 64) ∷ (128 + c / 64 % 64) ∷ (128 + c % 64) ∷ []
      → Width c

pub width : (c : ℕ) → is_scalar c ≡ true → Width c
unfolding encode_char
width c s = elim (Bool-cases (ltb c 128)) [
  | inl a ↦ one (ground arith) (rw (a, encode_char) refl)
  | inr a ↦ elim (Bool-cases (ltb c 2048)) [
    | inl b ↦ two (ground arith) (ground arith) (rw (a, b, encode_char) refl)
    | inr b ↦ elim (Bool-cases (ltb c 65536)) [
      | inl d ↦ three_wide (ground arith) (ground arith) (rw (a, b, d, encode_char) refl)
      | inr d ↦ four_wide (ground arith) (ground arith) (rw (a, b, d, encode_char) refl)
    ]
  ]
]

pub decode-encode_char :
    (c : ℕ) (bytes : List ℕ)
    → is_scalar c ≡ true
    → Width c
    → decode_from ready (encode_char c ++ bytes) ≡ emit (some c) (decode_from ready bytes)
unfolding decode_from
decode-encode_char c bytes s (one h e) = rw e (decode-one c bytes h)
decode-encode_char c bytes s (two h k e) =
    rw (e, two_lead c h k, last_byte c (c / 64) refl, decode_from) refl
decode-encode_char c bytes s (three_wide h k e) =
    rw (e, three_lead c h k, three_next c h k s, last_byte c (c / 64) refl, decode_from) refl
decode-encode_char c bytes s (four_wide h k e) =
    rw
      (
        e,
        four_lead c h k,
        four_next c h k,
        middle_byte c (c / 4096) refl,
        last_byte c (c / 64) refl,
        decode_from,
      )
      refl

-- A part of a character's bytes is not decoded.
pub decode-part :
    (c k : ℕ)
    → is_scalar c ≡ true
    → Width c
    → suc k < length (encode_char c)
    → decode_from ready (take (suc k) (encode_char c)) ≡ none
unfolding decode_from
decode-part c k s (one h e) part = absurd (omega (arith, ap (length {A = ℕ}) e))
decode-part c zero s (two h k e) part = rw (e, two_lead c h k, decode_from) refl
decode-part c (suc n) s (two h k e) part = absurd (omega (arith, ap (length {A = ℕ}) e))
decode-part c zero s (three_wide h k e) part = rw (e, three_lead c h k, decode_from) refl
decode-part c (suc zero) s (three_wide h k e) part =
    rw (e, three_lead c h k, three_next c h k s, decode_from) refl
decode-part c (suc (suc n)) s (three_wide h k e) part =
    absurd (omega (arith, ap (length {A = ℕ}) e))
decode-part c zero s (four_wide h k e) part = rw (e, four_lead c h k, decode_from) refl
decode-part c (suc zero) s (four_wide h k e) part =
    rw (e, four_lead c h k, four_next c h k, decode_from) refl
decode-part c (suc (suc zero)) s (four_wide h k e) part =
    rw (e, four_lead c h k, four_next c h k, middle_byte c (c / 4096) refl, decode_from) refl
decode-part c (suc (suc (suc n))) s (four_wide h k e) part =
    absurd (omega (arith, ap (length {A = ℕ}) e))

pub length-encode_char-le : (c : ℕ) → Width c → length (encode_char c) ≤ 4
length-encode_char-le c (one h e) = omega (arith, ap (length {A = ℕ}) e)
length-encode_char-le c (two h k e) = omega (arith, ap (length {A = ℕ}) e)
length-encode_char-le c (three_wide h k e) = omega (arith, ap (length {A = ℕ}) e)
length-encode_char-le c (four_wide h k e) = omega (arith, ap (length {A = ℕ}) e)
