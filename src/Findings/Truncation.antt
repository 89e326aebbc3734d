-- ===== src/Findings/Truncation.antt =====
-- `truncate_utf8` keeps the longest prefix that fits.
use mathlib.Core.List.{append_assoc, append-nil}
use web_security_audit_platf.Prelude.{
  ℕ, zero, suc, ◌-◌, ◌≤◌, ◌<◌, ◌≡◌, refl, sym, ap, ◌∙◌, true, Option, none, some, List, [], ◌∷◌,
  ◌++◌, all, All, length, take, take_all, take-append, leb, leb→le, if◌then◌else◌, arith,
  Bool-cases, inl, inr, length-append,
}
use web_security_audit_platf.Security.Paths.{Text}
use web_security_audit_platf.Findings.Utf8.{
  is_scalar, encode_char, encode, ready, emit, decode_from, decode, drop_last_byte, clip,
  truncate_utf8,
}
use web_security_audit_platf.Findings.Characters.{
  width, decode-encode_char, decode-part, length-encode_char-le,
}

abbrev pub AreScalars : Text → Type 0
AreScalars s = All (λ c. is_scalar c ≡ true) s

-- The longest prefix whose bytes are at most `n`.
unfoldable pub fitting : ℕ → Text → Text
fitting n [] = []
fitting n (c ∷ s) =
    let rest = fitting (n - length (encode_char c)) s in
    if leb (length (encode_char c)) n then c ∷ rest else []

abbrev prepend : Text → Option Text → Option Text
prepend u none = none
prepend u (some v) = some (u ++ v)

emit-prepend :
    (c : ℕ) (u : Text) (o : Option Text) → emit (some c) (prepend u o) ≡ prepend (c ∷ u) o
emit-prepend c u none = refl
emit-prepend c u (some v) = refl

prepend-nil : (o : Option Text) → prepend [] o ≡ o
prepend-nil none = refl
prepend-nil (some v) = refl

decode-append :
    (u : Text) (bytes : List ℕ)
    → AreScalars u
    → decode_from ready (encode u ++ bytes) ≡ prepend u (decode_from ready bytes)
unfolding encode
decode-append [] bytes h = sym (prepend-nil (decode_from ready bytes))
decode-append (c ∷ u) bytes h = rw (append_assoc (encode_char c) (encode u) bytes) (
    decode-encode_char c (encode u ++ bytes) h.0 (width c h.0)
    ∙ ap (emit (some c)) (decode-append u bytes h.1)
    ∙ emit-prepend c u (decode_from ready bytes))

-- A text is read back from its bytes.
pub decode-encode : (s : Text) → AreScalars s → decode (encode s) ≡ some s
unfolding decode decode_from
decode-encode s h =
    ap decode (sym (append-nil (encode s))) ∙ decode-append s [] h ∙ ap some (append-nil s)

drop_last_byte-take :
    (k : ℕ) (bytes : List ℕ) → k < length bytes → drop_last_byte (take (suc k) bytes) ≡ take k bytes
unfolding drop_last_byte
drop_last_byte-take k [] h = absurd (omega arith)
drop_last_byte-take zero (b ∷ bytes) h = refl
drop_last_byte-take (suc k) (b ∷ []) h = absurd (omega arith)
drop_last_byte-take (suc k) (b ∷ c ∷ bytes) h =
    ap (λ t. b ∷ t) (drop_last_byte-take k (c ∷ bytes) (omega arith))

drop_last_byte-append :
    (xs : List ℕ) (b : ℕ) (bytes : List ℕ)
    → drop_last_byte (xs ++ b ∷ bytes) ≡ xs ++ drop_last_byte (b ∷ bytes)
unfolding drop_last_byte
drop_last_byte-append [] b bytes = refl
drop_last_byte-append (x ∷ []) b bytes = refl
drop_last_byte-append (x ∷ y ∷ xs) b bytes =
    ap (λ t. x ∷ t) (drop_last_byte-append (y ∷ xs) b bytes)

drop_last_byte-part :
    (xs : List ℕ) (k : ℕ) (bytes : List ℕ)
    → k < length bytes
    → drop_last_byte (xs ++ take (suc k) bytes) ≡ xs ++ take k bytes
drop_last_byte-part xs k [] h = absurd (omega arith)
drop_last_byte-part xs k (b ∷ bytes) h =
    drop_last_byte-append xs b (take k bytes)
    ∙ ap (λ t. xs ++ t) (drop_last_byte-take k (b ∷ bytes) h)

clip-part :
    (k fuel : ℕ) (u : Text) (c : ℕ)
    → AreScalars u
    → is_scalar c ≡ true
    → k < fuel
    → k < length (encode_char c)
    → clip fuel (encode u ++ take k (encode_char c)) ≡ some u
unfolding clip decode decode_from
clip-part k zero u c h s enough part = absurd (omega arith)
clip-part zero (suc fuel) u c h s enough part =
    let whole : decode_from ready (encode u ++ []) ≡ some u =
      decode-append u [] h ∙ ap some (append-nil u) in
    rw (whole, clip) refl
clip-part (suc k) (suc fuel) u c h s enough part =
    let failed : decode_from ready (encode u ++ take (suc k) (encode_char c)) ≡ none =
      decode-append u (take (suc k) (encode_char c)) h
      ∙ ap (prepend u) (decode-part c k s (width c s) part) in
    rw (failed, drop_last_byte-part (encode u) k (encode_char c) (omega arith), clip)
      (clip-part k fuel u c h s (omega arith) (omega arith))

-- A text that does not fit is the prefix that does, and a character of which only a part does.
record Splits (n : ℕ) (s : Text) : Type 0 where
  char : ℕ
  part : ℕ
  scalar : is_scalar char ≡ true
  scalars : AreScalars (fitting n s)
  short : part < length (encode_char char)
  bytes : take n (encode s) ≡ encode (fitting n s) ++ take part (encode_char char)

cut_part : (n : ℕ) (s : Text) → AreScalars s → n < length (encode s) → Splits n s
unfolding encode fitting
cut_part n [] h more = absurd (omega arith)
cut_part n (c ∷ s) h more = elim (Bool-cases (leb (length (encode_char c)) n)) [
  | inr cut ↦
      let none_left : n - length (encode_char c) ≡ 0 = ground arith in
      record {
        char = c;
        part = n;
        scalar = h.0;
        scalars = rw (cut, fitting) tt;
        short = ground arith;
        bytes =
            rw (cut, fitting, take-append n (encode_char c) (encode s), none_left, take)
              (append-nil (take n (encode_char c)));
      }
  | inl fits ↦
      let inner =
        cut_part (n - length (encode_char c)) s h.1
          (omega (arith, length-append (encode_char c) (encode s), leb→le _ _ fits)) in
      record {
        char = inner.char;
        part = inner.part;
        scalar = inner.scalar;
        scalars = rw (fits, fitting) (h.0, inner.scalars);
        short = inner.short;
        bytes =
            rw
              (
                fits,
                fitting,
                take-append n (encode_char c) (encode s),
                take_all n (encode_char c) (leb→le _ _ fits),
              )
              (ap (λ t. encode_char c ++ t) inner.bytes
                ∙ sym (
                    append_assoc (encode_char c) (encode (fitting (n - length (encode_char c)) s))
                      (take inner.part (encode_char inner.char))));
      }
]

-- A text that fits is its own longest prefix that does.
fitting_all : (n : ℕ) (s : Text) → length (encode s) ≤ n → fitting n s ≡ s
unfolding encode fitting
fitting_all n [] h = refl
fitting_all n (c ∷ s) h =
    let whole = length-append (encode_char c) (encode s) in
    let fits : leb (length (encode_char c)) n ≡ true = ground arith in
    rw (fits, fitting)
      (ap (λ t. c ∷ t) (fitting_all (n - length (encode_char c)) s (omega (arith, whole))))

all_scalar : (s : Text) → AreScalars s → all is_scalar s ≡ true
all_scalar [] h = refl
all_scalar (c ∷ s) h = rw (h.0, all_scalar s h.1) refl

-- The text is cut after the last character that fits.
pub truncate_utf8-fitting :
    (value : Text) (max_bytes : ℕ)
    → AreScalars value
    → truncate_utf8 value max_bytes ≡ some (fitting max_bytes value)
unfolding truncate_utf8
truncate_utf8-fitting value n h = elim (Bool-cases (leb (length (encode value)) n)) [
  | inl fits ↦
      rw (all_scalar value h, fits, truncate_utf8, fitting_all n value (leb→le _ _ fits)) refl
  | inr more ↦
      let parts = cut_part n value h (ground arith) in
      let at_most = length-encode_char-le parts.char (width parts.char parts.scalar) in
      rw (all_scalar value h, more, truncate_utf8, parts.bytes)
        (clip-part parts.part 4 (fitting n value) parts.char parts.scalars parts.scalar
          (omega (arith, at_most, parts.short)) parts.short)
]
