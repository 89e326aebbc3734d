-- ===== src/Security/PathLaws.antt =====
-- What the path checks establish: decoding moves no segment border, and a scope holds whole
-- segments.
use web_security_audit_platf.Prelude.{
  ℕ, ◌+◌, ◌*◌, ◌≡◌, inl, inr, ◌↔◌, refl, true, false, List, [], ◌∷◌, ◌++◌, map, arith, ◌==◌, ==_iff,
  Bool-cases,
}
use web_security_audit_platf.Security.Paths.{
  Text, text_eq, starts_with, is_hex, hex_value, has_invalid_percent, is_ambiguous_pair,
  has_ambiguous_percent, unquote, push_char, split_slash,
}

pub text_eq_iff : (s t : Text) → (text_eq s t ≡ true) ↔ (s ≡ t)
text_eq_iff [] [] = ground arith
text_eq_iff [] (b ∷ t) = ground arith
text_eq_iff (a ∷ s) [] = ground arith
text_eq_iff (a ∷ s) (b ∷ t) = ground (arith, text_eq_iff s t)

pub text_eq_refl : (s : Text) → text_eq s s ≡ true
text_eq_refl s = (text_eq_iff s s).1 refl

pub starts_with_iff : (s p : Text) → starts_with s p ≡ true → (r : Text) × (s ≡ p ++ r)
starts_with_iff s [] h = (s, refl)
starts_with_iff [] (p ∷ ps) h = cc
starts_with_iff (c ∷ s) (p ∷ ps) h =
    let (r, e) = starts_with_iff s ps (ground arith) in (r, ground arith)

pub starts_with-append : (p r : Text) → starts_with (p ++ r) p ≡ true
starts_with-append [] r = refl
starts_with-append (c ∷ p) r = ground (arith, starts_with-append p r)

-- A path that cannot smuggle a separator.
abbrev pub IsPlainlyEncoded : Text → Type 0
IsPlainlyEncoded s = (has_invalid_percent s ≡ false) × (has_ambiguous_percent s ≡ false)

-- An encoded character that passes the checks is no slash.
hex_ne_slash :
    (a b : ℕ) (s : Text)
    → is_hex a ≡ true
    → is_hex b ≡ true
    → is_ambiguous_pair (a ∷ b ∷ s) ≡ false
    → ((hex_value a * 16 + hex_value b) == b'/') ≡ false
hex_ne_slash a b s ha hb h = ground arith

unquote-cons : (c : ℕ) (s : Text) → (c == b'%') ≡ false → unquote (c ∷ s) ≡ c ∷ unquote s
unfolding unquote
unquote-cons c [] h = refl
unquote-cons c (a ∷ []) h = refl
unquote-cons c (a ∷ b ∷ s) h = rw h

unquote_escape :
    (a b : ℕ) (s : Text)
    → is_hex a ≡ true
    → is_hex b ≡ true
    → unquote (b'%' ∷ a ∷ b ∷ s) ≡ (hex_value a * 16 + hex_value b) ∷ unquote s
unfolding unquote
unquote_escape a b s ha hb = rw (ha, hb)

pub split_slash-nonempty :
    (s : Text) → (segment : Text) × (rest : List Text) × (split_slash s ≡ segment ∷ rest)
unfolding split_slash
split_slash-nonempty [] = ([], [], refl)
split_slash-nonempty (c ∷ s) =
    let (segment, rest, e) = split_slash-nonempty s in
    elim (Bool-cases (c == b'/')) [
      | inl slash ↦ ([], segment ∷ rest, rw (e, slash) refl)
      | inr other ↦ (c ∷ segment, rest, rw (e, other) refl)
    ]

unquote-nil : unquote [] ≡ []
unfolding unquote
unquote-nil = refl

push_char-map :
    (c : ℕ) (segment : Text) (rest : List Text)
    → (c == b'%') ≡ false
    → push_char c (map unquote (segment ∷ rest)) ≡ map unquote (push_char c (segment ∷ rest))
push_char-map c segment rest h = elim (Bool-cases (c == b'/')) [
  | inl slash ↦ rw slash (rw unquote-nil)
  | inr other ↦ rw other (rw (unquote-cons c segment h))
]

push_char_other :
    (c : ℕ) (segment : Text) (rest : List Text)
    → (c == b'/') ≡ false
    → push_char c (segment ∷ rest) ≡ (c ∷ segment) ∷ rest
push_char_other c segment rest h = rw h

-- Hexadecimal digits and the percent sign are no slashes.
is_hex-ne-slash : (c : ℕ) → is_hex c ≡ true → (c == b'/') ≡ false
is_hex-ne-slash c h = ground arith

split_slash-cons : (c : ℕ) (s : Text) → split_slash (c ∷ s) ≡ push_char c (split_slash s)
unfolding split_slash
split_slash-cons c s = refl

-- Splitting the decoded escape, and decoding the split one.
split_slash-escape :
    (a b : ℕ) (s : Text)
    → is_hex a ≡ true
    → is_hex b ≡ true
    → is_ambiguous_pair (a ∷ b ∷ s) ≡ false
    → split_slash (unquote s) ≡ map unquote (split_slash s)
    → split_slash (unquote (b'%' ∷ a ∷ b ∷ s)) ≡ map unquote (split_slash (b'%' ∷ a ∷ b ∷ s))
split_slash-escape a b s ha hb plain ih =
    let (segment, rest, e) = split_slash-nonempty s in
    rw (unquote_escape a b s ha hb) (
      rw (split_slash-cons (hex_value a * 16 + hex_value b) (unquote s)) (
        rw (split_slash-cons b'%' (a ∷ b ∷ s)) (
          rw (split_slash-cons a (b ∷ s)) (
            rw (split_slash-cons b s) (
              rw (ih, e)
                (rw (is_hex-ne-slash b hb) (
                  rw (is_hex-ne-slash a ha) (
                    rw (unquote_escape a b segment ha hb)
                      (rw (hex_ne_slash a b s ha hb plain))))))))))

split_slash-step :
    (c : ℕ) (s : Text)
    → (c == b'%') ≡ false
    → split_slash (unquote s) ≡ map unquote (split_slash s)
    → split_slash (unquote (c ∷ s)) ≡ map unquote (split_slash (c ∷ s))
split_slash-step c s h ih =
    let (segment, rest, e) = split_slash-nonempty s in
    rw (unquote-cons c s h) (
      rw (split_slash-cons c (unquote s))
        (rw (split_slash-cons c s) (rw (ih, e) (push_char-map c segment rest h))))

-- Decoding a plainly encoded path moves no segment border: its segments are the decoded segments.
pub split_slash-unquote :
    (s : Text) → IsPlainlyEncoded s → split_slash (unquote s) ≡ map unquote (split_slash s)
split_slash-unquote [] h = unfold split_slash unquote in refl
split_slash-unquote (c ∷ []) h =
    split_slash-step c [] (unfold has_invalid_percent in ground arith)
      (unfold split_slash unquote in refl)
split_slash-unquote (c ∷ a ∷ []) h =
    split_slash-step c (a ∷ []) (unfold has_invalid_percent in ground arith) (
      split_slash-unquote (a ∷ [])
        (unfold has_invalid_percent has_ambiguous_percent in ground arith))
split_slash-unquote (c ∷ a ∷ b ∷ s) h = elim (Bool-cases (c == b'%')) [
  | inl escape ↦ rw ((==_iff c b'%').0 escape) (
      split_slash-escape a b s (unfold has_invalid_percent in ground arith)
        (unfold has_invalid_percent in ground arith) (unfold has_ambiguous_percent in ground arith)
        (split_slash-unquote s (unfold has_invalid_percent has_ambiguous_percent in ground arith)))
  | inr plain ↦ split_slash-step c (a ∷ b ∷ s) plain (
      split_slash-unquote (a ∷ b ∷ s)
        (unfold has_invalid_percent has_ambiguous_percent in ground arith))
]
