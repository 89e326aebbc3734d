-- ===== src/Findings/Longest.antt =====
-- What `truncate_utf8` returns, said of prefixes.
use web_security_audit_platf.Prelude.{
  ℕ, ◌-◌, ◌≤◌, ◌≡◌, refl, ap, true, some, [], ◌∷◌, ◌++◌, length, leb, leb→le, arith, Bool-cases,
  inl, inr, length-append,
}
use mathlib.Core.Path.{subst}
use web_security_audit_platf.Security.Paths.{Text}
use web_security_audit_platf.Findings.Utf8.{encode_char, encode, truncate_utf8}
use web_security_audit_platf.Findings.Truncation.{AreScalars, fitting, truncate_utf8-fitting}

pub record IsLongestPrefix (max_bytes : ℕ) (value t : Text) : Type 0 where
  pub prefix : (rest : Text) × (t ++ rest ≡ value)
  pub fits : length (encode t) ≤ max_bytes
  pub longest :
      (p q : Text) → p ++ q ≡ value → length (encode p) ≤ max_bytes → (r : Text) × (p ++ r ≡ t)

fitting-prefix : (n : ℕ) (s : Text) → (rest : Text) × (fitting n s ++ rest ≡ s)
unfolding fitting
fitting-prefix n [] = ([], refl)
fitting-prefix n (c ∷ s) = elim (Bool-cases (leb (length (encode_char c)) n)) [
  | inl fits ↦
      let (rest, whole) = fitting-prefix (n - length (encode_char c)) s in
      (rest, rw (fits, fitting) (ap (λ t. c ∷ t) whole))
  | inr cut ↦ (c ∷ s, rw (cut, fitting) refl)
]

fitting-le : (n : ℕ) (s : Text) → length (encode (fitting n s)) ≤ n
unfolding fitting encode
fitting-le n [] = omega arith
fitting-le n (c ∷ s) = elim (Bool-cases (leb (length (encode_char c)) n)) [
  | inl fits ↦
      let rest = fitting (n - length (encode_char c)) s in
      rw (fits, fitting)
        (omega (
          arith,
          length-append (encode_char c) (encode rest),
          leb→le _ _ fits,
          fitting-le (n - length (encode_char c)) s,
        ))
  | inr cut ↦ rw (cut, fitting) (omega arith)
]

fitting-longest :
    (n : ℕ) (p q : Text) → length (encode p) ≤ n → (r : Text) × (p ++ r ≡ fitting n (p ++ q))
unfolding fitting encode
fitting-longest n [] q h = (fitting n q, refl)
fitting-longest n (c ∷ p) q h =
    let whole = length-append (encode_char c) (encode p) in
    let fits : leb (length (encode_char c)) n ≡ true = ground arith in
    let (r, e) = fitting-longest (n - length (encode_char c)) p q (omega (arith, whole)) in
    (r, rw (fits, fitting) (ap (λ t. c ∷ t) e))

-- For a text without surrogates `truncate_utf8` ends, with four turns of its loop at most, and
-- returns the longest prefix of the text whose bytes are at most the limit: a prefix that fits, and that
-- starts with each prefix that fits.
pub truncate_utf8-IsLongestPrefix :
    (value : Text) (max_bytes : ℕ)
    → AreScalars value
    → (t : Text) × ((truncate_utf8 value max_bytes ≡ some t) × IsLongestPrefix max_bytes value t)
truncate_utf8-IsLongestPrefix value max_bytes h = (
  fitting max_bytes value,
  (
    truncate_utf8-fitting value max_bytes h,
    record {
      prefix = fitting-prefix max_bytes value;
      fits = fitting-le max_bytes value;
      longest = λ p q e small.
          subst (λ s. (r : Text) × (p ++ r ≡ fitting max_bytes s)) e
            (fitting-longest max_bytes p q small);
    },
  ),
)
