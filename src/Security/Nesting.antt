-- ===== src/Security/Nesting.antt =====
-- Two scopes that hold the same path are nested.
use mathlib.Core.List.{append_assoc, append-nil}
use mathlib.Core.Path.{subst}
use web_security_audit_platf.Prelude.{
  ℕ, ◌≡◌, ◌⊎◌, inl, inr, refl, sym, ◌∙◌, ap, Bool, true, ◌||◌, [], ◌∷◌, ◌++◌, ok, arith,
  if◌then◌else◌,
}
use web_security_audit_platf.Security.Paths.{
  Text, text_eq, starts_with, canonical_scope_path, rstrip_slash, path_is_within_scope,
}
use web_security_audit_platf.Security.PathLaws.{text_eq_iff, starts_with_iff, starts_with-append}
use web_security_audit_platf.Security.Scope.{IsBorder, rstrip_slash-append, within_scope-cases}

abbrev pub IsAcceptedPath : Text → Type 0
IsAcceptedPath path = canonical_scope_path path ≡ ok path

-- The test, once both paths are accepted.
within-test :
    (path base : Text)
    → IsAcceptedPath path
    → IsAcceptedPath base
    → path_is_within_scope path base
      ≡ ok (
          if text_eq base (b'/' ∷ [])
          then true
          else text_eq (rstrip_slash path) (rstrip_slash base)
            || starts_with path (rstrip_slash base ++ b'/' ∷ []))
unfolding path_is_within_scope
within-test path base hp hb = rw (hp, hb) refl

-- `path` is the stripped `root` and a border.
abbrev Below : Text → Text → Type 0
Below path root = (r : Text) × (path ≡ root ++ r) × IsBorder r

within-Below :
    (path base : Text)
    → path_is_within_scope path base ≡ ok true
    → (base ≡ b'/' ∷ []) ⊎ Below path (rstrip_slash base)
within-Below path base h = elim ((within_scope-cases path base h).1) [
  | inl root ↦ inl root
  | inr (inl same) ↦
      let (r, e, border) = rstrip_slash-append path in inr (r, e ∙ ap (λ t. t ++ r) same, border)
  | inr (inr below) ↦
      let (r, e) = starts_with_iff path (rstrip_slash base ++ b'/' ∷ []) below in
      inr (b'/' ∷ r, e ∙ append_assoc (rstrip_slash base) (b'/' ∷ []) r, inr (r, refl))
]

-- Of two heads of one text, one is a head of the other.
heads :
    (s t p q : Text)
    → s ++ p ≡ t ++ q
    → ((x : Text) × (t ≡ s ++ x) × (p ≡ x ++ q)) ⊎ ((x : Text) × (s ≡ t ++ x) × (q ≡ x ++ p))
heads [] t p q e = inl (t, refl, e)
heads (c ∷ s) [] p q e = inr (c ∷ s, refl, sym e)
heads (c ∷ s) (d ∷ t) p q e =
    let same : c ≡ d = ground arith in
    let tails : s ++ p ≡ t ++ q = ground arith in
    elim (heads s t p q tails) [
      | inl (x, et, ep) ↦ inl (x, rw (same, et) refl, ep)
      | inr (x, es, eq) ↦ inr (x, rw (sym same, es) refl, eq)
    ]

test_passes :
    (root same below : Bool)
    → (same ≡ true) ⊎ (below ≡ true)
    → (if root then true else same || below) ≡ true
test_passes root same below h = ground arith

slash_first : (c : ℕ) (s : Text) → IsBorder (c ∷ s) → c ≡ b'/'
slash_first c s (inl none) = ground arith
slash_first c s (inr (t, e)) = ground arith

-- The stripped base, a slash and more.
extends-starts_with :
    (inner root x : Text)
    → rstrip_slash inner ≡ root ++ b'/' ∷ x
    → starts_with inner (root ++ b'/' ∷ []) ≡ true
extends-starts_with inner root x e =
    let (r, whole, border) = rstrip_slash-append inner in
    let parts : inner ≡ (root ++ b'/' ∷ []) ++ (x ++ r) =
      whole
      ∙ (ap (λ t. t ++ r) e
          ∙ (append_assoc root (b'/' ∷ x) r ∙ sym (append_assoc root (b'/' ∷ []) (x ++ r)))) in
    subst (λ t. starts_with t (root ++ b'/' ∷ []) ≡ true) (sym parts)
      (starts_with-append (root ++ b'/' ∷ []) (x ++ r))

-- A base whose stripped form extends another's by a border lies within it.
nested :
    (inner outer x rest : Text)
    → IsAcceptedPath inner
    → IsAcceptedPath outer
    → rstrip_slash inner ≡ rstrip_slash outer ++ x
    → IsBorder (x ++ rest)
    → path_is_within_scope inner outer ≡ ok true
nested inner outer [] rest hi ho e border =
    within-test inner outer hi ho
    ∙ ap ok (test_passes _ _ _ (inl ((text_eq_iff _ _).1 (e ∙ append-nil (rstrip_slash outer)))))
nested inner outer (c ∷ x) rest hi ho e border =
    let first = slash_first c (x ++ rest) border in
    let split = e ∙ ap (λ d. rstrip_slash outer ++ d ∷ x) first in
    within-test inner outer hi ho
    ∙ ap ok (test_passes _ _ _ (inr (extends-starts_with inner (rstrip_slash outer) x split)))

within_root :
    (inner outer : Text)
    → IsAcceptedPath inner
    → IsAcceptedPath outer
    → outer ≡ b'/' ∷ []
    → path_is_within_scope inner outer ≡ ok true
within_root inner outer hi ho e =
    within-test inner outer hi ho ∙ ap ok (rw ((text_eq_iff outer (b'/' ∷ [])).1 e) refl)

-- If a path lies within two scopes, one scope's base lies within the other scope.
pub path_is_within_scope_nested :
    (path a b : Text)
    → IsAcceptedPath a
    → IsAcceptedPath b
    → path_is_within_scope path a ≡ ok true
    → path_is_within_scope path b ≡ ok true
    → (path_is_within_scope a b ≡ ok true) ⊎ (path_is_within_scope b a ≡ ok true)
path_is_within_scope_nested path a b ha hb in_a in_b = elim (within-Below path a in_a) [
  | inl root ↦ inr (within_root b a hb ha root)
  | inr (p, ea, border_a) ↦ elim (within-Below path b in_b) [
    | inl root ↦ inl (within_root a b ha hb root)
    | inr (q, eb, border_b) ↦ elim (heads (rstrip_slash a) (rstrip_slash b) p q (sym ea ∙ eb)) [
      | inl (x, longer, ep) ↦ inr (nested b a x q hb ha longer (subst IsBorder ep border_a))
      | inr (x, longer, eq) ↦ inl (nested a b x p ha hb longer (subst IsBorder eq border_b))
    ]
  ]
]
