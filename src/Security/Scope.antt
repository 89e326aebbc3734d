-- ===== src/Security/Scope.antt =====
-- `path_is_within_scope` holds whole segments.
use mathlib.Core.List.{append_assoc, append-nil}
use web_security_audit_platf.Prelude.{
  ℕ, ◌≡◌, ◌⊎◌, inl, inr, refl, ap, ◌∙◌, Bool, true, false, ◌||◌, List, [], ◌∷◌, ◌++◌, map, arith,
  ◌==◌, ==_iff, Result, ok, Bool-cases, any, >>=-returned, if◌then◌else◌,
}
use web_security_audit_platf.Security.Paths.{
  Text, PathError, text_eq, starts_with, unquote, split_slash, is_dot_segment, canonical_scope_path,
  keep_char, rstrip_slash, path_is_within_scope,
}
use web_security_audit_platf.Security.PathLaws.{
  IsPlainlyEncoded, text_eq_iff, starts_with_iff, split_slash-unquote, split_slash-nonempty,
}

-- What an accepted path is: itself, plainly encoded, and free of dot segments once decoded.
pub record IsCanonical (path : Text) : Type 0 where
  pub plain : IsPlainlyEncoded path
  pub no_dots : any is_dot_segment (split_slash (unquote path)) ≡ false

pub canonical_scope_path-IsCanonical :
    (path canonical : Text)
    → canonical_scope_path path ≡ ok canonical
    → (canonical ≡ path) × IsCanonical path
unfolding canonical_scope_path
canonical_scope_path-IsCanonical path canonical h = ground arith

-- Nothing, or a slash and more.
abbrev pub IsBorder : Text → Type 0
IsBorder r = (r ≡ []) ⊎ ((t : Text) × (r ≡ b'/' ∷ t))

keep_char-append :
    (c : ℕ) (s t r : Text)
    → s ≡ t ++ r
    → IsBorder r
    → (q : Text) × (c ∷ s ≡ keep_char c t ++ q) × IsBorder q
keep_char-append c s [] r e border = elim (Bool-cases (c == b'/')) [
  | inl slash ↦ (c ∷ s, rw slash, inr (s, rw ((==_iff c b'/').0 slash)))
  | inr other ↦ (r, rw (other, e), border)
]
keep_char-append c s (d ∷ t) r e border = (r, rw e, border)

-- `rstrip` removes slashes only.
pub rstrip_slash-append : (s : Text) → (r : Text) × (s ≡ rstrip_slash s ++ r) × IsBorder r
unfolding rstrip_slash
rstrip_slash-append [] = ([], refl, inl refl)
rstrip_slash-append (c ∷ s) =
    let (r, e, border) = rstrip_slash-append s in keep_char-append c s (rstrip_slash s) r e border

split_slash-append : (s r : Text) → split_slash (s ++ b'/' ∷ r) ≡ split_slash s ++ split_slash r
unfolding split_slash
split_slash-append [] r = let (segment, rest, e) = split_slash-nonempty r in rw e
split_slash-append (c ∷ s) r =
    let (segment, rest, e) = split_slash-nonempty s in
    rw (split_slash-append s r, e)
      (elim (Bool-cases (c == b'/')) [ inl slash ↦ rw slash | inr other ↦ rw other ])

-- The segments of `path` begin with those of `root`.
abbrev pub ExtendsSegments : Text → Text → Type 0
ExtendsSegments path root = (rest : List Text) × (split_slash path ≡ split_slash root ++ rest)

border-ExtendsSegments :
    (path root r : Text) → path ≡ root ++ r → IsBorder r → ExtendsSegments path root
border-ExtendsSegments path root r e (inl none) =
    ([], rw (e, none, append-nil root, append-nil (split_slash root)))
border-ExtendsSegments path root r e (inr (t, slash)) =
    (split_slash t, rw (e, slash) (split_slash-append root t))

stripped-ExtendsSegments : (path root : Text) → rstrip_slash path ≡ root → ExtendsSegments path root
stripped-ExtendsSegments path root same =
    let (r, e, border) = rstrip_slash-append path in
    border-ExtendsSegments path root r (e ∙ ap (λ t. t ++ r) same) border

prefix-ExtendsSegments :
    (path root : Text) → starts_with path (root ++ b'/' ∷ []) ≡ true → ExtendsSegments path root
prefix-ExtendsSegments path root h =
    let (r, e) = starts_with_iff path (root ++ b'/' ∷ []) h in
    border-ExtendsSegments path root (b'/' ∷ r) (e ∙ append_assoc root (b'/' ∷ []) r)
      (inr (r, refl))

map-append : {A B : Type 0} (f : A → B) (xs ys : List A) → map f (xs ++ ys) ≡ map f xs ++ map f ys
map-append f [] ys = refl
map-append f (x ∷ xs) ys = ap (λ zs. f x ∷ zs) (map-append f xs ys)

decoded-ExtendsSegments :
    (path root : Text)
    → IsCanonical path
    → ExtendsSegments path root
    → (rest : List Text) × (split_slash (unquote path) ≡ map unquote (split_slash root) ++ rest)
decoded-ExtendsSegments path root canonical (rest, e) = (
  map unquote rest,
  split_slash-unquote path canonical.plain
      ∙ (ap (map unquote) e ∙ map-append unquote (split_slash root) rest),
)

abbrev IsAccepted : Bool → Type 0
IsAccepted b = ◌≡◌ {A = Result PathError Bool} (ok b) (ok true)

within_scope-tests :
    (path base p b : Text)
    → (p ≡ path) × IsCanonical path
    → b ≡ base
    → IsAccepted (
        if text_eq b (b'/' ∷ [])
        then true
        else text_eq (rstrip_slash p) (rstrip_slash b)
          || starts_with p (rstrip_slash b ++ b'/' ∷ []))
    → IsCanonical path
      × ((base ≡ b'/' ∷ [])
          ⊎ ((rstrip_slash path ≡ rstrip_slash base)
              ⊎ (starts_with path (rstrip_slash base ++ b'/' ∷ []) ≡ true)))
within_scope-tests path base p b (same, canonical) base_same h = (
  canonical,
  elim (Bool-cases (text_eq base (b'/' ∷ []))) [
    | inl root ↦ inl ((text_eq_iff _ _).0 root)
    | inr other ↦ elim (Bool-cases (text_eq (rstrip_slash path) (rstrip_slash base))) [
      | inl equal ↦ inr (inl ((text_eq_iff _ _).0 equal))
      | inr different ↦ inr (inr (ground arith))
    ]
  ],
)

-- What the test reads, once both paths are accepted.
pub within_scope-cases :
    (path base : Text)
    → path_is_within_scope path base ≡ ok true
    → IsCanonical path
      × ((base ≡ b'/' ∷ [])
          ⊎ ((rstrip_slash path ≡ rstrip_slash base)
              ⊎ (starts_with path (rstrip_slash base ++ b'/' ∷ []) ≡ true)))
unfolding path_is_within_scope
within_scope-cases path base h =
    let (p, h1, accepted) = >>=-returned _ _ h in
    let (b, h2, base_accepted) = >>=-returned _ _ h1 in
    within_scope-tests path base p b (canonical_scope_path-IsCanonical path p accepted)
      (canonical_scope_path-IsCanonical base b base_accepted).0 h2

-- A path within a scope keeps, once it is decoded, the decoded segments of the scope's base in front
-- of its own, unless the base is the root, and none of its decoded segments is a dot segment.
pub path_is_within_scope_sound :
    (path base : Text)
    → path_is_within_scope path base ≡ ok true
    → ((base ≡ b'/' ∷ [])
        ⊎ ((rest : List Text) × (split_slash (unquote path)
              ≡ map unquote (split_slash (rstrip_slash base)) ++ rest)))
      × (any is_dot_segment (split_slash (unquote path)) ≡ false)
path_is_within_scope_sound path base h =
    let (canonical, tests) = within_scope-cases path base h in
    (
      elim tests [
        | inl root ↦ inl root
        | inr (inl same) ↦ inr (
            decoded-ExtendsSegments path (rstrip_slash base) canonical
              (stripped-ExtendsSegments path _ same))
        | inr (inr below) ↦ inr (
            decoded-ExtendsSegments path (rstrip_slash base) canonical
              (prefix-ExtendsSegments path _ below))
      ],
      canonical.no_dots,
    )
