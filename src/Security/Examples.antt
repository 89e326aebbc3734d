-- ===== src/Security/Examples.antt =====
-- Tests of the scope checks, and instances of their theorems.
use web_security_audit_platf.Prelude.{
  ◌≡◌, refl, true, false, ◌⊎◌, any, ok, err, List, [], ◌∷◌, ◌++◌, map,
}
use web_security_audit_platf.Security.Paths.{
  Text, dot_segments, ambiguous_encoding, unquote, split_slash, has_invalid_percent,
  has_ambiguous_percent, rstrip_slash, is_dot_segment, canonical_scope_path, path_is_within_scope,
}
use web_security_audit_platf.Security.Scope.{path_is_within_scope_sound}

-- "/app" and "/app/%41b"
abbrev app_base : Text
app_base = b'/' ∷ b'a' ∷ b'p' ∷ b'p' ∷ []

abbrev escaped_path : Text
escaped_path = app_base ++ b'/' ∷ b'%' ∷ b'4' ∷ b'1' ∷ b'b' ∷ []

scope_tests :
    (path_is_within_scope escaped_path app_base ≡ ok true)
    × (path_is_within_scope (app_base ++ b'2' ∷ []) app_base ≡ ok false)
    × (canonical_scope_path (b'/' ∷ b'.' ∷ b'.' ∷ []) ≡ err dot_segments)
    × (canonical_scope_path (b'/' ∷ b'%' ∷ b'2' ∷ b'e' ∷ []) ≡ err ambiguous_encoding)
unfolding path_is_within_scope canonical_scope_path has_invalid_percent has_ambiguous_percent
    split_slash unquote rstrip_slash
scope_tests = (refl, refl, refl, refl)

path_is_within_scope_sound_example :
    ((app_base ≡ b'/' ∷ [])
      ⊎ ((rest : List Text) × (split_slash (unquote escaped_path)
            ≡ map unquote (split_slash (rstrip_slash app_base)) ++ rest)))
    × (any is_dot_segment (split_slash (unquote escaped_path)) ≡ false)
path_is_within_scope_sound_example = path_is_within_scope_sound escaped_path app_base scope_tests.0
