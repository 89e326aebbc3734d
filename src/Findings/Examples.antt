-- ===== src/Findings/Examples.antt =====
-- A text cut inside a character, and one whose bytes fit.
use web_security_audit_platf.Prelude.{◌≡◌, refl, some, none, [], ◌∷◌}
use web_security_audit_platf.Security.Paths.{Text}
use web_security_audit_platf.Findings.Utf8.{
  encode_char, encode, next_state, decode_from, decode, drop_last_byte, clip, truncate_utf8,
}
use web_security_audit_platf.Findings.Longest.{IsLongestPrefix, truncate_utf8-IsLongestPrefix}

-- "a", the euro sign, an emoji
abbrev price : Text
price = 97 ∷ 8364 ∷ 128512 ∷ []

cut_inside : truncate_utf8 price 7 ≡ some (97 ∷ 8364 ∷ [])
unfolding encode_char encode next_state decode_from decode drop_last_byte clip truncate_utf8
cut_inside = refl

whole_text : truncate_utf8 price 8 ≡ some price
unfolding encode_char encode next_state decode_from decode drop_last_byte clip truncate_utf8
whole_text = refl

lone_surrogate : truncate_utf8 (97 ∷ 55296 ∷ []) 8 ≡ none
unfolding truncate_utf8
lone_surrogate = refl

truncate_utf8-IsLongestPrefix_example :
    (t : Text) × ((truncate_utf8 price 6 ≡ some t) × IsLongestPrefix 6 price t)
truncate_utf8-IsLongestPrefix_example =
    truncate_utf8-IsLongestPrefix price 6 (refl, (refl, (refl, tt)))
