-- ===== src/Risk/Order.antt =====
-- The `<` of Python on numbers, texts and tuples, as strict total orders.
use web_security_audit_platf.Prelude.{
  ℕ, ◌≡◌, refl, Bool, true, false, not, ◌&&◌, ◌||◌, [], ◌∷◌, ltb, arith, Bool-cases, inl, inr,
}
use web_security_audit_platf.Security.Paths.{Text}

pub record TotalOrder (A : Type 0) : Type 0 where
  pub lt : A → A → Bool
  pub irrefl : (a : A) → lt a a ≡ false
  pub trans : (a b c : A) → lt a b ≡ true → lt b c ≡ true → lt a c ≡ true
  pub connex : (a b : A) → lt a b ≡ false → lt b a ≡ false → a ≡ b

-- `a == b`
abbrev pub is_same : {A : Type 0} → TotalOrder A → A → A → Bool
is_same order a b = not (order.lt a b) && not (order.lt b a)

pub ltb_irrefl : (a : ℕ) → ltb a a ≡ false
ltb_irrefl a = ground arith

pub ltb_trans : (a b c : ℕ) → ltb a b ≡ true → ltb b c ≡ true → ltb a c ≡ true
ltb_trans a b c h k = ground arith

pub ltb_connex : (a b : ℕ) → ltb a b ≡ false → ltb b a ≡ false → a ≡ b
ltb_connex a b h k = ground arith

unfoldable pub nat_order : TotalOrder ℕ
nat_order = record { lt = ltb; irrefl = ltb_irrefl; trans = ltb_trans; connex = ltb_connex }

unfoldable pub text_lt : Text → Text → Bool
text_lt [] [] = false
text_lt [] (d ∷ t) = true
text_lt (c ∷ s) [] = false
text_lt (c ∷ s) (d ∷ t) = ltb c d || (not (ltb d c) && text_lt s t)

pub text_lt_irrefl : (s : Text) → text_lt s s ≡ false
unfolding text_lt
text_lt_irrefl [] = refl
text_lt_irrefl (c ∷ s) = ground (arith, text_lt_irrefl s)

pub text_lt_trans : (s t u : Text) → text_lt s t ≡ true → text_lt t u ≡ true → text_lt s u ≡ true
unfolding text_lt
text_lt_trans [] [] u h k = absurd (ground arith)
text_lt_trans [] (d ∷ t) [] h k = absurd (ground arith)
text_lt_trans [] (d ∷ t) (e ∷ u) h k = refl
text_lt_trans (c ∷ s) [] u h k = absurd (ground arith)
text_lt_trans (c ∷ s) (d ∷ t) [] h k = absurd (ground arith)
text_lt_trans (c ∷ s) (d ∷ t) (e ∷ u) h k = ground (arith, text_lt_trans s t u)

pub text_lt_connex : (s t : Text) → text_lt s t ≡ false → text_lt t s ≡ false → s ≡ t
unfolding text_lt
text_lt_connex [] [] h k = refl
text_lt_connex [] (d ∷ t) h k = absurd (ground arith)
text_lt_connex (c ∷ s) [] h k = absurd (ground arith)
text_lt_connex (c ∷ s) (d ∷ t) h k =
    let first : c ≡ d = ground arith in
    let rest : s ≡ t = text_lt_connex s t (ground arith) (ground arith) in rw (first, rest) refl

unfoldable pub text_order : TotalOrder Text
text_order = record {
  lt = text_lt;
  irrefl = text_lt_irrefl;
  trans = text_lt_trans;
  connex = text_lt_connex;
}

module _ {A B : Type 0} (first : TotalOrder A) (second : TotalOrder B) where
  abbrev pub pair_lt : A × B → A × B → Bool
  pair_lt (a, b) (c, d) = first.lt a c || (not (first.lt c a) && second.lt b d)

  pub pair_lt_irrefl : (p : A × B) → pair_lt p p ≡ false
  pair_lt_irrefl (a, b) = rw (first.irrefl a, second.irrefl b) refl

  pub pair_lt_connex : (p q : A × B) → pair_lt p q ≡ false → pair_lt q p ≡ false → p ≡ q
  pair_lt_connex (a, b) (c, d) h k =
      let ac : first.lt a c ≡ false = ground arith in
      let ca : first.lt c a ≡ false = ground arith in
      let bd : second.lt b d ≡ false = ground arith in
      let db : second.lt d b ≡ false = ground arith in
      rw (first.connex a c ac ca, second.connex b d bd db) refl

  pub pair_lt_trans : (p q r : A × B) → pair_lt p q ≡ true → pair_lt q r ≡ true → pair_lt p r ≡ true
  pair_lt_trans (a, b) (c, d) (e, f) h k = elim (Bool-cases (first.lt a c)) [
    | inl ac ↦ elim (Bool-cases (first.lt c e)) [
      | inl ce ↦ rw (first.trans a c e ac ce) refl
      | inr ce ↦ let same : c ≡ e = first.connex c e ce (ground arith) in rw (← same, ac) refl
    ]
    | inr ac ↦
        let same : a ≡ c = first.connex a c ac (ground arith) in
        elim (Bool-cases (first.lt c e)) [
          | inl ce ↦ rw (same, ce) refl
          | inr ce ↦
              let too : c ≡ e = first.connex c e ce (ground arith) in
              let bd : second.lt b d ≡ true = ground arith in
              let df : second.lt d f ≡ true = ground arith in
              rw (same, too, first.irrefl e, second.trans b d f bd df) refl
        ]
  ]

  unfoldable pub pair_order : TotalOrder (A × B)
  pair_order = record {
    lt = pair_lt;
    irrefl = pair_lt_irrefl;
    trans = pair_lt_trans;
    connex = pair_lt_connex;
  }
