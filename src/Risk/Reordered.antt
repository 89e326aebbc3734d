-- ===== src/Risk/Reordered.antt =====
-- `dedupe_findings` does not depend on the order of its findings.
use web_security_audit_platf.Prelude.{
  ◌≡◌, ◌≢◌, refl, sym, ap, ◌∙◌, ◌↔◌, true, List, [], ◌∷◌, map, All, inl, inr, false≢true, ok,
}
use mathlib.Core.Path.{subst}
use web_security_audit_platf.Security.Paths.{Text}
use web_security_audit_platf.Risk.Order.{TotalOrder, text_order}
use web_security_audit_platf.Risk.{
  Finding, finding_priority, priority_order, dedupe_findings, dedupe_key_or_id,
}
use web_security_audit_platf.Risk.Table.{IsAmong, All-at, All-from, IsIncreasing, IsDistinct}
use web_security_audit_platf.Risk.Loop.{IsBestOf}
use web_security_audit_platf.Risk.Best.{IsDeduplicated, dedupe_findings-IsDeduplicated}

-- Lists with the same members.
abbrev pub HasMembersOf : {A : Type 0} → List A → List A → Type 0
HasMembersOf {A} xs ys = (x : A) → IsAmong x xs ↔ IsAmong x ys

module _ {K : Type 0} (order : TotalOrder K) where
  absurd_below : (x y : K) → order.lt x y ≡ true → x ≡ y → ⊥
  absurd_below x y h e = false≢true (sym (order.irrefl y) ∙ subst (λ z. order.lt z y ≡ true) e h)

  first_same :
      (x y : K) (xs ys : List K)
      → IsIncreasing order (x ∷ xs)
      → IsIncreasing order (y ∷ ys)
      → HasMembersOf (x ∷ xs) (y ∷ ys)
      → x ≡ y
  first_same x y xs ys hx hy same = elim ((same x).0 (inl refl)) [
    | inl e ↦ e
    | inr x_later ↦ elim ((same y).1 (inl refl)) [
      | inl e ↦ sym e
      | inr y_later ↦ absurd (
          absurd_below x x
            (order.trans x y x (All-at (λ z. order.lt x z ≡ true) xs hx.0 y y_later)
              (All-at (λ z. order.lt y z ≡ true) ys hy.0 x x_later))
            refl)
    ]
  ]

  rest-IsAmong :
      (x y : K) (xs ys : List K)
      → IsIncreasing order (x ∷ xs)
      → x ≡ y
      → ((z : K) → IsAmong z (x ∷ xs) → IsAmong z (y ∷ ys))
      → (z : K) → IsAmong z xs
      → IsAmong z ys
  rest-IsAmong x y xs ys hx e among z at = elim (among z (inr at)) [
    | inl first ↦
        absurd (absurd_below x z (All-at (λ z. order.lt x z ≡ true) xs hx.0 z at) (e ∙ sym first))
    | inr later ↦ later
  ]

  -- An increasing list is determined by its members.
  increasing_unique :
      (xs ys : List K)
      → IsIncreasing order xs
      → IsIncreasing order ys
      → HasMembersOf xs ys
      → xs ≡ ys
  increasing_unique [] [] hx hy same = refl
  increasing_unique [] (y ∷ ys) hx hy same = absurd ((same y).1 (inl refl))
  increasing_unique (x ∷ xs) [] hx hy same = absurd ((same x).0 (inl refl))
  increasing_unique (x ∷ xs) (y ∷ ys) hx hy same =
      let first = first_same x y xs ys hx hy same in
      let rest = increasing_unique xs ys hx.1 hy.1 (λ z. (
        rest-IsAmong x y xs ys hx first (λ w at. (same w).0 at) z,
        rest-IsAmong y x ys xs hy (sym first) (λ w at. (same w).1 at) z,
      )) in
      rw (first, rest) refl

module _ {K V : Type 0} (order : TotalOrder K) (key_of : V → K) (finding_of : V → Finding) where
  -- Items are told apart by the ids of their findings.
  abbrev pub HasIds : List V → Type 0
  HasIds items =
      (x y : V) → IsAmong x items → IsAmong y items → (finding_of x).id ≡ (finding_of y).id → x ≡ y

  best_unique :
      (items : List V) (a b : V)
      → HasIds items
      → IsBestOf order key_of finding_of items a
      → IsBestOf order key_of finding_of items b
      → key_of a ≡ key_of b
      → a ≡ b
  unfolding finding_priority
  best_unique items a b ids ha hb e =
      let same =
        priority_order.connex (finding_priority (finding_of a)) (finding_priority (finding_of b))
          (ha.1 b hb.0 (sym e)) (hb.1 a ha.0 e) in
      ids a b ha.0 hb.0 (ap (λ p. p.1.1.1) same)

  bests_unique :
      (items xs ys : List V)
      → HasIds items
      → All (IsBestOf order key_of finding_of items) xs
      → All (IsBestOf order key_of finding_of items) ys
      → map key_of xs ≡ map key_of ys
      → xs ≡ ys
  bests_unique items [] [] ids hx hy e = refl
  bests_unique items [] (y ∷ ys) ids hx hy e = cc
  bests_unique items (x ∷ xs) [] ids hx hy e = cc
  bests_unique items (x ∷ xs) (y ∷ ys) ids hx hy e =
      let first : key_of x ≡ key_of y = cc in
      let rest : map key_of xs ≡ map key_of ys = cc in
      rw (best_unique items x y ids hx.0 hy.0 first, bests_unique items xs ys ids hx.1 hy.1 rest)
        refl

  key-at :
      (items result : List V)
      → All (IsBestOf order key_of finding_of items) result
      → (k : K) → IsAmong k (map key_of result)
      → (x : V) × (IsAmong x items × (k ≡ key_of x))
  key-at items [] h k at = absurd at
  key-at items (x ∷ rest) h k (inl e) = (x, (h.0.0, e))
  key-at items (x ∷ rest) h k (inr at) = key-at items rest h.1 k at

  IsAmong-result :
      (items left right : List V)
      → IsDeduplicated order key_of finding_of items left
      → IsDeduplicated order key_of finding_of items right
      → (k : K) → IsAmong k (map key_of left)
      → IsAmong k (map key_of right)
  IsAmong-result items left right hl hr k at =
      let (x, (among, e)) = key-at items left hl.best k at in rw e (hr.complete x among)

  IsDeduplicated-unique :
      (items left right : List V)
      → HasIds items
      → IsDeduplicated order key_of finding_of items left
      → IsDeduplicated order key_of finding_of items right
      → left ≡ right
  IsDeduplicated-unique items left right ids hl hr =
      bests_unique items left right ids hl.best hr.best (
        increasing_unique order (map key_of left) (map key_of right) hl.increasing hr.increasing
          (λ k. (IsAmong-result items left right hl hr k, IsAmong-result items right left hr hl k)))

  IsDeduplicated-HasMembersOf :
      (xs ys result : List V)
      → HasMembersOf xs ys
      → IsDeduplicated order key_of finding_of xs result
      → IsDeduplicated order key_of finding_of ys result
  IsDeduplicated-HasMembersOf xs ys result same h = record {
    best = All-from (IsBestOf order key_of finding_of ys) result (λ x at.
        let b = All-at (IsBestOf order key_of finding_of xs) result h.best x at in
        ((same x).0 b.0, λ y there e. b.1 y ((same y).1 there) e));
    complete = λ x at. h.complete x ((same x).1 at);
    increasing = h.increasing;
  }

abbrev pub ids : List Finding → List Text
ids findings = map (λ finding. finding.id) findings

id-IsAmong :
    (f : Finding) (findings : List Finding) → IsAmong f findings → IsAmong f.id (ids findings)
id-IsAmong f [] at = at
id-IsAmong f (g ∷ rest) (inl e) = inl (ap (λ h. h.id) e)
id-IsAmong f (g ∷ rest) (inr at) = inr (id-IsAmong f rest at)

ids-HasIds :
    (findings : List Finding)
    → IsDistinct (ids findings)
    → HasIds text_order dedupe_key_or_id (λ finding. finding) findings
ids-HasIds [] h x y ax ay e = absurd ax
ids-HasIds (f ∷ rest) h x y (inl ex) (inl ey) e = ex ∙ sym ey
ids-HasIds (f ∷ rest) h x y (inl ex) (inr ay) e =
    absurd (
      All-at (λ k. k ≢ f.id) (ids rest) h.0 y.id (id-IsAmong y rest ay) (sym e ∙ ap (λ z. z.id) ex))
ids-HasIds (f ∷ rest) h x y (inr ax) (inl ey) e =
    absurd
      (All-at (λ k. k ≢ f.id) (ids rest) h.0 x.id (id-IsAmong x rest ax) (e ∙ ap (λ z. z.id) ey))
ids-HasIds (f ∷ rest) h x y (inr ax) (inr ay) e = ids-HasIds rest h.1 x y ax ay e

-- If no two of the findings share an id, `dedupe_findings` returns the same for every list that has the
-- same findings: neither their order nor repetitions matter.
pub dedupe_findings-reordered :
    (xs ys : List Finding)
    → IsDistinct (ids ys)
    → HasMembersOf xs ys
    → dedupe_findings xs ≡ dedupe_findings ys
dedupe_findings-reordered xs ys distinct same =
    let (left, (left_returned, hl)) = dedupe_findings-IsDeduplicated xs in
    let (right, (right_returned, hr)) = dedupe_findings-IsDeduplicated ys in
    rw (left_returned, right_returned)
      (ap ok (
        IsDeduplicated-unique text_order dedupe_key_or_id (λ finding. finding) ys left right
          (ids-HasIds ys distinct)
          (IsDeduplicated-HasMembersOf text_order dedupe_key_or_id (λ finding. finding) xs ys left
            same hl)
          hr))
