-- ===== src/Risk/Table.antt =====
-- Dicts, their keys, and the sort of a list.
use web_security_audit_platf.Prelude.{
  ◌≡◌, ◌≢◌, refl, sym, ◌∙◌, true, false, none, some, List, [], ◌∷◌, map, All, arith, Bool-cases,
  ◌⊎◌, inl, inr, false≢true,
}
use mathlib.Core.Path.{subst}
use web_security_audit_platf.Risk.Order.{TotalOrder, is_same}
use web_security_audit_platf.Risk.{insert_sorted, sorted, lookup, put}

abbrev pub IsAmong : {A : Type 0} → A → List A → Type 0
IsAmong x [] = ⊥
IsAmong x (y ∷ ys) = (x ≡ y) ⊎ IsAmong x ys

pub All-at : {A : Type 0} (P : A → Type 0) (xs : List A) → All P xs → (x : A) → IsAmong x xs → P x
All-at P [] h x at = absurd at
All-at P (y ∷ ys) h x (inl e) = subst P (sym e) h.0
All-at P (y ∷ ys) h x (inr at) = All-at P ys h.1 x at

pub All-from :
    {A : Type 0} (P : A → Type 0) (xs : List A) → ((x : A) → IsAmong x xs → P x) → All P xs
All-from P [] h = tt
All-from P (y ∷ ys) h = (h y (inl refl), All-from P ys (λ x at. h x (inr at)))

-- Each key stands before the later ones.
abbrev pub IsIncreasing : {A : Type 0} → TotalOrder A → List A → Type 0
IsIncreasing order [] = Unit
IsIncreasing order (x ∷ xs) = All (λ later. order.lt x later ≡ true) xs × IsIncreasing order xs

abbrev pub IsDistinct : {A : Type 0} → List A → Type 0
IsDistinct [] = Unit
IsDistinct (x ∷ xs) = All (λ y. y ≢ x) xs × IsDistinct xs

module _ {A S : Type 0} (order : TotalOrder S) (key : A → S) where
  insert-All :
      (P : A → Type 0) (x : A) (xs : List A) → P x → All P xs → All P (insert_sorted order key x xs)
  unfolding insert_sorted
  insert-All P x [] h hs = (h, tt)
  insert-All P x (y ∷ ys) h hs = elim (Bool-cases (order.lt (key y) (key x))) [
    | inl later ↦ rw (later, insert_sorted) (hs.0, insert-All P x ys h hs.1)
    | inr before ↦ rw (before, insert_sorted) (h, hs)
  ]

  pub sorted-All : (P : A → Type 0) (xs : List A) → All P xs → All P (sorted order key xs)
  unfolding sorted
  sorted-All P [] h = tt
  sorted-All P (x ∷ xs) h = insert-All P x (sorted order key xs) h.0 (sorted-All P xs h.1)

  insert-at :
      (x y : A) (xs : List A) → IsAmong x (y ∷ xs) → IsAmong x (insert_sorted order key y xs)
  unfolding insert_sorted
  insert-at x y [] h = h
  insert-at x y (z ∷ zs) h = elim (Bool-cases (order.lt (key z) (key y))) [
    | inl later ↦
        rw (later, insert_sorted)
          (elim h [
            | inl e ↦ inr (insert-at x y zs (inl e))
            | inr (inl e) ↦ inl e
            | inr (inr at) ↦ inr (insert-at x y zs (inr at))
          ])
    | inr before ↦ rw (before, insert_sorted) h
  ]

  pub sorted-at : (x : A) (xs : List A) → IsAmong x xs → IsAmong x (sorted order key xs)
  unfolding sorted
  sorted-at x [] h = h
  sorted-at x (y ∷ ys) (inl e) = insert-at x y (sorted order key ys) (inl e)
  sorted-at x (y ∷ ys) (inr at) = insert-at x y (sorted order key ys) (inr (sorted-at x ys at))

module _ {K : Type 0} (order : TotalOrder K) where
  after-All :
      (x y : K) (ys : List K)
      → order.lt x y ≡ true
      → All (λ z. order.lt y z ≡ true) ys
      → All (λ z. order.lt x z ≡ true) ys
  after-All x y [] h hs = tt
  after-All x y (z ∷ zs) h hs = (order.trans x y z h hs.0, after-All x y zs h hs.1)

  insert-IsIncreasing :
      (x : K) (xs : List K)
      → All (λ y. y ≢ x) xs
      → IsIncreasing order xs
      → IsIncreasing order (insert_sorted order (λ k. k) x xs)
  unfolding insert_sorted
  insert-IsIncreasing x [] ne h = (tt, tt)
  insert-IsIncreasing x (y ∷ ys) ne h = elim (Bool-cases (order.lt y x)) [
    | inl later ↦
        rw (later, insert_sorted)
          (
            insert-All order (λ k. k) (λ z. order.lt y z ≡ true) x ys later h.0,
            insert-IsIncreasing x ys ne.1 h.1,
          )
    | inr not_later ↦ elim (Bool-cases (order.lt x y)) [
      | inl before ↦ rw (not_later, insert_sorted) ((before, after-All x y ys before h.0), h)
      | inr same ↦ absurd (ne.0 (order.connex y x not_later same))
    ]
  ]

  pub sorted-IsIncreasing :
      (xs : List K) → IsDistinct xs → IsIncreasing order (sorted order (λ k. k) xs)
  unfolding sorted
  sorted-IsIncreasing [] h = tt
  sorted-IsIncreasing (x ∷ xs) h =
      insert-IsIncreasing x (sorted order (λ k. k) xs)
        (sorted-All order (λ k. k) (λ y. y ≢ x) xs h.0) (sorted-IsIncreasing xs h.1)

  is_same_refl : (k : K) → is_same order k k ≡ true
  is_same_refl k = rw (order.irrefl k) refl

  is_same_eq : (j k : K) → j ≡ k → is_same order j k ≡ true
  is_same_eq j k e = rw e (is_same_refl k)

  is_same→eq : (j k : K) → is_same order j k ≡ true → j ≡ k
  is_same→eq j k h = order.connex j k (ground arith) (ground arith)

  is_same-false : (j k : K) → j ≢ k → is_same order j k ≡ false
  is_same-false j k ne = elim (Bool-cases (is_same order j k)) [
    | inl same ↦ absurd (ne (is_same→eq j k same))
    | inr other ↦ other
  ]

  is_same_ne : (j k : K) → is_same order j k ≡ false → j ≢ k
  is_same_ne j k h e = false≢true (sym h ∙ rw e (is_same_refl k))

  pub same_or_not : (j k : K) → (j ≡ k) ⊎ (j ≢ k)
  same_or_not j k = elim (Bool-cases (is_same order j k)) [
    | inl same ↦ inl (is_same→eq j k same)
    | inr other ↦ inr (is_same_ne j k other)
  ]

module _ {K V : Type 0} (order : TotalOrder K) where
  abbrev pub keys : List (K × V) → List K
  keys dict = map (λ entry. entry.0) dict

  pub lookup-put_same :
      (k : K) (v : V) (dict : List (K × V)) → lookup order k (put order k v dict) ≡ some v
  unfolding lookup put
  lookup-put_same k v [] = rw (is_same_refl order k) refl
  lookup-put_same k v ((at, old) ∷ rest) = elim (Bool-cases (is_same order at k)) [
    | inl same ↦ rw (same, put, lookup, same) refl
    | inr other ↦ rw (other, put, lookup, other) (lookup-put_same k v rest)
  ]

  pub lookup-put_other :
      (j k : K) (v : V) (dict : List (K × V))
      → k ≢ j
      → lookup order j (put order k v dict) ≡ lookup order j dict
  unfolding lookup put
  lookup-put_other j k v [] ne = rw (is_same-false order k j ne) refl
  lookup-put_other j k v ((at, old) ∷ rest) ne = elim (Bool-cases (is_same order at k)) [
    | inl same ↦
        let off = is_same-false order at j (λ e. ne (sym (is_same→eq order at k same) ∙ e)) in
        rw (same, put, lookup, off) refl
    | inr other ↦ elim (Bool-cases (is_same order at j)) [
      | inl found_here ↦ rw (other, put, lookup, found_here) refl
      | inr off ↦ rw (other, put, lookup, off) (lookup-put_other j k v rest ne)
    ]
  ]

  put-All :
      (P : K → Type 0) (k : K) (v : V) (dict : List (K × V))
      → P k
      → All P (keys dict)
      → All P (keys (put order k v dict))
  unfolding put
  put-All P k v [] h hs = (h, tt)
  put-All P k v ((at, old) ∷ rest) h hs = elim (Bool-cases (is_same order at k)) [
    | inl same ↦ rw (same, put) hs
    | inr other ↦ rw (other, put) (hs.0, put-All P k v rest h hs.1)
  ]

  pub put-IsDistinct :
      (k : K) (v : V) (dict : List (K × V))
      → IsDistinct (keys dict)
      → IsDistinct (keys (put order k v dict))
  unfolding put
  put-IsDistinct k v [] h = (tt, tt)
  put-IsDistinct k v ((at, old) ∷ rest) h = elim (Bool-cases (is_same order at k)) [
    | inl same ↦ rw (same, put) h
    | inr other ↦
        rw (other, put)
          (
            put-All (λ y. y ≢ at) k v rest (λ e. is_same_ne order at k other (sym e)) h.0,
            put-IsDistinct k v rest h.1,
          )
  ]

  -- The keys are those at which a lookup finds a value.
  pub lookup-keys :
      (k : K) (dict : List (K × V)) → IsAmong k (keys dict) → lookup order k dict ≢ none
  unfolding lookup
  lookup-keys k [] at = absurd at
  lookup-keys k ((j, v) ∷ rest) (inl e) = rw (is_same_eq order j k (sym e)) (ground arith)
  lookup-keys k ((j, v) ∷ rest) (inr at) = elim (Bool-cases (is_same order j k)) [
    | inl same ↦ rw same (ground arith)
    | inr other ↦ rw other (lookup-keys k rest at)
  ]

  pub lookup-at :
      (k : K) (v : V) (dict : List (K × V)) → lookup order k dict ≡ some v → IsAmong k (keys dict)
  unfolding lookup
  lookup-at k v [] h = absurd (ground arith)
  lookup-at k v ((j, w) ∷ rest) h = elim (Bool-cases (is_same order j k)) [
    | inl same ↦ inl (sym (is_same→eq order j k same))
    | inr other ↦ inr (lookup-at k v rest (ground arith))
  ]
