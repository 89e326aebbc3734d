-- ===== src/Pagination/Order.antt =====
-- The order of a listing, and what is left of it after a row.
use web_security_audit_platf.Prelude.{
  ◌≡◌, ◌≢◌, refl, sym, ap, ◌∙◌, Bool, true, false, List, [], ◌∷◌, ◌++◌, All, select, arith,
  Bool-cases, inl, inr, false≢true, if◌then◌else◌,
}
use web_security_audit_platf.Pagination.{IdOrder, Row, is_after, key, insert_row, order_by}

-- Ids are a primary key.
abbrev pub IsDistinct : List Row → Type 0
IsDistinct [] = Unit {0}
IsDistinct (row ∷ rest) = All (λ other. other.id ≢ row.id) rest × IsDistinct rest

module _ (order : IdOrder) where
  -- Each row is after those before it.
  abbrev pub IsOrdered : List Row → Type 0
  IsOrdered [] = Unit {0}
  IsOrdered (row ∷ rest) =
      All (λ later. is_after order (key order row) later ≡ true) rest × IsOrdered rest

  after_irrefl : (row : Row) → is_after order (key order row) row ≡ false
  after_irrefl row = ground (arith, order.irrefl row.id)

  after_trans :
      (a b c : Row)
      → is_after order (key order a) b ≡ true
      → is_after order (key order b) c ≡ true
      → is_after order (key order a) c ≡ true
  after_trans a b c h k = ground (arith, order.trans c.id b.id a.id)

  after_total :
      (a b : Row)
      → b.id ≢ a.id
      → is_after order (key order a) b ≡ false
      → is_after order (key order b) a ≡ true
  after_total a b ne h = ground (arith, order.total b.id a.id ne)

  All-insert {κ} :
      (P : Row → Type κ) (row : Row) (rows : List Row)
      → P row
      → All P rows
      → All P (insert_row order row rows)
  unfolding insert_row
  All-insert P row [] h hs = (h, tt)
  All-insert P row (first ∷ rest) h hs = elim (Bool-cases (is_after order (key order row) first)) [
    | inl before ↦ rw (before, insert_row) (h, hs)
    | inr later ↦ rw (later, insert_row) (hs.0, All-insert P row rest h hs.1)
  ]

  All-after :
      (row first : Row) (rest : List Row)
      → is_after order (key order row) first ≡ true
      → All (λ later. is_after order (key order first) later ≡ true) rest
      → All (λ later. is_after order (key order row) later ≡ true) rest
  All-after row first [] h hs = tt
  All-after row first (next ∷ rest) h hs =
      (after_trans row first next h hs.0, All-after row first rest h hs.1)

  insert-IsOrdered :
      (row : Row) (rows : List Row)
      → All (λ other. other.id ≢ row.id) rows
      → IsOrdered rows
      → IsOrdered (insert_row order row rows)
  unfolding insert_row
  insert-IsOrdered row [] ne h = (tt, tt)
  insert-IsOrdered row (first ∷ rest) ne h =
      elim (Bool-cases (is_after order (key order row) first)) [
        | inl before ↦ rw (before, insert_row) ((before, All-after row first rest before h.0), h)
        | inr later ↦
            rw (later, insert_row)
              (
                All-insert (λ z. is_after order (key order first) z ≡ true) row rest
                    (after_total row first ne.0 later) h.0,
                insert-IsOrdered row rest ne.1 h.1,
              )
      ]

  pub order_by-All {κ} :
      (P : Row → Type κ) (rows : List Row) → All P rows → All P (order_by order rows)
  unfolding order_by
  order_by-All P [] h = tt
  order_by-All P (row ∷ rest) h =
      All-insert P row (order_by order rest) h.0 (order_by-All P rest h.1)

  pub order_by-IsOrdered : (rows : List Row) → IsDistinct rows → IsOrdered (order_by order rows)
  unfolding order_by
  order_by-IsOrdered [] h = tt
  order_by-IsOrdered (row ∷ rest) h =
      insert-IsOrdered row (order_by order rest)
        (order_by-All (λ other. other.id ≢ row.id) rest h.0) (order_by-IsOrdered rest h.1)

  insert_front :
      (row : Row) (rows : List Row)
      → All (λ later. is_after order (key order row) later ≡ true) rows
      → insert_row order row rows ≡ row ∷ rows
  unfolding insert_row
  insert_front row [] h = refl
  insert_front row (first ∷ rest) h = rw (h.0, insert_row) refl

  pub All-select {κ} :
      (P : Row → Type κ) (p : Row → Bool) (rows : List Row) → All P rows → All P (select p rows)
  All-select P p [] h = tt
  All-select P p (row ∷ rest) h = elim (Bool-cases (p row)) [
    | inl kept ↦ rw kept (h.0, All-select P p rest h.1)
    | inr dropped ↦ rw dropped (All-select P p rest h.1)
  ]

  pub select-IsDistinct :
      (p : Row → Bool) (rows : List Row) → IsDistinct rows → IsDistinct (select p rows)
  select-IsDistinct p [] h = tt
  select-IsDistinct p (row ∷ rest) h = elim (Bool-cases (p row)) [
    | inl kept ↦
        rw kept (All-select (λ other. other.id ≢ row.id) p rest h.0, select-IsDistinct p rest h.1)
    | inr dropped ↦ rw dropped (select-IsDistinct p rest h.1)
  ]

  select-insert :
      (p : Row → Bool) (row : Row) (rows : List Row)
      → IsOrdered rows
      → select p (insert_row order row rows)
        ≡ (if p row then insert_row order row (select p rows) else select p rows)
  unfolding insert_row
  select-insert p row [] h = refl
  select-insert p row (first ∷ rest) h = elim (Bool-cases (is_after order (key order row) first)) [
    | inl before ↦ elim (Bool-cases (p row)) [
      | inl kept ↦
          let all_after : All (λ later. is_after order (key order row) later ≡ true)
              (first ∷ rest) =
            (before, All-after row first rest before h.0) in
          rw
            (
              insert_front row (select p (first ∷ rest)) (
                  All-select (λ later. is_after order (key order row) later ≡ true) p (first ∷ rest)
                    all_after),
              before,
              kept,
              insert_row,
            )
            refl
      | inr dropped ↦ rw (before, dropped, insert_row) refl
    ]
    | inr later ↦ elim (Bool-cases (p first)) [
      | inl kept ↦ elim (Bool-cases (p row)) [
        | inl also ↦
            rw (later, kept, also, later, insert_row)
              (ap (λ t. first ∷ t) (rw also at (select-insert p row rest h.1)))
        | inr other ↦
            rw (later, kept, other, insert_row)
              (ap (λ t. first ∷ t) (rw other at (select-insert p row rest h.1)))
      ]
      | inr dropped ↦ rw (later, dropped, insert_row) (select-insert p row rest h.1)
    ]
  ]

  -- Selecting and ordering commute.
  pub select-order_by :
      (p : Row → Bool) (rows : List Row)
      → IsDistinct rows
      → select p (order_by order rows) ≡ order_by order (select p rows)
  unfolding order_by
  select-order_by p [] h = refl
  select-order_by p (row ∷ rest) h =
      let ordered = order_by-IsOrdered rest h.1 in
      elim (Bool-cases (p row)) [
        | inl kept ↦
            rw (kept, order_by)
              (rw kept at (select-insert p row (order_by order rest) ordered)
                ∙ ap (insert_row order row) (select-order_by p rest h.1))
        | inr dropped ↦
            rw (dropped, order_by)
              (rw dropped at (select-insert p row (order_by order rest) ordered)
                ∙ select-order_by p rest h.1)
      ]

  select_none :
      (row : Row) (rows : List Row)
      → All (λ later. is_after order (key order row) later ≡ true) rows
      → select (is_after order (key order row)) rows ≡ rows
  select_none row [] h = refl
  select_none row (first ∷ rest) h = rw h.0 (ap (λ t. first ∷ t) (select_none row rest h.1))

  not_after :
      (a b : Row) → is_after order (key order a) b ≡ true → is_after order (key order b) a ≡ false
  not_after a b h = elim (Bool-cases (is_after order (key order b) a)) [
    | inl back ↦ absurd (false≢true (sym (after_irrefl a) ∙ after_trans a b a h back))
    | inr fine ↦ fine
  ]

  -- What is after a row of an ordered list is the rest of the list.
  pub select-after :
      (before : List Row) (row : Row) (rest : List Row)
      → IsOrdered (before ++ row ∷ rest)
      → select (is_after order (key order row)) (before ++ row ∷ rest) ≡ rest
  select-after [] row rest h = rw (after_irrefl row) (select_none row rest h.0)
  select-after (first ∷ before) row rest h =
      rw (not_after first row (All-middle first before row rest h.0))
        (select-after before row rest h.1)
    where
      All-middle :
          (first : Row) (before : List Row) (row : Row) (rest : List Row)
          → All (λ later. is_after order (key order first) later ≡ true) (before ++ row ∷ rest)
          → is_after order (key order first) row ≡ true
      All-middle first [] row rest h = h.0
      All-middle first (x ∷ before) row rest h = All-middle first before row rest h.1
