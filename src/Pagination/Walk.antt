-- ===== src/Pagination/Walk.antt =====
-- A client that follows the cursors, from the first page to the last.
use mathlib.Core.Path.{subst}
use mathlib.Core.List.{append_assoc}
use web_security_audit_platf.Prelude.{
  ℕ, zero, suc, ◌+◌, ◌≡◌, ◌≢◌, ◌≤◌, ◌<◌, refl, sym, ap, ◌∙◌, Bool, true, false, Option, none, some,
  List, [], ◌∷◌, ◌++◌, All, select, take, drop, take_all, take-append-drop, length, length-append,
  length-take, arith, Bool-cases, inl, inr, leb, ltb, leb→le, Result, ok, err,
}
use web_security_audit_platf.Security.Paths.{Text}
use web_security_audit_platf.Pagination.{
  CursorCodec, IdOrder, Row, PageError, page_request, read_cursor, encode_cursor, is_after, key,
  order_by, query, last_row, page_items, list_rows,
}
use web_security_audit_platf.Pagination.Order.{
  order_by-All, All-select, IsDistinct, IsOrdered, order_by-IsOrdered, select-IsDistinct,
  select-order_by, select-after,
}
use web_security_audit_platf.Pagination.Cursor.{IsCodec, page_request-encode_cursor}

-- All items that a client gets which asks for pages until there is no cursor, or the first error;
-- on fuel, which is the number of pages.
unfoldable pub walk :
    CursorCodec
    → IdOrder
    → (Row → Bool)
    → List Row
    → ℕ
    → ℕ
    → ℕ
    → Option Text
    → Option (Result PageError (List Row))
walk codec order matches table max_limit limit zero cursor = none
walk codec order matches table max_limit limit (suc fuel) cursor =
    elim (list_rows codec order matches table max_limit limit cursor) [
      | err e ↦ some (err e)
      | ok (items, none) ↦ some (ok items)
      | ok (items, some next) ↦
          elim (walk codec order matches table max_limit limit fuel (some next)) [
            | none ↦ none
            | some (err e) ↦ some (err e)
            | some (ok later) ↦ some (ok (items ++ later))
          ]
    ]

-- The rows whose key a cursor can carry.
abbrev pub HasId : CursorCodec → Row → Type 0
HasId codec row =
    (row.id ≢ [])
    × (length row.id ≤ 64)
    × (length (encode_cursor codec row.created_at row.id) ≤ 512)

-- A list that is longer than a page is the page, with its last row, and the rest.
page_split :
    (n : ℕ) (rows : List Row)
    → n < length rows
    → 0 < n
    → (before : List Row) × (row : Row) × (take n rows ≡ before ++ row ∷ [])
      × (rows ≡ before ++ row ∷ drop n rows)
page_split zero rows h positive = absurd (omega arith)
page_split (suc n) [] h positive = absurd (omega arith)
page_split (suc zero) (x ∷ rows) h positive = ([], x, refl, refl)
page_split (suc (suc n)) (x ∷ rows) h positive =
    let (before, row, first, all_) = page_split (suc n) rows (omega arith) (omega arith) in
    (x ∷ before, row, ap (λ t. x ∷ t) first, ap (λ t. x ∷ t) all_)

last_row-append : (before : List Row) (row : Row) → last_row (before ++ row ∷ []) ≡ ok row
unfolding last_row
last_row-append [] row = refl
last_row-append (x ∷ []) row = refl
last_row-append (x ∷ y ∷ before) row = last_row-append (y ∷ before) row

take-take : (n : ℕ) (rows : List Row) → take n (take (suc n) rows) ≡ take n rows
take-take zero rows = refl
take-take (suc n) [] = refl
take-take (suc n) (x ∷ rows) = ap (λ t. x ∷ t) (take-take n rows)

All-row {κ} :
    (P : Row → Type κ) (before : List Row) (row : Row) (rest : List Row)
    → All P (before ++ row ∷ rest)
    → P row
All-row P [] row rest h = h.0
All-row P (x ∷ before) row rest h = All-row P before row rest h.1

-- A page that is the last one, and one that is not.
page_items-last :
    (codec : CursorCodec) (limit : ℕ) (rest : List Row)
    → length rest ≤ limit
    → page_items codec (take (limit + 1) rest) limit ≡ ok (rest, none)
unfolding page_items
page_items-last codec limit rest h =
    let fits : leb (length rest) limit ≡ true = ground arith in
    rw (take_all (limit + 1) rest (omega arith), fits, page_items) refl

page_items-more :
    (codec : CursorCodec) (limit : ℕ) (rest before : List Row) (row : Row)
    → limit < length rest
    → take limit rest ≡ before ++ row ∷ []
    → page_items codec (take (limit + 1) rest) limit
      ≡ ok (take limit rest, some (encode_cursor codec row.created_at row.id))
unfolding page_items
page_items-more codec limit rest before row h same =
    let more : leb (length (take (limit + 1) rest)) limit ≡ false =
      ground (arith, length-take (limit + 1) rest) in
    let next : limit + 1 ≡ suc limit = omega arith in
    let page : take limit (take (limit + 1) rest) ≡ take limit rest =
      rw next (take-take limit rest) in
    rw (more, page, same, last_row-append before row, page_items) refl

module _ (codec : CursorCodec) (laws : IsCodec codec) (order : IdOrder) (matches : Row → Bool)
    (table : List Row) (max_limit limit : ℕ) (distinct : IsDistinct table)
    (ids : All (HasId codec) table) (positive : 0 < limit) (le : limit ≤ max_limit) where
  -- The listing in its order.
  abbrev pub listing : List Row
  listing = order_by order (select matches table)

  selected-IsDistinct : IsDistinct (select matches table)
  selected-IsDistinct = select-IsDistinct order matches table distinct

  listing-HasId : All (HasId codec) listing
  listing-HasId =
      order_by-All order (HasId codec) (select matches table)
        (All-select order (HasId codec) matches table ids)

  query-after :
      (before : List Row) (row : Row) (rest : List Row)
      → listing ≡ before ++ row ∷ rest
      → query order matches (record { limit = limit; cursor = some (key order row) }) table
        ≡ take (limit + 1) rest
  unfolding query
  query-after before row rest same =
      let ordered : IsOrdered order (before ++ row ∷ rest) =
        subst (IsOrdered order) same
          (order_by-IsOrdered order (select matches table) selected-IsDistinct) in
      ap (take (limit + 1)) (
        sym (
          select-order_by order (is_after order (key order row)) (select matches table)
            selected-IsDistinct)
        ∙ ap (select (is_after order (key order row))) same
        ∙ select-after order before row rest ordered)

  walk_from :
      (fuel : ℕ) (cursor : Option Text) (k : Option (ℕ × Text)) (done rest : List Row)
      → page_request codec max_limit limit cursor ≡ ok (record { limit = limit; cursor = k })
      → query order matches (record { limit = limit; cursor = k }) table ≡ take (limit + 1) rest
      → listing ≡ done ++ rest
      → length rest < fuel
      → walk codec order matches table max_limit limit fuel cursor ≡ some (ok rest)
  unfolding walk list_rows
  walk_from zero cursor k done rest read got same enough = absurd (omega arith)
  walk_from (suc fuel) cursor k done rest read got same enough =
      elim (Bool-cases (leb (length rest) limit)) [
        | inl last ↦
            rw
              (
                read,
                got,
                page_items-last codec limit rest (leb→le (length rest) limit last),
                list_rows,
                walk,
              )
              refl
        | inr longer ↦
            let more : limit < length rest = ground arith in
            let (before, row, page, all_) = page_split limit rest more positive in
            let whole : listing ≡ (done ++ before) ++ row ∷ drop limit rest =
              same
              ∙ ap (λ t. done ++ t) all_
              ∙ sym (append_assoc done before (row ∷ drop limit rest)) in
            let (nonempty, short, fits) =
              All-row (HasId codec) (done ++ before) row (drop limit rest)
                (subst (All (HasId codec)) whole listing-HasId) in
            let split = ap (length {A = Row}) (take-append-drop limit rest) in
            let parts = length-append (take limit rest) (drop limit rest) in
            let later =
              walk_from fuel (some (encode_cursor codec row.created_at row.id))
                (some (key order row)) ((done ++ before) ++ row ∷ []) (drop limit rest)
                (page_request-encode_cursor codec laws max_limit limit row.created_at row.id
                  (omega arith) le nonempty short fits)
                (query-after (done ++ before) row (drop limit rest) whole)
                (whole ∙ sym (append_assoc (done ++ before) (row ∷ []) (drop limit rest)))
                (omega (arith, length-take limit rest)) in
            rw
              (
                read,
                got,
                page_items-more codec limit rest before row more page,
                later,
                list_rows,
                walk,
              )
              (ap (λ t. some (ok t)) (take-append-drop limit rest))
      ]

  first_page :
      page_request codec max_limit limit none ≡ ok (record { limit = limit; cursor = none })
  unfolding page_request read_cursor
  first_page =
      let one : ltb limit 1 ≡ false = ground arith in
      let most : ltb max_limit limit ≡ false = ground arith in rw (one, most, page_request) refl

  -- For rows with distinct ids that a cursor can carry, and pages of between one row and the most that
  -- the API allows, a client that
  -- follows the cursors to the end gets the rows that the listing selects, in the listing's order,
  -- in which each row is strictly after those before it.
  pub walk-listing :
      (walk codec order matches table max_limit limit (length listing + 1) none ≡ some (ok listing))
      × IsOrdered order listing
  unfolding query
  walk-listing = (
    walk_from (length listing + 1) none none [] listing first_page refl refl (omega arith),
    order_by-IsOrdered order (select matches table) selected-IsDistinct,
  )
