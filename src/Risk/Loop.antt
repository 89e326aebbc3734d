-- ===== src/Risk/Loop.antt =====
-- The loop of `dedupe_findings`: what a lookup says of the items so far.
use web_security_audit_platf.Prelude.{
  ◌≡◌, ◌≢◌, refl, sym, ◌∙◌, Bool, true, false, Option, none, some, List, [], ◌∷◌, Bool-cases,
  Option-cases, ◌⊎◌, inl, inr, false≢true,
}
use mathlib.Core.Path.{subst}
use web_security_audit_platf.Risk.Order.{TotalOrder}
use web_security_audit_platf.Risk.{
  Finding, finding_priority, priority_order, lookup, is_better, keep, keep_all,
}
use web_security_audit_platf.Risk.Table.{
  IsAmong, IsDistinct, keys, lookup-put_same, lookup-put_other, put-IsDistinct, same_or_not,
}

-- No other item ranks above it.
abbrev pub outranks : Finding → Finding → Bool
outranks a b = priority_order.lt (finding_priority b) (finding_priority a)

outranks_irrefl : (a : Finding) → outranks a a ≡ false
outranks_irrefl a = priority_order.irrefl (finding_priority a)

outranks_left :
    (a b c : Finding) → outranks a b ≡ true → outranks c b ≡ false → outranks c a ≡ false
outranks_left a b c h k = elim (Bool-cases (outranks c a)) [
  | inl above ↦ absurd (
      false≢true (
        sym k
        ∙ priority_order.trans (finding_priority b) (finding_priority a) (finding_priority c) h
            above))
  | inr below ↦ below
]

module _ {K V : Type 0} (order : TotalOrder K) (key_of : V → K) (finding_of : V → Finding) where
  abbrev pub IsBestOf : List V → V → Type 0
  IsBestOf items best =
      IsAmong best items
      × ((x : V)
          → IsAmong x items
          → key_of x ≡ key_of best
          → outranks (finding_of x) (finding_of best) ≡ false)

  -- What a lookup of a key says of the items so far.
  abbrev pub Holds : List V → K → Option V → Type 0
  Holds items k none = (x : V) → IsAmong x items → key_of x ≢ k
  Holds items k (some best) =
      IsAmong best items
      × ((key_of best ≡ k)
          × ((x : V)
              → IsAmong x items
              → key_of x ≡ k
              → outranks (finding_of x) (finding_of best) ≡ false))

  Holds-other :
      (seen : List V) (x : V) (k : K) (o : Option V)
      → key_of x ≢ k
      → Holds seen k o
      → Holds (x ∷ seen) k o
  Holds-other seen x k none ne h = λ y at. elim at [ inl same ↦ rw same ne | inr later ↦ h y later ]
  Holds-other seen x k (some best) ne h = (
    inr h.0,
    (
      h.1.0,
      λ y at e. elim at [ inl same ↦ absurd (ne (rw (← same) e)) | inr later ↦ h.1.1 y later e ],
    ),
  )

  keep-Holds_same :
      (seen : List V) (dict : List (K × V)) (x : V)
      → Holds seen (key_of x) (lookup order (key_of x) dict)
      → Holds (x ∷ seen) (key_of x) (lookup order (key_of x) (keep order key_of finding_of dict x))
  unfolding keep
  keep-Holds_same seen dict x h = elim (Option-cases (lookup order (key_of x) dict)) [
    | inl absent ↦
        let none_before = subst (Holds seen (key_of x)) absent h in
        rw (absent, keep, lookup-put_same order (key_of x) x dict)
          (
            inl refl,
            (
              refl,
              λ y at e. elim at [
                | inl same ↦ rw same (outranks_irrefl (finding_of x))
                | inr later ↦ absurd (none_before y later e)
              ],
            ),
          )
    | inr (current, present) ↦
        let best = subst (Holds seen (key_of x)) present h in
        elim (Bool-cases (outranks (finding_of x) (finding_of current))) [
          | inl above ↦
              rw (present, above, keep, lookup-put_same order (key_of x) x dict)
                (
                  inl refl,
                  (
                    refl,
                    λ y at e. elim at [
                      | inl same ↦ rw same (outranks_irrefl (finding_of x))
                      | inr later ↦
                          outranks_left (finding_of x) (finding_of current) (finding_of y) above
                            (best.1.1 y later e)
                    ],
                  ),
                )
          | inr below ↦
              rw (present, below, keep, present)
                (
                  inr best.0,
                  (
                    best.1.0,
                    λ y at e. elim at [ inl same ↦ rw same below | inr later ↦ best.1.1 y later e ],
                  ),
                )
        ]
  ]

  lookup-keep_other :
      (dict : List (K × V)) (x : V) (k : K)
      → key_of x ≢ k
      → lookup order k (keep order key_of finding_of dict x) ≡ lookup order k dict
  unfolding keep
  lookup-keep_other dict x k ne =
      elim (Bool-cases (is_better order key_of finding_of x (lookup order (key_of x) dict))) [
        | inl better ↦ rw (better, keep) (lookup-put_other order k (key_of x) x dict ne)
        | inr worse ↦ rw (worse, keep) refl
      ]

  keep-Holds :
      (seen : List V) (dict : List (K × V)) (x : V)
      → ((k : K) → Holds seen k (lookup order k dict))
      → (k : K) → Holds (x ∷ seen) k (lookup order k (keep order key_of finding_of dict x))
  keep-Holds seen dict x h k = elim (same_or_not order (key_of x) k) [
    | inl e ↦
        subst (λ j. Holds (x ∷ seen) j (lookup order j (keep order key_of finding_of dict x))) e
          (keep-Holds_same seen dict x (h (key_of x)))
    | inr ne ↦
        rw (lookup-keep_other dict x k ne) (Holds-other seen x k (lookup order k dict) ne (h k))
  ]

  keep-IsDistinct :
      (dict : List (K × V)) (x : V)
      → IsDistinct (keys order dict)
      → IsDistinct (keys order (keep order key_of finding_of dict x))
  unfolding keep
  keep-IsDistinct dict x h =
      elim (Bool-cases (is_better order key_of finding_of x (lookup order (key_of x) dict))) [
        | inl better ↦ rw (better, keep) (put-IsDistinct order (key_of x) x dict h)
        | inr worse ↦ rw (worse, keep) h
      ]

  pub keep_all-IsDistinct :
      (dict : List (K × V)) (xs : List V)
      → IsDistinct (keys order dict)
      → IsDistinct (keys order (keep_all order key_of finding_of dict xs))
  unfolding keep_all
  keep_all-IsDistinct dict [] h = h
  keep_all-IsDistinct dict (x ∷ xs) h =
      keep_all-IsDistinct (keep order key_of finding_of dict x) xs (keep-IsDistinct dict x h)

  -- The items so far and those to come are all items.
  pub record Split (seen rest items : List V) : Type 0 where
    pub from_seen : (x : V) → IsAmong x seen → IsAmong x items
    pub from_rest : (x : V) → IsAmong x rest → IsAmong x items
    pub either : (x : V) → IsAmong x items → IsAmong x seen ⊎ IsAmong x rest

  Holds-Split :
      (seen items : List V) (k : K) (o : Option V)
      → Split seen [] items
      → Holds seen k o
      → Holds items k o
  Holds-Split seen items k none split h =
      λ x at. elim (split.either x at) [ inl before ↦ h x before | inr never ↦ absurd never ]
  Holds-Split seen items k (some best) split h = (
    split.from_seen best h.0,
    (
      h.1.0,
      λ x at e. elim (split.either x at) [
        | inl before ↦ h.1.1 x before e
        | inr never ↦ absurd never
      ],
    ),
  )

  next_Split :
      (seen : List V) (x : V) (rest items : List V)
      → Split seen (x ∷ rest) items
      → Split (x ∷ seen) rest items
  next_Split seen x rest items split = record {
    from_seen = λ y at. elim at [
      | inl same ↦ split.from_rest y (inl same)
      | inr before ↦ split.from_seen y before
    ];
    from_rest = λ y at. split.from_rest y (inr at);
    either = λ y at. elim (split.either y at) [
      | inl before ↦ inl (inr before)
      | inr (inl same) ↦ inl (inl same)
      | inr (inr later) ↦ inr later
    ];
  }

  pub keep_all-Holds :
      (seen rest items : List V) (dict : List (K × V))
      → Split seen rest items
      → ((k : K) → Holds seen k (lookup order k dict))
      → (k : K) → Holds items k (lookup order k (keep_all order key_of finding_of dict rest))
  unfolding keep_all
  keep_all-Holds seen [] items dict split h k =
      Holds-Split seen items k (lookup order k dict) split (h k)
  keep_all-Holds seen (x ∷ rest) items dict split h k =
      keep_all-Holds (x ∷ seen) rest items (keep order key_of finding_of dict x)
        (next_Split seen x rest items split) (keep-Holds seen dict x h) k
