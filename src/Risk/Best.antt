-- ===== src/Risk/Best.antt =====
-- `dedupe_findings` keeps the best finding of each key.
use web_security_audit_platf.Prelude.{
  ◌≡◌, ◌≢◌, refl, ◌∙◌, none, List, [], ◌∷◌, map, All, Option-cases, inl, inr, ok,
}
use mathlib.Core.Path.{subst}
use web_security_audit_platf.Security.Paths.{Text}
use web_security_audit_platf.Risk.Order.{TotalOrder, text_order, pair_order}
use web_security_audit_platf.Risk.{
  Finding, sorted, lookup, values, keep_all, dedupe, dedupe_findings, dedupe_findings_by_subject,
  dedupe_key_or_id, finding_sort_key, sort_key_order,
}
use web_security_audit_platf.Risk.Table.{
  IsAmong, All-at, All-from, IsIncreasing, sorted-All, sorted-at, sorted-IsIncreasing, keys,
  lookup-keys, lookup-at,
}
use web_security_audit_platf.Risk.Loop.{IsBestOf, Holds, Split, keep_all-IsDistinct, keep_all-Holds}

module _ {K V : Type 0} (order : TotalOrder K) (key_of : V → K) (finding_of : V → Finding) where
  values-IsBestOf :
      (items : List V) (dict : List (K × V))
      → ((k : K) → Holds order key_of finding_of items k (lookup order k dict))
      → (ks : List K) → All (λ k. lookup order k dict ≢ none) ks
      → (result : List V) × ((values order ks dict ≡ ok result)
          × ((map key_of result ≡ ks) × All (IsBestOf order key_of finding_of items) result))
  unfolding values
  values-IsBestOf items dict h [] all = ([], (refl, (refl, tt)))
  values-IsBestOf items dict h (k ∷ ks) all = elim (Option-cases (lookup order k dict)) [
    | inl absent ↦ absurd (all.0 absent)
    | inr (best, present) ↦
        let first = subst (Holds order key_of finding_of items k) present (h k) in
        let (rest, (returned, (same_keys, bests))) = values-IsBestOf items dict h ks all.1 in
        (
          best ∷ rest,
          (
            rw (present, returned) refl,
            (
              rw (first.1.0, same_keys) refl,
              ((first.0, λ x at e. first.1.1 x at (e ∙ first.1.0)), bests),
            ),
          ),
        )
  ]

  nothing_yet : (k : K) → Holds order key_of finding_of [] k (lookup order k [])
  unfolding lookup
  nothing_yet k x at = absurd at

  Holds-at :
      (items : List V) (dict : List (K × V)) (x : V)
      → IsAmong x items
      → Holds order key_of finding_of items (key_of x) (lookup order (key_of x) dict)
      → IsAmong (key_of x) (keys order dict)
  Holds-at items dict x at h = elim (Option-cases (lookup order (key_of x) dict)) [
    | inl absent ↦
        absurd (subst (Holds order key_of finding_of items (key_of x)) absent h x at refl)
    | inr (best, present) ↦ lookup-at order (key_of x) best dict present
  ]

  -- One item of each key, none of the key ranking above it, in the order of the keys.
  pub record IsDeduplicated (items result : List V) : Type 0 where
    pub best : All (IsBestOf order key_of finding_of items) result
    pub complete : (x : V) → IsAmong x items → IsAmong (key_of x) (map key_of result)
    pub increasing : IsIncreasing order (map key_of result)

  pub dedupe-IsDeduplicated :
      {S : Type 0} (sort_order : TotalOrder S) (sort_key : V → S) (items : List V)
      → (result : List V) × ((dedupe order key_of finding_of sort_order sort_key items ≡ ok result)
          × IsDeduplicated items result)
  unfolding dedupe
  dedupe-IsDeduplicated sort_order sort_key items =
      let dict = keep_all order key_of finding_of [] (sorted sort_order sort_key items) in
      let all_keys = sorted order (λ key. key) (keys order dict) in
      let split : Split order key_of finding_of [] (sorted sort_order sort_key items) items =
        record {
          from_seen = λ x at. absurd at;
          from_rest = λ x at.
              All-at (λ y. IsAmong y items) (sorted sort_order sort_key items)
                (sorted-All sort_order sort_key (λ y. IsAmong y items) items
                  (All-from (λ y. IsAmong y items) items (λ y here. here)))
                x at;
          either = λ x at. inr (sorted-at sort_order sort_key x items at);
        } in
      let holds : (k : K) → Holds order key_of finding_of items k (lookup order k dict) =
        keep_all-Holds order key_of finding_of [] (sorted sort_order sort_key items) items [] split
          (λ k. nothing_yet k) in
      let present : All (λ k. lookup order k dict ≢ none) all_keys =
        sorted-All order (λ key. key) (λ k. lookup order k dict ≢ none) (keys order dict)
          (All-from (λ k. lookup order k dict ≢ none) (keys order dict)
            (λ k at. lookup-keys order k dict at)) in
      let (result, (returned, (same_keys, bests))) =
        values-IsBestOf items dict holds all_keys present in
      (
        result,
        (
          returned,
          record {
            best = bests;
            complete = λ x at. rw same_keys (
                sorted-at order (λ key. key) (key_of x) (keys order dict)
                  (Holds-at items dict x at (holds (key_of x))));
            increasing = rw same_keys (
                sorted-IsIncreasing order (keys order dict) (
                  keep_all-IsDistinct order key_of finding_of [] (sorted sort_order sort_key items)
                    tt));
          },
        ),
      )

abbrev pub IsDeduplicatedFindings : List Finding → List Finding → Type 0
IsDeduplicatedFindings findings result =
    IsDeduplicated text_order dedupe_key_or_id (λ finding. finding) findings result

-- `dedupe_findings` returns: its lookups find every key. The result has the key of each finding, in
-- strictly increasing order, and for each key one of the findings that have it, above which none of
-- them ranks by severity, confidence, time and id in this order.
pub dedupe_findings-IsDeduplicated :
    (findings : List Finding)
    → (result : List Finding) × ((dedupe_findings findings ≡ ok result)
        × IsDeduplicatedFindings findings result)
unfolding dedupe_findings
dedupe_findings-IsDeduplicated =
    dedupe-IsDeduplicated text_order dedupe_key_or_id (λ finding. finding) sort_key_order
      finding_sort_key

abbrev pub subject_key : Text × Finding → Text × Text
subject_key item = (item.0, dedupe_key_or_id item.1)

pub dedupe_findings_by_subject-IsDeduplicated :
    (findings : List (Text × Finding))
    → (result : List (Text × Finding)) × ((dedupe_findings_by_subject findings ≡ ok result)
        × IsDeduplicated
            (pair_order text_order text_order)
            subject_key
            (λ item. item.1)
            findings
            result)
unfolding dedupe_findings_by_subject
dedupe_findings_by_subject-IsDeduplicated =
    dedupe-IsDeduplicated (pair_order text_order text_order) subject_key (λ item. item.1)
      (pair_order text_order sort_key_order) (λ item. (item.0, finding_sort_key item.1))
