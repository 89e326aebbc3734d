-- ===== src/Risk.antt =====
-- Findings before they are scored: backend/app/risk.py. A text is its code points, which `<` compares, and
-- `created_at` is the text of `isoformat`. The buckets are compared with ASCII words, for which
-- lowering the ASCII letters is `str.lower`.
use web_security_audit_platf.Prelude.{
  ℕ, Bool, true, false, not, ◌&&◌, ◌||◌, Option, none, some, List, [], ◌∷◌, map, leb, codes, Result,
  ok, err, ◌>>=◌, if◌then◌else◌,
}
use web_security_audit_platf.Security.Paths.{Text, text_eq}
use web_security_audit_platf.Http.Cookies.{lower, strip}
use web_security_audit_platf.Risk.Order.{TotalOrder, nat_order, text_order, pair_order, is_same}
pub mod Order
pub mod Table
pub mod Loop
pub mod Best
pub mod Reordered
pub mod Score
pub mod Bounds
pub mod Storage
pub mod Stored
mod StorageExamples
mod Examples

-- The columns of a finding that are read here.
pub record Finding : Type 0 where
  pub id : Text
  pub dedupe_key : Option Text
  pub severity : Option Text
  pub confidence : Option Text
  pub created_at : Option Text

-- `value or fallback`
abbrev pub text_or : Text → Text → Text
text_or [] fallback = fallback
text_or (c ∷ s) fallback = c ∷ s

abbrev pub normalize_bucket : Option Text → Text → Text
normalize_bucket none fallback = fallback
normalize_bucket (some value) fallback = text_or (lower (strip value)) fallback

unfoldable pub severity_weight : Text → ℕ
severity_weight severity =
    if text_eq severity (codes "critical")
    then 100
    else if text_eq severity (codes "high")
    then 70
    else if text_eq severity (codes "medium")
    then 35
    else if text_eq severity (codes "low")
    then 15
    else 5

-- `int(multiplier * 100)`
unfoldable pub confidence_percent : Text → ℕ
confidence_percent confidence =
    if text_eq confidence (codes "confirmed")
    then 100
    else if text_eq confidence (codes "high")
    then 90
    else if text_eq confidence (codes "medium")
    then 70
    else 50

abbrev pub created_text : Finding → Text
created_text finding = elim finding.created_at [ none ↦ [] | some text ↦ text ]

abbrev pub Priority : Type 0
Priority = ℕ × (ℕ × (Text × Text))

unfoldable pub finding_priority : Finding → Priority
unfolding severity_weight confidence_percent
finding_priority finding = (
  severity_weight (normalize_bucket finding.severity (codes "info")),
  (
    confidence_percent (normalize_bucket finding.confidence (codes "low")),
    (created_text finding, finding.id),
  ),
)

abbrev pub priority_order : TotalOrder Priority
priority_order = pair_order nat_order (pair_order nat_order (pair_order text_order text_order))

-- `finding.dedupe_key or finding.id`
unfoldable pub dedupe_key_or_id : Finding → Text
dedupe_key_or_id finding = elim finding.dedupe_key [
  | none ↦ finding.id
  | some key ↦ text_or key finding.id
]

abbrev pub SortKey : Type 0
SortKey = Text × (Text × Text)

abbrev pub finding_sort_key : Finding → SortKey
finding_sort_key finding = (dedupe_key_or_id finding, (created_text finding, finding.id))

abbrev pub sort_key_order : TotalOrder SortKey
sort_key_order = pair_order text_order (pair_order text_order text_order)

-- `sorted(items, key=sort_key)`
module _ {A S : Type 0} (order : TotalOrder S) (sort_key : A → S) where
  unfoldable pub insert_sorted : A → List A → List A
  insert_sorted item [] = item ∷ []
  insert_sorted item (first ∷ rest) =
      if order.lt (sort_key first) (sort_key item)
      then first ∷ insert_sorted item rest
      else item ∷ first ∷ rest

  unfoldable pub sorted : List A → List A
  unfolding insert_sorted
  sorted [] = []
  sorted (item ∷ rest) = insert_sorted item (sorted rest)

pub data KeyError : Type 0 where
  missing_key : KeyError

abbrev pub found : {V : Type 0} → Option V → Result KeyError V
found none = err missing_key
found (some value) = ok value

-- A dict is the list of its items.
module _ {K V : Type 0} (order : TotalOrder K) where
  unfoldable pub lookup : K → List (K × V) → Option V
  lookup key [] = none
  lookup key ((at, value) ∷ rest) = if is_same order at key then some value else lookup key rest

  unfoldable pub put : K → V → List (K × V) → List (K × V)
  put key value [] = (key, value) ∷ []
  put key value ((at, old) ∷ rest) =
      if is_same order at key then (at, value) ∷ rest else (at, old) ∷ put key value rest

  -- `[best_by_key[key] for key in keys]`
  unfoldable pub values : List K → List (K × V) → Result KeyError (List V)
  unfolding lookup
  values [] dict = ok []
  values (key ∷ keys) dict = do
    value ← found (lookup key dict)
    rest ← values keys dict
    ok (value ∷ rest)

-- The loop that the two functions share, on items that have a key and a finding.
module _ {K V : Type 0} (order : TotalOrder K) (key_of : V → K) (finding_of : V → Finding) where
  abbrev pub is_better : V → Option V → Bool
  is_better item none = true
  is_better item (some current) =
      priority_order.lt (finding_priority (finding_of current)) (finding_priority (finding_of item))

  unfoldable pub keep : List (K × V) → V → List (K × V)
  unfolding lookup put
  keep best_by_key item =
      if is_better item (lookup order (key_of item) best_by_key)
      then put order (key_of item) item best_by_key
      else best_by_key

  unfoldable pub keep_all : List (K × V) → List V → List (K × V)
  unfolding keep
  keep_all best_by_key [] = best_by_key
  keep_all best_by_key (item ∷ items) = keep_all (keep best_by_key item) items

  unfoldable pub dedupe : {S : Type 0} → TotalOrder S → (V → S) → List V → Result KeyError (List V)
  unfolding keep_all values sorted
  dedupe sort_order sort_key items =
      let best_by_key = keep_all [] (sorted sort_order sort_key items) in
      values order (sorted order (λ key. key) (map (λ entry. entry.0) best_by_key)) best_by_key

unfoldable pub dedupe_findings : List Finding → Result KeyError (List Finding)
unfolding dedupe
dedupe_findings =
    dedupe text_order dedupe_key_or_id (λ finding. finding) sort_key_order finding_sort_key

unfoldable pub dedupe_findings_by_subject :
    List (Text × Finding) → Result KeyError (List (Text × Finding))
unfolding dedupe
dedupe_findings_by_subject =
    dedupe (pair_order text_order text_order) (λ item. (item.0, dedupe_key_or_id item.1))
      (λ item. item.1) (pair_order text_order sort_key_order)
      (λ item. (item.0, finding_sort_key item.1))
