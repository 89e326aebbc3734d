-- ===== src/Crawler/Bounds.antt =====
-- The crawl ends within its bounds, and requests no URL twice.
use web_security_audit_platf.Prelude.{
  ℕ, zero, suc, ◌+◌, ◌≡◌, ◌⊎◌, refl, leb, false, Option, none, some, List, [], ◌∷◌, ◌++◌, length,
  length-append, All, All-append, arith, Bool-cases, inl, inr,
}
use web_security_audit_platf.Security.Paths.{Text, text_eq}
use web_security_audit_platf.Crawler.{
  NormalizedTargetUrl, CrawledPage, Web, CrawlState, Visit, moved_on, fetched, is_seen, visit_page,
  visit_url, visit, Normalization, normal, refused, unreadable, link_entry, Ending, returned,
  raised, aborted, fetched_page, children, link_entries, joined_entry, crawl_loop, initial_state,
}

-- The crawl returns, unless there is a link that cannot be joined, or a URL that cannot be split.
abbrev pub IsExplained : Web → Ending → Type 0
IsExplained web returned = Unit {0}
IsExplained web raised =
    ((base : Text) × (link : Text) × (web.join base link ≡ none))
    ⊎ ((url : Text) × (web.normalize url ≡ unreadable))

module _ (web : Web) (start : NormalizedTargetUrl) (max_depth : ℕ) (P : ℕ → CrawlState → Type 0)
    (Q : Text × ℕ → Type 0) where
  abbrev pub SomeLeft : CrawlState → Type 0
  SomeLeft s = (left : ℕ) × P left s

  -- What a turn must keep: `P` at the pages that are left, and `Q` of what it adds to the queue.
  abbrev pub Kept : ℕ → Visit → Type 0
  Kept left (moved_on s) = P (suc left) s
  Kept left (fetched s entries) = P left s × All Q entries
  Kept left (aborted s) = IsExplained web raised × SomeLeft s

  abbrev pub EachTurnKeeps : Type 0
  EachTurnKeeps =
      (raw_url : Text) (depth left : ℕ) (s : CrawlState)
      → Q (raw_url, depth)
      → P (suc left) s
      → Kept left (visit web start max_depth raw_url depth s)

  abbrev pub Ended : Ending × CrawlState → Type 0
  Ended (ending, s) = SomeLeft s × IsExplained web ending

  pub crawl_loop-keeps :
      EachTurnKeeps
      → (left : ℕ) (queue : List (Text × ℕ)) (s : CrawlState) → All Q queue
      → P left s
      → Ended (crawl_loop web start max_depth left queue s)
  unfolding crawl_loop
  crawl_loop-keeps step zero queue s q p = ((zero, p), tt)
  crawl_loop-keeps step (suc left) [] s q p = ((suc left, p), tt)
  crawl_loop-keeps step (suc left) ((raw_url, depth) ∷ queue) s q p =
      turn (visit web start max_depth raw_url depth s) (step raw_url depth left s q.0 p)
        (λ s' h. crawl_loop-keeps step (suc left) queue s' q.1 h)
        (λ s' entries h more.
          crawl_loop-keeps step left (queue ++ entries) s' (All-append Q queue entries q.1 more) h)
    where
      turn :
          (v : Visit)
          → Kept left v
          → ((s' : CrawlState)
              → P (suc left) s'
              → Ended (crawl_loop web start max_depth (suc left) queue s'))
          → ((s' : CrawlState) (entries : List (Text × ℕ))
              → P left s'
              → All Q entries
              → Ended (crawl_loop web start max_depth left (queue ++ entries) s'))
          → Ended (elim v [
            | moved_on s' ↦ crawl_loop web start max_depth (suc left) queue s'
            | fetched s' entries ↦ crawl_loop web start max_depth left (queue ++ entries) s'
            | aborted s' ↦ (raised, s')
          ])
      turn (moved_on s') k on_moved on_fetched = on_moved s' k
      turn (fetched s' entries) k on_moved on_fetched = on_fetched s' entries k.0 k.1
      turn (aborted s') k on_moved on_fetched = (k.1, k.0)

-- No URL stands twice in the list.
abbrev pub IsDistinct : List Text → Type 0
IsDistinct [] = Unit {0}
IsDistinct (url ∷ urls) = (is_seen url urls ≡ false) × IsDistinct urls

text_eq_comm : (s t : Text) → text_eq s t ≡ text_eq t s
text_eq_comm [] [] = refl
text_eq_comm [] (b ∷ t) = refl
text_eq_comm (a ∷ s) [] = refl
text_eq_comm (a ∷ s) (b ∷ t) = ground (arith, text_eq_comm s t)

is_seen-append :
    (url x : Text) (urls : List Text)
    → is_seen url urls ≡ false
    → text_eq url x ≡ false
    → is_seen url (urls ++ x ∷ []) ≡ false
is_seen-append url x [] h n = ground arith
is_seen-append url x (y ∷ urls) h n = let ih = is_seen-append url x urls in ground arith

IsDistinct-append :
    (x : Text) (urls : List Text)
    → is_seen x urls ≡ false
    → IsDistinct urls
    → IsDistinct (urls ++ x ∷ [])
IsDistinct-append x [] h d = (refl, tt)
IsDistinct-append x (y ∷ urls) h d =
    let comm = text_eq_comm x y in
    (is_seen-append y x urls d.0 (ground arith), IsDistinct-append x urls (ground arith) d.1)

module _ (web : Web) (start : NormalizedTargetUrl) (max_depth : ℕ) where
  link_entry-IsExplained :
      (seen : List Text) (depth : ℕ) (url : Text) (link : Normalization)
      (rest : Option (List (Text × ℕ)))
      → web.normalize url ≡ link
      → (rest ≡ none → IsExplained web raised)
      → link_entry start seen depth link rest ≡ none
      → IsExplained web raised
  link_entry-IsExplained seen depth url unreadable rest e k h = inr (url, e)
  link_entry-IsExplained seen depth url refused rest e k h = k h
  link_entry-IsExplained seen depth url (normal n) none e k h = k refl
  link_entry-IsExplained seen depth url (normal n) (some rest) e k h = absurd (ground arith)

  joined_entry-IsExplained :
      (seen : List Text) (depth : ℕ) (base link : Text) (url : Option Text)
      (rest : Option (List (Text × ℕ)))
      → web.join base link ≡ url
      → (rest ≡ none → IsExplained web raised)
      → joined_entry web start seen depth url rest ≡ none
      → IsExplained web raised
  joined_entry-IsExplained seen depth base link none rest e k h = inl (base, link, e)
  joined_entry-IsExplained seen depth base link (some url) rest e k h =
      link_entry-IsExplained seen depth url (web.normalize url) rest refl k h

  link_entries-IsExplained :
      (seen : List Text) (depth : ℕ) (base : Text) (links : List Text)
      → link_entries web start seen depth base links ≡ none
      → IsExplained web raised
  unfolding link_entries
  link_entries-IsExplained seen depth base [] h = absurd (ground arith)
  link_entries-IsExplained seen depth base (link ∷ links) h =
      joined_entry-IsExplained seen depth base link (web.join base link)
        (link_entries web start seen depth base links) refl
        (link_entries-IsExplained seen depth base links) h

  pub children-IsExplained :
      (seen : List Text) (depth : ℕ) (page : CrawledPage)
      → children web start seen max_depth depth page ≡ none
      → IsExplained web raised
  children-IsExplained seen depth page h = elim (Bool-cases (leb max_depth depth)) [
    | inl deep ↦ absurd (ground arith)
    | inr shallow ↦ link_entries-IsExplained seen depth page.url page.links (rw shallow at h)
  ]

module _ (web : Web) (start : NormalizedTargetUrl) (max_depth page_cap : ℕ) where
  -- The pages and the number that is left make up the cap.
  abbrev IsBounded : ℕ → CrawlState → Type 0
  IsBounded left s = (length s.pages + left ≡ page_cap) × IsDistinct s.seen

  abbrev Anything : Text × ℕ → Type 0
  Anything entry = Unit {0}

  All-Anything : (entries : List (Text × ℕ)) → All Anything entries
  All-Anything [] = tt
  All-Anything (e ∷ es) = (tt, All-Anything es)

  fetched_page-IsBounded :
      (left : ℕ) (s : CrawlState) (entries : Option (List (Text × ℕ)))
      → (entries ≡ none → IsExplained web raised)
      → IsBounded left s
      → Kept web start max_depth IsBounded Anything left (fetched_page s entries)
  fetched_page-IsBounded left s none k h = (k refl, (left, h))
  fetched_page-IsBounded left s (some entries) k h = (h, All-Anything entries)

  visit_page-IsBounded :
      (depth left : ℕ) (url : Text) (s : CrawlState) (page : Option CrawledPage)
      → is_seen url s.seen ≡ false
      → IsBounded (suc left) s
      → Kept web start max_depth IsBounded Anything left
          (visit_page web start max_depth depth url s page)
  visit_page-IsBounded depth left url s none new h = (h.0, IsDistinct-append url s.seen new h.1)
  visit_page-IsBounded depth left url s (some page) new h =
      let added = length-append s.pages (page ∷ []) in
      fetched_page-IsBounded left _ (children web start (s.seen ++ url ∷ []) max_depth depth page)
        (children-IsExplained web start max_depth (s.seen ++ url ∷ []) depth page)
        (ground arith, IsDistinct-append url s.seen new h.1)

  visit_url-IsBounded :
      (raw_url : Text) (depth left : ℕ) (s : CrawlState) (normalized : Normalization)
      → web.normalize raw_url ≡ normalized
      → IsBounded (suc left) s
      → Kept web start max_depth IsBounded Anything left
          (visit_url web start max_depth depth raw_url s normalized)
  visit_url-IsBounded raw_url depth left s refused e h = h
  visit_url-IsBounded raw_url depth left s unreadable e h = (inr (raw_url, e), (suc left, h))
  visit_url-IsBounded raw_url depth left s (normal n) e h =
      elim (Bool-cases (is_seen n.normalized_url s.seen)) [
        | inl seen ↦ rw seen h
        | inr new ↦
            rw new
              (visit_page-IsBounded depth left n.normalized_url s (web.get n.normalized_url) new h)
      ]

  pub crawl_loop-IsBounded :
      (queue : List (Text × ℕ))
      → Ended web start max_depth IsBounded Anything
          (crawl_loop web start max_depth page_cap queue initial_state)
  unfolding visit
  crawl_loop-IsBounded queue =
      crawl_loop-keeps web start max_depth IsBounded Anything
        (λ raw_url depth left s q h.
          visit_url-IsBounded raw_url depth left s (web.normalize raw_url) refl h)
        page_cap queue initial_state (All-Anything queue) (omega arith, tt)
