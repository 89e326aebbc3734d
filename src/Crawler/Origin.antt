-- ===== src/Crawler/Origin.antt =====
-- The crawl requests only the start URL and links of its origin.
use mathlib.Core.Path.{subst}
use web_security_audit_platf.Prelude.{
  ℕ, suc, ◌+◌, ◌≤◌, ◌≡◌, ◌⊎◌, refl, true, not, ◌&&◌, Option, none, some, List, [], ◌∷◌, ◌++◌, All,
  All-append, arith, leb, Bool-cases, inl, inr,
}
use web_security_audit_platf.Security.Paths.{Text}
use web_security_audit_platf.Crawler.{
  NormalizedTargetUrl, Normalization, normal, refused, unreadable, CrawledPage, Web, CrawlState,
  Ending, raised, is_seen, same_origin, with_entry, link_entry, joined_entry, link_entries,
  children, fetched_page, visit_page, visit_url, visit, crawl_loop, initial_state, crawl_from,
  crawl_site,
}
use web_security_audit_platf.Crawler.Bounds.{
  Kept, Ended, IsExplained, children-IsExplained, crawl_loop-keeps,
}

-- The normal form of a link that has the scheme, the host and the port of `start`.
abbrev pub IsLinkOf : Web → NormalizedTargetUrl → Text → Type 0
IsLinkOf web start url =
    (link : Text) × (n : NormalizedTargetUrl) × (web.normalize link ≡ normal n)
    × (n.normalized_url ≡ url)
    × (same_origin n start ≡ true)

-- What the queue may hold: the start URL, and links of its origin.
abbrev pub IsQueued : Web → Text → NormalizedTargetUrl → Text → Type 0
IsQueued web start_url start url = (url ≡ start_url) ⊎ IsLinkOf web start url

-- The URL is the normal form of one that may be queued.
abbrev pub IsInScope : Web → Text → NormalizedTargetUrl → Text → Type 0
IsInScope web start_url start url =
    (queued : Text) × (n : NormalizedTargetUrl) × (web.normalize queued ≡ normal n)
    × (n.normalized_url ≡ url)
    × IsQueued web start_url start queued

module _ (web : Web) (start_url : Text) (start : NormalizedTargetUrl) (max_depth : ℕ) where
  abbrev pub EntryInScope : Text × ℕ → Type 0
  EntryInScope entry = IsQueued web start_url start entry.0 × (entry.1 ≤ max_depth)

  abbrev pub SeenInScope : ℕ → CrawlState → Type 0
  SeenInScope left s = All (IsInScope web start_url start) s.seen

  abbrev EntriesInScope : Option (List (Text × ℕ)) → Type 0
  EntriesInScope none = Unit {0}
  EntriesInScope (some entries) = All EntryInScope entries

  with_entry-InScope :
      (entry : Text × ℕ) (rest : Option (List (Text × ℕ)))
      → EntryInScope entry
      → EntriesInScope rest
      → EntriesInScope (with_entry entry rest)
  with_entry-InScope entry none h k = tt
  with_entry-InScope entry (some rest) h k = (h, k)

  link_entry-InScope :
      (seen : List Text) (depth : ℕ) (url : Text) (rest : Option (List (Text × ℕ)))
      (link : Normalization)
      → web.normalize url ≡ link
      → depth + 1 ≤ max_depth
      → EntriesInScope rest
      → EntriesInScope (link_entry start seen depth link rest)
  link_entry-InScope seen depth url rest unreadable e le h = tt
  link_entry-InScope seen depth url rest refused e le h = h
  link_entry-InScope seen depth url rest (normal n) e le h =
      elim (Bool-cases (same_origin n start && not (is_seen n.normalized_url seen))) [
        | inl wanted ↦ rw wanted (
            with_entry-InScope (n.normalized_url, depth + 1) rest
              (inr (url, n, e, refl, ground arith), le) h)
        | inr other ↦ rw other h
      ]

  joined_entry-InScope :
      (seen : List Text) (depth : ℕ) (url : Option Text) (rest : Option (List (Text × ℕ)))
      → depth + 1 ≤ max_depth
      → EntriesInScope rest
      → EntriesInScope (joined_entry web start seen depth url rest)
  joined_entry-InScope seen depth none rest le h = tt
  joined_entry-InScope seen depth (some url) rest le h =
      link_entry-InScope seen depth url rest (web.normalize url) refl le h

  link_entries-InScope :
      (seen : List Text) (depth : ℕ) (base : Text) (links : List Text)
      → depth + 1 ≤ max_depth
      → EntriesInScope (link_entries web start seen depth base links)
  unfolding link_entries
  link_entries-InScope seen depth base [] le = tt
  link_entries-InScope seen depth base (link ∷ links) le =
      joined_entry-InScope seen depth (web.join base link)
        (link_entries web start seen depth base links) le
        (link_entries-InScope seen depth base links le)

  children-InScope :
      (seen : List Text) (depth : ℕ) (page : CrawledPage)
      → EntriesInScope (children web start seen max_depth depth page)
  children-InScope seen depth page = elim (Bool-cases (leb max_depth depth)) [
    | inl deep ↦ rw deep tt
    | inr shallow ↦ rw shallow (link_entries-InScope seen depth page.url page.links (ground arith))
  ]

  seen-append :
      (url : Text) (s : CrawlState)
      → IsInScope web start_url start url
      → All (IsInScope web start_url start) s.seen
      → All (IsInScope web start_url start) (s.seen ++ url ∷ [])
  seen-append url s scope h =
      All-append (IsInScope web start_url start) s.seen (url ∷ []) h (scope, tt)

  fetched_page-InScope :
      (left : ℕ) (s : CrawlState) (entries : Option (List (Text × ℕ)))
      → (entries ≡ none → IsExplained web raised)
      → SeenInScope left s
      → EntriesInScope entries
      → Kept web start max_depth SeenInScope EntryInScope left (fetched_page s entries)
  fetched_page-InScope left s none k h e = (k refl, (left, h))
  fetched_page-InScope left s (some entries) k h e = (h, e)

  visit_page-InScope :
      (depth left : ℕ) (url : Text) (s : CrawlState) (page : Option CrawledPage)
      → IsInScope web start_url start url
      → SeenInScope (suc left) s
      → Kept web start max_depth SeenInScope EntryInScope left
          (visit_page web start max_depth depth url s page)
  visit_page-InScope depth left url s none scope h = seen-append url s scope h
  visit_page-InScope depth left url s (some page) scope h =
      fetched_page-InScope left _ (children web start (s.seen ++ url ∷ []) max_depth depth page)
        (children-IsExplained web start max_depth (s.seen ++ url ∷ []) depth page)
        (seen-append url s scope h) (children-InScope (s.seen ++ url ∷ []) depth page)

  visit_url-InScope :
      (raw_url : Text) (depth left : ℕ) (s : CrawlState) (normalized : Normalization)
      → web.normalize raw_url ≡ normalized
      → EntryInScope (raw_url, depth)
      → SeenInScope (suc left) s
      → Kept web start max_depth SeenInScope EntryInScope left
          (visit_url web start max_depth depth raw_url s normalized)
  visit_url-InScope raw_url depth left s unreadable e entry h = (inr (raw_url, e), (suc left, h))
  visit_url-InScope raw_url depth left s refused e entry h = h
  visit_url-InScope raw_url depth left s (normal n) e entry h =
      elim (Bool-cases (is_seen n.normalized_url s.seen)) [
        | inl seen ↦ rw seen h
        | inr new ↦ rw new (
            visit_page-InScope depth left n.normalized_url s (web.get n.normalized_url)
              (raw_url, n, e, refl, entry.0) h)
      ]

  pub crawl_loop-InScope :
      (page_cap : ℕ) (queue : List (Text × ℕ))
      → All EntryInScope queue
      → Ended web start max_depth SeenInScope EntryInScope
          (crawl_loop web start max_depth page_cap queue initial_state)
  unfolding visit
  crawl_loop-InScope page_cap queue q =
      crawl_loop-keeps web start max_depth SeenInScope EntryInScope
        (λ raw_url depth left s entry h.
          visit_url-InScope raw_url depth left s (web.normalize raw_url) refl entry h)
        page_cap queue initial_state q tt

-- However a crawl ends, every URL that it has requested is the normal form of the URL that it starts
-- from, or of a normalised link with the scheme, the host and the port of that URL, whatever links
-- the pages hold.
pub crawl_site-IsInScope :
    (web : Web) (start_url : Text) (max_depth page_cap : ℕ) (start : NormalizedTargetUrl)
    (ending : Ending) (s : CrawlState)
    → web.normalize start_url ≡ normal start
    → crawl_site web start_url max_depth page_cap ≡ some (ending, s)
    → All (IsInScope web start_url start) s.seen
unfolding crawl_site
crawl_site-IsInScope web start_url max_depth page_cap start ending s valid done =
    let ((left, seen), explained) =
      crawl_loop-InScope web start_url start max_depth page_cap ((start_url, 0) ∷ [])
        ((inl refl, omega arith), tt) in
    subst (λ t. All (IsInScope web start_url start) t.1.seen)
      (result (web.normalize start_url) valid done) seen
  where
    result :
        (n : Normalization)
        → n ≡ normal start
        → crawl_from web start_url max_depth page_cap n ≡ some (ending, s)
        → crawl_loop web start max_depth page_cap ((start_url, 0) ∷ []) initial_state ≡ (ending, s)
    result n e h = ground (arith, e, h)
