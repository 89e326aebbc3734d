-- ===== src/Crawler.antt =====
-- `crawl_site` of backend/app/scanner/crawler.py, with no checkpoint. The client, the normalisation of
-- URLs and `urljoin` are an interface.
use web_security_audit_platf.Prelude.{
  ℕ, zero, suc, ◌+◌, Bool, true, false, not, ◌&&◌, ◌||◌, Option, none, some, List, [], ◌∷◌, ◌++◌,
  any, leb, ◌==◌, if◌then◌else◌,
}
use web_security_audit_platf.Security.Paths.{Text, text_eq}
pub mod Bounds
pub mod Origin
mod Examples

pub record NormalizedTargetUrl : Type 0 where
  pub normalized_url : Text
  pub scheme : Text
  pub host : Text
  pub port : ℕ

-- The fields of a page that the loop reads.
pub record CrawledPage : Type 0 where
  pub url : Text
  pub links : List Text

-- `normalize_target_url` returns, raises a `TargetUrlError`, or lets a `ValueError` of `urlsplit` out.
pub data Normalization : Type 0 where
  normal : NormalizedTargetUrl → Normalization
  refused unreadable : Normalization

-- `get` has no result where the source raises what the loop catches, and `join` none where `urljoin`
-- raises a `ValueError`, which the loop does not catch.
pub record Web : Type 0 where
  pub normalize : Text → Normalization
  pub get : Text → Option CrawledPage
  pub join : Text → Text → Option Text

pub data CrawlError : Type 0 where
  bad_url request_failed : Text → CrawlError

-- `seen` is in the order of insertion: the URLs that `client.get` was called with.
pub record CrawlState : Type 0 where
  pub seen : List Text
  pub pages : List CrawledPage
  pub errors : List CrawlError

abbrev pub is_seen : Text → List Text → Bool
is_seen url seen = any (text_eq url) seen

abbrev pub same_origin : NormalizedTargetUrl → NormalizedTargetUrl → Bool
same_origin a b = text_eq a.scheme b.scheme && text_eq a.host b.host && (a.port == b.port)

abbrev pub with_entry : Text × ℕ → Option (List (Text × ℕ)) → Option (List (Text × ℕ))
with_entry entry none = none
with_entry entry (some rest) = some (entry ∷ rest)

-- One link of a page, before the entries of the links after it: nothing, or an entry of the queue.
-- There is no result where the link raises.
abbrev pub link_entry :
    NormalizedTargetUrl
    → List Text
    → ℕ
    → Normalization
    → Option (List (Text × ℕ))
    → Option (List (Text × ℕ))
link_entry start seen depth unreadable rest = none
link_entry start seen depth refused rest = rest
link_entry start seen depth (normal link) rest =
    if same_origin link start && not (is_seen link.normalized_url seen)
    then with_entry (link.normalized_url, depth + 1) rest
    else rest

abbrev pub joined_entry :
    Web
    → NormalizedTargetUrl
    → List Text
    → ℕ
    → Option Text
    → Option (List (Text × ℕ))
    → Option (List (Text × ℕ))
joined_entry web start seen depth none rest = none
joined_entry web start seen depth (some absolute_url) rest =
    link_entry start seen depth (web.normalize absolute_url) rest

-- The links of a page, without a result where one of them raises.
unfoldable pub link_entries :
    Web → NormalizedTargetUrl → List Text → ℕ → Text → List Text → Option (List (Text × ℕ))
link_entries web start seen depth base [] = some []
link_entries web start seen depth base (link ∷ links) =
    joined_entry web start seen depth (web.join base link)
      (link_entries web start seen depth base links)

-- The queue grows only under the depth limit.
abbrev pub children :
    Web → NormalizedTargetUrl → List Text → ℕ → ℕ → CrawledPage → Option (List (Text × ℕ))
children web start seen max_depth depth page =
    if leb max_depth depth then some [] else link_entries web start seen depth page.url page.links

-- What one turn of the loop did: it moved on, fetched a page and extends the queue, or raised.
pub data Visit : Type 0 where
  moved_on : CrawlState → Visit
  fetched : CrawlState → List (Text × ℕ) → Visit
  aborted : CrawlState → Visit

abbrev pub fetched_page : CrawlState → Option (List (Text × ℕ)) → Visit
fetched_page s none = aborted s
fetched_page s (some entries) = fetched s entries

abbrev pub visit_page :
    Web → NormalizedTargetUrl → ℕ → ℕ → Text → CrawlState → Option CrawledPage → Visit
visit_page web start max_depth depth url s none =
    moved_on (record s { seen = s.seen ++ url ∷ []; errors = s.errors ++ request_failed url ∷ [] })
visit_page web start max_depth depth url s (some page) =
    fetched_page (record s { seen = s.seen ++ url ∷ []; pages = s.pages ++ page ∷ [] })
      (children web start (s.seen ++ url ∷ []) max_depth depth page)

abbrev pub visit_url : Web → NormalizedTargetUrl → ℕ → ℕ → Text → CrawlState → Normalization → Visit
visit_url web start max_depth depth raw_url s unreadable = aborted s
visit_url web start max_depth depth raw_url s refused =
    moved_on (record s { errors = s.errors ++ bad_url raw_url ∷ [] })
visit_url web start max_depth depth raw_url s (normal normalized) =
    if is_seen normalized.normalized_url s.seen
    then moved_on s
    else visit_page web start max_depth depth normalized.normalized_url s
        (web.get normalized.normalized_url)

unfoldable pub visit : Web → NormalizedTargetUrl → ℕ → Text → ℕ → CrawlState → Visit
visit web start max_depth raw_url depth s =
    visit_url web start max_depth depth raw_url s (web.normalize raw_url)

-- `crawl_site` returns its pages and errors, or an exception leaves it, and they are lost.
pub data Ending : Type 0 where
  returned raised : Ending

-- The loop, with the state in which it ends. The first number is `page_cap - len(pages)`: a turn that
-- fetches a page lowers it, and any other turn shortens the queue, so that the loop ends.
unfoldable pub crawl_loop :
    Web → NormalizedTargetUrl → ℕ → ℕ → List (Text × ℕ) → CrawlState → Ending × CrawlState
unfolding visit
crawl_loop web start max_depth zero queue s = (returned, s)
crawl_loop web start max_depth (suc left) [] s = (returned, s)
crawl_loop web start max_depth (suc left) ((raw_url, depth) ∷ queue) s =
    elim (visit web start max_depth raw_url depth s) [
      | moved_on s' ↦ crawl_loop web start max_depth (suc left) queue s'
      | fetched s' entries ↦ crawl_loop web start max_depth left (queue ++ entries) s'
      | aborted s' ↦ (raised, s')
    ]

abbrev pub initial_state : CrawlState
initial_state = record { seen = []; pages = []; errors = [] }

abbrev pub crawl_from : Web → Text → ℕ → ℕ → Normalization → Option (Ending × CrawlState)
crawl_from web start_url max_depth page_cap refused = none
crawl_from web start_url max_depth page_cap unreadable = none
crawl_from web start_url max_depth page_cap (normal start) =
    some (crawl_loop web start max_depth page_cap ((start_url, 0) ∷ []) initial_state)

-- No result where the start URL is refused.
unfoldable pub crawl_site : Web → Text → ℕ → ℕ → Option (Ending × CrawlState)
unfolding crawl_loop
crawl_site web start_url max_depth page_cap =
    crawl_from web start_url max_depth page_cap (web.normalize start_url)
