-- ===== src/Crawler/Examples.antt =====
-- A site of two pages that link to each other and to another host.
use web_security_audit_platf.Prelude.{ℕ, ◌≡◌, refl, none, some, [], ◌∷◌, All, if◌then◌else◌}
use web_security_audit_platf.Security.Paths.{Text, text_eq}
use web_security_audit_platf.Crawler.{
  NormalizedTargetUrl, normal, Web, returned, raised, CrawlState, crawl_loop, visit, link_entries,
  crawl_site,
}
use web_security_audit_platf.Crawler.Origin.{IsInScope, crawl_site-IsInScope}

abbrev home : Text
home = b'h' ∷ []

abbrev about : Text
about = b'a' ∷ []

abbrev elsewhere : Text
elsewhere = b'e' ∷ []

abbrev site : Text → ℕ → NormalizedTargetUrl
site url port = record { normalized_url = url; scheme = b'h' ∷ []; host = b's' ∷ []; port = port }

abbrev web : Web
web = record {
  normalize = λ url. if text_eq url elsewhere then normal (site url 8080) else normal (site url 80);
  get = λ url. some (record { url = url; links = home ∷ about ∷ elsewhere ∷ [] });
  join = λ base link. some link;
}

abbrev unreadable_link : Text
unreadable_link = b'[' ∷ []

-- A site whose page has a link that cannot be joined, as `http://[`.
abbrev broken_web : Web
broken_web = record web {
  get = λ url. some (record { url = url; links = about ∷ unreadable_link ∷ [] });
  join = λ base link. if text_eq link unreadable_link then none else some link;
}

two_pages :
    (s : CrawlState) × (crawl_site web home 2 10 ≡ some (returned, s))
    × (s.seen ≡ home ∷ about ∷ [])
unfolding crawl_site crawl_loop visit link_entries
two_pages = (_, refl, refl)

broken_page :
    (s : CrawlState) × (crawl_site broken_web home 2 10 ≡ some (raised, s)) × (s.seen ≡ home ∷ [])
unfolding crawl_site crawl_loop visit link_entries
broken_page = (_, refl, refl)

crawl_site-IsInScope_example : All (IsInScope web home (site home 80)) two_pages.0.seen
crawl_site-IsInScope_example =
    crawl_site-IsInScope web home 2 10 (site home 80) returned two_pages.0 refl two_pages.1
