-- ===== src/Lib.antt =====
-- A model of the scan platform's core (Python, backend/).
--
-- Parts and files
--   Contracts, Findings: the enumerations, the scan profiles of shared/contracts.json and the records
--     that pass between the parts (backend/app/core/contracts.py, backend/app/findings/schemas.py).
--     `Findings.Utf8` is the encoding and `truncate_utf8` (backend/app/findings/redaction.py); the fuel
--     of its loop is the four bytes that a character has at most.
--   Scans: the life of a scan, backend/app/scans/lifecycle.py, with `cancel_scan` of
--     backend/app/api/scans.py and the monitor's checkpoint of backend/worker/main.py. `Scans.Scan` is
--     the row (`Scan` of backend/app/models.py), `Scans.Lease`, `Scans.Control` and `Scans.Progress`
--     are what each operation writes to it, `Scans.Events` is what other processes do to it between
--     two reads of a job, `Scans.World` and `Scans.Steps` are the operations of a running job with
--     their locks and refreshes, `Scans.JobParts` and `Scans.RepoJob` the jobs.
--     `Scans.WebAuthority` and `Scans.WebJob` are the web job and what authorizes it.
--   Security: paths and their scope, and the target policies (backend/app/security/allowlist.py).
--     `Security.Ssrf` is the guard of backend/app/security/ssrf.py; an address is its number.
--     `Security.Redirects` is the check of a redirect chain in backend/app/security/redirects.py, with a
--     resolver that may answer otherwise at each hop.
--     `Security.Matching` is the match of a normalised URL (backend/app/security/target_url.py).
--   Relay: capabilities and the replay guard (backend/app/scanner/relay_capability.py), and
--     the bodies that pass through it (backend/app/scanner/relay_protocol.py).
--   Management: states of findings and suppression rules (backend/app/finding_management.py); the
--     tables are lists, and a finding's tool is in lower case.
--   RateLimits: the window counter (backend/app/ops/rate_limits.py). An entry carries the time at which
--     its transaction started, the cutoff is taken from a later clock, and the entry of an allowed
--     request is kept only if the handler commits.
--   Crawler: the crawl loop (backend/app/scanner/crawler.py). Its first number is the pages that are
--     left under the cap, so that it needs no fuel. A link that `urljoin` or `urlsplit` refuses raises.
--   Http: the guarded client (backend/app/scanner/http_client.py), with the cookie attributes of
--     backend/app/scanner/cookies.py. The web's answer to a request may depend on all requests before.
--   Staging: the copy of a repository (backend/app/repo_scanner/staging.py). A source is a tree of
--     entries; the fuel of the loop is the number of directories that are not below a link or a
--     skipped directory, each of which is visited once.
--   RepoPaths: the checks of a repository's path (backend/app/repo_scanner/paths.py), with the file system
--     as a record of what it says of a path.
--   Launch: `create_scan` of backend/app/api/scans.py, from the rows that it locks to the row that it
--     writes, which the job of `Scans` then validates. Other transactions may change a target
--     between its first read and its lock.
--   Pagination: cursors and pages (backend/app/api/pagination.py), with the query of `list_scans` of
--     backend/app/api/scans.py. Base64, JSON and the collation of ids are records with their laws.
--   Json: the objects that cursors and capabilities are written as and read from by the names of
--     their fields; `Json.Prefixed` is one writer and reader that keep the law.
--   Risk: the deduplication of findings and their score (backend/app/risk.py). Texts are compared by
--     code points, a dict is the list of its items, and weights are counted in halves, which floats
--     hold exactly. `Risk.Storage` stores a score while other transactions commit theirs, under the
--     constraints of the table.
--   Prelude: Boolean tests, lists, and the result type of fallible code.
--
-- How the state is modelled
--   The scan row, the clock and the rest of the database are a record that each operation of a job
--   passes on. A `db.refresh` or a row lock is the point where other processes act: a job takes the
--   next list of events (time passes, a user cancels, a lease is renewed, stale leases are recovered,
--   another worker claims) from a schedule, which the theorems quantify over. Inside a transaction
--   the clock stands. A raised exception is the `err` of a result, and writes before it stay.
--   Times are seconds, a natural number each.
--   Scanning tools and the modules that a job only calls are given by their outcome, and by how often
--   they call the job's checkpoint, under a handler that swallows its exception or not.
--   Status messages and audit events are left out: no operation reads them. A claim and a recovery
--   act on the one row of the model.
--   Paths are lists of bytes, and `unquote` gives the bytes that UTF-8 decoding then reads.
--   Base64, HMAC, SHA-256 and JSON are a record of functions, and the digest of a policy is a function:
--   the round trips of capabilities and bodies take their documented laws as hypotheses. A policy's base URL is
--   kept as its parts. The crawler's client, URL normalisation and joining are an interface; the list
--   of seen URLs is the list of its requests.
--
-- Not modelled: the HTTP layer and its schemas, reports, explanations, the dashboard, the daemon's
-- client, the client's side of the relay, the parsing of pages, the repository tools, migrations and
-- start-up, which are input and output.
pub mod Contracts
pub mod Crawler
pub mod Findings
pub mod Http
pub mod Json
pub mod Launch
pub mod Management
pub mod Pagination
pub mod Prelude
pub mod RateLimits
pub mod Relay
pub mod RepoPaths
pub mod Risk
pub mod Scans
pub mod Security
pub mod Staging
