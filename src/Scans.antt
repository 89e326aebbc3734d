-- ===== src/Scans.antt =====
-- The life of a scan: backend/app/scans/lifecycle.py, and the cancel endpoint of
-- backend/app/api/scans.py.
pub mod Scan
pub mod Lease
pub mod Progress
pub mod Control
pub mod Events
pub mod Invariant
pub mod World
pub mod Steps
pub mod Validation
pub mod RepoJob
pub mod JobParts
pub mod Triples
pub mod Kept
pub mod JobKept
pub mod RepoKept
pub mod Ownership
pub mod Release
pub mod Foreign
pub mod ReleaseParts
pub mod ReleaseRecords
pub mod RepoRelease
pub mod Fencing
pub mod JobInvariant
pub mod RowSteps
pub mod ValidationLaws
mod Examples
pub mod WebAuthority
pub mod WebJob
pub mod WebKept
pub mod WebForeign
pub mod WebRelease
pub mod WebFencing
pub mod WebLaws
mod WebExamples
