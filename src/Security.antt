-- ===== src/Security.antt =====
-- The scan scope: backend/app/security/.
pub mod Paths
pub mod PathLaws
pub mod Scope
mod Examples
pub mod Policy
pub mod PolicyLaws
pub mod Ssrf
pub mod SsrfLaws
mod SsrfExamples
pub mod Matching
pub mod Nesting
pub mod MatchingLaws
pub mod Redirects
