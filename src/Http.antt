-- ===== src/Http.antt =====
-- The scanner's HTTP client: backend/app/scanner/http_client.py and cookies.py.
pub mod Body
pub mod Cookies
pub mod Client
pub mod Connections
pub mod ClientLaws
mod Examples
