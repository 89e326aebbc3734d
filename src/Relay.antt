-- ===== src/Relay.antt =====
-- The scanner relay's capabilities: backend/app/scanner/relay_capability.py.
pub mod Capability
pub mod Replay
pub mod Protocol
pub mod RoundTrip
mod Examples
mod ProtocolExamples
