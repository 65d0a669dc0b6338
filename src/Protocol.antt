-- ===== src/Protocol.antt =====
-- internal/protocol: what the gateway writes to its clients.
pub mod Present
pub mod Lines
pub mod RoundTrip
mod Tests
