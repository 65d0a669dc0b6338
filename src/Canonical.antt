-- ===== src/Canonical.antt =====
-- internal/canonical: the decoder of the upstream's event stream.
pub mod Sse
mod Tests
