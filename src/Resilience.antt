-- ===== src/Resilience.antt =====
-- internal/resilience: the retry policy, its backoff, and the circuit breaker.
pub mod Errors
pub mod Backoff
pub mod Circuit
pub mod Retry
mod Tests
