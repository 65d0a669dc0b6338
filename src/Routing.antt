-- ===== src/Routing.antt =====
-- internal/routing: which candidate credential serves an attempt.
pub mod Types
pub mod Eligibility
pub mod Router
mod Tests
