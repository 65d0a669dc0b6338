-- ===== src/Requestflow.antt =====
-- internal/requestflow: the request workflow.
pub mod Request
pub mod Estimate
pub mod Failures
pub mod Effects
pub mod Capabilities
pub mod Candidates
pub mod Attempt
pub mod Chat
pub mod Prepare
pub mod Capacity
pub mod Recovery
mod Tests
